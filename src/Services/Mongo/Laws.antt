-- ===== src/Services/Mongo/Laws.antt =====
-- What a sorted and limited cursor yields, and what a bulk update leaves.
use zkp_rollup.Base.{
  ℕ, zero, suc, ◌≤◌, ◌≡◌, ◌∙◌, Bool, true, not, List, [], ◌∷◌, take, drop, All, Bool-cases, inl,
  inr,
}
use zkp_rollup.Base.Filter.{All-take, All-drop, All-of_none, None-filter, None-filter_imp}
use zkp_rollup.Services.Mongo.{Mongo, IsMongo, IsDescending, update_first}

module _ {ℓ} {D : Type ℓ} (key : D → ℕ) where
  pub IsDescending-take : (n : ℕ) (ds : List D) → IsDescending key ds → IsDescending key (take n ds)
  IsDescending-take zero ds h = tt
  IsDescending-take (suc n) [] h = tt
  IsDescending-take (suc n) (d ∷ ds) h =
      (All-take (λ e. key e ≤ key d) n ds h.0, IsDescending-take n ds h.1)

  -- What is taken from the front is no less than what is left.
  pub take-ge-drop :
      (n : ℕ) (ds : List D)
      → IsDescending key ds
      → All (λ d. All (λ e. key e ≤ key d) (drop n ds)) (take n ds)
  take-ge-drop zero ds h = tt
  take-ge-drop (suc n) [] h = tt
  take-ge-drop (suc n) (d ∷ ds) h = (All-drop (λ e. key e ≤ key d) n ds h.0, take-ge-drop n ds h.1)

module _ (m : Mongo) (lawful : IsMongo m) {D : Type 0} (key : D → ℕ) (p : D → Bool)
    (c : m.Collection D) where
  -- What the query implies of each document, it implies of the whole cursor.
  pub sorted-All_imp :
      (q : D → Bool)
      → All (λ d. p d ≡ true → q d ≡ true) (m.documents c)
      → All (λ d. q d ≡ true) (m.sort_descending key (m.find p c))
  sorted-All_imp q h = All-of_none q (m.sort_descending key (m.find p c)) (
      lawful.sort_same key (λ d. not (q d)) (m.find p c)
      ∙ rw lawful.find_filter (None-filter_imp p q (m.documents c) h))

  -- The whole cursor passes the query.
  pub sorted-All : All (λ d. p d ≡ true) (m.sort_descending key (m.find p c))
  sorted-All = All-of_none p (m.sort_descending key (m.find p c)) (
      lawful.sort_same key (λ d. not (p d)) (m.find p c)
      ∙ rw lawful.find_filter (None-filter p (m.documents c)))

-- An update of the first document that passes a test keeps what holds of every document.
pub All-update_first {ℓ κ} :
    {D : Type ℓ} (P : D → Type κ) (p : D → Bool) (f : D → D)
    → ((d : D) → P d → P (f d))
    → (ds : List D) → All P ds
    → All P (update_first p f ds)
All-update_first P p f h [] all = tt
All-update_first P p f h (d ∷ ds) (one, all) = elim (Bool-cases (p d)) [
  | inl e ↦ rw e (h d one, all)
  | inr e ↦ rw e (one, All-update_first P p f h ds all)
]
