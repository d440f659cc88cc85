-- ===== src/Services/Mongo.antt =====
-- The calls of the MongoDB driver. A query document is a test on documents, an update document a
-- function on them. Calls that are lost (no connection) are not modelled.
pub mod Laws
use zkp_rollup.Base.{
  ℕ, ◌≤◌, ◌≡◌, ◌≢◌, Bool, List, [], ◌∷◌, ◌++◌, Option, length, take, first, filter, All, map,
  if◌then◌else◌,
}

pub record Mongo : Type 1 where
  -- a collection of documents, and its documents in their natural order
  pub Collection : Type 0 → Type 0
  pub documents : {D : Type 0} → Collection D → List D
  pub find_one : {D : Type 0} → (D → Bool) → Collection D → Option D
  pub find : {D : Type 0} → (D → Bool) → Collection D → List D
  pub insert_one : {D : Type 0} → D → Collection D → Collection D
  pub insert_many : {D : Type 0} → List D → Collection D → Collection D
  pub update_one : {D : Type 0} → (D → Bool) → (D → D) → Collection D → Collection D
  pub update_many : {D : Type 0} → (D → Bool) → (D → D) → Collection D → Collection D
  -- a cursor's `.sort(field, DESCENDING)` and `.limit(n)`
  pub sort_descending : {D : Type 0} → (D → ℕ) → List D → List D
  pub limit : {D : Type 0} → ℕ → List D → List D

-- The update of the first document that passes.
abbrev pub update_first {ℓ} : {D : Type ℓ} → (D → Bool) → (D → D) → List D → List D
update_first p f [] = []
update_first p f (d ∷ ds) = let rest = update_first p f ds in if p d then f d ∷ ds else d ∷ rest

abbrev pub IsDescending {ℓ} : {D : Type ℓ} → (D → ℕ) → List D → Type 0
IsDescending key [] = Unit
IsDescending key (d ∷ ds) = All (λ e. key e ≤ key d) ds × IsDescending key ds

pub record IsMongo (m : Mongo) : Type 1 where
  pub find_one_first :
      {D : Type 0} (p : D → Bool) (c : m.Collection D) → m.find_one p c ≡ first p (m.documents c)
  pub find_filter :
      {D : Type 0} (p : D → Bool) (c : m.Collection D) → m.find p c ≡ filter p (m.documents c)
  pub documents-insert_one :
      {D : Type 0} (d : D) (c : m.Collection D)
      → m.documents (m.insert_one d c) ≡ m.documents c ++ d ∷ []
  pub documents-insert_many :
      {D : Type 0} (ds : List D) (c : m.Collection D)
      → m.documents (m.insert_many ds c) ≡ m.documents c ++ ds
  pub documents-update_one :
      {D : Type 0} (p : D → Bool) (f : D → D) (c : m.Collection D)
      → m.documents (m.update_one p f c) ≡ update_first p f (m.documents c)
  pub documents-update_many :
      {D : Type 0} (p : D → Bool) (f : D → D) (c : m.Collection D)
      → m.documents (m.update_many p f c) ≡ map (λ d. if p d then f d else d) (m.documents c)
  -- sorting reorders: as many documents pass any test as before
  pub sort_same :
      {D : Type 0} (key : D → ℕ) (p : D → Bool) (ds : List D)
      → length (filter p (m.sort_descending key ds)) ≡ length (filter p ds)
  pub sort_ordered :
      {D : Type 0} (key : D → ℕ) (ds : List D) → IsDescending key (m.sort_descending key ds)
  pub sort_one : {D : Type 0} (key : D → ℕ) (d : D) → m.sort_descending key (d ∷ []) ≡ d ∷ []
  -- a limit of 0 is no limit
  pub limit_zero : {D : Type 0} (ds : List D) → m.limit 0 ds ≡ ds
  pub limit_take : {D : Type 0} (n : ℕ) (ds : List D) → n ≢ 0 → m.limit n ds ≡ take n ds
