-- ===== src/Server/Interleaved/Waiting.antt =====
-- The stored transactions that involve an account: those that wait, and those that a batch was made of.
use zkp_rollup.Base.{
  ◌≤◌, ◌≡◌, ◌∙◌, refl, ap, String, Bool, true, false, not, ◌&&◌, ◌||◌, ◌==◌, string_eq, option_eq,
  beq_self, beq_eq, List, [], ◌∷◌, map, All, Option, leb, arith, Bool-cases, inl, inr,
  if◌then◌else◌,
}
use zkp_rollup.Base.Count.{count, count_here, count_later, count_more}
use zkp_rollup.Base.Filter.{All-map, All-map2}
use zkp_rollup.Python.Bytes.{Bytes}
use zkp_rollup.Types.{Transaction, status_eq}
use zkp_rollup.MemPool.{is_pending, contains, has_id_in, ids_of, include}
use zkp_rollup.MemPool.Batch.{included_ne_pending}
use zkp_rollup.Block.Untouched.{spares}
use zkp_rollup.Server.Interleaved.History.{IsKept, IsGrown}

module _ (key : Bytes) where
  -- A stored transaction that does not involve the account with these bytes as address, or waits.
  abbrev pub leaves_alone : Transaction → Bool
  leaves_alone t = spares key t || is_pending t

  abbrev pub AllLeave : List Transaction → Type 0
  AllLeave ts = All (λ t. leaves_alone t ≡ true) ts

  abbrev pub AllSpare : List Transaction → Type 0
  AllSpare ts = All (λ t. spares key t ≡ true) ts

  -- A transaction that involves the account and has the identifier of another.
  abbrev pub is_twin : Transaction → Transaction → Bool
  is_twin t u = not (spares key u) && (u.transaction_id == t.transaction_id)

  -- A transaction of a batch that involves the account is among the stored ones.
  abbrev pub has_twin : List Transaction → Transaction → Bool
  has_twin stored t = spares key t || leb 1 (count (is_twin t) stored)

  abbrev pub AllTwins : List Transaction → List Transaction → Type 0
  AllTwins stored ts = All (λ t. has_twin stored t ≡ true) ts

  -- What was pending, or spared the account, is so of any later state that is so.
  kept-leaves_alone :
      {t u : Transaction} → IsKept t u → leaves_alone u ≡ true → leaves_alone t ≡ true
  kept-leaves_alone {t} {u} kept h =
      let same : spares key u ≡ spares key t = ap (spares key) kept.same in
      ground (arith, same, kept.not_again, h)

  pub AllLeave-before : (ts us : List Transaction) → IsGrown ts us → AllLeave us → AllLeave ts
  AllLeave-before [] us grown all = tt
  AllLeave-before (t ∷ ts) [] grown all = absurd grown
  AllLeave-before (t ∷ ts) (u ∷ us) (kept, grown) (one, all) =
      (kept-leaves_alone kept one, AllLeave-before ts us grown all)

  twins-grow :
      (x : Transaction) (ts us : List Transaction)
      → IsGrown ts us
      → count (is_twin x) ts ≤ count (is_twin x) us
  twins-grow x [] us grown = omega arith
  twins-grow x (t ∷ ts) [] grown = absurd grown
  twins-grow x (t ∷ ts) (u ∷ us) (kept, grown) =
      let same : is_twin x u ≡ is_twin x t = ap (is_twin x) kept.same in
      ground (arith, same, twins-grow x ts us grown)

  has_twin-more :
      (t : Transaction) (xs ys : List Transaction)
      → count (is_twin t) xs ≤ count (is_twin t) ys
      → has_twin xs t ≡ true
      → has_twin ys t ≡ true
  has_twin-more t xs ys h e = ground (arith, h, e)

  own_twin : (t : Transaction) (ts : List Transaction) → has_twin (t ∷ ts) t ≡ true
  own_twin t ts = elim (Bool-cases (spares key t)) [
    | inl e ↦ rw e
    | inr e ↦
        let same = beq_self t.transaction_id in
        let here = count_here (is_twin t) t ts (ground (arith, e, same)) in ground (arith, here)
  ]

  pub all_twins : (ts : List Transaction) → AllTwins ts ts
  all_twins [] = tt
  all_twins (t ∷ ts) = (
    own_twin t ts,
    All-map (λ u. has_twin ts u ≡ true)
        (λ u. has_twin-more u ts (t ∷ ts) (count_more (is_twin u) t ts)) ts (all_twins ts),
  )

  pub AllTwins-grow :
      (batch ts us : List Transaction) → IsGrown ts us → AllTwins ts batch → AllTwins us batch
  AllTwins-grow batch ts us grown all =
      All-map (λ t. has_twin ts t ≡ true) (λ t. has_twin-more t ts us (twins-grow t ts us grown))
        batch all

  -- What is stored with an identifier of the batch waits no more once the batch is marked.
  not_twin :
      (ids : List (Option String)) (t u : Transaction)
      → contains ids t.transaction_id ≡ true
      → leaves_alone (if has_id_in ids u then include u else u) ≡ true
      → is_twin t u ≡ false
  not_twin ids t u held one = elim (Bool-cases (u.transaction_id == t.transaction_id)) [
    | inr e ↦ ground (arith, e)
    | inl e ↦
        let same : contains ids u.transaction_id ≡ true =
          ap (contains ids) (beq_eq u.transaction_id t.transaction_id e) ∙ held in
        let left : leaves_alone (include u) ≡ true = rw same at one in
        let spared : spares key u ≡ true = ground (arith, left, included_ne_pending) in rw spared
  ]

  no_twin :
      (ids : List (Option String)) (t : Transaction) (stored : List Transaction)
      → contains ids t.transaction_id ≡ true
      → AllLeave (map (λ u. if has_id_in ids u then include u else u) stored)
      → count (is_twin t) stored ≡ 0
  no_twin ids t [] held all = refl
  no_twin ids t (u ∷ stored) held (one, all) =
      count_later (is_twin t) u stored (not_twin ids t u held one) ∙ no_twin ids t stored held all

  pub marked_spares :
      (ids : List (Option String)) (stored batch : List Transaction)
      → AllLeave (map (λ u. if has_id_in ids u then include u else u) stored)
      → All (λ t. contains ids t.transaction_id ≡ true) batch
      → AllTwins stored batch
      → AllSpare batch
  marked_spares ids stored batch all held twins =
      All-map2 {R = λ t. spares key t ≡ true}
        (λ t h twin.
          let zero_twins = no_twin ids t stored h all in ground (arith, zero_twins, twin))
        batch held twins

pub own_ids-contained :
    (ts : List Transaction) → All (λ t. contains (ids_of ts) t.transaction_id ≡ true) ts
own_ids-contained [] = tt
own_ids-contained (t ∷ ts) = (
  rw (beq_self t.transaction_id),
  All-map (λ u. contains (ids_of ts) u.transaction_id ≡ true) (λ u h. ground (arith, h)) ts
      (own_ids-contained ts),
)
