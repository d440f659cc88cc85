-- ===== src/Block/Once.antt =====
-- How often an identifier stands in the blocks and among the pending transactions.
pub mod Round
use zkp_rollup.Base.{
  ℕ, zero, suc, ◌+◌, ◌≤◌, ◌≡◌, ◌≢◌, ◌∙◌, refl, ap, sym, String, Bool, true, false, not, ◌&&◌, ◌||◌,
  ◌==◌, beq_ne, beq_comm, option_eq, string_eq, List, [], ◌∷◌, ◌++◌, map, Option, none, some, take,
  filter, Bool-cases, Option-cases, inl, inr, arith, if◌then◌else◌,
}
use zkp_rollup.Base.Count.{
  count, count-append, count-take-le, count-filter, count_imp-le, count_none, count-map,
}
use mathlib.Core.Option.{none-ne-some, some-injective}
use zkp_rollup.Types.{
  Transaction, TransactionBadge, BadgeExecutionCause, pending, included, status_eq,
}
use zkp_rollup.Services.{Services, IsServices}
use zkp_rollup.Services.Mongo.{update_first}
use zkp_rollup.State.{World}
use zkp_rollup.MemPool.{
  is_pending, is_due, later_than, has_id_in, include, contains, ids_of, due,
  get_transaction_for_badge,
}
use zkp_rollup.MerkleTree.{checked_texts}
use zkp_rollup.Block.{fail, by_transaction_id, survivors}

-- Whether a transaction has an identifier, and whether it waits for a block with it.
abbrev pub has_id : String → Transaction → Bool
has_id id t = t.transaction_id == some id

abbrev pub waits : String → Transaction → Bool
waits id t = is_pending t && has_id id t

-- How often an identifier stands in the blocks.
abbrev pub recorded : String → List TransactionBadge → ℕ
recorded id [] = 0
recorded id (badge ∷ badges) = count (λ i. i == id) badge.transactions + recorded id badges

pub recorded-append :
    (id : String) (xs ys : List TransactionBadge)
    → recorded id (xs ++ ys) ≡ recorded id xs + recorded id ys
recorded-append id [] ys = omega arith
recorded-append id (x ∷ xs) ys = omega (arith, recorded-append id xs ys)

some_beq : (a b : String) → (some a == some b) ≡ (a == b)
some_beq a b = ground arith

checked_texts-same :
    (id : String) (ids : List (Option String)) (texts : List String)
    → checked_texts ids ≡ some texts
    → count (λ i. i == id) texts ≡ count (λ i. i == some id) ids
unfolding checked_texts
checked_texts-same id [] texts h = rw (sym (some-injective [] texts h))
checked_texts-same id (none ∷ ids) texts h = absurd (none-ne-some texts h)
checked_texts-same id (some own ∷ ids) texts h = elim (Option-cases (checked_texts ids)) [
  | inl e ↦ absurd (none-ne-some texts (rw e at h))
  | inr (rest, e) ↦
      let same : own ∷ rest ≡ texts = some-injective (own ∷ rest) texts (rw e at h) in
      rw (sym same) (rw (some_beq own id) (ground (arith, checked_texts-same id ids rest e)))
]

has_id-ids_of :
    (id : String) (ts : List Transaction)
    → count (λ i. i == some id) (ids_of ts) ≡ count (has_id id) ts
has_id-ids_of id ts = count-map (λ i. i == some id) (λ t. t.transaction_id) ts

-- The texts of a block stand there as often as among the transactions it was made from.
pub checked_texts-count :
    (id : String) (ts : List Transaction) (texts : List String)
    → checked_texts (ids_of ts) ≡ some texts
    → count (λ i. i == id) texts ≡ count (has_id id) ts
checked_texts-count id ts texts h = checked_texts-same id (ids_of ts) texts h ∙ has_id-ids_of id ts

absent :
    (id : Option String) (ids : List (Option String))
    → contains ids id ≡ false
    → count (λ i. i == id) ids ≡ 0
absent id [] h = refl
absent id (i ∷ ids) h = elim (Bool-cases (id == i)) [
  | inl e ↦ cc
  | inr e ↦ rw (beq_comm i id, e) (absent id ids (rw e at h))
]

-- An identifier that is not among the batch's stands in no transaction of the batch.
pub absent-count :
    (id : String) (ts : List Transaction)
    → contains (ids_of ts) (some id) ≡ false
    → count (has_id id) ts ≡ 0
absent-count id ts h = sym (has_id-ids_of id ts) ∙ absent (some id) (ids_of ts) h
