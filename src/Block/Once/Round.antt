-- ===== src/Block/Once/Round.antt =====
-- A round of the consumer moves identifiers from the pending transactions to the blocks.
use zkp_rollup.Base.{
  ℕ, zero, suc, ◌+◌, ◌≤◌, ◌≡◌, ◌∙◌, refl, ap, String, Bool, true, false, not, ◌&&◌, ◌==◌, beq_ne,
  beq_eq, option_eq, string_eq, List, [], ◌∷◌, ◌++◌, map, Option, some, Bool-cases, inl, inr, arith,
  ℕ_eq,
}
use zkp_rollup.Base.Count.{count, count-take-le, count-filter, count_imp-le, count_none, count-map}
use zkp_rollup.Python.Result.{Result, ok, raised}
use zkp_rollup.Types.{
  Transaction, BadgeExecutionCause, timedout, filledup, pending, TransactionStatus, status_eq,
}
use zkp_rollup.Services.{Services, IsServices}
use zkp_rollup.Services.Mongo.{update_first}
use zkp_rollup.State.{World}
use zkp_rollup.MemPool.{is_due, contains, ids_of, due, get_transaction_for_badge}
use zkp_rollup.MemPool.Batch.{after_batch, documents-after, received, included_ne_pending}
use zkp_rollup.Block.{
  fail, by_transaction_id, survivors, transactions_for_cause, apply_to, apply_transaction,
  note_failure, update_from, finish_block, insert_new_badge, form_new_L2_block,
}
use zkp_rollup.Block.Form.{
  Round, nothing, block, bound_of, batch_of, drawn, applied, delta, form-eq,
  form_new_L2_block-Round,
}
use zkp_rollup.Block.Frame.{apply_to-Frames}
use zkp_rollup.Block.Once.{
  has_id, waits, recorded, recorded-append, checked_texts-count, absent-count,
}

-- A batch that holds an identifier leaves no pending transaction with it.
taken :
    (id : String) (ids : List (Option String)) (t : Transaction)
    → contains ids (some id) ≡ true
    → waits id (after_batch ids t) ≡ false
taken id ids t held = elim (Bool-cases (contains ids t.transaction_id)) [
  | inl e ↦ rw (e, included_ne_pending)
  | inr e ↦ elim (Bool-cases (t.transaction_id == some id)) [
    | inl same ↦
        let own = beq_eq t.transaction_id (some id) same in cc (held, e, ap (contains ids) own)
    | inr other ↦ ground (arith, e, other)
  ]
]

kept :
    (id : String) (ids : List (Option String)) (t : Transaction)
    → waits id (after_batch ids t) ≡ true
    → waits id t ≡ true
kept id ids t h = elim (Bool-cases (contains ids t.transaction_id)) [
  | inl e ↦ let bad : false ≡ true = rw (e, included_ne_pending) at h in cc
  | inr e ↦ rw e at h
]

due_waits :
    (id : String) (bound : Option ℕ) (t : Transaction)
    → (is_due bound t && has_id id t) ≡ true
    → waits id t ≡ true
due_waits id bound t h = ground arith

count-update_first-le :
    {D : Type 0} (p q : D → Bool) (f : D → D)
    → ((d : D) → p (f d) ≡ true → p d ≡ true)
    → (ds : List D) → count p (update_first q f ds) ≤ count p ds
count-update_first-le p q f h [] = omega arith
count-update_first-le p q f h (d ∷ ds) = elim (Bool-cases (p (f d))) [
  | inl e ↦ ground (arith, e, h d e, count-update_first-le p q f h ds)
  | inr e ↦ ground (arith, e, count-update_first-le p q f h ds)
]

pub failed_ne_pending : (some TransactionStatus.failed == some pending) ≡ false
failed_ne_pending = beq_ne (some TransactionStatus.failed) (some pending) (λ e. cc)

fail-waits : (id : String) (t : Transaction) → waits id (fail t) ≡ true → waits id t ≡ true
fail-waits id t h = let bad : false ≡ true = rw failed_ne_pending at h in cc

module _ (v : Services) where
  -- How many pending transactions have an identifier.
  abbrev pub waiting : String → World v → ℕ
  waiting id w = count (waits id) (v.mongo.documents w.transactions)

  -- How often an identifier is used: in the blocks and among the pending transactions.
  abbrev pub uses : String → World v → ℕ
  uses id w = recorded id (v.mongo.documents w.badges) + waiting id w

  pub finish_block-transactions :
      (cause : BadgeExecutionCause) (badge_id : String) (timestamp : ℕ)
      (batch delta : List Transaction) (s : World v)
      → (finish_block v cause badge_id timestamp batch delta s).1.transactions ≡ s.transactions
  unfolding finish_block insert_new_badge
  finish_block-transactions cause badge_id timestamp batch delta s = ground arith

  module _ (lawful : IsServices v) (id : String) where
    limit-count :
        (p : Transaction → Bool) (n : ℕ) (ds : List Transaction)
        → count p (v.mongo.limit n ds) ≤ count p ds
    limit-count p zero ds = rw lawful.mongo.limit_zero (omega arith)
    limit-count p (suc n) ds =
        rw (lawful.mongo.limit_take (suc n) ds (λ e. absurd (omega (arith, e))))
          (count-take-le p (suc n) ds)

    pub due-count :
        (bound : Option ℕ) (w : World v) → count (has_id id) (due v bound w) ≤ waiting id w
    due-count bound w =
        let found = v.mongo.find (is_due bound) w.transactions in
        let docs = v.mongo.documents w.transactions in
        let sorted : count (has_id id) (v.mongo.sort_descending received found)
            ≡ count (λ t. is_due bound t && has_id id t) docs =
          lawful.mongo.sort_same received (has_id id) found
          ∙ rw lawful.mongo.find_filter (count-filter (has_id id) (is_due bound) docs) in
        omega (
          arith,
          limit-count (has_id id) v.badge_size (v.mongo.sort_descending received found),
          sorted,
          count_imp-le (λ t. is_due bound t && has_id id t) (waits id) (due_waits id bound) docs,
        )

    -- Marking a batch whose transactions wait takes them from those that wait.
    pub marked-waiting :
        (batch : List Transaction) (w : World v)
        → count (has_id id) batch ≤ waiting id w
        → count (waits id) (map (after_batch (ids_of batch)) (v.mongo.documents w.transactions))
            + count (has_id id) batch
          ≤ waiting id w
    marked-waiting batch w small =
        let docs = v.mongo.documents w.transactions in
        let ids = ids_of batch in
        let moved = count-map (waits id) (after_batch ids) docs in
        elim (Bool-cases (contains ids (some id))) [
          | inl held ↦ omega (
            arith,
            moved,
            small,
            count_none (λ t. waits id (after_batch ids t)) (λ t. taken id ids t held) docs,
          )
          | inr out ↦ omega (
            arith,
            moved,
            absent-count id batch out,
            count_imp-le (λ t. waits id (after_batch ids t)) (waits id) (kept id ids) docs,
          )
        ]

    draw-waiting :
        (bound : Option ℕ) (w : World v)
        → waiting id (get_transaction_for_badge v bound w).1 + count (has_id id) (due v bound w)
          ≤ waiting id w
    draw-waiting bound w =
        rw (documents-after v lawful w bound) (marked-waiting (due v bound w) w (due-count bound w))

    note_failure-waiting :
        (marks : List (Option String)) (t : Transaction) (r : Result (Unit {0})) (s : World v)
        → waiting id (note_failure v marks t (r, s)).1 ≤ waiting id s
    unfolding note_failure
    note_failure-waiting marks t (ok done) s = omega arith
    note_failure-waiting marks t (raised e) s = rw lawful.mongo.documents-update_one (
        count-update_first-le (waits id) (by_transaction_id t.transaction_id) fail (fail-waits id)
          (v.mongo.documents s.transactions))

    pub update_from-waiting :
        (badge_id : String) (marks : List (Option String)) (ts : List Transaction) (w : World v)
        → waiting id (update_from v badge_id marks ts w).1 ≤ waiting id w
    unfolding update_from apply_transaction
    update_from-waiting badge_id marks [] w = omega arith
    update_from-waiting badge_id marks (t ∷ ts) w =
        let (r, s) = apply_to v badge_id t t.receiver w in
        let (marks', s') = note_failure v marks t (r, s) in
        let same : waiting id s ≡ waiting id w =
          ap (λ c. count (waits id) (v.mongo.documents c))
            (apply_to-Frames v badge_id t t.receiver w).transactions in
        omega
          (arith, same, note_failure-waiting marks t r s, update_from-waiting badge_id marks' ts s')

    pub survivors-count :
        (marks : List (Option String)) (ts : List Transaction)
        → count (has_id id) (survivors marks ts) ≤ count (has_id id) ts
    survivors-count marks ts =
        let lives = λ (t : Transaction). not (contains marks t.transaction_id) in
        rw (count-filter (has_id id) lives ts)
          (count_imp-le (λ t. lives t && has_id id t) (has_id id) (λ t h. ground arith) ts)

    pub Round-recorded :
        (w new : World v) (badge_id : String) (ts : List Transaction)
        → Round v w badge_id ts new
        → recorded id (v.mongo.documents new.badges)
          ≤ recorded id (v.mongo.documents w.badges) + count (has_id id) ts
    Round-recorded w new badge_id ts (nothing same_badges same_curr) = rw same_badges (omega arith)
    Round-recorded w new badge_id ts
          (block badge h p n e named number link texts root badges curr) =
        let written : recorded id (v.mongo.documents new.badges)
            ≡ recorded id (v.mongo.documents w.badges ++ badge ∷ []) =
          rw (badges, lawful.mongo.documents-insert_one) in
        omega (
          arith,
          written,
          recorded-append id (v.mongo.documents w.badges) (badge ∷ []),
          checked_texts-count id ts badge.transactions texts,
        )

    drawn-waiting :
        (cause : BadgeExecutionCause) (w : World v)
        → waiting id (transactions_for_cause v cause w).1
          ≡ waiting id (get_transaction_for_badge v (bound_of cause w.last_timestamp) w).1
    unfolding transactions_for_cause
    drawn-waiting timedout w = refl
    drawn-waiting filledup w = refl

    -- A round uses no identifier more often than it was used before: what it records in a block, it
    -- took from the pending transactions.
    pub form_new_L2_block-uses :
        (cause : BadgeExecutionCause) (badge_id : String) (now timestamp : ℕ) (w : World v)
        → uses id (form_new_L2_block v cause badge_id now timestamp w).1 ≤ uses id w
    form_new_L2_block-uses cause badge_id now timestamp w =
        let batch = batch_of v cause badge_id now timestamp w in
        let (marks, s) = applied v cause badge_id now timestamp w in
        let new = (form_new_L2_block v cause badge_id now timestamp w).1 in
        let finished : waiting id new ≡ waiting id s =
          rw (form-eq v cause badge_id now timestamp w) (
            ap (λ c. count (waits id) (v.mongo.documents c))
              (finish_block-transactions cause badge_id timestamp batch
                (delta v cause badge_id now timestamp w) s)) in
        omega (
          arith,
          finished,
          update_from-waiting badge_id [] batch (drawn v cause badge_id now timestamp w),
          drawn-waiting cause w,
          draw-waiting (bound_of cause w.last_timestamp) w,
          survivors-count marks batch,
          Round-recorded w new badge_id (delta v cause badge_id now timestamp w)
              (form_new_L2_block-Round v cause badge_id now timestamp w),
        )
