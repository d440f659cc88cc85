-- ===== src/MemPool/Batch.antt =====
-- `get_transaction_for_badge`: the batch of one call, and two calls one after the other.
use zkp_rollup.Base.{
  ℕ, ◌≤◌, ◌≡◌, ◌≢◌, ◌∙◌, refl, ap, sym, String, Bool, true, false, not, ◌==◌, beq_ne, Bool-cases,
  inl, inr, option_eq, string_eq, List, ◌++◌, map, Option, none, some, length, take, drop, filter,
  All, arith, if◌then◌else◌,
}
use zkp_rollup.Base.Filter.{All-take, All-map, map-All, length-take-le, take-append-drop}
use zkp_rollup.Python.Result.{ok}
use zkp_rollup.Types.{Transaction, pending, included, status_eq}
use zkp_rollup.Services.{Services, IsServices}
use zkp_rollup.Services.Mongo.{IsDescending}
use zkp_rollup.Services.Mongo.Laws.{IsDescending-take, take-ge-drop, sorted-All, sorted-All_imp}
use zkp_rollup.State.{World}
use zkp_rollup.MemPool.{
  is_due, has_id_in, ids_of, include, contains, due, get_transaction_for_badge,
}

abbrev pub received : Transaction → ℕ
received t = t.received_at

module _ (v : Services) (lawful : IsServices v) (limited : v.badge_size ≢ 0)
    (last_timestamp : Option ℕ) (w : World v) where
  -- All transactions that are due, the newest first.
  abbrev queue : List Transaction
  queue = v.mongo.sort_descending received (v.mongo.find (is_due last_timestamp) w.transactions)

  pub due-take : due v last_timestamp w ≡ take v.badge_size queue
  due-take = lawful.mongo.limit_take v.badge_size queue limited

  -- A batch has at most `BADGE_SIZE` transactions; each of them is pending and later than the last
  -- timestamp, if there is one; and they come the newest first.
  pub batch_is_due :
      (batch : List Transaction)
      → (get_transaction_for_badge v last_timestamp w).0 ≡ ok batch
      → (length batch ≤ v.badge_size)
        × All (λ t. is_due last_timestamp t ≡ true) batch
        × IsDescending received batch
  unfolding get_transaction_for_badge
  batch_is_due batch h =
      let e : batch ≡ take v.badge_size queue = cc due-take in
      rw e (
        length-take-le v.badge_size queue,
        All-take (λ t. is_due last_timestamp t ≡ true) v.badge_size queue
            (sorted-All v.mongo lawful.mongo received (is_due last_timestamp) w.transactions),
        IsDescending-take received v.badge_size queue (lawful.mongo.sort_ordered received _),
      )

  -- A batch takes the newest transactions: what is due and left out was received no later than any
  -- transaction of the batch. The batch and the rest are what is due, by the count of any test.
  pub newest_first :
      (batch : List Transaction)
      → (get_transaction_for_badge v last_timestamp w).0 ≡ ok batch
      → (rest : List Transaction) × ((test : Transaction → Bool)
          → length (filter test (batch ++ rest))
            ≡ length
                (filter test (filter (is_due last_timestamp) (v.mongo.documents w.transactions))))
        × All (λ t. All (λ u. u.received_at ≤ t.received_at) rest) batch
  unfolding get_transaction_for_badge
  newest_first batch h =
      let e : batch ≡ take v.badge_size queue = cc due-take in
      (
        drop v.badge_size queue,
        λ test.
            rw (e, take-append-drop v.badge_size queue)
              (lawful.mongo.sort_same received test _ ∙ rw lawful.mongo.find_filter),
        rw e (take-ge-drop received v.badge_size queue (lawful.mongo.sort_ordered received _)),
      )

-- A document after a batch: the documents with an id of the batch are included.
abbrev pub after_batch : List (Option String) → Transaction → Transaction
after_batch ids t = if has_id_in ids t then include t else t

pub included_ne_pending : (some included == some pending) ≡ false
included_ne_pending = beq_ne (some included) (some pending) (λ e. cc)

-- What is due after a batch has no id of the batch.
due_is_fresh :
    (ids : List (Option String)) (bound : Option ℕ) (t : Transaction)
    → is_due bound (after_batch ids t) ≡ true
    → not (has_id_in ids (after_batch ids t)) ≡ true
due_is_fresh ids bound t h = elim (Bool-cases (contains ids t.transaction_id)) [
  | inl e ↦ ground (arith, e, included_ne_pending)
  | inr e ↦ rw (e, e)
]

swallowed :
    (ids : List (Option String)) (t : Transaction)
    → contains ids none ≡ true
    → (after_batch ids t).transaction_id ≡ none
    → (after_batch ids t).status ≡ some included
swallowed ids t held deposit = elim (Bool-cases (contains ids t.transaction_id)) [
  | inl e ↦ rw e
  | inr e ↦ ground (arith, e, ap (contains ids) deposit)
]

returned :
    (v : Services) (w : World v) (bound : Option ℕ) {batch : List Transaction}
    → (get_transaction_for_badge v bound w).0 ≡ ok batch
    → due v bound w ≡ batch
unfolding get_transaction_for_badge
returned v w bound h = cc

not-true : (b : Bool) → not b ≡ true → b ≡ false
not-true true h = cc
not-true false h = refl

module _ (v : Services) (lawful : IsServices v) (w : World v) (first_bound : Option ℕ) where
  pub documents-after :
      v.mongo.documents (get_transaction_for_badge v first_bound w).1.transactions
      ≡ map (after_batch (ids_of (due v first_bound w))) (v.mongo.documents w.transactions)
  unfolding get_transaction_for_badge
  documents-after = rw lawful.mongo.documents-update_many

  -- A deposit has no id. Once a batch holds one deposit, every deposit in the database is marked as
  -- included, also one that no batch has held.
  pub deposits_included_together :
      (batch : List Transaction)
      → (get_transaction_for_badge v first_bound w).0 ≡ ok batch
      → contains (ids_of batch) none ≡ true
      → All
          (λ t. t.transaction_id ≡ none → t.status ≡ some included)
          (v.mongo.documents (get_transaction_for_badge v first_bound w).1.transactions)
  deposits_included_together batch h held =
      let same : due v first_bound w ≡ batch = returned v w first_bound h in
      rw documents-after (
        rw same (
          map-All (λ t. t.transaction_id ≡ none → t.status ≡ some included)
            (after_batch (ids_of batch)) (λ t. swallowed (ids_of batch) t held)
            (v.mongo.documents w.transactions)))

  -- No transaction of a batch comes again: whatever the time bounds of the two calls, no transaction
  -- of the second batch has the id of one in the first.
  pub batches_disjoint :
      (limited : v.badge_size ≢ 0) (second_bound : Option ℕ) (batch again : List Transaction)
      → (get_transaction_for_badge v first_bound w).0 ≡ ok batch
      → (get_transaction_for_badge v second_bound (get_transaction_for_badge v first_bound w).1).0
        ≡ ok again
      → All (λ t. contains (ids_of batch) t.transaction_id ≡ false) again
  batches_disjoint limited second_bound batch again h1 h2 =
      let w' : World v = (get_transaction_for_badge v first_bound w).1 in
      let same : due v first_bound w ≡ batch = returned v w first_bound h1 in
      let fresh = λ (t : Transaction). not (has_id_in (ids_of batch) t) in
      let queued =
        v.mongo.sort_descending received (v.mongo.find (is_due second_bound) w'.transactions) in
      let e : again ≡ take v.badge_size queued =
        sym (returned v w' second_bound h2) ∙ due-take v lawful limited second_bound w' in
      rw e (
        All-map (λ t. fresh t ≡ true) (λ t h. not-true (contains (ids_of batch) t.transaction_id) h)
          _
          (All-take (λ t. fresh t ≡ true) v.badge_size queued
            (sorted-All_imp v.mongo lawful.mongo received (is_due second_bound) w'.transactions
              fresh
              (rw documents-after (
                rw same (
                  map-All (λ t. is_due second_bound t ≡ true → fresh t ≡ true)
                    (after_batch (ids_of batch)) (λ t. due_is_fresh (ids_of batch) second_bound t)
                    (v.mongo.documents w.transactions)))))))
