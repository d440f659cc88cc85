-- ===== src/Tests/Batches.antt =====
-- The queue of transactions at concrete inputs: a batch of two out of three.
use zkp_rollup.Services.Memory.{sort_list}
use zkp_rollup.Base.{
  ◌≡◌, ◌≢◌, ◌≤◌, refl, Bool, true, false, List, [], ◌∷◌, ◌++◌, none, some, length, filter, All,
  arith, option_eq, string_eq,
}
use zkp_rollup.Base.Int.{pos}
use zkp_rollup.Python.Result.{ok}
use zkp_rollup.Types.{Transaction, included, status_eq}
use zkp_rollup.Services.Mongo.{IsDescending}
use zkp_rollup.State.{World}
use zkp_rollup.MemPool.{is_due, contains, ids_of, get_transaction_for_badge}
use zkp_rollup.MemPool.Batch.{
  batch_is_due, newest_first, deposits_included_together, batches_disjoint,
}
use zkp_rollup.Tests.Ledger.{
  memory_services, memory_services-IsServices, start, alice, carol, alice_pays, bob_pays, payment,
  deposit,
}

abbrev carol_pays : Transaction
carol_pays = payment "c" carol alice (pos 1) 3

abbrev three_due : World memory_services
three_due = record start { transactions = alice_pays ∷ carol_pays ∷ bob_pays ∷ [] }

abbrev newest_two : List Transaction
newest_two = carol_pays ∷ bob_pays ∷ []

abbrev after_two : World memory_services
after_two = (get_transaction_for_badge memory_services none three_due).1

takes_newest_two : (get_transaction_for_badge memory_services none three_due).0 ≡ ok newest_two
unfolding get_transaction_for_badge sort_list option_eq status_eq
takes_newest_two = refl

then_takes_last :
    (get_transaction_for_badge memory_services none after_two).0 ≡ ok (alice_pays ∷ [])
unfolding get_transaction_for_badge sort_list option_eq status_eq string_eq
then_takes_last = refl

two_ne_zero : memory_services.badge_size ≢ 0
two_ne_zero = omega arith

batch_is_due_example :
    (length newest_two ≤ 2)
    × All (λ t. is_due none t ≡ true) newest_two
    × IsDescending (λ t. t.received_at) newest_two
batch_is_due_example =
    batch_is_due memory_services memory_services-IsServices two_ne_zero none three_due newest_two
      takes_newest_two

newest_first_example :
    (rest : List Transaction) × ((test : Transaction → Bool)
      → length (filter test (newest_two ++ rest))
        ≡ length (filter test (filter (is_due none) three_due.transactions)))
    × All (λ t. All (λ u. u.received_at ≤ t.received_at) rest) newest_two
newest_first_example =
    newest_first memory_services memory_services-IsServices two_ne_zero none three_due newest_two
      takes_newest_two

batches_disjoint_example :
    All (λ t. contains (ids_of newest_two) t.transaction_id ≡ false) (alice_pays ∷ [])
batches_disjoint_example =
    batches_disjoint memory_services memory_services-IsServices three_due none two_ne_zero none
      newest_two (alice_pays ∷ []) takes_newest_two then_takes_last

abbrev many_deposits : World memory_services
many_deposits = record start { transactions = deposit ∷ deposit ∷ deposit ∷ [] }

takes_two_deposits :
    (get_transaction_for_badge memory_services none many_deposits).0 ≡ ok (deposit ∷ deposit ∷ [])
unfolding get_transaction_for_badge sort_list option_eq status_eq
takes_two_deposits = refl

two_deposits_held : contains (ids_of (deposit ∷ deposit ∷ [])) none ≡ true
unfolding option_eq
two_deposits_held = refl

deposits_included_together_example :
    All
      (λ t. t.transaction_id ≡ none → t.status ≡ some included)
      (get_transaction_for_badge memory_services none many_deposits).1.transactions
deposits_included_together_example =
    deposits_included_together memory_services memory_services-IsServices many_deposits none
      (deposit ∷ deposit ∷ []) takes_two_deposits two_deposits_held
