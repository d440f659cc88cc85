-- ===== src/Tests/Transfers.antt =====
-- Transfers, deposits and the initial tree at concrete inputs.
use zkp_rollup.MerkleTree.Leaf.{leaf_to_bytes}
use zkp_rollup.MerkleTree.Index.{find_update_index}
use zkp_rollup.Base.{◌≡◌, ◌≢◌, ◌↔◌, refl, string_eq, String, true, false, [], ◌∷◌, some, arith}
use zkp_rollup.Base.Int.{pos, negsuc, ◌+ℤ◌, ◌-ℤ◌, ◌≤ℤ◌, int_laws}
use zkp_rollup.Python.Float.{◌+f◌, ◌-f◌, to_float, nearest}
use zkp_rollup.Python.Result.{ok, raised, tree_invariants_failed}
use zkp_rollup.Python.Bytes.{Bytes, from_hex, to_bytes}
use zkp_rollup.Utils.{hex_to_bytes}
use zkp_rollup.Types.{Transaction}
use zkp_rollup.State.{World}
use zkp_rollup.State.Accounts.{find_account, push_account}
use zkp_rollup.MerkleTree.{
  check_tree_invariants_for_update, make_rollup_transaction_between_existing_users,
  handle_deposit_transaction, accounts_collection, latest_balance, latest_nonce,
  update_receiver_bytes_return_bytes, update_sender_leaf_return_bytes, values_before,
}
use zkp_rollup.MerkleTree.Leaf.Laws.{leaf_balance, leaf_nonce}
use zkp_rollup.MerkleTree.Check.{Accepts, check-true_iff, rejected_unchanged}
use zkp_rollup.MerkleTree.Deposit.{deposit_replaces_leaf}
use zkp_rollup.MerkleTree.Transfer.{Moves}
use zkp_rollup.MerkleTree.Transfer.Funds.{leaf_at, transfer_conserves}
use zkp_rollup.MerkleTree.Transfer.Fresh.{
  IsFirst, IsFirst-Accepts, IsFirst-distinct, first_moves, negative_amount_takes_funds,
}
use zkp_rollup.MerkleTree.Transfer.Records.{
  with_both_entries, transfer_documents, next_check_uses_receiver,
}
use zkp_rollup.MerkleTree.Transfer.Credit.{credit_is_lost}
use zkp_rollup.Tests.Ledger.{
  memory_services, memory_services-IsServices, start, with_deposit, alice, bob, carol,
  alice_account, bob_account, carol_account, alice_pays, bob_pays, payment, deposit,
}

pub alice_first : IsFirst memory_services start alice_pays bob
unfolding hex_to_bytes find_account string_eq from_hex ◌-ℤ◌ ◌+ℤ◌ ◌+f◌ ◌-f◌ to_float nearest
alice_first = record {
  payer = alice_account;
  payee = bob_account;
  payer_key = 1 ∷ [];
  payee_key = 2 ∷ [];
  payer_found = refl;
  payee_found = refl;
  payer_fresh = refl;
  payee_fresh = refl;
  payer_hex = refl;
  payee_hex = refl;
  apart = λ e. cc;
  in_order = refl;
  covered = omega int_laws;
  payer_fits = (omega arith, omega arith);
  payee_fits = (omega arith, omega arith);
  exact = record {
    payer_before = omega arith;
    payer_after = omega arith;
    payee_before = omega arith;
    payee_after = omega arith;
  };
}

abbrev alice_to_bob : Moves memory_services "m" alice_pays start bob
alice_to_bob = first_moves memory_services alice_first "m"

transfer_conserves_example :
    let (r, new) =
      make_rollup_transaction_between_existing_users memory_services "m" alice_pays bob start in
    (r ≡ ok tt)
    × (leaf_balance (leaf_at memory_services alice_to_bob.payer_key new)
          +ℤ leaf_balance (leaf_at memory_services alice_to_bob.payee_key new)
        ≡ alice_to_bob.payer_before.0 +ℤ alice_to_bob.payee_before.0)
    × ((key : Bytes)
        → key ≢ alice_to_bob.payer_key
        → key ≢ alice_to_bob.payee_key
        → leaf_at memory_services key new ≡ leaf_at memory_services key start)
unfolding first_moves alice_first
transfer_conserves_example =
    transfer_conserves memory_services memory_services-IsServices alice_to_bob alice_first.apart
      alice_first.exact (IsFirst-Accepts memory_services alice_first)

check-true_iff_example :
    (check_tree_invariants_for_update memory_services alice_pays bob start ≡ (ok true, start))
    ↔ Accepts memory_services start alice_pays bob
check-true_iff_example = check-true_iff memory_services start alice_pays bob

abbrev overdraft : Transaction
overdraft = payment "o" alice bob (pos 11) 1

overdraft_checked :
    check_tree_invariants_for_update memory_services overdraft bob start ≡ (ok false, start)
unfolding check_tree_invariants_for_update find_account string_eq accounts_collection latest_balance
overdraft_checked = refl

overdraft_refused : ¬ Accepts memory_services start overdraft bob
overdraft_refused a =
    cc (overdraft_checked, (check-true_iff memory_services start overdraft bob).1 a)

rejected_unchanged_example :
    make_rollup_transaction_between_existing_users memory_services "m" overdraft bob start
    ≡ (raised tree_invariants_failed, start)
rejected_unchanged_example =
    rejected_unchanged memory_services start overdraft bob "m" overdraft_refused

transfer_documents_example :
    let (r, new) =
      make_rollup_transaction_between_existing_users memory_services "m" alice_pays bob start in
    (r ≡ ok tt)
    × (find_account memory_services alice new.users
        ≡ some (
            with_both_entries "m" alice_pays alice_to_bob.payer_before alice_to_bob.payee_before
              alice_to_bob.payer))
    × ((other : String)
        → other ≢ alice
        → find_account memory_services other new.users
          ≡ find_account memory_services other start.users)
transfer_documents_example =
    transfer_documents memory_services memory_services-IsServices
      (IsFirst-Accepts memory_services alice_first) (IsFirst-distinct memory_services alice_first)
      alice_to_bob

abbrev alice_again : Transaction
alice_again = payment "c" alice carol (pos 8) 4

abbrev after_alice : World memory_services
after_alice =
    (make_rollup_transaction_between_existing_users memory_services "m" alice_pays bob start).1

alice_checked_again :
    check_tree_invariants_for_update memory_services alice_again carol after_alice
    ≡ (ok true, after_alice)
unfolding check_tree_invariants_for_update make_rollup_transaction_between_existing_users
    find_account string_eq accounts_collection latest_balance latest_nonce
    update_sender_leaf_return_bytes find_update_index values_before leaf_to_bytes to_bytes ◌+ℤ◌ ◌-ℤ◌
    ◌+f◌ ◌-f◌ to_float nearest hex_to_bytes from_hex update_receiver_bytes_return_bytes push_account
alice_checked_again = refl

alice_accepted_again : Accepts memory_services after_alice alice_again carol
alice_accepted_again =
    (check-true_iff memory_services after_alice alice_again carol).0 alice_checked_again

next_check_uses_receiver_example :
    (alice_again.nonce ≡ some alice_to_bob.payee_before.1)
    × (alice_again.amount ≤ℤ alice_to_bob.payee_before.0 +f alice_pays.amount)
next_check_uses_receiver_example =
    next_check_uses_receiver memory_services memory_services-IsServices
      (IsFirst-Accepts memory_services alice_first) (IsFirst-distinct memory_services alice_first)
      alice_to_bob alice_again carol refl alice_accepted_again

bob_first : IsFirst memory_services start bob_pays carol
unfolding hex_to_bytes find_account string_eq from_hex ◌-ℤ◌ ◌+ℤ◌ ◌+f◌ ◌-f◌ to_float nearest
bob_first = record {
  payer = bob_account;
  payee = carol_account;
  payer_key = 2 ∷ [];
  payee_key = 3 ∷ [];
  payer_found = refl;
  payee_found = refl;
  payer_fresh = refl;
  payee_fresh = refl;
  payer_hex = refl;
  payee_hex = refl;
  apart = λ e. cc;
  in_order = refl;
  covered = omega int_laws;
  payer_fits = (omega arith, omega arith);
  payee_fits = (omega arith, omega arith);
  exact = record {
    payer_before = omega arith;
    payer_after = omega arith;
    payee_before = omega arith;
    payee_after = omega arith;
  };
}

credit_is_lost_example :
    let (first_result, between) =
      make_rollup_transaction_between_existing_users memory_services "m" alice_pays bob start in
    let (second_result, new) =
      make_rollup_transaction_between_existing_users memory_services "m" bob_pays carol between in
    (first_result ≡ ok tt)
    × (second_result ≡ ok tt)
    × (leaf_balance (leaf_at memory_services (2 ∷ []) new) ≡ pos 3)
    × (leaf_balance (leaf_at memory_services (1 ∷ []) new)
          +ℤ leaf_balance (leaf_at memory_services (2 ∷ []) new)
          +ℤ leaf_balance (leaf_at memory_services (3 ∷ []) new)
          +ℤ pos 3
        ≡ pos 16)
unfolding alice_first bob_first ◌-ℤ◌ ◌+ℤ◌ ◌+f◌ ◌-f◌ to_float nearest
credit_is_lost_example =
    credit_is_lost memory_services memory_services-IsServices "m" alice_first bob_first refl
      (λ e. cc)

abbrev alice_takes : Transaction
alice_takes = payment "n" alice bob (negsuc 3) 1

taking_first : IsFirst memory_services start alice_takes bob
unfolding hex_to_bytes find_account string_eq from_hex ◌-ℤ◌ ◌+ℤ◌ ◌+f◌ ◌-f◌ to_float nearest
taking_first = record {
  payer = alice_account;
  payee = bob_account;
  payer_key = 1 ∷ [];
  payee_key = 2 ∷ [];
  payer_found = refl;
  payee_found = refl;
  payer_fresh = refl;
  payee_fresh = refl;
  payer_hex = refl;
  payee_hex = refl;
  apart = λ e. cc;
  in_order = refl;
  covered = omega int_laws;
  payer_fits = (omega arith, omega arith);
  payee_fits = (omega arith, omega arith);
  exact = record {
    payer_before = omega arith;
    payer_after = omega arith;
    payee_before = omega arith;
    payee_after = omega arith;
  };
}

negative_amount_takes_funds_example :
    let (r, new) =
      make_rollup_transaction_between_existing_users memory_services "m" alice_takes bob start in
    (r ≡ ok tt)
    × (leaf_balance (leaf_at memory_services (2 ∷ []) new) +ℤ pos 4 ≡ pos 5)
    × (leaf_balance (leaf_at memory_services (1 ∷ []) new) ≡ pos 14)
unfolding taking_first ◌+ℤ◌
negative_amount_takes_funds_example =
    negative_amount_takes_funds memory_services taking_first memory_services-IsServices "m" 3 refl

alice_hex : hex_to_bytes alice ≡ ok (1 ∷ [])
unfolding hex_to_bytes from_hex
alice_hex = refl

deposit_replaces_leaf_example :
    let (r, new) = handle_deposit_transaction memory_services deposit with_deposit in
    (r ≡ ok tt)
    × (leaf_balance (leaf_at memory_services (1 ∷ []) new) ≡ pos 7)
    × (leaf_nonce (leaf_at memory_services (1 ∷ []) new) ≡ pos 0)
    × ((other : Bytes)
        → other ≢ 1 ∷ []
        → leaf_at memory_services other new ≡ leaf_at memory_services other with_deposit)
deposit_replaces_leaf_example =
    deposit_replaces_leaf memory_services deposit with_deposit memory_services-IsServices (1 ∷ [])
      alice_hex (omega arith)
