-- ===== src/Tests/Blocks.antt =====
-- Blocks, submissions and the start at concrete inputs.
use zkp_rollup.Block.Hash.{
  create_block_hash, create_rolling_transaction_hash, create_transaction_hash,
}
use zkp_rollup.Utils.{hex_to_bytes}
use zkp_rollup.Python.Bytes.{from_hex, to_bytes}
use zkp_rollup.MerkleTree.Index.{find_update_index}
use zkp_rollup.Services.Memory.{sort_list}
use zkp_rollup.Python.Bytes.{Bytes}
use zkp_rollup.Utils.{hex_to_bytes}
use zkp_rollup.Block.Formed.{IsHashed, block_is_written}
use zkp_rollup.Block.Hash.{create_transaction_hash}
use zkp_rollup.Base.{
  All, List, ◌≡◌, refl, string_eq, String, true, false, [], ◌∷◌, ◌++◌, none, some, length, first,
  arith, string_eq, option_eq,
}
use zkp_rollup.Base.Int.{pos, ◌+ℤ◌, ◌-ℤ◌}
use zkp_rollup.Python.Float.{◌+f◌, ◌-f◌, to_float, nearest}
use zkp_rollup.Python.Result.{ok}
use zkp_rollup.Types.{filledup, status_eq}
use zkp_rollup.State.{World}
use zkp_rollup.State.Accounts.{find_account, push_account}
use zkp_rollup.Block.{
  any_document, point_to, by_badge_id, form_new_L2_block, transactions_for_cause,
  update_merkle_tree, finish_block, get_previous_block_information, update_from, note_failure,
  apply_transaction, insert_new_badge,
}
use zkp_rollup.MemPool.{get_transaction_for_badge}
use zkp_rollup.MerkleTree.{
  make_rollup_transaction_between_existing_users, check_tree_invariants_for_update,
  accounts_collection, latest_balance, latest_nonce, update_sender_leaf_return_bytes,
  update_receiver_bytes_return_bytes, values_before,
}
use zkp_rollup.Block.Form.{new_badge, Round, batch_of, delta, applied, form_new_L2_block-Round}
use zkp_rollup.Block.Chain.{HasChain, form_new_L2_block-HasChain}
use zkp_rollup.Block.Unhashed.{deposit_forms_no_block}
use zkp_rollup.Block.Counter.{Submission}
use zkp_rollup.MerkleTree.Leaf.{leaf_to_bytes}
use zkp_rollup.Setup.{zero_hash, on_start}
use zkp_rollup.Setup.Laws.{on_start-HasChain}
use zkp_rollup.Tests.Ledger.{
  alice_pays, bob_pays, memory_services, memory_services-IsServices, start, with_deposit, alice,
  bob, deposit, funded,
}

abbrev pub nothing_yet : World memory_services
nothing_yet = record start { users = []; transactions = []; badges = []; curr = [] }

abbrev pub after_start : World memory_services
after_start =
    (on_start memory_services true (funded alice (pos 10) ∷ funded bob (pos 5) ∷ []) "g" 0
      nothing_yet).1

start-HasChain : HasChain memory_services start
unfolding on_start
start-HasChain =
    on_start-HasChain memory_services memory_services-IsServices
      (record start { badges = []; curr = [] }) "g" 0 false [] refl refl refl

new_id : first (by_badge_id "h") start.badges ≡ none
unfolding string_eq
new_id = refl

form_new_L2_block-HasChain_example :
    HasChain memory_services (form_new_L2_block memory_services filledup "h" 7 8 start).1
form_new_L2_block-HasChain_example =
    form_new_L2_block-HasChain memory_services memory_services-IsServices start start-HasChain
      filledup "h" 7 8 new_id

block_is_formed : length (form_new_L2_block memory_services filledup "h" 7 8 start).1.badges ≡ 2
unfolding form_new_L2_block transactions_for_cause get_transaction_for_badge update_merkle_tree
    finish_block get_previous_block_information update_from sort_list option_eq status_eq
    note_failure apply_transaction string_eq make_rollup_transaction_between_existing_users
    check_tree_invariants_for_update find_account accounts_collection latest_balance latest_nonce
    update_sender_leaf_return_bytes update_receiver_bytes_return_bytes find_update_index
    values_before leaf_to_bytes to_bytes ◌+ℤ◌ ◌-ℤ◌ ◌+f◌ ◌-f◌ to_float nearest hex_to_bytes from_hex
    push_account create_block_hash create_rolling_transaction_hash create_transaction_hash
    insert_new_badge
block_is_formed = refl

form_new_L2_block-Round_example :
    Round memory_services start "h"
      (delta memory_services filledup "h" 7 8 start)
      (form_new_L2_block memory_services filledup "h" 7 8 start).1
form_new_L2_block-Round_example = form_new_L2_block-Round memory_services filledup "h" 7 8 start

deposit_drawn : batch_of memory_services filledup "h" 7 8 with_deposit ≡ [] ++ deposit ∷ []
unfolding sort_list option_eq status_eq
deposit_drawn = refl

deposit_forms_no_block_example :
    let (r, new) = form_new_L2_block memory_services filledup "h" 7 8 with_deposit in
    (r ≡ ok tt)
    × (new.badges ≡ with_deposit.badges)
    × (new.curr ≡ with_deposit.curr)
    × (new ≡ (applied memory_services filledup "h" 7 8 with_deposit).1)
deposit_forms_no_block_example =
    deposit_forms_no_block memory_services deposit refl filledup "h" 7 8 with_deposit [] []
      deposit_drawn

abbrev submission : Submission
submission = record {
  request = record {
    sender = alice;
    receiver = bob;
    amount = pos 1;
    nonce = pos 0;
    signature = record { pub_key = "0xaa"; signature = "0xaa" };
  };
  submission_id = "s";
  transaction_id = "t";
  now = 9;
}

abbrev nearly_full : World memory_services
nearly_full = record start { transaction_counter = 48 }

alice_pays-IsHashed : IsHashed memory_services alice_pays
unfolding create_transaction_hash hex_to_bytes from_hex to_bytes
alice_pays-IsHashed = record {
  digest = memory_services.crypto.sha256 [];
  id = "a";
  hashed = refl;
  named = refl;
}

bob_pays-IsHashed : IsHashed memory_services bob_pays
unfolding create_transaction_hash hex_to_bytes from_hex to_bytes
bob_pays-IsHashed = record {
  digest = memory_services.crypto.sha256 [];
  id = "b";
  hashed = refl;
  named = refl;
}

both_drawn : batch_of memory_services filledup "h" 7 8 start ≡ bob_pays ∷ alice_pays ∷ []
unfolding sort_list option_eq status_eq
both_drawn = refl

both-IsHashed : All (IsHashed memory_services) (batch_of memory_services filledup "h" 7 8 start)
both-IsHashed = rw both_drawn (bob_pays-IsHashed, (alice_pays-IsHashed, tt))

abbrev zero_bytes : Bytes
zero_bytes = memory_services.crypto.sha256 []

zero_hash_read : hex_to_bytes zero_hash ≡ ok zero_bytes
unfolding hex_to_bytes from_hex
zero_hash_read = refl

genesis_is_previous :
    get_previous_block_information memory_services start ≡ some (zero_hash, 0, "g")
unfolding get_previous_block_information string_eq
genesis_is_previous = refl

block_is_written_example :
    let (r, new) = form_new_L2_block memory_services filledup "h" 7 8 start in
    (r ≡ ok tt)
    × ((h : String) × (ids : List String) × (new.badges
          ≡ start.badges
            ++ new_badge memory_services filledup "h" 8
                (applied memory_services filledup "h" 7 8 start).1
                (zero_hash, 0, "g")
                h
                ids
              ∷ []))
    × (new.curr ≡ memory_services.mongo.update_one any_document (point_to "h") start.curr)
block_is_written_example =
    block_is_written memory_services filledup "h" 7 8 start zero_hash "g" 0 zero_bytes
      genesis_is_previous zero_hash_read (omega arith) (omega arith) both-IsHashed
