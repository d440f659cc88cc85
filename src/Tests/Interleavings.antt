-- ===== src/Tests/Interleavings.antt =====
-- Interleaved tasks at concrete inputs: a second submission is stored while a batch is being applied.
use zkp_rollup.Python.Bytes.{from_hex}
use zkp_rollup.Utils.{hex_to_bytes}
use zkp_rollup.Services.Memory.{sort_list}
use zkp_rollup.Base.{
  ◌+◌, ◌≤◌, ◌≡◌, refl, suc, true, [], ◌∷◌, none, first, length, arith, option_eq, string_eq, some,
  ite, bytes_discrete, false, Bool,
}
use zkp_rollup.Base.Count.{count}
use zkp_rollup.Base.Int.{pos, ◌+ℤ◌, ◌-ℤ◌}
use zkp_rollup.Types.{
  Transaction, TransactionBadge, TransactionRequest, timedout, filledup, status_eq, included,
}
use zkp_rollup.State.{World}
use zkp_rollup.Validator.{check_transaction_validity}
use zkp_rollup.MemPool.{insert_into_queue}
use zkp_rollup.Block.{
  by_badge_id, any_document, point_to, batch_queue_producer, form_new_L2_block, enrich_transaction,
}
use zkp_rollup.Block.Once.{waits, recorded}
use zkp_rollup.Block.Once.Round.{uses}
use zkp_rollup.Block.Steps.{Draw, idle, begin, proceed}
use zkp_rollup.Setup.{on_start}
use zkp_rollup.Server.Interleaved.{
  System, store, at_rest, at_position, Interleaving, nothing_yet, and_then, stores, produces, takes,
  resumes,
}
use zkp_rollup.Server.Interleaved.Consistent.{IsConsistent, Interleaving-IsConsistent}
use zkp_rollup.Server.Interleaved.History.{IsGrown, Interleaving-IsGrown}
use zkp_rollup.Server.Interleaved.Held.{held}
use zkp_rollup.Server.Interleaved.Once.{interleaved_once}
use zkp_rollup.Server.Interleaved.Live.{next_block_is_written}
use zkp_rollup.Python.Float.{◌+f◌, ◌-f◌, to_float, nearest}
use zkp_rollup.Python.Result.{ok}
use zkp_rollup.Python.Bytes.{to_bytes}
use zkp_rollup.Block.Hash.{create_transaction_hash}
use zkp_rollup.Block.Form.{batch_of}
use zkp_rollup.Block.Formed.{IsHashed}
use zkp_rollup.Server.Interleaved.Untouched.{uninvolved_untouched}
use zkp_rollup.Server.Interleaved.Waiting.{AllLeave}
use zkp_rollup.MerkleTree.Transfer.Funds.{leaf_at}
use zkp_rollup.State.Accounts.{find_account, push_account}
use zkp_rollup.MerkleTree.{
  make_rollup_transaction_between_existing_users, check_tree_invariants_for_update,
  accounts_collection, latest_balance, latest_nonce, update_sender_leaf_return_bytes,
  update_receiver_bytes_return_bytes, values_before,
}
use zkp_rollup.MerkleTree.Index.{find_update_index}
use zkp_rollup.MerkleTree.Leaf.{leaf_to_bytes}
use zkp_rollup.Block.{note_failure, apply_transaction}
use zkp_rollup.Tests.Ledger.{alice, bob, funded, account}
use zkp_rollup.Tests.Load.{bit_services, bit_services-IsServices, load_world, created}
use zkp_rollup.Tests.Service.{whole_ether}

abbrev full_round : Draw
full_round = record { cause = filledup; badge_id = "h"; now = 1; timestamp = 2 }

abbrev no_documents : World bit_services
no_documents = record load_world { users = []; transactions = []; badges = []; curr = [] }

abbrev set_up : World bit_services
set_up =
    (on_start bit_services true
      (funded alice (pos 10) ∷ funded bob (pos 5) ∷ funded "0x03" (pos 1) ∷ []) "g" 0
      no_documents).1

abbrev payment_request : TransactionRequest
payment_request = record created { nonce = pos 0 }

abbrev rested : System bit_services whole_ether
rested = at_rest bit_services whole_ether set_up

abbrev stored_once : World bit_services
stored_once = store bit_services whole_ether payment_request "s" "t" 9 set_up

abbrev ticked : System bit_services whole_ether
ticked = record {
  world = batch_queue_producer bit_services stored_once;
  consumer = idle;
  uncounted = 1;
}

abbrev taken : System bit_services whole_ether
taken = at_position bit_services whole_ether ticked (
    begin bit_services (record { cause = timedout; badge_id = "h"; now = 1; timestamp = 2 })
      (record ticked.world { queue = [] }))

abbrev marked : System bit_services whole_ether
marked =
    at_position bit_services whole_ether taken (proceed bit_services taken.consumer taken.world)

abbrev stored_twice : System bit_services whole_ether
stored_twice = record marked {
  world = store bit_services whole_ether payment_request "s2" "t2" 10 marked.world;
  uncounted = suc marked.uncounted;
}

abbrev applied_one : System bit_services whole_ether
applied_one =
    at_position bit_services whole_ether stored_twice
      (proceed bit_services stored_twice.consumer stored_twice.world)

one_cause : ticked.world.queue ≡ timedout ∷ []
unfolding batch_queue_producer insert_into_queue on_start
one_cause = refl

new_block_id : first (by_badge_id "h") ticked.world.badges ≡ none
unfolding batch_queue_producer insert_into_queue on_start string_eq
new_block_id = refl

abbrev first_run : Interleaving bit_services whole_ether rested stored_twice
first_run =
    and_then
      (and_then
        (and_then (and_then (and_then nothing_yet (stores payment_request "s" "t" 9)) produces)
          (takes timedout [] "h" 1 2 refl one_cause new_block_id))
        resumes)
      (stores payment_request "s2" "t2" 10)

abbrev run : Interleaving bit_services whole_ether rested applied_one
run = and_then first_run resumes

unused_first : uses bit_services "t" set_up + held "t" idle ≡ 0
unfolding on_start
unused_first = refl

unused_second : uses bit_services "t2" marked.world + held "t2" marked.consumer ≡ 0
unfolding on_start insert_into_queue enrich_transaction batch_queue_producer begin proceed option_eq
    string_eq check_transaction_validity sort_list status_eq hex_to_bytes from_hex
unused_second = refl

set_up_returned :
    (on_start bit_services true
      (funded alice (pos 10) ∷ funded bob (pos 5) ∷ funded "0x03" (pos 1) ∷ [])
      "g"
      0
      no_documents).0
    ≡ ok tt
unfolding on_start
set_up_returned = refl

Interleaving-IsConsistent_example :
    IsConsistent bit_services whole_ether applied_one.consumer applied_one.world
Interleaving-IsConsistent_example =
    Interleaving-IsConsistent bit_services whole_ether bit_services-IsServices no_documents true
      (funded alice (pos 10) ∷ funded bob (pos 5) ∷ funded "0x03" (pos 1) ∷ []) "g" 0
      set_up_returned refl refl (omega arith) run

interleaved_once_example :
    recorded "t" applied_one.world.badges
      + count (waits "t") applied_one.world.transactions
      + held "t" applied_one.consumer
    ≤ 1
interleaved_once_example =
    interleaved_once bit_services whole_ether bit_services-IsServices "t" no_documents true
      (funded alice (pos 10) ∷ funded bob (pos 5) ∷ funded "0x03" (pos 1) ∷ []) "g" 0 refl refl run
      (((((((tt, unused_first), tt), tt), tt), unused_second)), tt)

Interleaving-IsGrown_example : IsGrown set_up.transactions applied_one.world.transactions
Interleaving-IsGrown_example =
    Interleaving-IsGrown bit_services whole_ether bit_services-IsServices run

-- The second submission waits for the next block while the first is in the batch.
abbrev second : Transaction
second = enrich_transaction payment_request "s2" "t2" 10

next_drawn : batch_of bit_services filledup "h2" 20 21 stored_twice.world ≡ second ∷ []
unfolding on_start insert_into_queue enrich_transaction batch_queue_producer begin proceed option_eq
    string_eq check_transaction_validity sort_list status_eq hex_to_bytes from_hex
next_drawn = refl

second-IsHashed : IsHashed bit_services second
unfolding create_transaction_hash hex_to_bytes from_hex to_bytes enrich_transaction to_float nearest
second-IsHashed = record {
  digest = bit_services.crypto.sha256 [];
  id = "t2";
  hashed = refl;
  named = refl;
}

one_block : length stored_twice.world.badges ≡ 1
unfolding on_start insert_into_queue proceed begin batch_queue_producer
one_block = refl

next_block_is_written_example :
    let (r, next) = form_new_L2_block bit_services filledup "h2" 20 21 stored_twice.world in
    (r ≡ ok tt)
    × ((badge : TransactionBadge) × (next.badges
          ≡ bit_services.mongo.insert_one badge stored_twice.world.badges)
        × (badge.badge_id ≡ "h2")
        × (badge.blocknumber ≡ length stored_twice.world.badges))
    × (next.curr
        ≡ bit_services.mongo.update_one any_document (point_to "h2") stored_twice.world.curr)
next_block_is_written_example =
    next_block_is_written bit_services whole_ether bit_services-IsServices no_documents true
      (funded alice (pos 10) ∷ funded bob (pos 5) ∷ funded "0x03" (pos 1) ∷ []) "g" 0
      set_up_returned refl refl (omega arith) first_run filledup "h2" 20 21
      (omega (arith, one_block)) (omega arith) (rw next_drawn (second-IsHashed, tt))

-- Two submissions from alice to bob, one of them applied, spare an account with other bytes.
abbrev first_stored : Transaction
first_stored = record (enrich_transaction payment_request "s" "t" 9) { status = some included }

both_stored : applied_one.world.transactions ≡ first_stored ∷ second ∷ []
unfolding on_start insert_into_queue enrich_transaction batch_queue_producer begin proceed option_eq
    string_eq check_transaction_validity sort_list status_eq hex_to_bytes from_hex note_failure
    apply_transaction make_rollup_transaction_between_existing_users
    check_tree_invariants_for_update find_account accounts_collection latest_balance latest_nonce
    update_sender_leaf_return_bytes find_update_index values_before leaf_to_bytes to_bytes ◌+ℤ◌ ◌-ℤ◌
    ◌+f◌ ◌-f◌ to_float nearest update_receiver_bytes_return_bytes push_account
both_stored = refl

one_ne_three : ite {C = Bool} (bytes_discrete (1 ∷ []) (3 ∷ [])) true false ≡ false
one_ne_three = ground arith

two_ne_three : ite {C = Bool} (bytes_discrete (2 ∷ []) (3 ∷ [])) true false ≡ false
two_ne_three = ground arith

both_spare : AllLeave (3 ∷ []) (first_stored ∷ second ∷ [])
unfolding hex_to_bytes from_hex enrich_transaction
both_spare = (rw (one_ne_three, two_ne_three), (rw (one_ne_three, two_ne_three), tt))

third_account : find_account bit_services "0x03" set_up.users ≡ some (account "0x03" (pos 1))
unfolding find_account on_start string_eq
third_account = refl

uninvolved_untouched_example :
    (find_account bit_services "0x03" applied_one.world.users ≡ some (account "0x03" (pos 1)))
    × (leaf_at bit_services (3 ∷ []) applied_one.world ≡ leaf_at bit_services (3 ∷ []) set_up)
unfolding hex_to_bytes from_hex
uninvolved_untouched_example =
    uninvolved_untouched bit_services whole_ether bit_services-IsServices "0x03" (3 ∷ []) refl
      (account "0x03" (pos 1)) third_account run (rw both_stored both_spare)
