-- ===== src/Tests/Service.antt =====
-- The routes, the deposit events and a run of the service at concrete inputs.
use zkp_rollup.MemPool.{insert_into_queue}
use zkp_rollup.MerkleTree.{accounts_collection, latest_nonce}
use zkp_rollup.State.Accounts.{find_account}
use zkp_rollup.Base.Count.{count}
use zkp_rollup.Block.Once.{recorded, waits}
use zkp_rollup.Block.Once.Round.{uses}
use zkp_rollup.Server.Once.{recorded_once}
use zkp_rollup.Base.{
  true, none, some, ◌≤◌, ℕ, ◌/◌, ◌^◌, ◌≡◌, refl, true, List, [], ◌∷◌, none, first, arith,
  if◌then◌else◌, string_eq, ◌+◌, String, zero, suc,
}
use zkp_rollup.Base.Int.{pos}
use zkp_rollup.Python.Result.{Result, ok, raised, value_error}
use zkp_rollup.Types.{TransactionRequest}
use zkp_rollup.State.{World}
use zkp_rollup.Block.{
  by_badge_id, batch_queue_producer, batch_queue_consumer, get_nonce_for_account,
  handel_transaction_submission,
}
use zkp_rollup.Setup.{on_start}
use zkp_rollup.ChainListener.{DepositEntry}
use zkp_rollup.Services.Web3.{Web3}
use zkp_rollup.ChainListener.Loop.{
  Listener, init_contract, chain_listener, init_deposit_event_filter, deposit_chain_loop,
}
use zkp_rollup.ChainListener.Loop.Laws.{events_seen, HasRecorded, loop_records}
use zkp_rollup.Services.Framework.{Framework, IsFramework, names_field}
use zkp_rollup.Server.{value, submit_transaction, nonce_route}
use zkp_rollup.Server.Reachable.{
  Reachable, started, after, produce, consume, IsRunning, Reachable-IsRunning, submit,
}
use zkp_rollup.Tests.Ledger.{memory_services, memory_services-IsServices, start, alice, bob, funded}
use zkp_rollup.Tests.Blocks.{nothing_yet, after_start}

-- Whole ether of an amount in wei.
abbrev pub whole_ether : ℕ → ℕ
whole_ether wei = wei / 10 ^ 18

abbrev two_deposits : List DepositEntry
two_deposits =
    (record {
      layer2_address = alice;
      amount = 2500000000000000000;
      curr_time_stamp = 4;
      submission_id = "x";
    })
    ∷ (record { layer2_address = bob; amount = 7; curr_time_stamp = 4; submission_id = "y" })
    ∷ []

fractions_are_dropped : (whole_ether 2500000000000000000 ≡ 2) × (whole_ether 7 ≡ 0)
fractions_are_dropped = (refl, refl)

-- A node whose third poll raises.
abbrev polls : ℕ → Result (List DepositEntry)
polls zero = ok two_deposits
polls (suc zero) = ok []
polls (suc (suc zero)) = raised value_error
polls (suc (suc (suc n))) = ok two_deposits

abbrev pub node : Web3 DepositEntry
node = record {
  Abi = Unit {0};
  Contract = String;
  Filter = String;
  to_checksum_address = λ address. ok address;
  contract = λ node_address address abi. address;
  create_filter = λ contract event. ok event;
  new_entries = λ deposit_event n. polls n;
}

abbrev listener : Listener node
listener = record {
  node_address = "http://127.0.0.1:8545";
  contract_address = "0x05";
  contract = "0x05";
  polling_interval = 2;
}

listener_made : chain_listener node 2 "http://127.0.0.1:8545" "0x05" tt ≡ ok listener
unfolding chain_listener init_contract
listener_made = refl

loop_records_example :
    HasRecorded node memory_services whole_ether memory_services-IsServices
      (events_seen node (init_deposit_event_filter node listener) 5)
      start
      (deposit_chain_loop node memory_services whole_ether listener 5 start).1
loop_records_example =
    loop_records node memory_services whole_ether memory_services-IsServices listener 5 start

only_before_failure : events_seen node (init_deposit_event_filter node listener) 5 ≡ two_deposits
unfolding init_deposit_event_filter
only_before_failure = refl

abbrev request : TransactionRequest
request = record {
  sender = alice;
  receiver = bob;
  amount = pos 1;
  nonce = pos 0;
  signature = record { pub_key = "0xaa"; signature = "0xaa" };
}

-- A framework that accepts what has the field, and calls every answer valid.
abbrev pub checking : Framework
checking = record {
  as_submission_response = λ fields s.
      if names_field fields "valid"
      then some (record { submission_id = s.submission_id; valid = true })
      else none;
}

pub checking-IsFramework : IsFramework checking
checking-IsFramework = record { valid_required = λ fields s h. rw h refl }

alice_nonce :
    nonce_route memory_services (record { account = alice }) start
    ≡ value (record { nonce = pos 0 })
unfolding nonce_route get_nonce_for_account find_account string_eq accounts_collection latest_nonce
alice_nonce = refl

still_new : first (by_badge_id "h") (batch_queue_producer memory_services after_start).badges ≡ none
unfolding batch_queue_producer on_start string_eq
still_new = refl

abbrev one_round : World memory_services
one_round =
    batch_queue_consumer memory_services "h" 1 2 (batch_queue_producer memory_services after_start)

run : Reachable memory_services whole_ether after_start one_round
run = after (after started produce) (consume "h" 1 2 still_new)

start_returned :
    (on_start memory_services true
      (funded alice (pos 10) ∷ funded bob (pos 5) ∷ [])
      "g"
      0
      nothing_yet).0
    ≡ ok tt
unfolding on_start
start_returned = refl

running : IsRunning memory_services whole_ether one_round
running =
    Reachable-IsRunning memory_services whole_ether memory_services-IsServices nothing_yet true
      (funded alice (pos 10) ∷ funded bob (pos 5) ∷ []) "g" 0 start_returned refl refl (omega arith)
      run

abbrev submitted : World memory_services
submitted = (submit_transaction memory_services request "s" "t" 9 after_start).1

abbrev recorded_in_block : World memory_services
recorded_in_block =
    batch_queue_consumer memory_services "h" 1 2 (batch_queue_producer memory_services submitted)

block_still_new :
    first (by_badge_id "h") (batch_queue_producer memory_services submitted).badges ≡ none
unfolding batch_queue_producer submit_transaction handel_transaction_submission insert_into_queue
    on_start string_eq
block_still_new = refl

abbrev submitting_run : Reachable memory_services whole_ether after_start recorded_in_block
submitting_run =
    after (after (after started (submit request "s" "t" 9)) produce)
      (consume "h" 1 2 block_still_new)

unused : uses memory_services "t" after_start ≡ 0
unfolding on_start
unused = refl

used_at_most_once :
    recorded "t" recorded_in_block.badges + count (waits "t") recorded_in_block.transactions ≤ 1
used_at_most_once =
    recorded_once memory_services whole_ether memory_services-IsServices "t" nothing_yet true
      (funded alice (pos 10) ∷ funded bob (pos 5) ∷ []) "g" 0 refl refl submitting_run
      (((tt, unused), tt), tt)
