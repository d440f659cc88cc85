-- ===== src/Tests/FirstPayments.antt =====
-- The first payments of two accounts at concrete inputs, from the start of the service to their block.
use zkp_rollup.Base.{
  ℕ, ◌≡◌, ◌≢◌, refl, true, false, ◌||◌, [], ◌∷◌, none, some, length, filter, map, arith, option_eq,
  string_eq, bytes_discrete, ite, Bool,
}
use zkp_rollup.Base.Bag.{of_list}
use zkp_rollup.Base.Int.{pos}
use zkp_rollup.Python.Result.{ok}
use zkp_rollup.Python.Bytes.{from_hex}
use zkp_rollup.Utils.{hex_to_bytes}
use zkp_rollup.Types.{TransactionRequest, TransactionBadge, filledup, invalid, status_eq}
use zkp_rollup.Services.Memory.{sort_list}
use zkp_rollup.Validator.{check_transaction_validity}
use zkp_rollup.MemPool.{ids_of, is_due, insert_into_queue}
use zkp_rollup.MerkleTree.{checked_texts, get_merkle_root}
use zkp_rollup.Block.{
  enrich_transaction, batch_queue_producer, any_document, point_to, form_new_L2_block,
}
use zkp_rollup.Block.Form.{batch_of}
use zkp_rollup.Block.Steps.{idle}
use zkp_rollup.Ledger.{settle, payment_of, ledger_of, key_of}
use zkp_rollup.Ledger.Settle.{all_due}
use zkp_rollup.Server.Interleaved.{
  System, store, at_rest, Interleaving, nothing_yet, and_then, stores, produces, deposits,
}
use zkp_rollup.Server.Interleaved.Waiting.{AllLeave}
use zkp_rollup.Server.Interleaved.Typed.{TypedDocuments}
use zkp_rollup.Server.Start.Answered.{
  TypedDatabase, IsNonceAnswer, IsFoundStatus, documents_stay_typed,
}
use zkp_rollup.ChainListener.{DepositEntry, handle_deposit_entries}
use zkp_rollup.Server.Start.Settled.{IsOpeningOf, IsOpeningBatch, first_payments_settled}
use zkp_rollup.Tests.Service.{checking, checking-IsFramework}
use zkp_rollup.Server.{http_exception, status_route}
use zkp_rollup.Tests.Ledger.{memory_services, memory_services-IsServices, alice_pays}
use zkp_rollup.Tests.Settling.{
  carol_pays, alice_funded, bob_funded, carol_funded, dave_funded, four_accounts, waiting, ready,
  alice-IsFundable, bob-IsFundable, carol-IsFundable, dave-IsFundable, four_differ, started, node,
  listener, alice_opens, carol_opens, alice_hashed, carol_hashed, payments_apart,
}

-- Since the start a transaction with an unreadable signature has been stored, and the timer has run out.
abbrev unsigned : TransactionRequest
unsigned = record {
  sender = "0x06";
  receiver = "0x07";
  amount = pos 1;
  nonce = pos 0;
  signature = record { pub_key = "0xaa"; signature = "0xzz" };
}

abbrev whole_ether : ℕ → ℕ
whole_ether wei = wei

abbrev later : System memory_services whole_ether
later = record {
  world =
      batch_queue_producer memory_services
        (store memory_services whole_ether unsigned "u" "u" 5 ready);
  consumer = idle;
  uncounted = 1;
}

abbrev steps :
    Interleaving memory_services whole_ether (at_rest memory_services whole_ether ready) later
steps = and_then (and_then nothing_yet (stores unsigned "u" "u" 5)) produces

same_batch : batch_of memory_services filledup "h" 7 8 later.world ≡ carol_pays ∷ alice_pays ∷ []
unfolding sort_list option_eq status_eq insert_into_queue batch_queue_producer enrich_transaction
    check_transaction_validity hex_to_bytes from_hex
same_batch = refl

stored_now :
    later.world.transactions
    ≡ alice_pays
      ∷ carol_pays
      ∷ record (enrich_transaction unsigned "u" "u" 5) { status = some invalid }
      ∷ []
unfolding insert_into_queue batch_queue_producer enrich_transaction check_transaction_validity
    hex_to_bytes from_hex
stored_now = refl

or_true : (b : Bool) → (b || true) ≡ true
or_true true = refl
or_true false = refl

other_bytes :
    (key n : ℕ) → key ≢ n → ite {C = Bool} (bytes_discrete (n ∷ []) (key ∷ [])) true false ≡ false
other_bytes key n h = ground arith

all_pending : (key : ℕ) → key ≢ 6 → key ≢ 7 → AllLeave (key ∷ []) later.world.transactions
unfolding hex_to_bytes from_hex enrich_transaction option_eq status_eq
all_pending key six seven =
    rw stored_now
      (or_true _, (or_true _, (rw (other_bytes key 6 six, other_bytes key 7 seven), tt)))

alice_opening : IsOpeningOf four_accounts later.world.transactions alice_pays
unfolding key_of hex_to_bytes from_hex
alice_opening = record {
  payer = alice_funded;
  payee = bob_funded;
  payer_index = 0;
  payee_index = 1;
  payer_listed = refl;
  payee_listed = refl;
  opening = alice_opens;
  payer_waits = all_pending 1 (λ e. omega (arith, e)) (λ e. omega (arith, e));
  payee_waits = all_pending 2 (λ e. omega (arith, e)) (λ e. omega (arith, e));
}

carol_opening : IsOpeningOf four_accounts later.world.transactions carol_pays
unfolding key_of hex_to_bytes from_hex
carol_opening = record {
  payer = carol_funded;
  payee = dave_funded;
  payer_index = 2;
  payee_index = 3;
  payer_listed = refl;
  payee_listed = refl;
  opening = carol_opens;
  payer_waits = all_pending 3 (λ e. omega (arith, e)) (λ e. omega (arith, e));
  payee_waits = all_pending 4 (λ e. omega (arith, e)) (λ e. omega (arith, e));
}

two_due : filter (is_due none) later.world.transactions ≡ alice_pays ∷ carol_pays ∷ []
unfolding insert_into_queue batch_queue_producer enrich_transaction check_transaction_validity
    hex_to_bytes from_hex option_eq status_eq
two_due = refl

one_block : length later.world.badges ≡ 1
unfolding insert_into_queue batch_queue_producer
one_block = refl

opening_batch :
    IsOpeningBatch memory_services whole_ether memory_services-IsServices four_accounts "g" 0 0
      waiting ready node tt listener started
      (alice-IsFundable, (bob-IsFundable, (carol-IsFundable, (dave-IsFundable, tt))))
      four_differ
      refl
      refl
      refl
      steps
      filledup
      "h"
      7
      8
unfolding option_eq status_eq
opening_batch = record {
  opens = rw same_batch (carol_opening, (alice_opening, tt));
  apart = rw same_batch payments_apart;
  hashed = rw same_batch (carol_hashed, (alice_hashed, tt));
  some_room = omega arith;
  whole = rw two_due (omega arith);
}

first_payments_settled_example :
    let (r, next) = form_new_L2_block memory_services filledup "h" 7 8 later.world in
    let payments =
      map payment_of
        (all_due memory_services memory_services-IsServices filledup "h" 7 8 later.world) in
    (r ≡ ok tt)
    × ((badge : TransactionBadge) × (next.badges
          ≡ memory_services.mongo.insert_one badge later.world.badges)
        × (badge.badge_id ≡ "h")
        × (badge.blocknumber ≡ length later.world.badges)
        × (badge.state_root ≡ get_merkle_root memory_services next)
        × (checked_texts (ids_of (batch_of memory_services filledup "h" 7 8 later.world))
            ≡ some badge.transactions))
    × (next.curr ≡ memory_services.mongo.update_one any_document (point_to "h") later.world.curr)
    × (ledger_of memory_services next
        ≡ settle (of_list payments) (ledger_of memory_services later.world))
first_payments_settled_example =
    first_payments_settled memory_services whole_ether memory_services-IsServices four_accounts "g"
      0 0 waiting ready node tt listener started
      (alice-IsFundable, (bob-IsFundable, (carol-IsFundable, (dave-IsFundable, tt)))) four_differ
      refl refl refl steps filledup "h" 7 8 opening_batch (rw one_block (omega arith)) (omega arith)

-- A deposit has come in as well; the documents that the service started from have the right shapes.
abbrev wei_deposit : DepositEntry
wei_deposit = record {
  layer2_address = "0x09";
  amount = 3;
  curr_time_stamp = 6;
  submission_id = "d";
}

abbrev deposited : System memory_services whole_ether
deposited = record later {
  world = (handle_deposit_entries memory_services whole_ether (wei_deposit ∷ []) later.world).1;
}

typed_before : TypedDatabase memory_services whole_ether memory_services-IsServices waiting
typed_before = ((refl, (refl, tt)), tt)

documents_stay_typed_example :
    TypedDocuments memory_services whole_ether memory_services-IsServices deposited.world
    × IsNonceAnswer memory_services whole_ether memory_services-IsServices "0x09" deposited.world
    × IsFoundStatus memory_services whole_ether memory_services-IsServices "u" deposited.world
    × (status_route memory_services checking (record { submission_id = "u" }) deposited.world
        ≡ http_exception 500)
documents_stay_typed_example =
    documents_stay_typed memory_services whole_ether memory_services-IsServices node tt listener
      checking checking-IsFramework four_accounts "g" 0 0 waiting ready deposited "0x09" "u" started
      typed_before (and_then steps (deposits wei_deposit))
