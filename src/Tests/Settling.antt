-- ===== src/Tests/Settling.antt =====
-- The start of the service and a batch of two transfers at concrete inputs.
use mathlib.Core.Path.{subst}
use zkp_rollup.Base.{
  ℕ, ◌≡◌, ◌≢◌, refl, sym, ◌∙◌, ap, String, true, false, List, [], ◌∷◌, ◌++◌, ◌==◌, none, some,
  filter, map, All, arith, option_eq, string_eq,
}
use zkp_rollup.Base.Bag.{of_list}
use zkp_rollup.Base.Int.{pos, ◌+ℤ◌, ◌-ℤ◌, int_laws}
use zkp_rollup.Python.Float.{◌+f◌, ◌-f◌, to_float, nearest}
use zkp_rollup.Python.Result.{ok}
use zkp_rollup.Python.Bytes.{Bytes, from_hex, to_bytes}
use zkp_rollup.Utils.{hex_to_bytes}
use zkp_rollup.Types.{Transaction, filledup, status_eq}
use zkp_rollup.Services.Memory.{sort_list}
use zkp_rollup.State.{World}
use zkp_rollup.MemPool.{is_due, ids_of}
use zkp_rollup.MerkleTree.{checked_texts}
use zkp_rollup.MerkleTree.Leaf.{FundedAccount, hash_account_to_leaf_value}
use zkp_rollup.MerkleTree.Initial.{initilize_sparse_merkle_tree, insert_leaves}
use zkp_rollup.Block.{
  zero_address, any_document, point_to, form_new_L2_block, get_previous_block_information,
}
use zkp_rollup.Block.Form.{new_badge, batch_of}
use zkp_rollup.Block.Formed.{IsHashed}
use zkp_rollup.Block.Hash.{create_transaction_hash}
use zkp_rollup.Setup.{zero_hash, start_user, on_start}
use zkp_rollup.Ledger.{settle, payment_of, receiver_key, ledger_of, key_of, AllApart}
use zkp_rollup.Ledger.Settle.{IsSettleable, batch_is_settled}
use zkp_rollup.Services.Web3.{Web3}
use zkp_rollup.ChainListener.{DepositEntry}
use zkp_rollup.ChainListener.Loop.{Listener, chain_listener, init_contract}
use zkp_rollup.Server.Start.Begun.{listener_at, same_pair}
use zkp_rollup.Server.Start.{
  Database, node_address, contract_address, start_service, block_controller, merkle_tree_controller,
}
use zkp_rollup.Server.Start.Funded.{IsFundable, AllDiffer, IsFunded, service_starts}
use zkp_rollup.Server.Start.Payments.{IsOpening, IsOpening-IsPay}
use zkp_rollup.Tests.Ledger.{
  memory_services, memory_services-IsServices, start, alice, bob, carol, payment, alice_pays,
  funded,
}

abbrev pub dave : String
dave = "0x04"

abbrev pub carol_pays : Transaction
carol_pays = payment "c" carol dave (pos 1) 2

abbrev pub alice_funded : FundedAccount
alice_funded = funded alice (pos 10)

abbrev pub bob_funded : FundedAccount
bob_funded = funded bob (pos 5)

abbrev pub carol_funded : FundedAccount
carol_funded = funded carol (pos 1)

abbrev pub dave_funded : FundedAccount
dave_funded = funded dave (pos 0)

abbrev pub four_accounts : List FundedAccount
four_accounts = alice_funded ∷ bob_funded ∷ carol_funded ∷ dave_funded ∷ []

pub alice-IsFundable : IsFundable alice_funded
unfolding hex_to_bytes from_hex
alice-IsFundable = record { key = 1 ∷ []; hex = refl; fits = omega arith }

pub bob-IsFundable : IsFundable bob_funded
unfolding hex_to_bytes from_hex
bob-IsFundable = record { key = 2 ∷ []; hex = refl; fits = omega arith }

pub carol-IsFundable : IsFundable carol_funded
unfolding hex_to_bytes from_hex
carol-IsFundable = record { key = 3 ∷ []; hex = refl; fits = omega arith }

pub dave-IsFundable : IsFundable dave_funded
unfolding hex_to_bytes from_hex
dave-IsFundable = record { key = 4 ∷ []; hex = refl; fits = omega arith }

pub four_differ : AllDiffer four_accounts
unfolding hex_to_bytes from_hex key_of
four_differ = (
  ((λ e. cc), ((λ e. cc), ((λ e. cc), tt))),
  (((λ e. cc), ((λ e. cc), tt)), (((λ e. cc), tt), (tt, tt))),
)

-- Two transfers wait in the database when the service starts.
abbrev pub waiting : Database memory_services
waiting = record { users = []; transactions = alice_pays ∷ carol_pays ∷ []; badges = []; curr = [] }

-- A node that can read the address of the contract.
abbrev pub node : Web3 DepositEntry
node = record {
  Abi = Unit {0};
  Contract = String;
  Filter = String;
  to_checksum_address = λ address. ok address;
  contract = λ node_address address abi. address;
  create_filter = λ contract event. ok event;
  new_entries = λ deposit_event n. ok [];
}

-- The state after the start.
abbrev zeros : Bytes
zeros = 0 ∷ 0 ∷ 0 ∷ 0 ∷ 0 ∷ 0 ∷ 0 ∷ []

abbrev leaf : ℕ → ℕ → Bytes × Bytes
leaf balance key = (key ∷ [], balance ∷ zeros ++ 0 ∷ zeros ++ key ∷ [])

abbrev pub ready : World memory_services
ready = record start {
  users = map start_user four_accounts;
  transactions = waiting.transactions;
  sparse_merkle_tree = leaf 0 4 ∷ leaf 1 3 ∷ leaf 5 2 ∷ leaf 10 1 ∷ [];
}

abbrev pub listener : Listener node
listener = listener_at memory_services node contract_address tt

pub started :
    start_service memory_services node tt four_accounts "g" 0 0 waiting ≡ ok (ready, listener)
unfolding start_service block_controller merkle_tree_controller initilize_sparse_merkle_tree
    on_start insert_leaves hex_to_bytes from_hex hash_account_to_leaf_value to_bytes chain_listener
    init_contract
started = refl

ready_to_pay : All (IsFunded memory_services memory_services-IsServices ready) four_accounts
ready_to_pay =
    let (w, other, done, _, _, _, _, all_funded, _) =
      service_starts memory_services memory_services-IsServices node alice_funded
        (bob_funded ∷ carol_funded ∷ dave_funded ∷ []) "g" 0 0 waiting tt contract_address refl
        (alice-IsFundable, (bob-IsFundable, (carol-IsFundable, (dave-IsFundable, tt)))) four_differ
        refl refl refl in
    subst (λ s. All (IsFunded memory_services memory_services-IsServices s) four_accounts)
      (ap (λ (p : World memory_services × Listener node). p.0)
        (same_pair memory_services node (w, other) (ready, listener) (sym done ∙ started)))
      all_funded

bob_ne_zero : bob ≢ zero_address
unfolding string_eq
bob_ne_zero e = let apart : true ≡ false = ap (λ (s : String). s == bob) e in cc

dave_ne_zero : dave ≢ zero_address
unfolding string_eq
dave_ne_zero e = let apart : true ≡ false = ap (λ (s : String). s == dave) e in cc

pub alice_opens : IsOpening alice_pays alice_funded bob_funded
unfolding key_of hex_to_bytes from_hex ◌+ℤ◌ ◌-ℤ◌ ◌+f◌ ◌-f◌ to_float nearest
alice_opens = record {
  from_payer = refl;
  to_payee = refl;
  no_withdrawal = bob_ne_zero;
  apart = λ e. cc;
  nonce = refl;
  covered = omega int_laws;
  payer_fits = omega arith;
  payee_fits = omega arith;
  exact = record {
    payer_before = omega arith;
    payer_after = omega arith;
    payee_before = omega arith;
    payee_after = omega arith;
  };
}

pub carol_opens : IsOpening carol_pays carol_funded dave_funded
unfolding key_of hex_to_bytes from_hex ◌+ℤ◌ ◌-ℤ◌ ◌+f◌ ◌-f◌ to_float nearest
carol_opens = record {
  from_payer = refl;
  to_payee = refl;
  no_withdrawal = dave_ne_zero;
  apart = λ e. cc;
  nonce = refl;
  covered = omega int_laws;
  payer_fits = omega arith;
  payee_fits = omega arith;
  exact = record {
    payer_before = omega arith;
    payer_after = omega arith;
    payee_before = omega arith;
    payee_after = omega arith;
  };
}

both_drawn : batch_of memory_services filledup "h" 7 8 ready ≡ carol_pays ∷ alice_pays ∷ []
unfolding sort_list option_eq status_eq
both_drawn = refl

pub alice_hashed : IsHashed memory_services alice_pays
unfolding create_transaction_hash hex_to_bytes from_hex to_bytes
alice_hashed = record {
  digest = memory_services.crypto.sha256 [];
  id = "a";
  hashed = refl;
  named = refl;
}

pub carol_hashed : IsHashed memory_services carol_pays
unfolding create_transaction_hash hex_to_bytes from_hex to_bytes
carol_hashed = record {
  digest = memory_services.crypto.sha256 [];
  id = "c";
  hashed = refl;
  named = refl;
}

pub payments_apart : AllApart (payment_of carol_pays ∷ payment_of alice_pays ∷ [])
unfolding payment_of receiver_key key_of hex_to_bytes from_hex
payments_apart = (
  (
    record {
      payer_payer = λ e. cc;
      payer_payee = λ e. cc;
      payee_payer = λ e. cc;
      payee_payee = λ e. cc;
    },
    tt,
  ),
  (tt, tt),
)

both_settleable : IsSettleable memory_services memory_services-IsServices filledup "h" 7 8 ready
unfolding option_eq status_eq
both_settleable =
    let (a, (b, (c, (d, _)))) = ready_to_pay in
    let pay = IsOpening-IsPay memory_services memory_services-IsServices ready in
    record {
      pays = rw both_drawn (
        pay carol_pays carol_funded dave_funded carol_opens carol-IsFundable dave-IsFundable c d,
        (
          pay alice_pays alice_funded bob_funded alice_opens alice-IsFundable bob-IsFundable a b,
          tt,
        ),
      );
      apart = rw both_drawn payments_apart;
      hashed = rw both_drawn (carol_hashed, (alice_hashed, tt));
      some_room = omega arith;
      whole = omega arith;
    }

abbrev zero_bytes : Bytes
zero_bytes = memory_services.crypto.sha256 []

zero_hash_read : hex_to_bytes zero_hash ≡ ok zero_bytes
unfolding hex_to_bytes from_hex
zero_hash_read = refl

genesis_is_previous :
    get_previous_block_information memory_services ready ≡ some (zero_hash, 0, "g")
unfolding get_previous_block_information string_eq
genesis_is_previous = refl

batch_is_settled_example :
    let (r, new) = form_new_L2_block memory_services filledup "h" 7 8 ready in
    (r ≡ ok tt)
    × ((h : String) × (ids : List String) × (checked_texts
            (ids_of (batch_of memory_services filledup "h" 7 8 ready))
          ≡ some ids)
        × (new.badges
            ≡ ready.badges
              ++ new_badge memory_services filledup "h" 8 new (zero_hash, 0, "g") h ids ∷ []))
    × (new.curr ≡ memory_services.mongo.update_one any_document (point_to "h") ready.curr)
    × (ledger_of memory_services new
        ≡ settle
            (of_list (map payment_of (filter (is_due none) ready.transactions)))
            (ledger_of memory_services ready))
batch_is_settled_example =
    batch_is_settled memory_services memory_services-IsServices filledup "h" 7 8 ready
      both_settleable zero_hash "g" 0 zero_bytes genesis_is_previous zero_hash_read (omega arith)
      (omega arith)
