-- ===== src/Tests/Payments.antt =====
-- A payment of the load generator at concrete inputs, from its task to the block.
use zkp_rollup.Base.{◌≡◌, ◌≢◌, refl, ap, String, true, false, [], ◌∷◌, ◌==◌, some, string_eq, arith}
use zkp_rollup.Base.Int.{pos, ◌+ℤ◌, ◌-ℤ◌}
use zkp_rollup.Python.Result.{ok}
use zkp_rollup.Python.Bytes.{Bytes, from_hex}
use zkp_rollup.Utils.{hex_to_bytes}
use zkp_rollup.Types.{filledup}
use zkp_rollup.State.{World}
use zkp_rollup.State.Accounts.{find_account}
use zkp_rollup.MerkleTree.{accounts_collection, latest_balance}
use zkp_rollup.MerkleTree.Transfer.Funds.{Leaves}
use zkp_rollup.Block.{
  zero_address, any_document, point_to, form_new_L2_block, get_previous_block_information,
}
use zkp_rollup.Block.Form.{new_badge}
use zkp_rollup.Setup.{zero_hash}
use zkp_rollup.Client.User.{sequencer_api, user_task}
use zkp_rollup.Client.Quiet.{IsQuiet}
use zkp_rollup.Client.Settled.{payment_is_settled}
use zkp_rollup.Tests.Ledger.{bob_account, bob}
use zkp_rollup.Tests.Load.{
  bit_services, bit_signer, bit_services-IsServices, bit_signer-IsSigner, load_world,
  layer_2_accounts, alice_pays_bob,
}

abbrev quiet_world : World bit_services
quiet_world = record load_world { transactions = [] }

bob_ne_zero : bob ≢ zero_address
unfolding string_eq
bob_ne_zero e = let apart : true ≡ false = ap (λ (s : String). s == bob) e in cc

quiet : IsQuiet bit_services bit_signer layer_2_accounts 0 1 quiet_world
unfolding hex_to_bytes from_hex find_account string_eq accounts_collection latest_balance
    alice_pays_bob
quiet = record {
  pay = alice_pays_bob quiet_world refl;
  payee = bob_account;
  payee_found = refl;
  payer_fresh = refl;
  payee_fresh = refl;
  payer_key = 1 ∷ [];
  payee_key = 2 ∷ [];
  payer_hex = refl;
  payee_hex = refl;
  apart = λ e. cc;
  payer_balance = 10;
  payer_nonce = 0;
  payee_balance = 5;
  payee_nonce = 0;
  payer_has = (refl, refl);
  payee_has = (refl, refl);
  payer_fits = (omega arith, omega arith, omega arith);
  payee_fits = (omega arith, omega arith);
  nothing_due = refl;
  no_withdrawal = bob_ne_zero;
  some_room = λ e. absurd (omega (arith, e));
}

genesis_is_previous :
    get_previous_block_information bit_services quiet_world ≡ some (zero_hash, 0, "g")
unfolding get_previous_block_information string_eq
genesis_is_previous = refl

abbrev zero_bytes : Bytes
zero_bytes = bit_services.crypto.sha256 []

zero_hash_read : hex_to_bytes zero_hash ≡ ok zero_bytes
unfolding hex_to_bytes from_hex
zero_hash_read = refl

payment_is_settled_example :
    let (posting, waiting) =
      user_task bit_signer layer_2_accounts
        (sequencer_api bit_services "s" "t" 9)
        0
        1
        quiet_world in
    let (forming, new) = form_new_L2_block bit_services filledup "h" 10 11 waiting in
    (posting ≡ ok tt)
    × (forming ≡ ok tt)
    × ((h : String) × (new.badges
          ≡ bit_services.mongo.insert_one
              (new_badge bit_services filledup "h" 11 new (zero_hash, 0, "g") h ("t" ∷ []))
              quiet_world.badges))
    × (new.curr ≡ bit_services.mongo.update_one any_document (point_to "h") quiet_world.curr)
    × Leaves bit_services
        (1 ∷ [])
        (2 ∷ [])
        quiet_world
        new
        (pos 10 -ℤ pos 1, pos 0 +ℤ pos 1)
        (pos 5 +ℤ pos 1, pos 0)
unfolding quiet alice_pays_bob
payment_is_settled_example =
    payment_is_settled bit_services bit_signer bit_services-IsServices bit_signer-IsSigner
      layer_2_accounts 0 1 quiet_world quiet "s" "t" 9 (omega arith) "h" 10 11 zero_hash "g" 0
      zero_bytes genesis_is_previous zero_hash_read (omega arith) (omega arith)
