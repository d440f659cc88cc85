-- ===== src/Tests/Bytes.antt =====
-- Encodings: leaves, hexadecimal and decimal text, hashes, signatures, at concrete inputs.
use zkp_rollup.Base.{◌≡◌, refl, [], ◌∷◌, ◌++◌, true, ◌↔◌, none, some}
use zkp_rollup.Base.Int.{pos}
use zkp_rollup.Python.Result.{ok}
use zkp_rollup.Python.Bytes.{Bytes, codes, to_bytes, from_hex}
use zkp_rollup.Utils.{hex_to_bytes}
use zkp_rollup.MerkleTree.Leaf.{leaf_to_bytes}
use zkp_rollup.MerkleTree.Leaf.Laws.{
  leaf_balance, leaf_nonce, leaf_address, leaf_to_bytes-decode, leaf_to_bytes-ok_iff, FitsU64,
}
use zkp_rollup.MerkleTree.Index.{find_update_index, find_update_index-none}
use zkp_rollup.Validator.{check_transaction_validity, message_bytes}
use zkp_rollup.Validator.Json.{str_nat, dumps}
use zkp_rollup.Validator.Laws.{IsSigned, check_transaction_validity-true_iff}
use zkp_rollup.Block.Hash.{create_rolling_transaction_hash}
use zkp_rollup.Block.Hash.Laws.{roll, create_rolling_transaction_hash-append}
use zkp_rollup.Tests.Ledger.{memory_services, alice, alice_pays, bob_pays}

reads_without_prefix : hex_to_bytes "0aFF" ≡ ok (10 ∷ 255 ∷ [])
unfolding hex_to_bytes from_hex
reads_without_prefix = refl

abbrev leaf_of_alice : Bytes
leaf_of_alice = 44 ∷ 1 ∷ 0 ∷ 0 ∷ 0 ∷ 0 ∷ 0 ∷ 0 ∷ 2 ∷ 0 ∷ 0 ∷ 0 ∷ 0 ∷ 0 ∷ 0 ∷ 0 ∷ 1 ∷ []

leaf_is_little_endian : leaf_to_bytes (pos 300) (pos 2) alice ≡ ok leaf_of_alice
unfolding leaf_to_bytes hex_to_bytes to_bytes from_hex
leaf_is_little_endian = refl

leaf_to_bytes-decode_example :
    (leaf_balance leaf_of_alice ≡ pos 300)
    × (leaf_nonce leaf_of_alice ≡ pos 2)
    × (hex_to_bytes alice ≡ ok (leaf_address leaf_of_alice))
leaf_to_bytes-decode_example =
    leaf_to_bytes-decode (pos 300) (pos 2) alice leaf_of_alice leaf_is_little_endian

leaf_to_bytes-ok_iff_example :
    ((leaf : Bytes) × (leaf_to_bytes (pos 300) (pos 2) alice ≡ ok leaf)) ↔ (
      FitsU64 (pos 300) × FitsU64 (pos 2) × ((address : Bytes) × (hex_to_bytes alice ≡ ok address)))
leaf_to_bytes-ok_iff_example = leaf_to_bytes-ok_iff (pos 300) (pos 2) alice

find_update_index-none_example :
    find_update_index "badge" (
      (record {
        balance_before = pos 1;
        balance_after = pos 2;
        nonce_before = pos 0;
        nonce_after = pos 0;
        transactions = some "t" ∷ [];
        badge_id = "badge";
      })
      ∷ [])
    ≡ none
find_update_index-none_example = find_update_index-none "badge" (
    (record {
      balance_before = pos 1;
      balance_after = pos 2;
      nonce_before = pos 0;
      nonce_after = pos 0;
      transactions = some "t" ∷ [];
      badge_id = "badge";
    })
    ∷ [])

decimal_text : str_nat 1204 ≡ codes "1204"
unfolding str_nat
decimal_text = refl

signed_message :
    message_bytes alice_pays
    ≡ codes "{\"amount\":\"3\",\"nonce\":0,\"receiver\":\"0x02\",\"sender\":\"0x01\"}"
unfolding message_bytes dumps
signed_message = refl

check_transaction_validity-true_iff_example :
    (check_transaction_validity memory_services alice_pays ≡ true)
    ↔ IsSigned memory_services alice_pays
check_transaction_validity-true_iff_example =
    check_transaction_validity-true_iff memory_services alice_pays

create_rolling_transaction_hash-append_example :
    create_rolling_transaction_hash memory_services ((alice_pays ∷ []) ++ bob_pays ∷ [])
    ≡ roll memory_services
        (create_rolling_transaction_hash memory_services (alice_pays ∷ []))
        bob_pays
create_rolling_transaction_hash-append_example =
    create_rolling_transaction_hash-append memory_services (alice_pays ∷ []) bob_pays
