-- ===== src/Utils/Message.antt =====
-- `create_message_from_transaction_body` of sequencer/src/utils.py, which nothing calls. `keccak` is the
-- hash of the eth_utils package, on the UTF-8 bytes of its text.
use zkp_rollup.Base.{ℕ, ◌≡◌, refl, String, [], ◌∷◌}
use zkp_rollup.Python.Float.{IsExact, to_float-exact}
use zkp_rollup.Python.Bytes.{Bytes, codes}
use zkp_rollup.Types.{TransactionRequest}
use zkp_rollup.Validator.{message_bytes}
use zkp_rollup.Validator.Json.{text, number, str_int, dumps}
use zkp_rollup.Block.{enrich_transaction}

module _ (keccak : Bytes → Bytes) where
  unfoldable pub create_message_from_transaction_body : TransactionRequest → Bytes
  create_message_from_transaction_body body = keccak (
      dumps (
        (codes "amount", text (str_int body.amount))
        ∷ (codes "nonce", number body.nonce)
        ∷ (codes "receiver", text (codes body.receiver))
        ∷ (codes "sender", text (codes body.sender))
        ∷ []))

  -- For an amount below 2 ^ 53 it hashes the very bytes that the signature of the submitted
  -- transaction is checked against.
  create_message-message_bytes :
      (request : TransactionRequest) (submission_id transaction_id : String) (now : ℕ)
      → IsExact request.amount
      → create_message_from_transaction_body request
        ≡ keccak (message_bytes (enrich_transaction request submission_id transaction_id now))
  unfolding create_message_from_transaction_body message_bytes enrich_transaction
  create_message-message_bytes request submission_id transaction_id now exact =
      rw (to_float-exact request.amount exact) refl
