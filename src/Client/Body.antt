-- ===== src/Client/Body.antt =====
-- `transaction_body_to_bytes` of client/chain_client.py, which nothing calls.
use zkp_rollup.Base.{◌≡◌, refl, String, ◌++◌, inl, inr}
use zkp_rollup.Base.Int.{ℤ}
use zkp_rollup.Python.Result.{Error, Result, ok, raised, attribute_error, Result-cases, ◌>>=◌}
use zkp_rollup.Python.Bytes.{Bytes, to_bytes}
use zkp_rollup.Utils.{hex_to_bytes}
use zkp_rollup.Validator.Json.{Json, null, text, number, str_int}
use zkp_rollup.Services.Crypto.{Crypto}
use zkp_rollup.Client.{amount}

-- The body before it is signed.
pub record TransactionBody : Type 0 where
  pub sender : String
  pub receiver : String
  pub amount : Json
  pub nonce : Json

-- `value.to_bytes(8, 'little')`: a text and None have no such method.
abbrev pub value_bytes : Json → Result Bytes
value_bytes null = raised attribute_error
value_bytes (text value) = raised attribute_error
value_bytes (number value) = to_bytes 8 value

module _ (c : Crypto) where
  unfoldable pub transaction_body_to_bytes : TransactionBody → Result Bytes
  transaction_body_to_bytes trans_body = do
    sender_bytes ← hex_to_bytes trans_body.sender
    receiver_bytes ← hex_to_bytes trans_body.receiver
    nonce_bytes ← value_bytes trans_body.nonce
    amount_bytes ← value_bytes trans_body.amount
    ok (c.sha256 (sender_bytes ++ receiver_bytes ++ nonce_bytes ++ amount_bytes))

  -- The body that `create_transaction` fills holds its amount as a text, so it cannot be hashed.
  created_not_hashed :
      (sender receiver : String) (nonce : ℤ)
      → (e : Error) × (transaction_body_to_bytes (record {
        sender = sender;
        receiver = receiver;
        amount = text (str_int amount);
        nonce = number nonce;
      })
          ≡ raised e)
  unfolding transaction_body_to_bytes
  created_not_hashed sender receiver nonce = elim (Result-cases (hex_to_bytes sender)) [
    | inr (e, h) ↦ (e, rw h refl)
    | inl (a, h) ↦ elim (Result-cases (hex_to_bytes receiver)) [
      | inr (e, h2) ↦ (e, rw h (rw h2 refl))
      | inl (b, h2) ↦ elim (Result-cases (to_bytes 8 nonce)) [
        | inr (e, h3) ↦ (e, rw h (rw h2 (rw h3 refl)))
        | inl (d, h3) ↦ (attribute_error, rw h (rw h2 (rw h3 refl)))
      ]
    ]
  ]
