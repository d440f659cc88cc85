-- ===== src/Client.antt =====
-- client/chain_client.py: the transaction that the load generator signs and submits. Keys are the
-- eth_keys package's, a parameter of the model.
pub mod Laws
pub mod User
pub mod Accepted
pub mod Quiet
pub mod Settled
pub mod Deposits
pub mod Body
use zkp_rollup.Base.{ℕ, ◌≡◌, ◌<◌, Bool, true, String, List, [], ◌∷◌, All, get_elem?}
use zkp_rollup.Base.Int.{ℤ, pos}
use zkp_rollup.Python.Result.{Result, ok, raised, index_error, require, ◌>>=◌}
use zkp_rollup.Python.Bytes.{Bytes, codes}
use zkp_rollup.Utils.{hex_to_bytes, bytes_to_hex}
use zkp_rollup.Types.{TransactionRequest}
use zkp_rollup.Services.Crypto.{Crypto}
use zkp_rollup.Validator.Json.{text, number, str_int, dumps}

-- `keys.PrivateKey`, its public key, `sign_msg`, `sign_msg_hash`, and the bytes that `to_hex` writes.
pub record Signer (c : Crypto) : Type 1 where
  pub PrivateKey : Type 0
  pub private_key_of : Bytes → Result PrivateKey
  pub public_key : PrivateKey → c.PublicKey
  pub sign_msg : PrivateKey → Bytes → c.Signature
  pub sign_msg_hash : PrivateKey → Bytes → c.Signature
  pub key_bytes : c.PublicKey → Bytes
  pub signature_bytes : c.Signature → Bytes

-- What is written as bytes is read back, and a key verifies what its private key signed.
pub record IsSigner {c : Crypto} (s : Signer c) : Type 0 where
  pub key_read : (k : c.PublicKey) → c.public_key_of (s.key_bytes k) ≡ ok k
  pub key_is_bytes : (k : c.PublicKey) → All (λ b. b < 256) (s.key_bytes k)
  pub signature_read : (g : c.Signature) → c.signature_of (s.signature_bytes g) ≡ ok g
  pub signature_is_bytes : (g : c.Signature) → All (λ b. b < 256) (s.signature_bytes g)
  pub signed :
      (k : s.PrivateKey) (msg : Bytes)
      → c.verify_msg (s.public_key k) msg (s.sign_msg k msg) ≡ ok true

-- An account of funded_accounts.json: `pub_key` and `priv_key`.
pub record ClientAccount : Type 0 where
  pub pub_key : String
  pub priv_key : String

abbrev pub amount : ℤ
amount = pos 1

-- `json.dumps(trans_body, separators=(",", ":"), sort_keys=True).encode("utf-8")`
unfoldable pub client_message : String → String → ℤ → Bytes
client_message sender receiver nonce = dumps (
    (codes "amount", text (str_int amount))
    ∷ (codes "nonce", number nonce)
    ∷ (codes "receiver", text (codes receiver))
    ∷ (codes "sender", text (codes sender))
    ∷ [])

module _ {c : Crypto} (s : Signer c) where
  -- The body is posted as JSON; it is given here as the request that the service reads from it.
  unfoldable pub create_transaction : ClientAccount → ClientAccount → ℤ → Result TransactionRequest
  unfolding client_message
  create_transaction sender receiver nonce = do
    private_key_bytes ← hex_to_bytes sender.priv_key
    private_key ← s.private_key_of private_key_bytes
    let message_bytes = client_message sender.pub_key receiver.pub_key nonce
    let signature = s.sign_msg private_key message_bytes
    ok (record {
      sender = sender.pub_key;
      receiver = receiver.pub_key;
      amount = amount;
      nonce = nonce;
      signature = record {
        pub_key = bytes_to_hex (s.key_bytes (s.public_key private_key));
        signature = bytes_to_hex (s.signature_bytes signature);
      };
    })

  unfoldable pub create_transaction_to_submit :
      List ClientAccount → ℤ → ℕ → ℕ → Result TransactionRequest
  create_transaction_to_submit layer_2_accounts nonce a b = do
    sender ← require index_error (get_elem? layer_2_accounts a)
    receiver ← require index_error (get_elem? layer_2_accounts b)
    create_transaction sender receiver nonce
