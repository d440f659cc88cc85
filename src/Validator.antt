-- ===== src/Validator.antt =====
-- sequencer/src/TransactionValidator.py: the check of a signature. The signed message is the JSON
-- text of the body with sorted keys (Validator/Json.antt).
pub mod Json
pub mod Laws
use zkp_rollup.Base.{String, Bool, false, List, [], ◌∷◌, ◌++◌, Option, none, some}
use zkp_rollup.Base.Int.{ℤ}
use zkp_rollup.Python.Result.{Result, ok, raised, attribute_error, require, ◌>>=◌}
use zkp_rollup.Python.Bytes.{Bytes, codes}
use zkp_rollup.Utils.{hex_to_bytes}
use zkp_rollup.Types.{Transaction}
use zkp_rollup.Services.{Services}
use Json.{null, text, number, str_int, dumps}

abbrev pub text_or_null : Option String → Json.Json
text_or_null none = null
text_or_null (some s) = text (codes s)

abbrev pub number_or_null : Option ℤ → Json.Json
number_or_null none = null
number_or_null (some n) = number n

-- `json.dumps(tx_body, separators=(",", ":"), sort_keys=True).encode("utf-8")`
unfoldable pub message_bytes : Transaction → Bytes
message_bytes t = dumps (
    (codes "amount", text (str_int t.amount))
    ∷ (codes "nonce", number_or_null t.nonce)
    ∷ (codes "receiver", text_or_null t.receiver)
    ∷ (codes "sender", text (codes t.sender))
    ∷ [])

-- `except Exception: return False`
abbrev pub or_false : Result Bool → Bool
or_false (ok b) = b
or_false (raised e) = false

module _ (v : Services) where
  unfoldable pub check_transaction_validity : Transaction → Bool
  check_transaction_validity t = or_false (do
    signature_text ← require attribute_error t.signature
    signature_bytes ← hex_to_bytes signature_text
    pub_key_text ← require attribute_error t.pub_key
    pubkey_bytes ← hex_to_bytes pub_key_text
    signature ← v.crypto.signature_of signature_bytes
    public_key ← v.crypto.public_key_of pubkey_bytes
    v.crypto.verify_msg public_key (message_bytes t) signature)
