-- ===== src/TestBadge/Script.antt =====
-- scripts/create_test_badge.py: the accounts, the transactions and the badge that `main` writes. The
-- random keys and the random pairs are arguments.
use zkp_rollup.Base.{ℕ, String, List, [], ◌∷◌, map, get_elem?}
use zkp_rollup.Base.Int.{ℤ, pos}
use zkp_rollup.Python.Result.{Result, ok, index_error, require, ◌>>=◌}
use zkp_rollup.Python.Bytes.{Bytes, codes}
use zkp_rollup.Utils.{hex_to_bytes, bytes_to_hex}
use zkp_rollup.Types.{SignatureData}
use zkp_rollup.Services.{Services}
use zkp_rollup.Client.{Signer}
use zkp_rollup.Validator.Json.{text, number, dumps}
use zkp_rollup.TestBadge.{AccountInformation}

-- The entry of a transaction in the badge.
pub record BadgeTransaction : Type 0 where
  pub from_key : String
  pub to_key : String
  pub amount : ℤ
  pub nonce : ℤ
  pub signature : SignatureData

pub record AccountView : Type 0 where
  pub public_key : String
  pub balance : ℤ
  pub nonce : ℤ

pub record Badge : Type 0 where
  pub old_merkle_root : String
  pub leaf_data : List AccountView
  pub transactions : List BadgeTransaction
  pub new_merkle_root : String
  pub badge_id : ℕ

-- `json.dumps(body, sort_keys=True, separators=(',', ':')).encode('utf-8')`
unfoldable pub serialized : String → String → ℤ → Bytes
serialized from_key to_key nonce = dumps (
    (codes "amount", number (pos 1))
    ∷ (codes "from", text (codes from_key))
    ∷ (codes "nonce", number nonce)
    ∷ (codes "to", text (codes to_key))
    ∷ [])

abbrev pub view_of : AccountInformation → AccountView
view_of acc = record { public_key = acc.public_key; balance = acc.balance; nonce = acc.nonce }

abbrev pub view_on_account_information : List AccountInformation → List AccountView
view_on_account_information = map view_of

module _ (v : Services) (s : Signer v.crypto) where
  unfoldable pub create_account_information : List Bytes → Result (List AccountInformation)
  create_account_information [] = ok []
  create_account_information (private_key_bytes ∷ drawn) = do
    private_key ← s.private_key_of private_key_bytes
    accounts ← create_account_information drawn
    ok (
        (record {
          private_key = bytes_to_hex private_key_bytes;
          public_key = bytes_to_hex (s.key_bytes (s.public_key private_key));
          balance = pos 1000;
          nonce = pos 0;
        })
        ∷ accounts)

  unfoldable pub create_transaction : List AccountInformation → ℕ → ℕ → Result BadgeTransaction
  create_transaction account_information from_index to_index = do
    from_acc ← require index_error (get_elem? account_information from_index)
    to_acc ← require index_error (get_elem? account_information to_index)
    let tx_hash = v.crypto.sha256 (serialized from_acc.public_key to_acc.public_key from_acc.nonce)
    private_key_bytes ← hex_to_bytes from_acc.private_key
    private_key ← s.private_key_of private_key_bytes
    ok (record {
      from_key = from_acc.public_key;
      to_key = to_acc.public_key;
      amount = pos 1;
      nonce = from_acc.nonce;
      signature = record {
        pub_key = from_acc.public_key;
        signature = bytes_to_hex (s.signature_bytes (s.sign_msg_hash private_key tx_hash));
      };
    })
