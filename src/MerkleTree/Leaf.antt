-- ===== src/MerkleTree/Leaf.antt =====
-- `leaf_to_bytes` and `hash_account_to_leaf_value` of sequencer/src/MerkleTreeController.py: a leaf
-- is eight bytes of balance, eight of nonce, and the bytes of the address.
pub mod Laws
use zkp_rollup.Base.{◌++◌, String}
use zkp_rollup.Base.Int.{ℤ, pos}
use zkp_rollup.Python.Result.{Result, ok, ◌>>=◌}
use zkp_rollup.Python.Bytes.{Bytes, to_bytes}
use zkp_rollup.Utils.{hex_to_bytes}

unfoldable pub leaf_to_bytes : ℤ → ℤ → String → Result Bytes
leaf_to_bytes balance nonce account = do
  nonce_bytes ← to_bytes 8 nonce
  balance_bytes ← to_bytes 8 balance
  hashes_pub ← hex_to_bytes account
  ok (balance_bytes ++ nonce_bytes ++ hashes_pub)

-- An account of funded_accounts.json: `pub_key` and `balance`.
pub record FundedAccount : Type 0 where
  pub pub_key : String
  pub balance : ℤ

unfoldable pub hash_account_to_leaf_value : FundedAccount → Result Bytes
hash_account_to_leaf_value account = do
  nonce_bytes ← to_bytes 8 (pos 0)
  balance_bytes ← to_bytes 8 account.balance
  hashes_pub ← hex_to_bytes account.pub_key
  ok (balance_bytes ++ nonce_bytes ++ hashes_pub)
