-- ===== src/Block/Hash.antt =====
-- The hashes of sequencer/src/BlockController.py: of a transaction, of a batch (rolling), of a block.
pub mod Laws
use zkp_rollup.Base.{ℕ, String, ◌++◌, List, [], ◌∷◌, Option, none, some}
use zkp_rollup.Base.Int.{ℤ, pos}
use zkp_rollup.Python.Result.{
  Result, ok, raised, attribute_error, value_error, require, except_none, ◌>>=◌,
}
use zkp_rollup.Python.Bytes.{Bytes, to_bytes, le_bytes, hex}
use zkp_rollup.Utils.{hex_to_bytes}
use zkp_rollup.Types.{Transaction}
use zkp_rollup.Services.{Services}

-- `b"0"`, the character, stands for a receiver that is None.
abbrev pub receiver_bytes : Option String → Result Bytes
receiver_bytes none = ok (b'0' ∷ [])
receiver_bytes (some receiver) = hex_to_bytes receiver

module _ (v : Services) where
  unfoldable pub create_transaction_hash : Transaction → Result Bytes
  create_transaction_hash t = do
    sender_bytes ← hex_to_bytes t.sender
    receiver ← receiver_bytes t.receiver
    nonce ← require attribute_error t.nonce
    nonce_bytes ← to_bytes 8 nonce
    amount_bytes ← to_bytes 8 t.amount
    received_bytes ← to_bytes 8 (pos t.received_at)
    ok (v.crypto.sha256 (sender_bytes ++ receiver ++ nonce_bytes ++ amount_bytes ++ received_bytes))

  -- The first hash is over eight zero bytes.
  abbrev pub hash_so_far : Option Bytes → Bytes
  hash_so_far none = le_bytes 8 0
  hash_so_far (some resulting_hash) = resulting_hash

  unfoldable pub rolling_from : Option Bytes → List Transaction → Result Bytes
  rolling_from resulting_hash [] = ok (hash_so_far resulting_hash)
  rolling_from resulting_hash (t ∷ ts) = do
    tx_hash ← create_transaction_hash t
    rolling_from (some (v.crypto.sha256 (hash_so_far resulting_hash ++ tx_hash))) ts

  -- The early return for no transactions is the first clause of the loop.
  unfoldable pub create_rolling_transaction_hash : List Transaction → Result Bytes
  unfolding rolling_from
  create_rolling_transaction_hash transactions = rolling_from none transactions

  -- `bytes.fromhex("0")` raises.
  abbrev pub previous_hash_bytes : Option String → Result Bytes
  previous_hash_bytes none = raised value_error
  previous_hash_bytes (some previous_block_hash) = hex_to_bytes previous_block_hash

  -- The source catches every exception and so returns None.
  unfoldable pub create_block_hash : ℕ → ℕ → List Transaction → Option String → Option String
  create_block_hash blocknumber timestamp transactions previous_block_hash = except_none (do
    rolling_tx_hash ← create_rolling_transaction_hash transactions
    blocknumber_bytes ← to_bytes 8 (pos blocknumber)
    timestamp_bytes ← to_bytes 8 (pos timestamp)
    prev_block_hash_bytes ← previous_hash_bytes previous_block_hash
    ok (
        hex (
          v.crypto.sha256
            (blocknumber_bytes ++ timestamp_bytes ++ prev_block_hash_bytes ++ rolling_tx_hash))))
