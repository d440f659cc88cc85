-- ===== src/MerkleTree/Deposit.antt =====
-- `handle_deposit_transaction` of sequencer/src/MerkleTreeController.py.
use zkp_rollup.Base.{◌≡◌, ◌≢◌, ◌⊎◌, refl, arith}
use zkp_rollup.Base.Int.{pos}
use zkp_rollup.Python.Result.{ok}
use zkp_rollup.Python.Bytes.{Bytes}
use zkp_rollup.Utils.{hex_to_bytes}
use zkp_rollup.Types.{Transaction}
use zkp_rollup.Services.{Services, IsServices}
use zkp_rollup.Services.Smt.{get-update_self, get-update_ne}
use zkp_rollup.State.{World}
use zkp_rollup.MerkleTree.{handle_deposit_transaction}
use zkp_rollup.MerkleTree.Leaf.{leaf_to_bytes}
use zkp_rollup.MerkleTree.Leaf.Laws.{
  leaf_balance, leaf_nonce, leaf_to_bytes-decode, leaf_to_bytes-ok_iff, FitsU64,
}
use zkp_rollup.MerkleTree.Transfer.Funds.{leaf_at}

module _ (v : Services) (t : Transaction) (w : World v) where
  handle_deposit-ok :
      (key leaf : Bytes)
      → leaf_to_bytes t.amount (pos 0) t.sender ≡ ok leaf
      → hex_to_bytes t.sender ≡ ok key
      → handle_deposit_transaction v t w
        ≡ (ok tt, record w { sparse_merkle_tree = v.smt.update key leaf w.sparse_merkle_tree })
  unfolding handle_deposit_transaction
  handle_deposit-ok key leaf encoded hex = ground (arith, encoded, hex)

  -- A deposit either returns, or raises and leaves the database and the tree as they were.
  pub deposit_atomic : let (r, new) = handle_deposit_transaction v t w in (r ≡ ok tt) ⊎ (new ≡ w)
  unfolding handle_deposit_transaction
  deposit_atomic = ground arith

  module _ (lawful : IsServices v) (key : Bytes) (hex : hex_to_bytes t.sender ≡ ok key)
      (fits : FitsU64 t.amount) where
    -- A deposit of an amount that fits in eight bytes, to a hexadecimal address, returns; the leaf of
    -- the address then holds the amount and nonce 0, whatever balance and nonce it held before, and
    -- no other leaf changes.
    pub deposit_replaces_leaf :
        let (r, new) = handle_deposit_transaction v t w in
        (r ≡ ok tt)
        × (leaf_balance (leaf_at v key new) ≡ t.amount)
        × (leaf_nonce (leaf_at v key new) ≡ pos 0)
        × ((other : Bytes) → other ≢ key → leaf_at v other new ≡ leaf_at v other w)
    deposit_replaces_leaf =
        let (leaf, encoded) =
          (leaf_to_bytes-ok_iff t.amount (pos 0) t.sender).1 (fits, omega arith, (key, hex)) in
        let (balance, nonce, _) = leaf_to_bytes-decode _ _ _ leaf encoded in
        let tree = w.sparse_merkle_tree in
        let at_key = get-update_self v.smt lawful.smt tree key leaf in
        rw (handle_deposit-ok key leaf encoded hex)
          (refl, rw at_key balance, rw at_key nonce, get-update_ne v.smt lawful.smt tree key leaf)
