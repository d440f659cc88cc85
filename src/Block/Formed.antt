-- ===== src/Block/Formed.antt =====
-- When `form_new_L2_block` does write a block.
use zkp_rollup.Base.{
  ℕ, ◌+◌, ◌<◌, ◌^◌, ◌≡◌, ◌∙◌, refl, String, List, [], ◌∷◌, ◌++◌, Option, none, some, All,
  Bool-cases, inl, inr,
}
use zkp_rollup.Python.Result.{ok}
use zkp_rollup.Python.Bytes.{Bytes, le_bytes, hex}
use zkp_rollup.Python.Bytes.Laws.{to_bytes-fits}
use zkp_rollup.Utils.{hex_to_bytes}
use zkp_rollup.Types.{Transaction, BadgeExecutionCause}
use zkp_rollup.Services.{Services}
use zkp_rollup.State.{World}
use zkp_rollup.MemPool.{ids_of, contains}
use zkp_rollup.MerkleTree.{checked_texts}
use zkp_rollup.Block.{
  form_new_L2_block, get_previous_block_information, any_document, point_to, survivors,
}
use zkp_rollup.Block.Hash.{
  create_transaction_hash, hash_so_far, rolling_from, create_rolling_transaction_hash,
  create_block_hash,
}
use zkp_rollup.Block.Form.{
  batch_of, applied, delta, form-eq, finish_block-ok, drawn-SameBlocks, new_badge, same_previous,
}

module _ (v : Services) where
  -- A transaction that can be hashed and has an identifier.
  pub record IsHashed (t : Transaction) : Type 0 where
    pub digest : Bytes
    pub id : String
    pub hashed : create_transaction_hash v t ≡ ok digest
    pub named : t.transaction_id ≡ some id

  rolling_from-ok :
      (h : Option Bytes) (ts : List Transaction)
      → All IsHashed ts
      → (r : Bytes) × (rolling_from v h ts ≡ ok r)
  unfolding rolling_from
  rolling_from-ok h [] all = (_, refl)
  rolling_from-ok h (t ∷ ts) (one, all) =
      let (r, done) =
        rolling_from-ok (some (v.crypto.sha256 (hash_so_far v h ++ one.digest))) ts all in
      (r, rw one.hashed done)

  pub create_block_hash-some :
      (n timestamp : ℕ) (ts : List Transaction) (previous : String) (key : Bytes)
      → All IsHashed ts
      → n < 2 ^ 64
      → timestamp < 2 ^ 64
      → hex_to_bytes previous ≡ ok key
      → (h : String) × (create_block_hash v n timestamp ts (some previous) ≡ some h)
  unfolding create_block_hash create_rolling_transaction_hash
  create_block_hash-some n timestamp ts previous key all hn ht key_read =
      let (r, rolled) = rolling_from-ok none ts all in
      (
        hex (v.crypto.sha256 (le_bytes 8 n ++ le_bytes 8 timestamp ++ key ++ r)),
        rw rolled (rw (to_bytes-fits 8 n hn) (rw (to_bytes-fits 8 timestamp ht) (rw key_read))),
      )

  pub survivors-checked :
      (failed : List (Option String)) (ts : List Transaction)
      → All IsHashed ts
      → (ids : List String) × (checked_texts (ids_of (survivors failed ts)) ≡ some ids)
  unfolding checked_texts
  survivors-checked failed [] all = ([], refl)
  survivors-checked failed (t ∷ ts) (one, all) =
      let (ids, done) = survivors-checked failed ts all in
      elim (Bool-cases (contains failed t.transaction_id)) [
        | inl e ↦ (ids, rw e done)
        | inr e ↦ (one.id ∷ ids, rw e (rw one.named (rw done)))
      ]

  -- A round whose batch can be hashed and has identifiers, where the pointer names a block whose
  -- hash is hexadecimal and number and time fit in eight bytes, returns and writes one block, with
  -- the next number, and moves the pointer to it.
  pub block_is_written :
      (cause : BadgeExecutionCause) (badge_id : String) (now timestamp : ℕ) (w : World v)
      (blockhash prev_id : String) (blocknumber : ℕ) (key : Bytes)
      → get_previous_block_information v w ≡ some (blockhash, blocknumber, prev_id)
      → hex_to_bytes blockhash ≡ ok key
      → blocknumber + 1 < 2 ^ 64
      → timestamp < 2 ^ 64
      → All IsHashed (batch_of v cause badge_id now timestamp w)
      → let (r, new) = form_new_L2_block v cause badge_id now timestamp w in
        (r ≡ ok tt)
        × ((h : String) × (ids : List String) × (new.badges
              ≡ v.mongo.insert_one
                  (new_badge v cause badge_id timestamp
                    (applied v cause badge_id now timestamp w).1
                    (blockhash, blocknumber, prev_id)
                    h
                    ids)
                  w.badges))
        × (new.curr ≡ v.mongo.update_one any_document (point_to badge_id) w.curr)
  block_is_written cause badge_id now timestamp w blockhash prev_id blocknumber key previous
        key_read hn ht all =
      let s = (applied v cause badge_id now timestamp w).1 in
      let batch = batch_of v cause badge_id now timestamp w in
      let (badges, curr) = drawn-SameBlocks v cause badge_id now timestamp w in
      let (h, hashed) =
        create_block_hash-some (blocknumber + 1) timestamp batch blockhash key all hn ht key_read in
      let (ids, checked) =
        survivors-checked (applied v cause badge_id now timestamp w).0 batch all in
      let found : get_previous_block_information v s ≡ some (blockhash, blocknumber, prev_id) =
        same_previous v s w badges curr ∙ previous in
      let written =
        finish_block-ok v cause badge_id timestamp batch (delta v cause badge_id now timestamp w) s
          (blockhash, blocknumber, prev_id) h ids found hashed checked in
      rw (form-eq v cause badge_id now timestamp w)
        (rw written (refl, (h, ids, rw badges), rw curr))
