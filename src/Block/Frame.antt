-- ===== src/Block/Frame.antt =====
-- What the steps of a batch leave alone: the blocks, their pointer, the queue and the counter.
use zkp_rollup.Base.{◌≡◌, string_eq, String, List, [], ◌∷◌, Option, arith}
use zkp_rollup.Python.Result.{Result, ok, raised}
use zkp_rollup.Python.Bytes.{Bytes}
use zkp_rollup.Types.{Transaction, BadgeExecutionCause, timedout, filledup}
use zkp_rollup.Services.{Services}
use zkp_rollup.State.{World}
use zkp_rollup.MemPool.{get_transaction_for_badge}
use zkp_rollup.MerkleTree.{
  update_leaf, update_sender_leaf_return_bytes, update_receiver_bytes_return_bytes,
  handle_deposit_transaction,
}
use zkp_rollup.Block.Kept.{Frames, transfer-Frames, apply_to-keeps}
use zkp_rollup.Block.{
  transactions_for_cause, apply_transaction, apply_to, note_failure, update_from,
  update_merkle_tree,
}

module _ (v : Services) where
  -- Two states with the same blocks, pointer, queue, counter and time.
  pub record SameBlocks (old new : World v) : Type 0 where
    pub badges : new.badges ≡ old.badges
    pub curr : new.curr ≡ old.curr
    pub queue : new.queue ≡ old.queue
    pub transaction_counter : new.transaction_counter ≡ old.transaction_counter
    pub last_timestamp : new.last_timestamp ≡ old.last_timestamp

  -- Two states that differ at most in the accounts and the tree.
  pub record OnlyLedger (old new : World v) : Type 0 where
    pub same : SameBlocks old new
    pub transactions : new.transactions ≡ old.transactions

  SameBlocks-refl : (w : World v) → SameBlocks w w
  SameBlocks-refl w = ground arith

  SameBlocks-trans : {a b c : World v} → SameBlocks a b → SameBlocks b c → SameBlocks a c
  SameBlocks-trans p q = ground arith

  OnlyLedger-refl : (w : World v) → OnlyLedger w w
  OnlyLedger-refl w = ground arith

  OnlyLedger-trans : {a b c : World v} → OnlyLedger a b → OnlyLedger b c → OnlyLedger a c
  OnlyLedger-trans p q = ground arith

  update_sender-OnlyLedger :
      (badge_id : String) (t : Transaction) (w : World v)
      → OnlyLedger w (update_sender_leaf_return_bytes v badge_id t w).1
  unfolding update_sender_leaf_return_bytes
  update_sender-OnlyLedger badge_id t w = ground arith

  update_receiver-OnlyLedger :
      (badge_id : String) (t : Transaction) (receiver : String) (w : World v)
      → OnlyLedger w (update_receiver_bytes_return_bytes v badge_id t receiver w).1
  unfolding update_receiver_bytes_return_bytes
  update_receiver-OnlyLedger badge_id t receiver w = ground arith

  deposit-OnlyLedger :
      (t : Transaction) (w : World v) → OnlyLedger w (handle_deposit_transaction v t w).1
  unfolding handle_deposit_transaction
  deposit-OnlyLedger t w = ground arith

  update_leaf-Frames :
      (account : String) (leaf : Bytes) → Frames OnlyLedger (update_leaf v account leaf)
  update_leaf-Frames account leaf w = ground arith

  pub apply_to-Frames :
      (badge_id : String) (t : Transaction) (receiver : Option String)
      → Frames OnlyLedger (apply_to v badge_id t receiver)
  apply_to-Frames badge_id t receiver =
      apply_to-keeps v OnlyLedger OnlyLedger-refl (λ a b c. OnlyLedger-trans) badge_id t receiver
        (λ e. deposit-OnlyLedger t)
        (λ to e.
          transfer-Frames v OnlyLedger OnlyLedger-refl (λ a b c. OnlyLedger-trans) badge_id t to
            (update_sender-OnlyLedger badge_id t) (update_leaf-Frames t.sender)
            (update_receiver-OnlyLedger badge_id t to) (update_leaf-Frames to))

  note_failure-SameBlocks :
      (failed : List (Option String)) (t : Transaction) (w : World v) (r : Result (Unit {0}))
      (s : World v)
      → SameBlocks w s
      → SameBlocks w (note_failure v failed t (r, s)).1
  unfolding note_failure
  note_failure-SameBlocks failed t w (ok done) s h = h
  note_failure-SameBlocks failed t w (raised e) s h = ground arith

  pub update_from-SameBlocks :
      (badge_id : String) (failed : List (Option String)) (ts : List Transaction) (w : World v)
      → SameBlocks w (update_from v badge_id failed ts w).1
  unfolding update_from apply_transaction
  update_from-SameBlocks badge_id failed [] w = SameBlocks-refl w
  update_from-SameBlocks badge_id failed (t ∷ ts) w =
      let (r, s) = apply_to v badge_id t t.receiver w in
      let (failed', s') = note_failure v failed t (r, s) in
      SameBlocks-trans
        (note_failure-SameBlocks failed t w r s (apply_to-Frames badge_id t t.receiver w).same)
        (update_from-SameBlocks badge_id failed' ts s')

  -- Applying a batch leaves the blocks, their pointer, the queue, the counter and the time alone.
  pub update_merkle_tree-SameBlocks :
      (batch : List Transaction) (badge_id : String) (w : World v)
      → SameBlocks w (update_merkle_tree v batch badge_id w).1
  unfolding update_merkle_tree
  update_merkle_tree-SameBlocks batch badge_id w = update_from-SameBlocks badge_id [] batch w

  pub transactions_for_cause-SameBlocks :
      (cause : BadgeExecutionCause) (w : World v)
      → SameBlocks w (transactions_for_cause v cause w).1
  unfolding transactions_for_cause get_transaction_for_badge
  transactions_for_cause-SameBlocks timedout w = ground arith
  transactions_for_cause-SameBlocks filledup w = ground arith
