-- ===== src/Block/Form.antt =====
-- `form_new_L2_block` as a whole: its batch, its state after the batch, and the block it writes.
use zkp_rollup.Base.{
  ℕ, ◌+◌, ◌≡◌, inl, inr, refl, sym, ap, ◌∙◌, String, List, [], Option, none, some, arith,
  Option-cases,
}
use zkp_rollup.Python.Result.{Result, ok, raised}
use zkp_rollup.Python.Exec.{handle, pure}
use zkp_rollup.Utils.{add_0x_prefix}
use zkp_rollup.Types.{
  Transaction, TransactionBadge, BadgeExecutionCause, timedout, filledup, send_to_verify,
}
use zkp_rollup.Services.{Services}
use zkp_rollup.State.{World}
use zkp_rollup.MemPool.{due, get_transaction_for_badge, ids_of}
use zkp_rollup.MerkleTree.{checked_texts, get_merkle_root}
use zkp_rollup.Block.{
  survivors, transactions_for_cause, update_from, update_merkle_tree, finish_block,
  form_new_L2_block, insert_new_badge, get_previous_block_information, any_document, point_to,
}
use zkp_rollup.Block.Hash.{create_block_hash}
use zkp_rollup.Block.Frame.{update_from-SameBlocks, transactions_for_cause-SameBlocks}

-- The bound on the time of a batch: one for a time-out, none for a full queue.
abbrev pub bound_of : BadgeExecutionCause → ℕ → Option ℕ
bound_of timedout last_timestamp = some last_timestamp
bound_of filledup last_timestamp = none

drawn_eq :
    (v : Services) (cause : BadgeExecutionCause) (w : World v)
    → transactions_for_cause v cause w
      ≡ (ok (due v (bound_of cause w.last_timestamp) w), (transactions_for_cause v cause w).1)
unfolding transactions_for_cause get_transaction_for_badge
drawn_eq v timedout w = refl
drawn_eq v filledup w = refl

module _ (v : Services) where
  -- What the writing of a block comes to, from a state: nothing, or one block more, whose number and
  -- predecessor come from the block that the pointer named, and the pointer names it.
  pub data Round (w : World v) (badge_id : String) (delta : List Transaction) (new : World v)
      : Type 0 where
    nothing : new.badges ≡ w.badges → new.curr ≡ w.curr → Round w badge_id delta new
    block :
        (badge : TransactionBadge) (blockhash prev_id : String) (blocknumber : ℕ)
        → get_previous_block_information v w ≡ some (blockhash, blocknumber, prev_id)
        → badge.badge_id ≡ badge_id
        → badge.blocknumber ≡ blocknumber + 1
        → badge.prev_badge ≡ some prev_id
        → checked_texts (ids_of delta) ≡ some badge.transactions
        → badge.state_root ≡ get_merkle_root v new
        → new.badges ≡ v.mongo.insert_one badge w.badges
        → new.curr ≡ v.mongo.update_one any_document (point_to badge_id) w.curr
        → Round w badge_id delta new

  pub same_previous :
      (a b : World v)
      → a.badges ≡ b.badges
      → a.curr ≡ b.curr
      → get_previous_block_information v a ≡ get_previous_block_information v b
  unfolding get_previous_block_information
  same_previous a b same_badges same_curr = ground arith

  -- The block that is written.
  abbrev pub new_badge :
      BadgeExecutionCause
      → String
      → ℕ
      → World v
      → String × ℕ × String
      → String
      → List String
      → TransactionBadge
  new_badge cause badge_id timestamp s (blockhash, blocknumber, prev_id) h ids = record {
    badge_id = badge_id;
    status = send_to_verify;
    blockhash = add_0x_prefix h;
    state_root = get_merkle_root v s;
    blocknumber = blocknumber + 1;
    timestamp = timestamp;
    execution_cause = some cause;
    transactions = ids;
    prev_badge = some prev_id;
  }

  abbrev pub with_badge : TransactionBadge → World v → World v
  with_badge badge s = record s {
    badges = v.mongo.insert_one badge s.badges;
    curr = v.mongo.update_one any_document (point_to badge.badge_id) s.curr;
  }

  pub finish_block-ok :
      (cause : BadgeExecutionCause) (badge_id : String) (timestamp : ℕ)
      (batch delta : List Transaction) (s : World v) (previous : String × ℕ × String) (h : String)
      (ids : List String)
      → get_previous_block_information v s ≡ some previous
      → create_block_hash v (previous.1 + 1) timestamp batch (some previous.0) ≡ some h
      → checked_texts (ids_of delta) ≡ some ids
      → (finish_block v cause badge_id timestamp batch delta s).1
        ≡ with_badge (new_badge cause badge_id timestamp s previous h ids) s
  unfolding finish_block insert_new_badge
  finish_block-ok cause badge_id timestamp batch delta s previous h ids e e2 e3 =
      ground (arith, e, e2, e3)

  formed :
      (cause : BadgeExecutionCause) (badge_id : String) (delta : List Transaction) (s : World v)
      (timestamp : ℕ) (previous : String × ℕ × String) (h : String) (ids : List String)
      {new : World v}
      → get_previous_block_information v s ≡ some previous
      → checked_texts (ids_of delta) ≡ some ids
      → new ≡ with_badge (new_badge cause badge_id timestamp s previous h ids) s
      → Round s badge_id delta new
  unfolding get_merkle_root
  formed cause badge_id delta s timestamp (blockhash, blocknumber, prev_id) h ids e e3 done =
      block (new_badge cause badge_id timestamp s (blockhash, blocknumber, prev_id) h ids) blockhash
        prev_id blocknumber e refl refl refl e3 (rw done) (rw done) (rw done)

  pub finish_block-Round :
      (cause : BadgeExecutionCause) (badge_id : String) (timestamp : ℕ)
      (batch delta : List Transaction) (s : World v)
      → Round s badge_id delta (finish_block v cause badge_id timestamp batch delta s).1
  unfolding finish_block
  finish_block-Round cause badge_id timestamp batch delta s =
      elim (Option-cases (get_previous_block_information v s)) [
        | inl e ↦ nothing (ground (arith, e)) (ground (arith, e))
        | inr (previous, e) ↦
            elim (Option-cases
              (create_block_hash v (previous.1 + 1) timestamp batch (some previous.0))) [
                | inl e2 ↦ nothing (ground (arith, e, e2)) (ground (arith, e, e2))
                | inr (h, e2) ↦ elim (Option-cases (checked_texts (ids_of delta))) [
                  | inl e3 ↦ nothing (ground (arith, e, e2, e3)) (ground (arith, e, e2, e3))
                  | inr (ids, e3) ↦ formed cause badge_id delta s timestamp previous h ids e e3 (
                      finish_block-ok cause badge_id timestamp batch delta s previous h ids e e2 e3)
                ]
              ]
      ]

module _ (v : Services) (cause : BadgeExecutionCause) (badge_id : String) (now timestamp : ℕ)
    (w : World v) where
  -- The batch of a round, the state before it is applied, what failed and the state after it, and
  -- what the block holds of it.
  abbrev pub batch_of : List Transaction
  batch_of = due v (bound_of cause w.last_timestamp) w

  abbrev pub drawn : World v
  drawn = record (transactions_for_cause v cause w).1 { last_timestamp = now }

  abbrev pub applied : List (Option String) × World v
  applied = update_from v badge_id [] batch_of drawn

  abbrev pub delta : List Transaction
  delta = survivors applied.0 batch_of

  handled : (r : Result (Unit {0}) × World v) → handle (λ e. pure tt) r ≡ (ok tt, r.1)
  handled (ok done, s) = refl
  handled (raised e, s) = refl

  pub form-eq :
      form_new_L2_block v cause badge_id now timestamp w
      ≡ (ok tt, (finish_block v cause badge_id timestamp batch_of delta applied.1).1)
  unfolding form_new_L2_block update_merkle_tree
  form-eq =
      rw (drawn_eq v cause w)
        (handled (finish_block v cause badge_id timestamp batch_of delta applied.1))

  pub drawn-SameBlocks : (applied.1.badges ≡ w.badges) × (applied.1.curr ≡ w.curr)
  drawn-SameBlocks =
      let first = transactions_for_cause-SameBlocks v cause w in
      let second = update_from-SameBlocks v badge_id [] batch_of drawn in
      (second.badges ∙ first.badges, second.curr ∙ first.curr)

  -- A round of the consumer, whatever the state: either the blocks and the pointer stay as they were,
  -- or exactly one block is appended and the pointer moves to it. The new block then has the number
  -- after that of the block that the pointer named, names that block as its predecessor, holds the
  -- ids of the transactions of the batch that did not fail, and the root of the tree after them.
  pub form_new_L2_block-Round :
      Round v w badge_id delta (form_new_L2_block v cause badge_id now timestamp w).1
  form_new_L2_block-Round =
      rw form-eq (elim (finish_block-Round v cause badge_id timestamp batch_of delta applied.1) [
        | nothing b c ↦ nothing (b ∙ drawn-SameBlocks.0) (c ∙ drawn-SameBlocks.1)
        | block badge blockhash prev_id blocknumber e i n p t r b c ↦
            block badge blockhash prev_id blocknumber
              (sym (same_previous v applied.1 w drawn-SameBlocks.0 drawn-SameBlocks.1) ∙ e) i n p t
              r (b ∙ ap (v.mongo.insert_one badge) drawn-SameBlocks.0)
              (c ∙ ap (v.mongo.update_one any_document (point_to badge_id)) drawn-SameBlocks.1)
      ])
