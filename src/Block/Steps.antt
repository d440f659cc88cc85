-- ===== src/Block/Steps.antt =====
-- `form_new_L2_block` of sequencer/src/BlockController.py cut at the awaits where another task can run:
-- after the batch has been found, after it has been marked, and after each of its transactions. The
-- application of one transaction is taken to be whole; the writing of the block is one step, as no
-- other task reads or writes the blocks and their pointer.
use zkp_rollup.Base.{ℕ, zero, suc, ◌≡◌, refl, String, List, [], ◌∷◌, length, Option, ◌⊎◌, inl, inr}
use zkp_rollup.Types.{Transaction, BadgeExecutionCause, timedout, filledup}
use zkp_rollup.Services.{Services}
use zkp_rollup.State.{World}
use zkp_rollup.MemPool.{due, has_id_in, ids_of, include, get_transaction_for_badge}
use zkp_rollup.Block.{
  survivors, transactions_for_cause, apply_transaction, note_failure, update_from, finish_block,
  form_new_L2_block,
}
use zkp_rollup.Block.Form.{bound_of, batch_of, drawn, form-eq}

-- What a round draws: its cause from the queue, and its identifier and times.
pub record Draw : Type 0 where
  pub cause : BadgeExecutionCause
  pub badge_id : String
  pub now : ℕ
  pub timestamp : ℕ

-- Where the consumer waits: for a cause; to mark the batch that it found; or to apply the rest of the
-- batch, with the identifiers that have failed so far.
pub data Position : Type 0 where
  idle : Position
  selected : Draw → List Transaction → Position
  applying : Draw → List Transaction → List (Option String) → List Transaction → Position

module _ (v : Services) where
  abbrev pub mark : List Transaction → World v → World v
  mark batch w = record w {
    transactions = v.mongo.update_many (has_id_in (ids_of batch)) include w.transactions;
  }

  unfoldable pub begin : Draw → World v → Position × World v
  begin d w = (selected d (due v (bound_of d.cause w.last_timestamp) w), w)

  -- To the next of these awaits.
  unfoldable pub proceed : Position → World v → Position × World v
  proceed idle w = (idle, w)
  proceed (selected d batch) w =
      (applying d batch [] batch, record (mark batch w) { last_timestamp = d.now })
  proceed (applying d batch marks []) w =
      (idle, (finish_block v d.cause d.badge_id d.timestamp batch (survivors marks batch) w).1)
  proceed (applying d batch marks (t ∷ ts)) w =
      let (marks', w') = note_failure v marks t (apply_transaction v d.badge_id t w) in
      (applying d batch marks' ts, w')

  unfoldable pub proceed_times : ℕ → Position × World v → Position × World v
  unfolding proceed
  proceed_times zero s = s
  proceed_times (suc n) (p, w) = proceed_times n (proceed p w)

  applying-times :
      (d : Draw) (batch : List Transaction) (marks : List (Option String)) (ts : List Transaction)
      (w : World v)
      → let after = update_from v d.badge_id marks ts w in
        proceed_times (suc (length ts)) (applying d batch marks ts, w) ≡ (
          idle,
          (finish_block v d.cause d.badge_id d.timestamp batch (survivors after.0 batch) after.1).1,
        )
  unfolding proceed_times proceed update_from
  applying-times d batch marks [] w = refl
  applying-times d batch marks (t ∷ ts) w =
      let (marks', w') = note_failure v marks t (apply_transaction v d.badge_id t w) in
      applying-times d batch marks' ts w'

  cause_cases : (c : BadgeExecutionCause) → (c ≡ timedout) ⊎ (c ≡ filledup)
  cause_cases timedout = inl refl
  cause_cases filledup = inr refl

  drawn-mark :
      (d : Draw) (w : World v)
      → record (mark (batch_of v d.cause d.badge_id d.now d.timestamp w) w) {
        last_timestamp = d.now;
      }
        ≡ drawn v d.cause d.badge_id d.now d.timestamp w
  unfolding transactions_for_cause get_transaction_for_badge
  drawn-mark d w = elim (cause_cases d.cause) [ inl e ↦ rw e | inr e ↦ rw e ]

  -- A round that no other task interrupts: as many steps as its batch has transactions, and two more,
  -- take the consumer from the beginning of a round to where it waits for the next, and leave the
  -- state that `form_new_L2_block` leaves.
  pub begin-form_new_L2_block :
      (d : Draw) (w : World v)
      → proceed_times (suc (suc (length (due v (bound_of d.cause w.last_timestamp) w)))) (begin d w)
        ≡ (idle, (form_new_L2_block v d.cause d.badge_id d.now d.timestamp w).1)
  unfolding proceed_times proceed begin
  begin-form_new_L2_block d w =
      let batch = batch_of v d.cause d.badge_id d.now d.timestamp w in
      rw (form-eq v d.cause d.badge_id d.now d.timestamp w) (
        rw (← drawn-mark d w)
          (applying-times d batch [] batch (record (mark batch w) { last_timestamp = d.now })))
