-- ===== src/Server/Reachable.antt =====
-- The tasks of the service as steps, and the states that they lead to.
use zkp_rollup.Base.{
  ℕ, ◌+◌, ◌<◌, ◌≡◌, ◌∙◌, refl, String, Bool, true, false, List, [], ◌∷◌, none, first, arith, eqb,
  Bool-cases, inl, inr,
}
use zkp_rollup.Python.Result.{ok}
use zkp_rollup.Types.{Transaction, TransactionRequest, BadgeExecutionCause}
use zkp_rollup.Services.{Services, IsServices}
use zkp_rollup.State.{World}
use zkp_rollup.MerkleTree.Leaf.{FundedAccount}
use zkp_rollup.MemPool.{insert_into_queue}
use zkp_rollup.Block
use zkp_rollup.Block.{
  batch_size, by_badge_id, handel_transaction_submission, batch_queue_consumer,
  batch_queue_producer, form_new_L2_block, finish_block, insert_new_badge,
}
use zkp_rollup.Block.Form.{batch_of, delta, drawn, applied, form-eq}
use zkp_rollup.Block.Frame.{update_from-SameBlocks, transactions_for_cause-SameBlocks}
use zkp_rollup.Block.Chain.{HasChain, form_new_L2_block-HasChain}
use zkp_rollup.ChainListener.{DepositEntry, handle_deposit_entries}
use zkp_rollup.ChainListener.Laws.{handle_deposit_entries-SameService}
use zkp_rollup.Setup.{on_start}
use zkp_rollup.Setup.Laws.{on_start-HasChain}
use zkp_rollup.Server.{submit_transaction}

module _ (v : Services) (whole_ether : ℕ → ℕ) where
  -- One task runs between two waits: a submission, a poll of deposits, the producer, or a round of the
  -- consumer, whose new block identifier no block has.
  pub data Step (w : World v) : World v → Type 0 where
    submit :
        (request : TransactionRequest) (submission_id transaction_id : String) (now : ℕ)
        → Step w (submit_transaction v request submission_id transaction_id now w).1
    deposits :
        (entries : List DepositEntry) → Step w (handle_deposit_entries v whole_ether entries w).1
    produce : Step w (batch_queue_producer v w)
    consume :
        (badge_id : String) (now timestamp : ℕ)
        → first (by_badge_id badge_id) (v.mongo.documents w.badges) ≡ none
        → Step w (batch_queue_consumer v badge_id now timestamp w)

  pub data Reachable (start : World v) : World v → Type 0 where
    started : Reachable start start
    after : {w new : World v} → Reachable start w → Step w new → Reachable start new

  -- What every state of a running service has.
  pub record IsRunning (w : World v) : Type 0 where
    pub chain : HasChain v w
    pub counter : w.transaction_counter < batch_size

  pub finish_block-counter :
      (cause : BadgeExecutionCause) (badge_id : String) (timestamp : ℕ)
      (batch delta : List Transaction) (s : World v)
      → (finish_block v cause badge_id timestamp batch delta s).1.transaction_counter
        ≡ s.transaction_counter
  unfolding finish_block insert_new_badge
  finish_block-counter cause badge_id timestamp batch delta s = ground arith

  form_new_L2_block-counter :
      (cause : BadgeExecutionCause) (badge_id : String) (now timestamp : ℕ) (w : World v)
      → (form_new_L2_block v cause badge_id now timestamp w).1.transaction_counter
        ≡ w.transaction_counter
  form_new_L2_block-counter cause badge_id now timestamp w =
      let s = (applied v cause badge_id now timestamp w).1 in
      rw (form-eq v cause badge_id now timestamp w) (
        finish_block-counter cause badge_id timestamp (batch_of v cause badge_id now timestamp w)
          (delta v cause badge_id now timestamp w) s
        ∙ (update_from-SameBlocks v badge_id [] (batch_of v cause badge_id now timestamp w)
            (drawn v cause badge_id now timestamp w)).transaction_counter
        ∙ (transactions_for_cause-SameBlocks v cause w).transaction_counter)

  submitted-IsRunning :
      (request : TransactionRequest) (submission_id transaction_id : String) (now : ℕ) (w : World v)
      → IsRunning w
      → IsRunning (submit_transaction v request submission_id transaction_id now w).1
  unfolding submit_transaction handel_transaction_submission insert_into_queue
  submitted-IsRunning request submission_id transaction_id now w r =
      elim (Bool-cases (eqb (w.transaction_counter + 1) batch_size)) [
        | inl e ↦ record { chain = rw e r.chain; counter = rw e (omega arith) }
        | inr e ↦ record { chain = rw e r.chain; counter = ground (arith, e, r.counter) }
      ]

  consumed-IsRunning :
      (lawful : IsServices v) (badge_id : String) (now timestamp : ℕ)
      (causes : List BadgeExecutionCause) (w : World v)
      → first (by_badge_id badge_id) (v.mongo.documents w.badges) ≡ none
      → IsRunning w
      → IsRunning (Block.consume v causes badge_id now timestamp w)
  consumed-IsRunning lawful badge_id now timestamp [] w fresh r = r
  consumed-IsRunning lawful badge_id now timestamp (cause ∷ rest) w fresh r =
      let taken : World v = record w { queue = rest } in
      record {
        chain =
            form_new_L2_block-HasChain v lawful taken r.chain cause badge_id now timestamp fresh;
        counter = rw (form_new_L2_block-counter cause badge_id now timestamp taken) r.counter;
      }

  -- One task keeps what every state of a running service has: a chain of blocks, and a counter below
  -- the size of a batch.
  pub Step-IsRunning :
      (lawful : IsServices v) {w new : World v} → IsRunning w → Step w new → IsRunning new
  unfolding batch_queue_producer batch_queue_consumer
  Step-IsRunning lawful {w} r (submit request submission_id transaction_id now) =
      submitted-IsRunning request submission_id transaction_id now w r
  Step-IsRunning lawful {w} r (deposits entries) =
      let same = handle_deposit_entries-SameService v whole_ether entries w in
      record {
        chain = rw (same.badges, same.curr) r.chain;
        counter = rw same.transaction_counter r.counter;
      }
  Step-IsRunning lawful r produce = record { chain = r.chain; counter = r.counter }
  Step-IsRunning lawful {w} r (consume badge_id now timestamp fresh) =
      consumed-IsRunning lawful badge_id now timestamp w.queue w fresh r

  pub on_start-counter :
      (needed : Bool) (initial_state : List FundedAccount) (genesis_badge_id : String) (now : ℕ)
      (w : World v)
      → (on_start v needed initial_state genesis_badge_id now w).1.transaction_counter
        ≡ w.transaction_counter
  unfolding on_start
  on_start-counter true [] genesis_badge_id now w = refl
  on_start-counter true (user ∷ users) genesis_badge_id now w = refl
  on_start-counter false initial_state genesis_badge_id now w = refl

  -- From a start on empty collections that returned, whatever the order in which submissions, polls, producer and
  -- consumer then run, with a new identifier for each block: the blocks are numbered from 0 without a
  -- gap and linked one to the next, the pointer names the last, and the counter is below fifty.
  pub Reachable-IsRunning :
      (lawful : IsServices v) (w : World v) (needed : Bool) (initial_state : List FundedAccount)
      (genesis_badge_id : String) (now : ℕ) {new : World v}
      → (on_start v needed initial_state genesis_badge_id now w).0 ≡ ok tt
      → v.mongo.documents w.badges ≡ []
      → v.mongo.documents w.curr ≡ []
      → w.transaction_counter < batch_size
      → Reachable (on_start v needed initial_state genesis_badge_id now w).1 new
      → IsRunning new
  Reachable-IsRunning lawful w needed initial_state genesis_badge_id now returned no_badges no_curr
        small started =
      record {
        chain =
            on_start-HasChain v lawful w genesis_badge_id now needed initial_state returned
              no_badges no_curr;
        counter = rw (on_start-counter needed initial_state genesis_badge_id now w) small;
      }
  Reachable-IsRunning lawful w needed initial_state genesis_badge_id now returned no_badges no_curr
        small (after run step) =
      Step-IsRunning lawful
        (Reachable-IsRunning lawful w needed initial_state genesis_badge_id now returned no_badges
          no_curr small run)
        step
