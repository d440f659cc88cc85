-- ===== src/Server/Once.antt =====
-- Identifiers of transactions in the states that the tasks lead to.
use zkp_rollup.Base.{
  ℕ, ◌+◌, ◌≤◌, ◌≡◌, ◌↔◌, ◌∙◌, ap, String, Bool, true, false, ◌&&◌, ◌==◌, beq_ne, beq_eq, option_eq,
  string_eq, List, [], ◌∷◌, map, none, some, arith, Bool-cases, inl, inr,
}
use zkp_rollup.Base.Count.{count, count-append, count-map, count_none}
use mathlib.Core.Option.{some-injective, none-ne-some}
use zkp_rollup.Types.{TransactionRequest, BadgeExecutionCause}
use zkp_rollup.Services.{Services, IsServices}
use zkp_rollup.State.{World}
use zkp_rollup.MerkleTree.Leaf.{FundedAccount}
use zkp_rollup.MemPool.{insert_into_queue}
use zkp_rollup.Block.{
  batch_size, enrich_transaction, handel_transaction_submission, batch_queue_consumer,
  batch_queue_producer,
}
use zkp_rollup.Block
use zkp_rollup.Block.Once.{waits, recorded}
use zkp_rollup.Block.Once.Round.{uses, waiting, form_new_L2_block-uses}
use zkp_rollup.ChainListener.{DepositEntry, handle_deposit_entries}
use zkp_rollup.ChainListener.Laws.{
  handle_deposit_entries-SameService, deposits_recorded, entry_transaction,
}
use zkp_rollup.Setup.{on_start}
use zkp_rollup.Server.{submit_transaction}
use zkp_rollup.Server.Answers.{submitted-transactions, stored}
use zkp_rollup.Server.Reachable.{
  Step, submit, deposits, produce, consume, Reachable, started, after,
}

module _ (v : Services) (whole_ether : ℕ → ℕ) where
  -- The identifier that a submission draws is used by no block and no pending transaction.
  abbrev pub IsFresh : {w new : World v} → Step v whole_ether w new → Type 0
  IsFresh {w} (submit request submission_id transaction_id now) = uses v transaction_id w ≡ 0
  IsFresh other = Unit

  abbrev pub AllFresh : {start new : World v} → Reachable v whole_ether start new → Type 0
  AllFresh started = Unit
  AllFresh (after run step) = AllFresh run × IsFresh step

  &&_iff : (a b : Bool) → ((a && b) ≡ true) ↔ ((a ≡ true) × (b ≡ true))
  &&_iff a b = ground arith

  pub stored-waits :
      (request : TransactionRequest) (submission_id transaction_id id : String) (now : ℕ)
      → waits id (stored v request submission_id transaction_id now) ≡ true
      → transaction_id ≡ id
  unfolding enrich_transaction
  stored-waits request submission_id transaction_id id now h =
      let (_, same) = (&&_iff _ (some transaction_id == some id)).0 h in
      some-injective transaction_id id (beq_eq (some transaction_id) (some id) same)

  submitted-badges :
      (request : TransactionRequest) (submission_id transaction_id : String) (now : ℕ) (w : World v)
      → (submit_transaction v request submission_id transaction_id now w).1.badges ≡ w.badges
  unfolding submit_transaction handel_transaction_submission insert_into_queue
  submitted-badges request submission_id transaction_id now w = ground arith

  module _ (lawful : IsServices v) (id : String) where
    submitted-uses :
        (request : TransactionRequest) (submission_id transaction_id : String) (now : ℕ)
        (w : World v)
        → uses v transaction_id w ≡ 0
        → uses v id w ≤ 1
        → uses v id (submit_transaction v request submission_id transaction_id now w).1 ≤ 1
    submitted-uses request submission_id transaction_id now w fresh h =
        let kept = stored v request submission_id transaction_id now in
        let new : World v = (submit_transaction v request submission_id transaction_id now w).1 in
        let blocks : recorded id (v.mongo.documents new.badges)
            ≡ recorded id (v.mongo.documents w.badges) =
          ap (λ c. recorded id (v.mongo.documents c))
            (submitted-badges request submission_id transaction_id now w) in
        let grown : waiting v id new ≡ waiting v id w + count (waits id) (kept ∷ []) =
          rw
            (
              submitted-transactions v request submission_id transaction_id now w,
              lawful.mongo.documents-insert_one,
            )
            (count-append (waits id) (v.mongo.documents w.transactions) (kept ∷ [])) in
        elim (Bool-cases (waits id kept)) [
          | inl e ↦
              let own = stored-waits request submission_id transaction_id id now e in
              let one : count (waits id) (kept ∷ []) ≡ 1 = rw e in
              let unused : uses v id w ≡ 0 = rw own at fresh in
              omega (arith, blocks, grown, one, unused)
          | inr e ↦
              let unchanged : count (waits id) (kept ∷ []) ≡ 0 = rw e in
              omega (arith, blocks, grown, unchanged)
        ]

    no_id : (dep : DepositEntry) → waits id (entry_transaction v whole_ether dep) ≡ false
    no_id dep = rw (beq_ne none (some id) (none-ne-some id)) (ground arith)

    pub deposited-waiting :
        (entries : List DepositEntry) (w : World v)
        → waiting v id (handle_deposit_entries v whole_ether entries w).1 ≡ waiting v id w
    deposited-waiting entries w =
        let (_, _, transactions) = deposits_recorded v whole_ether lawful entries w in
        let docs = v.mongo.documents w.transactions in
        rw transactions (
          count-append (waits id) docs (map (entry_transaction v whole_ether) entries)
          ∙ omega (
            arith,
            count-map (waits id) (entry_transaction v whole_ether) entries,
            count_none (λ dep. waits id (entry_transaction v whole_ether dep)) (λ dep. no_id dep)
                entries,
          ))

    deposited-uses :
        (entries : List DepositEntry) (w : World v)
        → uses v id (handle_deposit_entries v whole_ether entries w).1 ≡ uses v id w
    deposited-uses entries w =
        let same = handle_deposit_entries-SameService v whole_ether entries w in
        rw same.badges (omega (arith, deposited-waiting entries w))

    consumed-uses :
        (badge_id : String) (now timestamp : ℕ) (causes : List BadgeExecutionCause) (w : World v)
        → uses v id (Block.consume v causes badge_id now timestamp w) ≤ uses v id w
    consumed-uses badge_id now timestamp [] w = omega arith
    consumed-uses badge_id now timestamp (cause ∷ rest) w =
        form_new_L2_block-uses v lawful id cause badge_id now timestamp (record w { queue = rest })

    Step-uses :
        {w new : World v} (step : Step v whole_ether w new)
        → IsFresh step
        → uses v id w ≤ 1
        → uses v id new ≤ 1
    unfolding batch_queue_producer batch_queue_consumer
    Step-uses {w} (submit request submission_id transaction_id now) fresh h =
        submitted-uses request submission_id transaction_id now w fresh h
    Step-uses {w} (deposits entries) fresh h = omega (arith, deposited-uses entries w)
    Step-uses produce fresh h = h
    Step-uses {w} (consume badge_id now timestamp new_id) fresh h =
        omega (arith, consumed-uses badge_id now timestamp w.queue w)

    pub on_start-uses :
        (needed : Bool) (initial_state : List FundedAccount) (genesis_badge_id : String) (now : ℕ)
        (w : World v)
        → v.mongo.documents w.badges ≡ []
        → v.mongo.documents w.transactions ≡ []
        → uses v id (on_start v needed initial_state genesis_badge_id now w).1 ≡ 0
    unfolding on_start
    on_start-uses true [] genesis_badge_id now w no_badges no_transactions =
        rw (no_badges, no_transactions) (omega arith)
    on_start-uses true (user ∷ users) genesis_badge_id now w no_badges no_transactions =
        rw (lawful.mongo.documents-insert_one, no_badges, no_transactions) (omega arith)
    on_start-uses false initial_state genesis_badge_id now w no_badges no_transactions =
        rw (lawful.mongo.documents-insert_one, no_badges, no_transactions) (omega arith)

    -- From a start on empty collections, in every state that the tasks lead to in any order, where each
    -- submission draws an identifier that is not in use: an identifier of a transaction stands at most
    -- once in all the blocks together, and not at all while a transaction with it is pending.
    pub recorded_once :
        (w : World v) (needed : Bool) (initial_state : List FundedAccount)
        (genesis_badge_id : String) (now : ℕ) {new : World v}
        → v.mongo.documents w.badges ≡ []
        → v.mongo.documents w.transactions ≡ []
        → (run : Reachable v whole_ether
            (on_start v needed initial_state genesis_badge_id now w).1
            new)
        → AllFresh run
        → recorded id (v.mongo.documents new.badges)
            + count (waits id) (v.mongo.documents new.transactions)
          ≤ 1
    recorded_once w needed initial_state genesis_badge_id now no_badges no_transactions started
          fresh =
        omega (
          arith,
          on_start-uses needed initial_state genesis_badge_id now w no_badges no_transactions,
        )
    recorded_once w needed initial_state genesis_badge_id now no_badges no_transactions
          (after run step) (fresh, new_id) =
        Step-uses step new_id (
          recorded_once w needed initial_state genesis_badge_id now no_badges no_transactions run
            fresh)
