-- ===== src/Server/Interleaved/Once.antt =====
-- Identifiers of transactions while the tasks interleave.
use zkp_rollup.Base.{
  ℕ, ◌+◌, ◌≤◌, ◌≡◌, refl, ap, String, Bool, List, [], ◌∷◌, map, eqb, arith, Bool-cases, inl, inr,
}
use zkp_rollup.Base.Count.{count, count-append}
use zkp_rollup.Types.{TransactionRequest}
use zkp_rollup.Services.{Services, IsServices}
use zkp_rollup.State.{World}
use zkp_rollup.MerkleTree.Leaf.{FundedAccount}
use zkp_rollup.MemPool.{insert_into_queue, ids_of}
use zkp_rollup.MemPool.Batch.{after_batch}
use zkp_rollup.Block.{batch_size, survivors, update_from, batch_queue_producer, finish_block}
use zkp_rollup.Block.Form.{bound_of, finish_block-Round}
use zkp_rollup.Block.Frame.{update_from-SameBlocks}
use zkp_rollup.Block.Once.{waits, recorded}
use zkp_rollup.Block.Once.Round.{
  waiting, uses, due-count, marked-waiting, update_from-waiting, survivors-count, Round-recorded,
  finish_block-transactions,
}
use zkp_rollup.Block.Steps.{Position, idle, selected, applying, mark, begin, proceed}
use zkp_rollup.ChainListener.Laws.{handle_deposit_entries-SameService}
use zkp_rollup.Setup.{on_start}
use zkp_rollup.Server.Answers.{stored}
use zkp_rollup.Server.Once.{stored-waits, deposited-waiting, on_start-uses}
use zkp_rollup.Server.Interleaved.{
  System, store, count_submission, at_rest, TaskStep, stores, counts, deposits, produces, takes,
  resumes, Interleaving, nothing_yet, and_then,
}
use zkp_rollup.Server.Interleaved.Held.{
  held, IsOnce, IsUnused, AllUnused, StillWaits-grows, same-IsOnce,
}

module _ (v : Services) (whole_ether : ℕ → ℕ) where
  module _ (lawful : IsServices v) (id : String) where
    store-waiting :
        (request : TransactionRequest) (submission_id transaction_id : String) (now : ℕ)
        (w : World v)
        → waiting v id (store v whole_ether request submission_id transaction_id now w)
          ≡ waiting v id w
            + count (waits id) (stored v request submission_id transaction_id now ∷ [])
    unfolding insert_into_queue
    store-waiting request submission_id transaction_id now w =
        rw lawful.mongo.documents-insert_one (
          count-append (waits id) (v.mongo.documents w.transactions)
            (stored v request submission_id transaction_id now ∷ []))

    stored-IsOnce :
        (request : TransactionRequest) (submission_id transaction_id : String) (now : ℕ)
        (p : Position) (w : World v)
        → uses v transaction_id w + held transaction_id p ≡ 0
        → IsOnce v whole_ether id p w
        → IsOnce v whole_ether id p (store v whole_ether request submission_id transaction_id now w)
    unfolding insert_into_queue
    stored-IsOnce request submission_id transaction_id now p w unused o =
        let kept = stored v request submission_id transaction_id now in
        let grown = store-waiting request submission_id transaction_id now w in
        let new : World v = store v whole_ether request submission_id transaction_id now w in
        let still =
          StillWaits-grows v whole_ether lawful id p w new (omega (arith, grown)) o.still in
        elim (Bool-cases (waits id kept)) [
          | inl e ↦
              let own = stored-waits v whole_ether request submission_id transaction_id id now e in
              let one : count (waits id) (kept ∷ []) ≡ 1 = rw e in
              let none_yet : uses v id w + held id p ≡ 0 = rw own at unused in
              record { once = omega (arith, grown, one, none_yet); still = still }
          | inr e ↦
              let unchanged : count (waits id) (kept ∷ []) ≡ 0 = rw e in
              record { once = omega (arith, grown, unchanged, o.once); still = still }
        ]

    counted-IsOnce :
        (p : Position) (w : World v)
        → IsOnce v whole_ether id p w
        → IsOnce v whole_ether id p (count_submission v whole_ether w)
    counted-IsOnce p w o = elim (Bool-cases (eqb (w.transaction_counter + 1) batch_size)) [
      | inl e ↦ same-IsOnce v whole_ether lawful id p w _ (rw e) (rw e) o
      | inr e ↦ same-IsOnce v whole_ether lawful id p w _ (rw e) (rw e) o
    ]

    proceeded-IsOnce :
        (p : Position) (w : World v)
        → IsOnce v whole_ether id p w
        → IsOnce v whole_ether id (proceed v p w).0 (proceed v p w).1
    unfolding proceed update_from
    proceeded-IsOnce idle w o = o
    proceeded-IsOnce (selected d batch) w o =
        let moved : waiting v id (mark v batch w)
            ≡ count (waits id)
                (map (after_batch (ids_of batch)) (v.mongo.documents w.transactions)) =
          rw lawful.mongo.documents-update_many in
        record {
          once = omega (arith, moved, marked-waiting v lawful id batch w o.still, o.once);
          still = tt;
        }
    proceeded-IsOnce (applying d batch marks []) w o =
        let delta = survivors marks batch in
        let new : World v = (finish_block v d.cause d.badge_id d.timestamp batch delta w).1 in
        let same : waiting v id new ≡ waiting v id w =
          ap (λ c. count (waits id) (v.mongo.documents c))
            (finish_block-transactions v d.cause d.badge_id d.timestamp batch delta w) in
        record {
          once = omega (
            arith,
            same,
            survivors-count v lawful id marks batch,
            Round-recorded v lawful id w new d.badge_id delta
                (finish_block-Round v d.cause d.badge_id d.timestamp batch delta w),
            o.once,
          );
          still = tt;
        }
    proceeded-IsOnce (applying d batch marks (t ∷ ts)) w o =
        let new : World v = (update_from v d.badge_id marks (t ∷ []) w).1 in
        let blocks : recorded id (v.mongo.documents new.badges)
            ≡ recorded id (v.mongo.documents w.badges) =
          ap (λ c. recorded id (v.mongo.documents c))
            (update_from-SameBlocks v d.badge_id marks (t ∷ []) w).badges in
        record {
          once =
              omega (
                arith,
                blocks,
                update_from-waiting v lawful id d.badge_id marks (t ∷ []) w,
                o.once,
              );
          still = tt;
        }

    TaskStep-IsOnce :
        {s new : System v whole_ether} (step : TaskStep v whole_ether s new)
        → IsUnused v whole_ether step
        → IsOnce v whole_ether id s.consumer s.world
        → IsOnce v whole_ether id new.consumer new.world
    unfolding batch_queue_producer begin
    TaskStep-IsOnce {s} (stores request submission_id transaction_id now) unused o =
        stored-IsOnce request submission_id transaction_id now s.consumer s.world unused o
    TaskStep-IsOnce {s} (counts rest e) unused o = counted-IsOnce s.consumer s.world o
    TaskStep-IsOnce {s} (deposits entry) unused o =
        same-IsOnce v whole_ether lawful id s.consumer s.world _
          (handle_deposit_entries-SameService v whole_ether (entry ∷ []) s.world).badges
          (deposited-waiting v whole_ether lawful id (entry ∷ []) s.world) o
    TaskStep-IsOnce {s} produces unused o =
        same-IsOnce v whole_ether lawful id s.consumer s.world _ refl refl o
    TaskStep-IsOnce {s} (takes cause rest badge_id now timestamp e e2 fresh) unused o = record {
      once = omega (arith, o.once);
      still =
          due-count v lawful id (bound_of cause s.world.last_timestamp)
            (record s.world { queue = rest });
    }
    TaskStep-IsOnce {s} resumes unused o = proceeded-IsOnce s.consumer s.world o

    Interleaving-IsOnce :
        (w : World v) (needed : Bool) (initial_state : List FundedAccount)
        (genesis_badge_id : String) (now : ℕ) {new : System v whole_ether}
        → v.mongo.documents w.badges ≡ []
        → v.mongo.documents w.transactions ≡ []
        → (run : Interleaving v whole_ether
            (at_rest v whole_ether (on_start v needed initial_state genesis_badge_id now w).1)
            new)
        → AllUnused v whole_ether run
        → IsOnce v whole_ether id new.consumer new.world
    Interleaving-IsOnce w needed initial_state genesis_badge_id now no_badges no_transactions
          nothing_yet unused =
        record {
          once = omega (
            arith,
            on_start-uses v whole_ether lawful id needed initial_state genesis_badge_id now w
                no_badges no_transactions,
          );
          still = tt;
        }
    Interleaving-IsOnce w needed initial_state genesis_badge_id now no_badges no_transactions
          (and_then run step) (unused, own) =
        TaskStep-IsOnce step own (
          Interleaving-IsOnce w needed initial_state genesis_badge_id now no_badges no_transactions
            run unused)

    -- From a start on empty collections, with the steps of the tasks interleaved in any order, also
    -- within a round of the consumer and within a submission, where each submission draws an identifier
    -- that is not in use: an identifier stands at most once in all the blocks, the pending transactions
    -- and the batch that is being applied together.
    pub interleaved_once :
        (w : World v) (needed : Bool) (initial_state : List FundedAccount)
        (genesis_badge_id : String) (now : ℕ) {new : System v whole_ether}
        → v.mongo.documents w.badges ≡ []
        → v.mongo.documents w.transactions ≡ []
        → (run : Interleaving v whole_ether
            (at_rest v whole_ether (on_start v needed initial_state genesis_badge_id now w).1)
            new)
        → AllUnused v whole_ether run
        → recorded id (v.mongo.documents new.world.badges)
            + count (waits id) (v.mongo.documents new.world.transactions)
            + held id new.consumer
          ≤ 1
    interleaved_once w needed initial_state genesis_badge_id now no_badges no_transactions run
          unused =
        (Interleaving-IsOnce w needed initial_state genesis_badge_id now no_badges no_transactions
          run unused).once
