-- ===== src/Server/Interleaved/Consistent.antt =====
-- What holds between any two steps of the tasks.
use zkp_rollup.Base.{
  ℕ, ◌+◌, ◌<◌, ◌≡◌, refl, String, Bool, List, [], ◌∷◌, none, first, eqb, arith, Bool-cases, inl,
  inr,
}
use zkp_rollup.Python.Result.{ok}
use zkp_rollup.Services.{Services, IsServices}
use zkp_rollup.State.{World}
use zkp_rollup.MerkleTree.Leaf.{FundedAccount}
use zkp_rollup.MemPool.{insert_into_queue}
use zkp_rollup.Block.{by_badge_id, batch_size, survivors, update_from, batch_queue_producer}
use zkp_rollup.Block.Form.{finish_block-Round}
use zkp_rollup.Block.Frame.{update_from-SameBlocks}
use zkp_rollup.Block.Chain.{HasChain, Round-HasChain}
use zkp_rollup.Block.Steps.{Position, idle, selected, applying, begin, proceed}
use zkp_rollup.ChainListener.Laws.{handle_deposit_entries-SameService}
use zkp_rollup.Setup.{on_start}
use zkp_rollup.Setup.Laws.{on_start-HasChain}
use zkp_rollup.Server.Reachable.{finish_block-counter, on_start-counter}
use zkp_rollup.Server.Interleaved.{
  System, count_submission, at_rest, TaskStep, stores, counts, deposits, produces, takes, resumes,
  Interleaving, nothing_yet, and_then,
}

module _ (v : Services) (whole_ether : ℕ → ℕ) where
  -- The identifier of the round that is on is that of no block.
  abbrev pub HasNewId : Position → World v → Type 0
  HasNewId idle w = Unit
  HasNewId (selected d batch) w = first (by_badge_id d.badge_id) (v.mongo.documents w.badges) ≡ none
  HasNewId (applying d batch marks ts) w =
      first (by_badge_id d.badge_id) (v.mongo.documents w.badges) ≡ none

  -- A chain of blocks, a counter below the size of a batch, and a new identifier for the next block.
  pub record IsConsistent (p : Position) (w : World v) : Type 0 where
    pub chain : HasChain v w
    pub counter : w.transaction_counter < batch_size
    pub new_id : HasNewId p w

  HasNewId-same :
      (p : Position) (w new : World v) → new.badges ≡ w.badges → HasNewId p w → HasNewId p new
  HasNewId-same idle w new e h = tt
  HasNewId-same (selected d batch) w new e h = rw e h
  HasNewId-same (applying d batch marks ts) w new e h = rw e h

  -- A change that leaves the blocks, the pointer and the counter alone.
  same-IsConsistent :
      (p : Position) (w new : World v)
      → new.badges ≡ w.badges
      → new.curr ≡ w.curr
      → new.transaction_counter ≡ w.transaction_counter
      → IsConsistent p w
      → IsConsistent p new
  same-IsConsistent p w new badges curr counter c = record {
    chain = rw (badges, curr) c.chain;
    counter = rw counter c.counter;
    new_id = HasNewId-same p w new badges c.new_id;
  }

  counted-IsConsistent :
      (p : Position) (w : World v)
      → IsConsistent p w
      → IsConsistent p (count_submission v whole_ether w)
  counted-IsConsistent p w c = elim (Bool-cases (eqb (w.transaction_counter + 1) batch_size)) [
    | inl e ↦ record {
      chain = rw e c.chain;
      counter = rw e (omega arith);
      new_id = rw e (HasNewId-same p w _ refl c.new_id);
    }
    | inr e ↦ record {
      chain = rw e c.chain;
      counter = ground (arith, e, c.counter);
      new_id = rw e (HasNewId-same p w _ refl c.new_id);
    }
  ]

  module _ (lawful : IsServices v) where
    proceeded-IsConsistent :
        (p : Position) (w : World v)
        → IsConsistent p w
        → IsConsistent (proceed v p w).0 (proceed v p w).1
    unfolding proceed update_from
    proceeded-IsConsistent idle w c = c
    proceeded-IsConsistent (selected d batch) w c = record {
      chain = c.chain;
      counter = c.counter;
      new_id = c.new_id;
    }
    proceeded-IsConsistent (applying d batch marks []) w c =
        let delta = survivors marks batch in
        record {
          chain =
              Round-HasChain v lawful w c.chain d.badge_id delta _ c.new_id
                (finish_block-Round v d.cause d.badge_id d.timestamp batch delta w);
          counter =
              rw (finish_block-counter v whole_ether d.cause d.badge_id d.timestamp batch delta w)
                c.counter;
          new_id = tt;
        }
    proceeded-IsConsistent (applying d batch marks (t ∷ ts)) w c =
        let same = update_from-SameBlocks v d.badge_id marks (t ∷ []) w in
        record {
          chain = rw (same.badges, same.curr) c.chain;
          counter = rw same.transaction_counter c.counter;
          new_id = rw same.badges c.new_id;
        }

    TaskStep-IsConsistent :
        {s new : System v whole_ether}
        → IsConsistent s.consumer s.world
        → TaskStep v whole_ether s new
        → IsConsistent new.consumer new.world
    unfolding insert_into_queue batch_queue_producer begin
    TaskStep-IsConsistent {s} c (stores request submission_id transaction_id now) =
        same-IsConsistent s.consumer s.world _ refl refl refl c
    TaskStep-IsConsistent {s} c (counts rest e) = counted-IsConsistent s.consumer s.world c
    TaskStep-IsConsistent {s} c (deposits entry) =
        let same = handle_deposit_entries-SameService v whole_ether (entry ∷ []) s.world in
        same-IsConsistent s.consumer s.world _ same.badges same.curr same.transaction_counter c
    TaskStep-IsConsistent {s} c produces = same-IsConsistent s.consumer s.world _ refl refl refl c
    TaskStep-IsConsistent {s} c (takes cause rest badge_id now timestamp e e2 fresh) = record {
      chain = c.chain;
      counter = c.counter;
      new_id = fresh;
    }
    TaskStep-IsConsistent {s} c resumes = proceeded-IsConsistent s.consumer s.world c

    -- From a start on empty collections that returned, with the steps of the tasks interleaved in any order, also
    -- within a round of the consumer and within a submission: the blocks are numbered from 0 without a
    -- gap and linked one to the next, the pointer names the last, and the counter is below fifty.
    pub Interleaving-IsConsistent :
        (w : World v) (needed : Bool) (initial_state : List FundedAccount)
        (genesis_badge_id : String) (now : ℕ) {new : System v whole_ether}
        → (on_start v needed initial_state genesis_badge_id now w).0 ≡ ok tt
        → v.mongo.documents w.badges ≡ []
        → v.mongo.documents w.curr ≡ []
        → w.transaction_counter < batch_size
        → Interleaving v whole_ether
            (at_rest v whole_ether (on_start v needed initial_state genesis_badge_id now w).1)
            new
        → IsConsistent new.consumer new.world
    Interleaving-IsConsistent w needed initial_state genesis_badge_id now returned no_badges no_curr
          small nothing_yet =
        record {
          chain =
              on_start-HasChain v lawful w genesis_badge_id now needed initial_state returned
                no_badges no_curr;
          counter =
              rw (on_start-counter v whole_ether needed initial_state genesis_badge_id now w) small;
          new_id = tt;
        }
    Interleaving-IsConsistent w needed initial_state genesis_badge_id now returned no_badges no_curr
          small (and_then run step) =
        TaskStep-IsConsistent
          (Interleaving-IsConsistent w needed initial_state genesis_badge_id now returned no_badges
            no_curr small run)
          step
