-- ===== src/Server/Interleaved.antt =====
-- The tasks of sequencer/main.py with the awaits at which they give way: a submission is stored before
-- it is counted, and a round of the consumer goes on from await to await, with steps of the other
-- tasks in between.
pub mod Consistent
pub mod History
pub mod Held
pub mod Once
pub mod Live
pub mod Waiting
pub mod Untouched
pub mod Typed
use zkp_rollup.Base.{ℕ, suc, ◌+◌, ◌≡◌, String, List, [], ◌∷◌, none, first}
use zkp_rollup.Types.{TransactionRequest, BadgeExecutionCause}
use zkp_rollup.Services.{Services}
use zkp_rollup.State.{World}
use zkp_rollup.MemPool.{insert_into_queue}
use zkp_rollup.Block.{by_badge_id, enrich_transaction, fill_queue, batch_queue_producer}
use zkp_rollup.Block.Steps.{Draw, Position, idle, begin, proceed}
use zkp_rollup.ChainListener.{DepositEntry, handle_deposit_entries}

module _ (v : Services) (whole_ether : ℕ → ℕ) where
  -- The state, where the consumer waits, and how many submissions are stored and not yet counted.
  pub record System : Type 0 where
    pub world : World v
    pub consumer : Position
    pub uncounted : ℕ

  -- `handel_transaction_submission` before and after its await.
  abbrev pub store : TransactionRequest → String → String → ℕ → World v → World v
  store request submission_id transaction_id now w =
      (insert_into_queue v (enrich_transaction request submission_id transaction_id now)
        submission_id w).1

  abbrev pub count_submission : World v → World v
  count_submission w = fill_queue v (record w { transaction_counter = w.transaction_counter + 1 })

  abbrev pub at_position : System → Position × World v → System
  at_position s (p, w) = record s { world = w; consumer = p }

  pub data TaskStep (s : System) : System → Type 0 where
    stores :
        (request : TransactionRequest) (submission_id transaction_id : String) (now : ℕ)
        → TaskStep s (record s {
          world = store request submission_id transaction_id now s.world;
          uncounted = suc s.uncounted;
        })
    counts :
        (rest : ℕ)
        → s.uncounted ≡ suc rest
        → TaskStep s (record s { world = count_submission s.world; uncounted = rest })
    deposits :
        (entry : DepositEntry)
        → TaskStep s
            (record s { world = (handle_deposit_entries v whole_ether (entry ∷ []) s.world).1 })
    produces : TaskStep s (record s { world = batch_queue_producer v s.world })
    -- The consumer takes a cause, for a block with an identifier that no block has.
    takes :
        (cause : BadgeExecutionCause) (rest : List BadgeExecutionCause) (badge_id : String)
        (now timestamp : ℕ)
        → s.consumer ≡ idle
        → s.world.queue ≡ cause ∷ rest
        → first (by_badge_id badge_id) (v.mongo.documents s.world.badges) ≡ none
        → TaskStep s (
            at_position s (
              begin v
                (record { cause = cause; badge_id = badge_id; now = now; timestamp = timestamp })
                (record s.world { queue = rest })))
    resumes : TaskStep s (at_position s (proceed v s.consumer s.world))

  pub data Interleaving (start : System) : System → Type 0 where
    nothing_yet : Interleaving start start
    and_then : {s new : System} → Interleaving start s → TaskStep s new → Interleaving start new

  -- A service that has been set up, before its tasks run.
  abbrev pub at_rest : World v → System
  at_rest w = record { world = w; consumer = idle; uncounted = 0 }
