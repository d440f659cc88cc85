-- ===== src/Block/Counter.antt =====
-- Submissions one after the other: `transaction_counter` and the queue of causes.
use zkp_rollup.Base.{ℕ, zero, suc, String, List, [], ◌∷◌}
use zkp_rollup.Types.{TransactionRequest, BadgeExecutionCause, filledup}
use zkp_rollup.Services.{Services}
use zkp_rollup.State.{World}
use zkp_rollup.Block.{handel_transaction_submission}

-- A request with the identifiers and the time that are drawn for it.
pub record Submission : Type 0 where
  pub request : TransactionRequest
  pub submission_id : String
  pub transaction_id : String
  pub now : ℕ

-- That many requests for a block of a full batch.
abbrev pub fills : ℕ → List BadgeExecutionCause
fills zero = []
fills (suc n) = filledup ∷ fills n

module _ (v : Services) where
  -- Submissions one after the other.
  pub submit_all : List Submission → World v → World v
  submit_all [] w = w
  submit_all (s ∷ ss) w =
      submit_all ss
        (handel_transaction_submission v s.request s.submission_id s.transaction_id s.now w).1
