-- ===== src/Server.antt =====
-- sequencer/main.py: the routes of the HTTP service, and its tasks as steps from state to state.
pub mod Answers
pub mod Reachable
pub mod Once
pub mod Interleaved
pub mod Start
use zkp_rollup.Base.{ℕ, String, List, [], ◌∷◌, none, some}
use zkp_rollup.Python.Result.{Result, ok, raised}
use zkp_rollup.Types.{
  TransactionRequest, SubmissionResponse, SubmissionStatus, NonceRequest, NonceResponse,
  SubmissionStatusRequest,
}
use zkp_rollup.Services.{Services}
use zkp_rollup.Services.Framework.{Framework}
use zkp_rollup.State.{World}
use zkp_rollup.Block.{
  handel_transaction_submission, get_nonce_for_account, get_status_for_transaction,
}

-- What a route answers: its value, or an exception with a status code, which is 500 also where the
-- framework refuses the value.
pub data Answer {ℓ} (A : Type ℓ) : Type ℓ where
  value : A → Answer A
  http_exception : ℕ → Answer A

abbrev pub answer_of {ℓ} : {A : Type ℓ} → Result A → Answer A
answer_of (ok a) = value a
answer_of (raised e) = http_exception 500

-- The attributes of a `SubmissionStatus`.
abbrev pub submission_status_fields : List String
submission_status_fields = "submission_id" ∷ "status" ∷ []

module _ (v : Services) where
  unfoldable pub submit_transaction :
      TransactionRequest → String → String → ℕ → World v → Answer SubmissionResponse × World v
  submit_transaction transaction submission_id transaction_id now w =
      let (r, new) =
        handel_transaction_submission v transaction submission_id transaction_id now w in
      (answer_of r, new)

  unfoldable pub nonce_route : NonceRequest → World v → Answer NonceResponse
  nonce_route req w = answer_of (get_nonce_for_account v req.account w)

  -- The route is annotated with `SubmissionResponse`, and returns a `SubmissionStatus`.
  unfoldable pub status_route :
      Framework → SubmissionStatusRequest → World v → Answer SubmissionResponse
  status_route framework req w = elim (get_status_for_transaction v req.submission_id w) [
    | raised e ↦ http_exception 500
    | ok found ↦ elim (framework.as_submission_response submission_status_fields found) [
      | none ↦ http_exception 500
      | some response ↦ value response
    ]
  ]
