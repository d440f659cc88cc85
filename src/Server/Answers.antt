-- ===== src/Server/Answers.antt =====
-- What the routes answer after a submission, and before a transfer.
use zkp_rollup.Base.{
  false, inl, inr, ℕ, ◌≡◌, refl, String, option_eq, string_eq, some, arith, if◌then◌else◌,
}
use zkp_rollup.Types.{Transaction, TransactionRequest, pending, invalid}
use zkp_rollup.Services.{Services}
use zkp_rollup.State.{World}
use zkp_rollup.Validator.{check_transaction_validity}
use zkp_rollup.MemPool.{insert_into_queue}
use zkp_rollup.MerkleTree.Check.{Accepts}
use zkp_rollup.Block.{
  enrich_transaction, handel_transaction_submission, get_nonce_for_account,
  get_status_for_transaction,
}
use zkp_rollup.Server.{
  value, http_exception, submission_status_fields, submit_transaction, nonce_route, status_route,
}
use zkp_rollup.Services.Framework.{Framework, IsFramework, names_field}
use zkp_rollup.Python.Result.{Result-cases}

module _ (v : Services) where
  -- The document that a submission stores.
  abbrev pub stored : TransactionRequest → String → String → ℕ → Transaction
  stored request submission_id transaction_id now =
      let t = enrich_transaction request submission_id transaction_id now in
      record t { status = some (if check_transaction_validity v t then pending else invalid) }

  pub submitted-transactions :
      (request : TransactionRequest) (submission_id transaction_id : String) (now : ℕ) (w : World v)
      → (submit_transaction v request submission_id transaction_id now w).1.transactions
        ≡ v.mongo.insert_one (stored request submission_id transaction_id now) w.transactions
  unfolding submit_transaction handel_transaction_submission insert_into_queue
  submitted-transactions request submission_id transaction_id now w = ground arith

  not_there : names_field submission_status_fields "valid" ≡ false
  unfolding string_eq
  not_there = refl

  -- The value has no field `valid`, so the framework refuses it wherever there is one.
  pub status_refused :
      (framework : Framework)
      → IsFramework framework
      → (submission_id : String) (w : World v)
      → status_route v framework (record { submission_id = submission_id }) w ≡ http_exception 500
  unfolding status_route
  status_refused framework checks submission_id w =
      elim (Result-cases (get_status_for_transaction v submission_id w)) [
        | inr (e, h) ↦ ground (arith, h)
        | inl (s, h) ↦ ground (arith, h, checks.valid_required submission_status_fields s not_there)
      ]

  -- The nonce that the route answers for an account is the one that the check wants of its next
  -- transaction.
  pub answered_nonce_is_checked :
      (w : World v) (t : Transaction) (receiver : String) (n : _)
      → nonce_route v (record { account = t.sender }) w ≡ value (record { nonce = n })
      → Accepts v w t receiver
      → t.nonce ≡ some n
  unfolding nonce_route get_nonce_for_account
  answered_nonce_is_checked w t receiver n answered a = ground (arith, a.found, a.valid, a.in_order)
