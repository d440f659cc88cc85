-- ===== src/Client/User.antt =====
-- client/chain_client.py: the task of a user of the load generator, which asks the service for a nonce,
-- signs a transaction with it and posts it. The drawn pair of accounts is an argument, and the service
-- is an interface, which the routes of the sequencer fill.
use zkp_rollup.Base.{ℕ, String, List, get_elem?}
use zkp_rollup.Python.Result.{index_error, require}
use zkp_rollup.Python.Exec.{Exec, pure, lift, gets, ◌>>=◌}
use zkp_rollup.Types.{TransactionRequest, SubmissionResponse, NonceRequest, NonceResponse}
use zkp_rollup.Services.{Services}
use zkp_rollup.Services.Crypto.{Crypto}
use zkp_rollup.State.{World}
use zkp_rollup.Client.{Signer, ClientAccount, create_transaction_to_submit}
use zkp_rollup.Server.{Answer, value, http_exception, submit_transaction, nonce_route}

-- What the client calls: `/api/get-nonce` and `/api/submit`.
pub record Api (W : Type 0) : Type 0 where
  pub get_nonce : NonceRequest → W → Answer NonceResponse
  pub submit : TransactionRequest → W → Answer SubmissionResponse × W

-- The routes of the sequencer, with the identifiers and the time that the submission draws.
abbrev pub sequencer_api : (v : Services) → String → String → ℕ → Api (World v)
sequencer_api v submission_id transaction_id now = record {
  get_nonce = nonce_route v;
  submit = λ request. submit_transaction v request submission_id transaction_id now;
}

module _ {c : Crypto} (s : Signer c) (layer_2_accounts : List ClientAccount) where
  module _ {W : Type 0} (api : Api W) where
    -- The answer of the post is not looked at.
    abbrev pub post : TransactionRequest → Exec W (Unit {0})
    post transaction w = let (answer, new) = api.submit transaction w in pure tt new

    -- `res.status_code != 200` ends the task.
    unfoldable pub answered : ℕ → ℕ → Answer NonceResponse → Exec W (Unit {0})
    answered a b (http_exception status_code) = pure tt
    answered a b (value res) = do
      transaction ← lift (create_transaction_to_submit s layer_2_accounts res.nonce a b)
      post transaction

    unfoldable pub user_task : ℕ → ℕ → Exec W (Unit {0})
    unfolding answered
    user_task a b = do
      sender ← lift (require index_error (get_elem? layer_2_accounts a))
      res ← gets (api.get_nonce (record { account = sender.pub_key }))
      answered a b res
