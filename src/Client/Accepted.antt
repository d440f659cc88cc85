-- ===== src/Client/Accepted.antt =====
-- A user of the load generator and the sequencer together.
use zkp_rollup.Base.{
  ℕ, ◌≡◌, ◌≢◌, refl, String, List, [], ◌∷◌, ◌++◌, some, none, get_elem?, true, arith,
}
use zkp_rollup.Base.Int.{pos, ◌≤ℤ◌}
use zkp_rollup.Python.Float.{to_float}
use zkp_rollup.Python.Result.{ok}
use zkp_rollup.Python.Bytes.{Bytes}
use zkp_rollup.Utils.{hex_to_bytes}
use zkp_rollup.Types.{Transaction, TransactionRequest, AccountDocument, AccountsCollection, pending}
use zkp_rollup.Services.{Services, IsServices}
use zkp_rollup.State.{World}
use zkp_rollup.State.Accounts.{find_account}
use zkp_rollup.Validator.{check_transaction_validity}
use zkp_rollup.MemPool.{insert_into_queue}
use zkp_rollup.MerkleTree.{accounts_collection, latest_nonce, latest_balance}
use zkp_rollup.MerkleTree.Check.{Accepts}
use zkp_rollup.Block.{enrich_transaction, get_nonce_for_account, handel_transaction_submission}
use zkp_rollup.Server.{value, nonce_route, submit_transaction}
use zkp_rollup.Server.Answers.{stored, submitted-transactions}
use zkp_rollup.Client.{
  Signer, IsSigner, ClientAccount, create_transaction, create_transaction_to_submit,
}
use zkp_rollup.Client.Laws.{signed_request, created_is_valid}
use zkp_rollup.Client.User.{sequencer_api, user_task, answered}

module _ (v : Services) (s : Signer v.crypto) where
  -- Two accounts of the generator that the sequencer knows: the first can sign and has a coin.
  pub record CanPay (layer_2_accounts : List ClientAccount) (a b : ℕ) (w : World v) : Type 0 where
    pub sender : ClientAccount
    pub receiver : ClientAccount
    pub at_a : get_elem? layer_2_accounts a ≡ some sender
    pub at_b : get_elem? layer_2_accounts b ≡ some receiver
    pub key_bytes : Bytes
    pub key : s.PrivateKey
    pub hex : hex_to_bytes sender.priv_key ≡ ok key_bytes
    pub signs : s.private_key_of key_bytes ≡ ok key
    pub document : AccountDocument
    pub account : AccountsCollection
    pub found : find_account v sender.pub_key w.users ≡ some document
    pub valid : accounts_collection document ≡ ok account
    pub covered : pos 1 ≤ℤ latest_balance account
    pub known : find_account v receiver.pub_key w.users ≢ none

  pub submitted-users :
      (request : TransactionRequest) (submission_id transaction_id : String) (now : ℕ) (w : World v)
      → (submit_transaction v request submission_id transaction_id now w).1.users ≡ w.users
  unfolding submit_transaction handel_transaction_submission insert_into_queue
  submitted-users request submission_id transaction_id now w = ground arith

  module _ (lawful : IsServices v) (signer : IsSigner s) (layer_2_accounts : List ClientAccount)
      (a b : ℕ) (w : World v) (c : CanPay layer_2_accounts a b w)
      (submission_id transaction_id : String) (now : ℕ) where
    -- The request that the task posts.
    unfoldable pub request : TransactionRequest
    request = signed_request v s signer c.sender c.receiver (latest_nonce c.account) c.key

    made : create_transaction s c.sender c.receiver (latest_nonce c.account) ≡ ok request
    unfolding create_transaction request
    made = rw (c.hex, c.signs)

    nonce_answer :
        nonce_route v (record { account = c.sender.pub_key }) w
        ≡ value (record { nonce = latest_nonce c.account })
    unfolding nonce_route get_nonce_for_account
    nonce_answer = ground (arith, c.found, c.valid)

    to_submit :
        create_transaction_to_submit s layer_2_accounts (latest_nonce c.account) a b ≡ ok request
    unfolding create_transaction_to_submit
    to_submit = rw (c.at_a, c.at_b) made

    pub task_run :
        user_task s layer_2_accounts (sequencer_api v submission_id transaction_id now) a b w
        ≡ (ok tt, (submit_transaction v request submission_id transaction_id now w).1)
    unfolding user_task answered
    task_run = rw c.at_a (rw nonce_answer (rw to_submit))

    request_valid :
        check_transaction_validity v (enrich_transaction request submission_id transaction_id now)
        ≡ true
    request_valid =
        created_is_valid v s signer c.sender c.receiver (latest_nonce c.account) request
          submission_id transaction_id now made

    pub stored_pending : (stored v request submission_id transaction_id now).status ≡ some pending
    stored_pending = rw request_valid

    request_Accepts :
        Accepts v
          (submit_transaction v request submission_id transaction_id now w).1
          (stored v request submission_id transaction_id now)
          c.receiver.pub_key
    unfolding enrich_transaction request to_float latest_balance
    request_Accepts =
        let users = submitted-users request submission_id transaction_id now w in
        record {
          document = c.document;
          account = c.account;
          found = rw users c.found;
          valid = c.valid;
          covered = c.covered;
          in_order = refl;
          known = rw users c.known;
        }

    -- The task of a user whose account can be read and has a coin, to an account that the sequencer
    -- knows: it returns, and the collection of transactions grows by one transaction, from the sender to
    -- the receiver, which is pending, as its signature is valid, and which the check of the tree
    -- accepts in the new state.
    pub user_task-Accepts :
        let (r, new) =
          user_task s layer_2_accounts (sequencer_api v submission_id transaction_id now) a b w in
        (r ≡ ok tt)
        × (t : Transaction) × (v.mongo.documents new.transactions
            ≡ v.mongo.documents w.transactions ++ t ∷ [])
        × (t.status ≡ some pending)
        × (t.transaction_id ≡ some transaction_id)
        × (t.sender ≡ c.sender.pub_key)
        × (t.receiver ≡ some c.receiver.pub_key)
        × Accepts v new t c.receiver.pub_key
    unfolding request enrich_transaction
    user_task-Accepts = rw task_run (
      refl,
      stored v request submission_id transaction_id now,
      rw (submitted-transactions v request submission_id transaction_id now w)
          (lawful.mongo.documents-insert_one _ _),
      stored_pending,
      refl,
      refl,
      refl,
      request_Accepts,
    )
