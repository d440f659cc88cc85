-- ===== src/Block.antt =====
-- sequencer/src/BlockController.py: submissions, batches and blocks. Random identifiers and times are
-- arguments, in the order in which the source draws them.
pub mod Hash
pub mod Kept
pub mod Untouched
pub mod Typed
pub mod Frame
pub mod Form
pub mod Unhashed
pub mod Formed
pub mod Chain
pub mod Counter
pub mod Once
pub mod Steps
pub mod Apply
pub mod Single
pub mod Readable
use Hash.{create_block_hash}
use zkp_rollup.Base.{
  ℕ, suc, ◌+◌, String, Bool, true, false, not, ◌==◌, option_eq, string_eq, List, [], ◌∷◌, ◌++◌, map,
  filter, Option, none, some, eqb, if◌then◌else◌,
}
use zkp_rollup.Base.Int.{ℤ}
use zkp_rollup.Python.Float.{to_float}
use zkp_rollup.Python.Result.{
  Result, Error, ok, raised, type_error, attribute_error, validation_error, require,
}
use zkp_rollup.Python.Exec.{Exec, pure, lift, gets, modify, try_except, ◌>>=◌, ◌>>◌}
use zkp_rollup.Utils.{add_0x_prefix}
use zkp_rollup.Types.{
  Transaction, TransactionRequest, TransactionBadge, CurrentBadge, BadgeExecutionCause, timedout,
  filledup, send_to_verify, SubmissionResponse, SubmissionStatus, NonceResponse,
}
use zkp_rollup.Types
use zkp_rollup.Services.{Services}
use zkp_rollup.State.{World}
use zkp_rollup.State.Accounts.{find_account}
use zkp_rollup.MemPool.{insert_into_queue, get_transaction_for_badge, contains, ids_of}
use zkp_rollup.MerkleTree.{
  checked_texts, accounts_collection, latest_nonce, get_merkle_root, handle_deposit_transaction,
  make_rollup_transaction_between_existing_users,
}

abbrev pub batch_size : ℕ
batch_size = 50

abbrev pub zero_address : String
zero_address = "0x0000000000000000000000000000000000000000"

-- `{"transactionId": id}` and `{"badgeId": id}`
abbrev pub by_transaction_id : Option String → Transaction → Bool
by_transaction_id id t = t.transaction_id == id

abbrev pub by_badge_id : String → TransactionBadge → Bool
by_badge_id id badge = badge.badge_id == id

abbrev pub by_submission_id : String → Transaction → Bool
by_submission_id id t = t.submission_id == some id

abbrev pub any_document {ℓ} : {D : Type ℓ} → D → Bool
any_document d = true

-- `{"$set": {"currBadgeID": next_badge_id}}`
abbrev pub point_to : String → CurrentBadge → CurrentBadge
point_to next_badge_id c = record c { curr_badge_id = next_badge_id }

abbrev pub fail : Transaction → Transaction
fail t = record t { status = some Types.TransactionStatus.failed }

abbrev pub survivors : List (Option String) → List Transaction → List Transaction
survivors failed batch = filter (λ t. not (contains failed t.transaction_id)) batch

unfoldable pub enrich_transaction : TransactionRequest → String → String → ℕ → Transaction
enrich_transaction request submission_id transaction_id now = record {
  received_at = now;
  submission_id = some submission_id;
  transaction_id = some transaction_id;
  sender = request.sender;
  receiver = some request.receiver;
  nonce = some request.nonce;
  signature = some request.signature.signature;
  amount = to_float request.amount;
  status = some Types.TransactionStatus.pending;
  badge_id = none;
  pub_key = some request.signature.pub_key;
}

module _ (v : Services) where
  unfoldable pub transactions_for_cause : BadgeExecutionCause → Exec (World v) (List Transaction)
  transactions_for_cause filledup w = get_transaction_for_badge v none w
  transactions_for_cause timedout w = get_transaction_for_badge v (some w.last_timestamp) w

  -- One transaction of a batch: no receiver is a deposit, the zero address is a withdrawal, which
  -- is not processed yet.
  abbrev pub apply_to : String → Transaction → Option String → Exec (World v) (Unit {0})
  apply_to badge_id t none = handle_deposit_transaction v t
  apply_to badge_id t (some receiver) =
      if receiver == zero_address
      then pure tt
      else make_rollup_transaction_between_existing_users v badge_id t receiver

  unfoldable pub apply_transaction : String → Transaction → Exec (World v) (Unit {0})
  apply_transaction badge_id t = apply_to badge_id t t.receiver

  -- The `try` in the loop: a transaction that raises is marked as failed.
  unfoldable pub note_failure :
      List (Option String)
      → Transaction
      → Result (Unit {0}) × World v
      → List (Option String) × World v
  note_failure failed t (ok done, w) = (failed, w)
  note_failure failed t (raised e, w) = (
    failed ++ t.transaction_id ∷ [],
    record w {
      transactions = v.mongo.update_one (by_transaction_id t.transaction_id) fail w.transactions;
    },
  )

  unfoldable pub update_from :
      String → List (Option String) → List Transaction → World v → List (Option String) × World v
  update_from badge_id failed [] w = (failed, w)
  update_from badge_id failed (t ∷ ts) w =
      let (failed', w') = note_failure failed t (apply_transaction badge_id t w) in
      update_from badge_id failed' ts w'

  unfoldable pub update_merkle_tree : List Transaction → String → Exec (World v) (List Transaction)
  update_merkle_tree batch badge_id w =
      let (failed, w') = update_from badge_id [] batch w in (ok (survivors failed batch), w')

  unfoldable pub increment_badge_pointer : String → Exec (World v) (Unit {0})
  increment_badge_pointer next_badge_id =
      modify
        (λ w. record w { curr = v.mongo.update_one any_document (point_to next_badge_id) w.curr })

  unfoldable pub insert_new_badge : TransactionBadge → String → Exec (World v) (Unit {0})
  unfolding increment_badge_pointer
  insert_new_badge badge next_badge_id = do
    modify (λ w. record w { badges = v.mongo.insert_one badge w.badges })
    increment_badge_pointer next_badge_id

  -- The hash, the number and the identifier of the block that the pointer names; the source returns
  -- None where a look-up fails.
  unfoldable pub get_previous_block_information : World v → Option (String × ℕ × String)
  get_previous_block_information w = elim (v.mongo.find_one any_document w.curr) [
    | none ↦ none
    | some first_doc ↦ elim (v.mongo.find_one (by_badge_id first_doc.curr_badge_id) w.badges) [
      | none ↦ none
      | some prev_badge ↦ some (prev_badge.blockhash, prev_badge.blocknumber, prev_badge.badge_id)
    ]
  ]

  -- The block after the batch has been applied. Unpacking None raises, `add_0x_prefix(None)` raises,
  -- and so does a badge whose list of identifiers holds None.
  unfoldable pub finish_block :
      BadgeExecutionCause
      → String
      → ℕ
      → List Transaction
      → List Transaction
      → Exec (World v) (Unit {0})
  finish_block cause badge_id timestamp badged_transaction transactions_for_delta = do
    new_merkle_root ← gets (get_merkle_root v)
    previous ← gets get_previous_block_information
    (blockhash, blocknumber, prev_id) ← lift (require type_error previous)
    curr_block_hash ← lift (
        require attribute_error
          (create_block_hash v (blocknumber + 1) timestamp badged_transaction (some blockhash)))
    transaction_ids ←
        lift (require validation_error (checked_texts (ids_of transactions_for_delta)))
    insert_new_badge
        (record {
          badge_id = badge_id;
          status = send_to_verify;
          blockhash = add_0x_prefix curr_block_hash;
          state_root = new_merkle_root;
          blocknumber = blocknumber + 1;
          timestamp = timestamp;
          execution_cause = some cause;
          transactions = transaction_ids;
          prev_badge = some prev_id;
        })
        badge_id

  -- `now` is the time that becomes `last_timestamp`, `timestamp` that of the block.
  unfoldable pub form_new_L2_block :
      BadgeExecutionCause → String → ℕ → ℕ → Exec (World v) (Unit {0})
  form_new_L2_block cause badge_id now timestamp =
      try_except
        (do
          badged_transaction ← transactions_for_cause cause
          modify (λ w. record w { last_timestamp = now })
          transactions_for_delta ← update_merkle_tree badged_transaction badge_id
          finish_block cause badge_id timestamp badged_transaction transactions_for_delta)
        (λ e. pure tt)

  -- After the counter has grown by one.
  abbrev pub fill_queue : World v → World v
  fill_queue w =
      if eqb w.transaction_counter batch_size
      then record w { queue = w.queue ++ filledup ∷ []; transaction_counter = 0 }
      else w

  unfoldable pub handel_transaction_submission :
      TransactionRequest → String → String → ℕ → Exec (World v) SubmissionResponse
  handel_transaction_submission request submission_id transaction_id now = do
    submission_response ←
        insert_into_queue v (enrich_transaction request submission_id transaction_id now)
          submission_id
    modify (λ w. fill_queue (record w { transaction_counter = w.transaction_counter + 1 }))
    pure submission_response

  abbrev pub consume : List BadgeExecutionCause → String → ℕ → ℕ → World v → World v
  consume [] badge_id now timestamp w = w
  consume (cause ∷ rest) badge_id now timestamp w =
      (form_new_L2_block cause badge_id now timestamp (record w { queue = rest })).1

  -- One round of `batch_queue_consumer`: it waits while the queue is empty.
  unfoldable pub batch_queue_consumer : String → ℕ → ℕ → World v → World v
  batch_queue_consumer badge_id now timestamp w = consume w.queue badge_id now timestamp w

  -- One round of `batch_queue_producer`.
  unfoldable pub batch_queue_producer : World v → World v
  batch_queue_producer w = record w { queue = w.queue ++ timedout ∷ [] }

  unfoldable pub get_nonce_for_account : String → World v → Result NonceResponse
  get_nonce_for_account account w = elim (find_account v account w.users) [
    | none ↦ raised type_error
    | some document ↦ elim (accounts_collection document) [
      | raised e ↦ raised e
      | ok acc ↦ ok (record { nonce = latest_nonce acc })
    ]
  ]

  unfoldable pub get_status_for_transaction : String → World v → Result SubmissionStatus
  get_status_for_transaction submission_id w =
      elim (v.mongo.find_one (by_submission_id submission_id) w.transactions) [
        | none ↦ raised type_error
        | some doc ↦ elim doc.status [
          | none ↦ raised validation_error
          | some status ↦ ok (record { submission_id = submission_id; status = status })
        ]
      ]
