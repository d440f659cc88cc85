-- ===== src/MemPool.antt =====
-- sequencer/src/MemPool.py: the queue of transactions in the database. The identifiers and the
-- times that the source draws are arguments. The two inserts of a deposit are not awaited in the
-- source; they are taken to be done.
pub mod Batch
use zkp_rollup.Base.{
  ℕ, zero, suc, String, Bool, true, false, ◌&&◌, ◌||◌, ◌==◌, option_eq, string_eq, List, [], ◌∷◌,
  map, Option, none, some, ltb, if◌then◌else◌,
}
use zkp_rollup.Base.Int.{ℤ, pos}
use zkp_rollup.Python.Float.{to_float}
use zkp_rollup.Python.Exec.{Exec, pure, modify, gets, ◌>>=◌, ◌>>◌}
use zkp_rollup.Types.{
  Transaction, pending, included, invalid, status_eq, AccountDocument, SubmissionResponse,
}
use zkp_rollup.Services.{Services}
use zkp_rollup.State.{World}
use zkp_rollup.Validator.{check_transaction_validity}

-- `{"status": TransactionStatus.PENDING.value}`, with `{"receivedAt": {"$gt": last_timestamp}}` if
-- there is a last timestamp: None and 0 are both false in `if last_timestamp`.
abbrev pub is_pending : Transaction → Bool
is_pending t = t.status == some pending

abbrev pub later_than : Option ℕ → Transaction → Bool
later_than none t = true
later_than (some zero) t = true
later_than (some (suc n)) t = ltb (suc n) t.received_at

abbrev pub is_due : Option ℕ → Transaction → Bool
is_due last_timestamp t = is_pending t && later_than last_timestamp t

-- `{"$in": ids}`
abbrev pub contains : List (Option String) → Option String → Bool
contains [] id = false
contains (i ∷ ids) id = id == i || contains ids id

abbrev pub has_id_in : List (Option String) → Transaction → Bool
has_id_in ids t = contains ids t.transaction_id

abbrev pub ids_of : List Transaction → List (Option String)
ids_of = map (λ t. t.transaction_id)

abbrev pub include : Transaction → Transaction
include t = record t { status = some included }

module _ (v : Services) where
  unfoldable pub insert_into_queue : Transaction → String → Exec (World v) SubmissionResponse
  insert_into_queue t submission_id = do
    let transaction_valid = check_transaction_validity v t
    let checked = record t { status = some (if transaction_valid then pending else invalid) }
    modify (λ w. record w { transactions = v.mongo.insert_one checked w.transactions })
    pure (record { submission_id = submission_id; valid = transaction_valid })

  abbrev pub deposit_of : String → ℤ → ℕ → String → Transaction
  deposit_of address amount current_time_stamp submission_id = record {
    received_at = current_time_stamp;
    submission_id = some submission_id;
    transaction_id = none;
    sender = address;
    receiver = none;
    nonce = none;
    signature = none;
    amount = to_float amount;
    status = some pending;
    badge_id = none;
    pub_key = none;
  }

  abbrev pub new_account : String → ℤ → AccountDocument
  new_account address amount = record {
    address = address;
    balance = amount;
    nonce = pos 0;
    account_updates = [];
  }

  unfoldable pub insert_deposit_transaction : String → ℤ → ℕ → String → Exec (World v) (Unit {0})
  insert_deposit_transaction address amount current_time_stamp submission_id = modify (λ w.
      record w {
        users = v.mongo.insert_one (new_account address amount) w.users;
        transactions =
            v.mongo.insert_one (deposit_of address amount current_time_stamp submission_id)
              w.transactions;
      })

  -- `find(...).sort("receivedAt", DESCENDING).limit(BADGE_SIZE)`
  abbrev pub due : Option ℕ → World v → List Transaction
  due last_timestamp w = v.mongo.limit v.badge_size (
      v.mongo.sort_descending (λ t. t.received_at)
        (v.mongo.find (is_due last_timestamp) w.transactions))

  unfoldable pub get_transaction_for_badge : Option ℕ → Exec (World v) (List Transaction)
  get_transaction_for_badge last_timestamp = do
    transactions ← gets (due last_timestamp)
    modify (λ w. record w {
      transactions = v.mongo.update_many (has_id_in (ids_of transactions)) include w.transactions;
    })
    pure transactions
