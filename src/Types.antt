-- ===== src/Types.antt =====
-- sequencer/src/Types.py: the documents of the collections and the bodies of the requests. The
-- enumerations are types of their own; the source stores the text of a member (`use_enum_values`).
-- Times and block numbers are `int(time.time())` and a counter from 0, so they are naturals. The
-- amount of a Transaction is a `float` that holds a whole number (Python/Float), since it comes
-- from an `int`: the integer that it holds here.
use zkp_rollup.Base.{ℕ, String, Bool, List, Option, Eq}
use zkp_rollup.Base.Int.{ℤ}

pub record SignatureData : Type 0 where
  pub pub_key : String
  pub signature : String

pub record TransactionRequest : Type 0 where
  pub sender : String
  pub receiver : String
  pub amount : ℤ
  pub nonce : ℤ
  pub signature : SignatureData

pub data BadgeExecutionCause : Type 0 where
  timedout filledup : BadgeExecutionCause

pub data BadgeStatus : Type 0 where
  send_to_verify verified failed : BadgeStatus

pub data TransactionStatus : Type 0 where
  pending included failed verified invalid : TransactionStatus

pub record Transaction : Type 0 where
  pub received_at : ℕ
  pub submission_id : Option String
  pub transaction_id : Option String
  pub sender : String
  pub receiver : Option String
  pub nonce : Option ℤ
  pub signature : Option String
  pub amount : ℤ
  pub status : Option TransactionStatus
  pub badge_id : Option String
  pub pub_key : Option String

-- An entry of `account_updates` as it lies in the database: the identifiers are not yet checked
-- to be texts.
pub record UpdateDocument : Type 0 where
  pub balance_before : ℤ
  pub balance_after : ℤ
  pub nonce_before : ℤ
  pub nonce_after : ℤ
  pub transactions : List (Option String)
  pub badge_id : String

-- A document of the users collection.
pub record AccountDocument : Type 0 where
  pub address : String
  pub balance : ℤ
  pub nonce : ℤ
  pub account_updates : List UpdateDocument

pub record AccountUpdates : Type 0 where
  pub balance_before : ℤ
  pub balance_after : ℤ
  pub nonce_before : ℤ
  pub nonce_after : ℤ
  pub transactions : List String
  pub badge_id : String

pub record AccountsCollection : Type 0 where
  pub address : String
  pub balance : ℤ
  pub nonce : ℤ
  pub account_updates : List AccountUpdates

pub record TransactionBadge : Type 0 where
  pub badge_id : String
  pub status : BadgeStatus
  pub blockhash : String
  pub state_root : String
  pub blocknumber : ℕ
  pub timestamp : ℕ
  pub execution_cause : Option BadgeExecutionCause
  pub transactions : List String
  pub prev_badge : Option String

pub record CurrentBadge : Type 0 where
  pub curr_badge_id : String

pub record SubmissionResponse : Type 0 where
  pub submission_id : String
  pub valid : Bool

pub record SubmissionStatus : Type 0 where
  pub submission_id : String
  pub status : TransactionStatus

pub record NonceResponse : Type 0 where
  pub nonce : ℤ

pub record NonceRequest : Type 0 where
  pub account : String

pub record SubmissionStatusRequest : Type 0 where
  pub submission_id : String

-- `status == other`, on members of the enumeration
status_discrete : Discrete TransactionStatus
status_discrete = hlevel

instance unfoldable pub status_eq : Eq TransactionStatus
unfolding status_discrete
status_eq = record { dec = status_discrete }
