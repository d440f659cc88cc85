-- ===== src/Block/Typed.antt =====
-- The shape of the documents: which fields of a stored transaction are there, and that the lists of
-- identifiers in the entries of an account hold texts.
pub mod Accounts
use zkp_rollup.Base.{
  Bool-cases, inl, inr, ap, ◌∙◌, false, ◌≡◌, refl, sym, String, Bool, true, not, ◌&&◌, ◌||◌, List,
  [], ◌∷◌, ◌++◌, All, Option, none, some, arith, Option-cases, if◌then◌else◌,
}
use zkp_rollup.Python.Result.{raised, validation_error, Result, ok, raised, Result-cases}
use zkp_rollup.Python.Bytes.{Bytes}
use zkp_rollup.Types.{
  Transaction, UpdateDocument, AccountDocument, AccountUpdates, AccountsCollection,
  TransactionStatus,
}
use zkp_rollup.Services.{Services, IsServices}
use zkp_rollup.Services.Mongo.{update_first}
use zkp_rollup.State.{World}
use zkp_rollup.State.Accounts.{find_account, push_account, push_update, by_address}
use zkp_rollup.MerkleTree.{
  cons_update, entry_texts, has_int64, is_there, values_before, account_update, checked_texts,
  account_updates_of, accounts_collection, update_leaf, update_sender_leaf_return_bytes,
  update_receiver_bytes_return_bytes, handle_deposit_transaction,
}
use zkp_rollup.MerkleTree.Index.{find_update_index-none}
use zkp_rollup.MerkleTree.Transfer.{sender_entry, receiver_entry}
use zkp_rollup.Base.Int.{pos}
use zkp_rollup.Block.{apply_to, apply_transaction, note_failure}
use zkp_rollup.Block.Kept.{Frames, transfer-Frames, apply_to-keeps}

-- What a submission is stored as: every field is there, but that of the block.
abbrev pub is_submission : Transaction → Bool
is_submission t =
    is_there t.receiver
    && is_there t.transaction_id
    && is_there t.nonce
    && is_there t.signature
    && is_there t.pub_key
    && is_there t.submission_id
    && is_there t.status

-- What a deposit is stored as: it has no receiver, identifier, nonce, signature and key.
abbrev pub is_deposit : Transaction → Bool
is_deposit t =
    not (is_there t.receiver)
    && not (is_there t.transaction_id)
    && not (is_there t.nonce)
    && not (is_there t.signature)
    && not (is_there t.pub_key)
    && is_there t.submission_id
    && is_there t.status

abbrev pub is_typed : Transaction → Bool
is_typed t = is_submission t || is_deposit t

-- An entry whose identifiers are texts, and an account with such entries.
abbrev pub IsTypedUpdate : UpdateDocument → Type 0
IsTypedUpdate u = (ids : List String) × (checked_texts u.transactions ≡ some ids)

abbrev pub IsTypedAccount : AccountDocument → Type 0
IsTypedAccount d = All IsTypedUpdate d.account_updates

pub is_typed-status :
    (t : Transaction) (s : TransactionStatus)
    → is_typed t ≡ true
    → is_typed (record t { status = some s }) ≡ true
is_typed-status t s h = ground (arith, h)

there : {A : Type 0} (o : Option A) → is_there o ≡ true → (a : A) × (o ≡ some a)
there none h = cc
there (some a) h = (a, refl)

pub typed_id :
    (t : Transaction) (to : String)
    → is_typed t ≡ true
    → t.receiver ≡ some to
    → (id : String) × (t.transaction_id ≡ some id)
typed_id t to h e = there t.transaction_id (ground (arith, h, e))

pub typed_status :
    (t : Transaction) → is_typed t ≡ true → (s : TransactionStatus) × (t.status ≡ some s)
typed_status t h = there t.status (ground (arith, h))

-- The balances in the entries are below 2 ^ 63.
abbrev pub all_int64 : List UpdateDocument → Bool
all_int64 [] = true
all_int64 (d ∷ ds) = has_int64 d && all_int64 ds

entry_read :
    (d : UpdateDocument) (ids : List String)
    → checked_texts d.transactions ≡ some ids
    → has_int64 d ≡ true
    → entry_texts d ≡ some ids
entry_read d ids e h = rw h e

entry_refused : (d : UpdateDocument) → has_int64 d ≡ false → entry_texts d ≡ none
entry_refused d h = rw h refl

both_true : (a b : Bool) → (a && b) ≡ true → (a ≡ true) × (b ≡ true)
both_true true true h = (refl, refl)
both_true true false h = cc
both_true false b h = cc

-- An account whose entries hold texts and such balances is what pydantic accepts.
updates_accepted :
    (ds : List UpdateDocument)
    → All IsTypedUpdate ds
    → all_int64 ds ≡ true
    → (us : List AccountUpdates) × (account_updates_of ds ≡ some us)
unfolding account_updates_of
updates_accepted [] all h = ([], refl)
updates_accepted (d ∷ ds) ((ids, e), all) h =
    let (here, later) = both_true (has_int64 d) (all_int64 ds) h in
    let (us, done) = updates_accepted ds all later in
    (
      account_update ids d ∷ us,
      ap (λ o. cons_update o d (account_updates_of ds)) (entry_read d ids e here) ∙ rw done refl,
    )

cons_none : (o : Option (List String)) (d : UpdateDocument) → cons_update o d none ≡ none
cons_none none d = refl
cons_none (some ids) d = refl

updates_refused : (ds : List UpdateDocument) → all_int64 ds ≡ false → account_updates_of ds ≡ none
unfolding account_updates_of
updates_refused [] h = cc
updates_refused (d ∷ ds) h = elim (Bool-cases (has_int64 d)) [
  | inl e ↦
      ap (cons_update (entry_texts d) d) (updates_refused ds (rw e at h))
      ∙ cons_none (entry_texts d) d
  | inr e ↦ ap (λ o. cons_update o d (account_updates_of ds)) (entry_refused d e)
]

pub account_accepted :
    (d : AccountDocument)
    → IsTypedAccount d
    → all_int64 d.account_updates ≡ true
    → (account : AccountsCollection) × (accounts_collection d ≡ ok account)
unfolding accounts_collection
account_accepted d all h =
    let (us, done) = updates_accepted d.account_updates all h in
    (
      record { address = d.address; balance = d.balance; nonce = d.nonce; account_updates = us },
      rw done,
    )

pub account_refused :
    (d : AccountDocument)
    → all_int64 d.account_updates ≡ false
    → accounts_collection d ≡ raised validation_error
unfolding accounts_collection
account_refused d h = rw (updates_refused d.account_updates h) refl
