-- ===== src/MerkleTree.antt =====
-- sequencer/src/MerkleTreeController.py: the leaves of the tree and the `account_updates` of the
-- users collection. MerkleTree/Leaf.antt is the encoding of a leaf, MerkleTree/Index.antt the
-- search for the entry of a badge; the other modules below are proofs.
pub mod Leaf
pub mod Index
pub mod Check
pub mod Latest
pub mod Initial
pub mod Transfer
pub mod Deposit
use Leaf.{leaf_to_bytes, hash_account_to_leaf_value}
use Index.{find_update_index}
use zkp_rollup.Base.{
  ◌+◌, ◌^◌, ltb, ◌≡◌, String, Bool, true, false, not, ◌&&◌, eqb, List, [], ◌∷◌, Option, none, some,
  length, if◌then◌else◌,
}
use zkp_rollup.Base.Int.{ℤ, pos, pos_part, neg_part, negsuc, ◌+ℤ◌, ◌-ℤ◌, sub_ℕ, leb_ℤ, eqb_ℤ}
use zkp_rollup.Python.{get_item?}
use zkp_rollup.Python.Float.{◌+f◌, ◌-f◌}
use zkp_rollup.Python.Result.{
  Result, ok, raised, attribute_error, index_error, validation_error, tree_invariants_failed,
  require,
}
use zkp_rollup.Python.Result
use zkp_rollup.Python.Exec.{Exec, pure, raise, lift, gets, modify, try_except, ◌>>=◌, ◌>>◌}
use zkp_rollup.Python.Bytes.{Bytes}
use zkp_rollup.Utils.{hex_to_bytes}
use zkp_rollup.Types.{
  Transaction, UpdateDocument, AccountDocument, AccountUpdates, AccountsCollection,
}
use zkp_rollup.Services.{Services}
use zkp_rollup.State.{World}
use zkp_rollup.State.Accounts.{find_account, push_account}

-- `list[str]`: a None among the texts is refused.
unfoldable pub checked_texts : List (Option String) → Option (List String)
checked_texts [] = some []
checked_texts (none ∷ ids) = none
checked_texts (some id ∷ ids) = elim (checked_texts ids) [
  | none ↦ none
  | some rest ↦ some (id ∷ rest)
]

-- A balance after a transfer is a float in the database, which pydantic reads as an `int` only below
-- 2 ^ 63.
abbrev pub is_int64 : ℤ → Bool
is_int64 z = ltb (pos_part z) (2 ^ 63) && ltb (neg_part z) (2 ^ 63)

abbrev pub has_int64 : UpdateDocument → Bool
has_int64 d = is_int64 d.balance_before && is_int64 d.balance_after

abbrev pub entry_texts : UpdateDocument → Option (List String)
entry_texts d = if has_int64 d then checked_texts d.transactions else none

-- `AccountUpdates(**entry)`, with its fields checked
abbrev pub account_update : List String → UpdateDocument → AccountUpdates
account_update ids d = record {
  balance_before = d.balance_before;
  balance_after = d.balance_after;
  nonce_before = d.nonce_before;
  nonce_after = d.nonce_after;
  transactions = ids;
  badge_id = d.badge_id;
}

abbrev pub cons_update :
    Option (List String)
    → UpdateDocument
    → Option (List AccountUpdates)
    → Option (List AccountUpdates)
cons_update none d rest = none
cons_update (some ids) d none = none
cons_update (some ids) d (some us) = some (account_update ids d ∷ us)

unfoldable pub account_updates_of : List UpdateDocument → Option (List AccountUpdates)
unfolding checked_texts
account_updates_of [] = some []
account_updates_of (d ∷ ds) = cons_update (entry_texts d) d (account_updates_of ds)

abbrev pub checked_account :
    AccountDocument → Option (List AccountUpdates) → Result AccountsCollection
checked_account d none = raised validation_error
checked_account d (some us) =
    ok (record { address = d.address; balance = d.balance; nonce = d.nonce; account_updates = us })

-- `AccountsCollection(**account)`
unfoldable pub accounts_collection : AccountDocument → Result AccountsCollection
unfolding account_updates_of
accounts_collection d = checked_account d (account_updates_of d.account_updates)

-- The last entry of `account_updates` if there is one, and the account's own values otherwise.
unfoldable pub latest_nonce : AccountsCollection → ℤ
latest_nonce account = elim (get_item? account.account_updates (negsuc 0)) [
  | none ↦ account.nonce
  | some u ↦ u.nonce_after
]

unfoldable pub latest_balance : AccountsCollection → ℤ
latest_balance account = elim (get_item? account.account_updates (negsuc 0)) [
  | none ↦ account.balance
  | some u ↦ u.balance_after
]

-- `latest_nonce == transaction.nonce`
abbrev pub nonce_equal : ℤ → Option ℤ → Bool
nonce_equal n none = false
nonce_equal n (some m) = eqb_ℤ n m

abbrev pub is_there {ℓ} : {A : Type ℓ} → Option A → Bool
is_there none = false
is_there (some a) = true

-- The balance and the nonce that an update starts from: those of the account while it has no
-- entry, and those of the entry at `len(account_updates) - back` later.
unfoldable pub values_before : AccountDocument → (back : ℤ) → Result (ℤ × ℤ)
values_before account back =
    if eqb (length account.account_updates) 0
    then ok (account.balance, account.nonce)
    else elim (get_item? account.account_updates (pos (length account.account_updates) -ℤ back)) [
      | none ↦ raised index_error
      | some last_sub ↦ ok (last_sub.balance_after, last_sub.nonce_after)
    ]

module _ (v : Services) where
  unfoldable pub get_merkle_root : World v → String
  get_merkle_root w = v.smt.root_as_hex w.sparse_merkle_tree

  -- `self.sparse_merkle_tree.update(hex_to_bytes(account), leaf)`
  abbrev pub update_leaf : String → Bytes → Exec (World v) (Unit {0})
  update_leaf account leaf = do
    key ← lift (hex_to_bytes account)
    modify (λ w. record w { sparse_merkle_tree = v.smt.update key leaf w.sparse_merkle_tree })

  abbrev pub push_to : String → UpdateDocument → Exec (World v) (Unit {0})
  push_to address entry = modify (λ w. record w { users = push_account v address entry w.users })

  -- In the branch of an entry that was found, `prev_sender.account_updates` asks a dict for an
  -- attribute, which raises before anything is written.
  unfoldable pub update_sender_leaf_return_bytes : String → Transaction → Exec (World v) Bytes
  update_sender_leaf_return_bytes badge_id t = do
    found ← gets (λ w. find_account v t.sender w.users)
    prev_sender ← lift (require attribute_error found)
    elim (find_update_index badge_id prev_sender.account_updates) [
      | some update_index ↦ raise attribute_error
      | none ↦ (do
        before ← lift (values_before prev_sender (pos 2))
        let new_balance = before.0 -f t.amount
        let new_nonce = before.1 +ℤ pos 1
        push_to t.sender (record {
          balance_before = before.0;
          balance_after = new_balance;
          nonce_before = before.1;
          nonce_after = new_nonce;
          transactions = t.transaction_id ∷ [];
          badge_id = badge_id;
        })
        lift (leaf_to_bytes new_balance new_nonce t.sender))
    ]

  -- The entry of the receiver is pushed to the document of the sender, as the source has it.
  unfoldable pub update_receiver_bytes_return_bytes :
      String → Transaction → String → Exec (World v) Bytes
  update_receiver_bytes_return_bytes badge_id t receiver = do
    found ← gets (λ w. find_account v receiver w.users)
    prev_receiver ← lift (require attribute_error found)
    elim (find_update_index badge_id prev_receiver.account_updates) [
      | some update_index ↦ raise attribute_error
      | none ↦ (do
        before ← lift (values_before prev_receiver (pos 1))
        let new_balance = before.0 +f t.amount
        let new_nonce = before.1
        push_to t.sender (record {
          balance_before = before.0;
          balance_after = new_balance;
          nonce_before = before.1;
          nonce_after = new_nonce;
          transactions = t.transaction_id ∷ [];
          badge_id = badge_id;
        })
        lift (leaf_to_bytes new_balance new_nonce receiver))
    ]

  -- The `try` of the source ends in `return False`.
  unfoldable pub check_tree_invariants_for_update : Transaction → String → Exec (World v) Bool
  check_tree_invariants_for_update t receiver =
      try_except
        (do
          account ← gets (λ w. find_account v t.sender w.users)
          elim account [
            | none ↦ pure false
            | some document ↦ (do
              account_object ← lift (accounts_collection document)
              account_receiver ← gets (λ w. find_account v receiver w.users)
              let balance_sufficient = leb_ℤ t.amount (latest_balance account_object)
              let nonce_correct = nonce_equal (latest_nonce account_object) t.nonce
              pure (balance_sufficient && nonce_correct && is_there account_receiver))
          ])
        (λ e. pure false)

  unfoldable pub make_rollup_transaction_between_existing_users :
      String → Transaction → String → Exec (World v) (Unit {0})
  make_rollup_transaction_between_existing_users badge_id t receiver = do
    invariants_succeded ← check_tree_invariants_for_update t receiver
    if not invariants_succeded then raise tree_invariants_failed else do
      new_sender_leaf_data ← update_sender_leaf_return_bytes badge_id t
      update_leaf t.sender new_sender_leaf_data
      new_receiver_leaf ← update_receiver_bytes_return_bytes badge_id t receiver
      update_leaf receiver new_receiver_leaf

  unfoldable pub handle_deposit_transaction : Transaction → Exec (World v) (Unit {0})
  handle_deposit_transaction t = do
    new_leaf_data ← lift (leaf_to_bytes t.amount (pos 0) t.sender)
    update_leaf t.sender new_leaf_data
