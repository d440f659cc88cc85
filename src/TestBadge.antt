-- ===== src/TestBadge.antt =====
-- scripts/create_test_badge.py: the accounts of a test badge and its tree, and how a transaction is
-- applied to both. The script's `leaf_data_to_bytes` is the text of the controller's `leaf_to_bytes`.
pub mod Funds
pub mod Script
pub mod Tree
pub mod Proofs
pub mod Main
pub mod Run
pub mod Whole
pub mod Created
use zkp_rollup.Base.{ℕ, zero, suc, String, List, [], ◌∷◌, get_elem?, Option, none, some}
use zkp_rollup.Base.Int.{ℤ, pos, ◌+ℤ◌, ◌-ℤ◌}
use zkp_rollup.Python.Result.{Result, index_error, require}
use zkp_rollup.Python.Exec.{Exec, pure, lift, gets, modify, ◌>>=◌, ◌>>◌}
use zkp_rollup.Python.Bytes.{Bytes}
use zkp_rollup.Utils.{hex_to_bytes}
use zkp_rollup.MerkleTree.Leaf.{leaf_to_bytes}
use zkp_rollup.Services.{Services}

pub record AccountInformation : Type 0 where
  pub private_key : String
  pub public_key : String
  pub balance : ℤ
  pub nonce : ℤ

-- What the script mutates.
pub record Book (v : Services) : Type 0 where
  pub account_information : List AccountInformation
  pub tree : v.smt.SparseMerkleTree

-- The item at an index, changed in place.
unfoldable pub update_at {ℓ} : {A : Type ℓ} → ℕ → (A → A) → List A → Option (List A)
update_at i f [] = none
update_at zero f (x ∷ xs) = some (f x ∷ xs)
update_at (suc i) f (x ∷ xs) = elim (update_at i f xs) [ none ↦ none | some rest ↦ some (x ∷ rest) ]

-- `["balance"] -= amount`, `["nonce"] += 1` and `["balance"] += amount`
abbrev pub debit : ℤ → AccountInformation → AccountInformation
debit amount acc = record acc { balance = acc.balance -ℤ amount }

abbrev pub next_nonce : AccountInformation → AccountInformation
next_nonce acc = record acc { nonce = acc.nonce +ℤ pos 1 }

abbrev pub credit : ℤ → AccountInformation → AccountInformation
credit amount acc = record acc { balance = acc.balance +ℤ amount }

unfoldable pub leaf_data_to_bytes : ℤ → ℤ → String → Result Bytes
leaf_data_to_bytes balance nonce pub_key = leaf_to_bytes balance nonce pub_key

module _ (v : Services) where
  unfoldable pub change_account :
      ℕ → (AccountInformation → AccountInformation) → Exec (Book v) (Unit {0})
  change_account i f = do
    accounts ← gets (λ b. b.account_information)
    changed ← lift (require index_error (update_at i f accounts))
    modify (λ b. record b { account_information = changed })

  -- The new leaf of an account goes into the tree.
  unfoldable pub write_leaf : ℕ → Exec (Book v) (Unit {0})
  write_leaf i = do
    accounts ← gets (λ b. b.account_information)
    acc ← lift (require index_error (get_elem? accounts i))
    leaf ← lift (leaf_data_to_bytes acc.balance acc.nonce acc.public_key)
    key ← lift (hex_to_bytes acc.public_key)
    modify (λ b. record b { tree = v.smt.update key leaf b.tree })

  unfoldable pub apply_transaction : ℤ → ℕ → ℕ → Exec (Book v) (Unit {0})
  apply_transaction amount from_index to_index = do
    change_account from_index (debit amount)
    change_account from_index next_nonce
    change_account to_index (credit amount)
    write_leaf from_index
    write_leaf to_index

  unfoldable pub insert_accounts : List AccountInformation → Exec (Book v) (Unit {0})
  insert_accounts [] = pure tt
  insert_accounts (acc ∷ accs) = do
    bytes_key ← lift (hex_to_bytes acc.public_key)
    bytes_leaf ← lift (leaf_data_to_bytes acc.balance acc.nonce acc.public_key)
    modify (λ b. record b { tree = v.smt.update bytes_key bytes_leaf b.tree })
    insert_accounts accs

  unfoldable pub initialize_merkle_tree : List AccountInformation → Exec (Book v) String
  unfolding insert_accounts
  initialize_merkle_tree account_information = do
    insert_accounts account_information
    gets (λ b. v.smt.root_as_hex b.tree)
