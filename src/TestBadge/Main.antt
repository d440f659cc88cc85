-- ===== src/TestBadge/Main.antt =====
-- scripts/create_test_badge.py: `main`, on the accounts and the pairs that were drawn.
use zkp_rollup.Base.{ℕ, List, [], ◌∷◌}
use zkp_rollup.Python.Exec.{Exec, pure, lift, gets, modify, ◌>>=◌, ◌>>◌}
use zkp_rollup.Python.Bytes.{Bytes}
use zkp_rollup.Services.{Services}
use zkp_rollup.Client.{Signer}
use zkp_rollup.TestBadge.{AccountInformation, Book, apply_transaction, initialize_merkle_tree}
use zkp_rollup.TestBadge.Proofs.{get_merkle_proofs}
use zkp_rollup.TestBadge.Script.{
  BadgeTransaction, Badge, create_account_information, create_transaction,
  view_on_account_information,
}

module _ (v : Services) (s : Signer v.crypto) where
  -- The loop over `range(0, amount_transactions)`, with the pair that each round draws.
  unfoldable pub make_transactions : List (ℕ × ℕ) → Exec (Book v) (List BadgeTransaction)
  make_transactions [] = pure []
  make_transactions ((from_index, to_index) ∷ sending_pairs) = do
    account_information ← gets (λ b. b.account_information)
    transaction ← lift (create_transaction v s account_information from_index to_index)
    apply_transaction v transaction.amount from_index to_index
    transactions ← make_transactions sending_pairs
    pure (transaction ∷ transactions)

  -- `main` after the accounts have been drawn.
  unfoldable pub make_badge : List (ℕ × ℕ) → Exec (Book v) Badge
  unfolding make_transactions
  make_badge sending_pairs = do
    drawn ← gets (λ b. b.account_information)
    start_root ← initialize_merkle_tree v drawn
    transactions ← make_transactions sending_pairs
    leaf_data ← gets (λ b. view_on_account_information b.account_information)
    book ← gets (λ b. b)
    inclusion_proofs ←
        lift (get_merkle_proofs v.smt book.tree book.account_information sending_pairs)
    new_merkle_root ← gets (λ b. v.smt.root_as_hex b.tree)
    pure (record {
      old_merkle_root = start_root;
      leaf_data = leaf_data;
      transactions = transactions;
      new_merkle_root = new_merkle_root;
      badge_id = 1;
    })

  abbrev pub new_book : List AccountInformation → Book v
  new_book accounts = record { account_information = accounts; tree = v.smt.empty }

  -- `main`: its tree is new, and the private keys and the pairs are those that were drawn.
  unfoldable pub main : List Bytes → List (ℕ × ℕ) → Exec (Book v) Badge
  unfolding make_badge
  main drawn sending_pairs = do
    account_information ← lift (create_account_information v s drawn)
    modify (λ b. new_book account_information)
    make_badge sending_pairs
