-- ===== src/MerkleTree/Initial.antt =====
-- `initilize_sparse_merkle_tree` of sequencer/src/MerkleTreeController.py: one leaf for each account of
-- funded_accounts.json, whose entries are an argument.
use zkp_rollup.Base.{◌≡◌, ◌≢◌, sym, ap, ◌∙◌, List, [], ◌∷◌, All}
use zkp_rollup.Python.Result.{Result, ok, ◌>>=◌, >>=-eq-ok}
use zkp_rollup.Python.Bytes.{Bytes}
use zkp_rollup.Utils.{hex_to_bytes}
use zkp_rollup.Services.{Services, IsServices}
use zkp_rollup.Services.Smt.{get-update_ne}
use zkp_rollup.MerkleTree.Leaf.{FundedAccount, hash_account_to_leaf_value}

ok_inj : {A : Type 0} {a b : A} → ok a ≡ ok b → a ≡ b
ok_inj h = cc

module _ (v : Services) where
  unfoldable pub insert_leaves :
      List FundedAccount → v.smt.SparseMerkleTree → Result v.smt.SparseMerkleTree
  insert_leaves [] tree = ok tree
  insert_leaves (acc ∷ accs) tree = do
    key ← hex_to_bytes acc.pub_key
    value ← hash_account_to_leaf_value acc
    insert_leaves accs (v.smt.update key value tree)

  unfoldable pub initilize_sparse_merkle_tree : List FundedAccount → Result v.smt.SparseMerkleTree
  unfolding insert_leaves
  initilize_sparse_merkle_tree users_data = insert_leaves users_data v.smt.empty

  module _ (lawful : IsServices v) (key : Bytes) where
    -- Accounts with other keys leave a leaf alone.
    pub insert_leaves-others :
        (accs : List FundedAccount) (tree new : v.smt.SparseMerkleTree)
        → All (λ acc. hex_to_bytes acc.pub_key ≢ ok key) accs
        → insert_leaves accs tree ≡ ok new
        → v.smt.get new key ≡ v.smt.get tree key
    unfolding insert_leaves
    insert_leaves-others [] tree new others h =
        ap (λ (t : v.smt.SparseMerkleTree). v.smt.get t key) (ok_inj (sym h))
    insert_leaves-others (acc ∷ accs) tree new (other, others) h =
        let (k, hk, r1) = >>=-eq-ok (hex_to_bytes acc.pub_key) _ h in
        let (value, hv, r2) = >>=-eq-ok (hash_account_to_leaf_value acc) _ r1 in
        let apart : key ≢ k = λ e. other (hk ∙ ap ok (sym e)) in
        insert_leaves-others accs (v.smt.update k value tree) new others r2
        ∙ get-update_ne v.smt lawful.smt tree k value key apart
