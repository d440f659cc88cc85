-- ===== src/Server/Start/Funded.antt =====
-- What holds once the service has been set up: the database and the tree agree on each account.
use zkp_rollup.Base.{
  ℕ, ◌≡◌, ◌≢◌, ◌∙◌, refl, sym, ap, String, true, string_eq, beq_self, beq_ne, List, [], ◌∷◌, map,
  some, first, All, arith,
}
use zkp_rollup.Base.Int.{pos}
use zkp_rollup.Base.Filter.{All-map, All-map2}
use zkp_rollup.Python.Result.{ok}
use zkp_rollup.Python.Bytes.{Bytes}
use zkp_rollup.Utils.{hex_to_bytes}
use zkp_rollup.Services.{Services, IsServices}
use zkp_rollup.Services.Smt.{get-update_self}
use zkp_rollup.State.{World}
use zkp_rollup.State.Accounts.{find_account, by_address}
use zkp_rollup.MerkleTree.Leaf.{FundedAccount, hash_account_to_leaf_value}
use zkp_rollup.MerkleTree.Leaf.Laws.{
  FitsU64, leaf_balance, leaf_nonce, leaf_to_bytes-decode, leaf_to_bytes-ok_iff,
  hash_account_to_leaf_value-eq,
}
use zkp_rollup.MerkleTree.Initial.{
  insert_leaves, insert_leaves-others, initilize_sparse_merkle_tree,
}
use zkp_rollup.Setup.{start_user, on_start}
use zkp_rollup.Setup.Laws.{on_start-HasChain}
use zkp_rollup.Block.Chain.{HasChain}
use zkp_rollup.Server.Start.Begun.{listener_at, chain_listener-made}
use zkp_rollup.Services.Web3.{Web3}
use zkp_rollup.ChainListener.{DepositEntry}
use zkp_rollup.ChainListener.Loop.{Listener}
use zkp_rollup.Ledger.{key_of}
use zkp_rollup.Ledger.Steps.{HasLeaf, key_of-ok}
use zkp_rollup.Server.Start.{
  Database, merkle_tree_controller, block_controller, start_service, node_address, contract_address,
}

-- An account whose leaf can be written.
pub record IsFundable (acc : FundedAccount) : Type 0 where
  pub key : Bytes
  pub hex : hex_to_bytes acc.pub_key ≡ ok key
  pub fits : FitsU64 acc.balance

-- No two accounts have the same bytes as address.
abbrev pub AllDiffer : List FundedAccount → Type 0
AllDiffer [] = Unit
AllDiffer (a ∷ accs) = All (λ b. key_of b.pub_key ≢ key_of a.pub_key) accs × AllDiffer accs

users_found :
    (accs : List FundedAccount)
    → AllDiffer accs
    → All (λ a. first (by_address a.pub_key) (map start_user accs) ≡ some (start_user a)) accs
users_found [] differ = tt
users_found (a ∷ accs) (others, differ) = (
  rw (beq_self a.pub_key),
  All-map2 {R = λ b. first (by_address b.pub_key) (map start_user (a ∷ accs)) ≡ some (start_user b)}
      (λ b ne found. rw (beq_ne a.pub_key b.pub_key (λ e. ne (ap key_of (sym e)))) found) accs
      others (users_found accs differ),
)

leaf_of :
    (acc : FundedAccount)
    → IsFundable acc
    → (leaf : Bytes) × (hash_account_to_leaf_value acc ≡ ok leaf)
      × (leaf_balance leaf ≡ acc.balance)
      × (leaf_nonce leaf ≡ pos 0)
leaf_of acc f =
    let (leaf, encoded) =
      (leaf_to_bytes-ok_iff acc.balance (pos 0) acc.pub_key).1
        (f.fits, omega arith, (f.key, f.hex)) in
    let (balance, nonce, _) = leaf_to_bytes-decode acc.balance (pos 0) acc.pub_key leaf encoded in
    (leaf, hash_account_to_leaf_value-eq acc ∙ encoded, balance, nonce)

module _ (v : Services) (lawful : IsServices v) where
  abbrev HoldsLeaf : v.smt.SparseMerkleTree → FundedAccount → Type 0
  HoldsLeaf tree acc =
      (leaf_balance (v.smt.get tree (key_of acc.pub_key)) ≡ acc.balance)
      × (leaf_nonce (v.smt.get tree (key_of acc.pub_key)) ≡ pos 0)

  leaves_held :
      (accs : List FundedAccount) (tree : v.smt.SparseMerkleTree)
      → All IsFundable accs
      → AllDiffer accs
      → (new : v.smt.SparseMerkleTree) × (insert_leaves v accs tree ≡ ok new)
        × All (HoldsLeaf new) accs
  unfolding insert_leaves
  leaves_held [] tree fundable differ = (tree, refl, tt)
  leaves_held (a ∷ accs) tree (f, fundable) (others, differ) =
      let (leaf, encoded, balance, nonce) = leaf_of a f in
      let (new, done, held) = leaves_held accs (v.smt.update f.key leaf tree) fundable differ in
      let named = key_of-ok a.pub_key f.key f.hex in
      let apart : All (λ b. hex_to_bytes b.pub_key ≢ ok f.key) accs =
        All-map (λ b. key_of b.pub_key ≢ key_of a.pub_key)
          (λ b ne e. ne (key_of-ok b.pub_key f.key e ∙ sym named)) accs others in
      let written : v.smt.get new (key_of a.pub_key) ≡ leaf =
        ap (v.smt.get new) named
        ∙ insert_leaves-others v lawful f.key accs (v.smt.update f.key leaf tree) new apart done
        ∙ get-update_self v.smt lawful.smt tree f.key leaf in
      (new, rw f.hex (rw encoded done), ((rw written balance, rw written nonce), held))

  -- The database and the tree agree on an account.
  pub record IsFunded (w : World v) (acc : FundedAccount) : Type 0 where
    pub found : find_account v acc.pub_key w.users ≡ some (start_user acc)
    pub leaf : HasLeaf v w (key_of acc.pub_key) (start_user acc)

  pub service_starts :
      (web3 : Web3 DepositEntry) (first_account : FundedAccount) (others : List FundedAccount)
      (genesis_badge_id : String) (loaded now : ℕ) (db : Database v) (contract_abi : web3.Abi)
      (checksum_address : String)
      → web3.to_checksum_address contract_address ≡ ok checksum_address
      → All IsFundable (first_account ∷ others)
      → AllDiffer (first_account ∷ others)
      → v.mongo.documents db.users ≡ []
      → v.mongo.documents db.badges ≡ []
      → v.mongo.documents db.curr ≡ []
      → (w : World v) × (listener : Listener web3) × (start_service v web3 contract_abi
            (first_account ∷ others)
            genesis_badge_id
            loaded
            now
            db
          ≡ ok (w, listener))
        × HasChain v w
        × (w.transactions ≡ db.transactions)
        × (w.queue ≡ [])
        × (w.transaction_counter ≡ 0)
        × All (IsFunded w) (first_account ∷ others)
        × (listener.contract ≡ web3.contract node_address checksum_address contract_abi)
  unfolding start_service block_controller merkle_tree_controller initilize_sparse_merkle_tree
      on_start find_account
  service_starts web3 a rest id loaded now db contract_abi checksum_address readable fundable differ
        no_users no_badges no_curr =
      let accs : List FundedAccount = a ∷ rest in
      let (tree, built, held) = leaves_held accs v.smt.empty fundable differ in
      let w : World v = record {
        users = db.users;
        transactions = db.transactions;
        badges = db.badges;
        curr = db.curr;
        sparse_merkle_tree = tree;
        queue = [];
        transaction_counter = 0;
        last_timestamp = loaded;
      } in
      let new = (on_start v true accs id now w).1 in
      let listener = listener_at v web3 checksum_address contract_abi in
      (
        new,
        listener,
        rw built (rw (chain_listener-made v web3 checksum_address contract_abi readable) refl),
        on_start-HasChain v lawful w id now true accs refl no_badges no_curr,
        refl,
        refl,
        refl,
        All-map2 {R = IsFunded new}
            (λ a leaf found. record {
              found =
                  rw (lawful.mongo.find_one_first, lawful.mongo.documents-insert_many, no_users)
                    found;
              leaf = record { balance = leaf.0; nonce = leaf.1 };
            })
            accs held (users_found accs differ),
        refl,
      )
