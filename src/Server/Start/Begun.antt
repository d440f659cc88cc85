-- ===== src/Server/Start/Begun.antt =====
-- What a start that returned has gone through: the state in which the setup ran.
use zkp_rollup.Base.{ℕ, ◌≡◌, sym, ap, String, true, List, [], inl, inr, arith}
use zkp_rollup.Python.Result.{Error, ok, raised, Result-cases, >>=-eq-ok}
use zkp_rollup.Services.{Services}
use zkp_rollup.State.{World}
use zkp_rollup.MerkleTree.Leaf.{FundedAccount}
use zkp_rollup.Setup.{on_start}
use zkp_rollup.Server.Start.{
  Database, merkle_tree_controller, block_controller, start_service, node_address, contract_address,
}
use zkp_rollup.Services.Web3.{Web3}
use zkp_rollup.ChainListener.{DepositEntry}
use zkp_rollup.ChainListener.Loop.{Listener, chain_listener, init_contract}

module _ (v : Services) (web3 : Web3 DepositEntry) where
  same_world : (u s : World v) → ok u ≡ ok s → u ≡ s
  same_world u s h = cc

  pub same_pair : (u s : World v × Listener web3) → ok u ≡ ok s → u ≡ s
  same_pair u s h = cc

  -- A state that has the collections of the database and a counter of zero, and is set up to `w`.
  pub record Begun (funded_accounts : List FundedAccount) (genesis_badge_id : String) (started : ℕ)
      (db : Database v) (w : World v) : Type 0 where
    pub before : World v
    pub users : before.users ≡ db.users
    pub transactions : before.transactions ≡ db.transactions
    pub badges : before.badges ≡ db.badges
    pub curr : before.curr ≡ db.curr
    pub counter : before.transaction_counter ≡ 0
    pub returned : (on_start v true funded_accounts genesis_badge_id started before).0 ≡ ok tt
    pub set_up : (on_start v true funded_accounts genesis_badge_id started before).1 ≡ w

  pub start_service-Begun :
      (funded_accounts : List FundedAccount) (genesis_badge_id : String) (loaded started : ℕ)
      (db : Database v) (w : World v) (contract_abi : web3.Abi) (listener : Listener web3)
      → start_service v web3 contract_abi funded_accounts genesis_badge_id loaded started db
        ≡ ok (w, listener)
      → Begun funded_accounts genesis_badge_id started db w
  unfolding start_service block_controller on_start
  start_service-Begun funded_accounts genesis_badge_id loaded started db w contract_abi listener
        starts =
      let (u, made, rest) =
        >>=-eq-ok (block_controller v true funded_accounts loaded db) _ starts in
      let (made_listener, _, later) =
        >>=-eq-ok (chain_listener web3 2 node_address contract_address contract_abi) _ rest in
      let (done, finished, left) =
        >>=-eq-ok (on_start v true funded_accounts genesis_badge_id started u).0 _ later in
      let (tree, built, made_of) =
        >>=-eq-ok (merkle_tree_controller v true funded_accounts) _ made in
      let same : record {
        users = db.users;
        transactions = db.transactions;
        badges = db.badges;
        curr = db.curr;
        sparse_merkle_tree = tree;
        queue = [];
        transaction_counter = 0;
        last_timestamp = loaded;
      }
          ≡ u =
        same_world _ u made_of in
      record {
        before = u;
        users = sym (ap (λ (s : World v). s.users) same);
        transactions = sym (ap (λ (s : World v). s.transactions) same);
        badges = sym (ap (λ (s : World v). s.badges) same);
        curr = sym (ap (λ (s : World v). s.curr) same);
        counter = sym (ap (λ (s : World v). s.transaction_counter) same);
        returned = finished;
        set_up = ap (λ (p : World v × Listener web3). p.0) (same_pair _ (w, listener) left);
      }

  -- The listener of a node whose address of the contract can be read.
  abbrev pub listener_at : String → web3.Abi → Listener web3
  listener_at checksum_address contract_abi = record {
    node_address = node_address;
    contract_address = contract_address;
    contract = web3.contract node_address checksum_address contract_abi;
    polling_interval = 2;
  }

  pub chain_listener-made :
      (checksum_address : String) (contract_abi : web3.Abi)
      → web3.to_checksum_address contract_address ≡ ok checksum_address
      → chain_listener web3 2 node_address contract_address contract_abi
        ≡ ok (listener_at checksum_address contract_abi)
  unfolding chain_listener init_contract
  chain_listener-made checksum_address contract_abi readable = ground (arith, readable)

  chain_listener-failed :
      (e : Error) (contract_abi : web3.Abi)
      → web3.to_checksum_address contract_address ≡ raised e
      → chain_listener web3 2 node_address contract_address contract_abi ≡ raised e
  unfolding chain_listener init_contract
  chain_listener-failed e contract_abi h = ground (arith, h)

  -- The address of the contract could be read.
  listener-readable :
      (contract_abi : web3.Abi) (listener : Listener web3)
      → chain_listener web3 2 node_address contract_address contract_abi ≡ ok listener
      → (a : String) × (web3.to_checksum_address contract_address ≡ ok a)
  listener-readable contract_abi listener made =
      elim (Result-cases (web3.to_checksum_address contract_address)) [
        | inl found ↦ found
        | inr (e, h) ↦ cc (chain_listener-failed e contract_abi h, made)
      ]

  pub start_service-readable :
      (funded_accounts : List FundedAccount) (genesis_badge_id : String) (loaded started : ℕ)
      (db : Database v) (w : World v) (contract_abi : web3.Abi) (listener : Listener web3)
      → start_service v web3 contract_abi funded_accounts genesis_badge_id loaded started db
        ≡ ok (w, listener)
      → (a : String) × (web3.to_checksum_address contract_address ≡ ok a)
  unfolding start_service
  start_service-readable funded_accounts genesis_badge_id loaded started db w contract_abi listener
        starts =
      let (u, made, rest) =
        >>=-eq-ok (block_controller v true funded_accounts loaded db) _ starts in
      let (made_listener, listens, later) =
        >>=-eq-ok (chain_listener web3 2 node_address contract_address contract_abi) _ rest in
      listener-readable contract_abi made_listener listens
