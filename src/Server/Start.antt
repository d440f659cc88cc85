-- ===== src/Server/Start.antt =====
-- The start of the service: `__init__` of sequencer/src/MerkleTreeController.py and of
-- sequencer/src/BlockController.py, and what sequencer/main.py does before its tasks run. The content
-- of funded_accounts.json, which both the tree and the database are filled from, is an argument.
pub mod Funded
pub mod Begun
pub mod Payments
pub mod Settled
pub mod Answered
use zkp_rollup.Base.{ℕ, String, Bool, true, false, List, []}
use zkp_rollup.Python.Result.{Result, ok, raised, ◌>>=◌}
use zkp_rollup.Types.{AccountDocument, Transaction, TransactionBadge, CurrentBadge}
use zkp_rollup.Services.{Services}
use zkp_rollup.State.{World}
use zkp_rollup.MerkleTree.Leaf.{FundedAccount}
use zkp_rollup.MerkleTree.Initial.{initilize_sparse_merkle_tree}
use zkp_rollup.Setup.{on_start}
use zkp_rollup.Services.Web3.{Web3}
use zkp_rollup.ChainListener.{DepositEntry}
use zkp_rollup.ChainListener.Loop.{Listener, chain_listener}

abbrev pub node_address : String
node_address = "http://127.0.0.1:8545"

abbrev pub contract_address : String
contract_address = "0xe7f1725E7734CE288F8367e1Bb143E90bb3F0512"

module _ (v : Services) where
  -- The collections that the service finds.
  pub record Database : Type 0 where
    pub users : v.mongo.Collection AccountDocument
    pub transactions : v.mongo.Collection Transaction
    pub badges : v.mongo.Collection TransactionBadge
    pub curr : v.mongo.Collection CurrentBadge

  unfoldable pub merkle_tree_controller : Bool → List FundedAccount → Result v.smt.SparseMerkleTree
  merkle_tree_controller true users_data = initilize_sparse_merkle_tree v users_data
  merkle_tree_controller false users_data = ok v.smt.empty

  -- The queue of sequencer/main.py is new, and so empty.
  unfoldable pub block_controller : Bool → List FundedAccount → ℕ → Database → Result (World v)
  block_controller with_account_setup users_data now db = do
    tree ← merkle_tree_controller with_account_setup users_data
    ok (record {
      users = db.users;
      transactions = db.transactions;
      badges = db.badges;
      curr = db.curr;
      sparse_merkle_tree = tree;
      queue = [];
      transaction_counter = 0;
      last_timestamp = now;
    })

  module _ (web3 : Web3 DepositEntry) where
    -- The state and the listener that the tasks run with. `loaded` is the time when the controller is
    -- made, `now` that of the genesis block.
    unfoldable pub start_service :
        web3.Abi → List FundedAccount → String → ℕ → ℕ → Database → Result (World v × Listener web3)
    start_service contract_abi funded_accounts genesis_badge_id loaded now db = do
      w ← block_controller true funded_accounts loaded db
      listener ← chain_listener web3 2 node_address contract_address contract_abi
      let (r, new) = on_start v true funded_accounts genesis_badge_id now w
      done ← r
      ok (new, listener)
