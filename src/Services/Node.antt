-- ===== src/Services/Node.antt =====
-- A node of the chain as a client of the web3 package sees it: what it reads of the node, and what it
-- sends. Each call may raise.
use zkp_rollup.Base.{ℕ, ◌≡◌, String, List, [], ◌∷◌, ◌++◌, ◌⊎◌}
use zkp_rollup.Python.Result.{Error, Result, ok, raised}
use zkp_rollup.Python.Exec.{Exec}

-- The fields of a transaction that the caller gives.
pub record TxParams : Type 0 where
  pub sender : String
  pub value : ℕ
  pub gas : ℕ
  pub gas_price : ℕ
  pub nonce : ℕ

pub record Node : Type 1 where
  pub State : Type 0
  pub Abi : Type 0
  pub Contract : Type 0
  pub Tx : Type 0
  pub SignedTx : Type 0
  pub Hash : Type 0
  pub to_checksum_address : String → Result String
  -- `web3.eth.contract(address, abi)`
  pub contract : String → Abi → Contract
  -- `to_wei(n, "ether")`
  pub to_wei : ℕ → ℕ
  -- `contract.functions.depositETH(address).estimate_gas({"from", "value"})`
  pub estimate_gas : Contract → String → String → ℕ → State → Result ℕ
  pub gas_price : State → Result ℕ
  pub get_transaction_count : String → State → Result ℕ
  -- `contract.functions.depositETH(address).build_transaction(...)`
  pub build_transaction : Contract → String → TxParams → State → Result Tx
  pub sign_transaction : Tx → String → Result SignedTx
  pub send_raw_transaction : SignedTx → Exec State Hash
  pub wait_for_transaction_receipt : Hash → Exec State (Unit {0})

-- The transactions that the node has accepted, in their order: a call that returns adds the one that it
-- was given, one that raises may have added it too, and waiting for a receipt adds none.
pub record IsNode (n : Node) : Type 1 where
  pub accepted : n.State → List n.SignedTx
  pub accepted-sent :
      (signed : n.SignedTx) (s : n.State) (tx_hash : n.Hash)
      → (n.send_raw_transaction signed s).0 ≡ ok tx_hash
      → accepted (n.send_raw_transaction signed s).1 ≡ accepted s ++ signed ∷ []
  pub accepted-refused :
      (signed : n.SignedTx) (s : n.State) (e : Error)
      → (n.send_raw_transaction signed s).0 ≡ raised e
      → (accepted (n.send_raw_transaction signed s).1 ≡ accepted s)
        ⊎ (accepted (n.send_raw_transaction signed s).1 ≡ accepted s ++ signed ∷ [])
  pub accepted-waited :
      (tx_hash : n.Hash) (s : n.State)
      → accepted (n.wait_for_transaction_receipt tx_hash s).1 ≡ accepted s
