-- ===== src/Services/Web3.antt =====
-- The web3 package: the contract of an address, and the filters of its events. A call to the node may
-- raise, and so may a poll.
use zkp_rollup.Base.{ℕ, String, List}
use zkp_rollup.Python.Result.{Result}

pub record Web3 (Entry : Type 0) : Type 1 where
  pub Abi : Type 0
  pub Contract : Type 0
  pub Filter : Type 0
  pub to_checksum_address : String → Result String
  -- `w3.eth.contract(address, abi)` for a node
  pub contract : String → String → Abi → Contract
  -- `contract.events.<event>.create_filter(from_block="latest")`; an event that the ABI does not name
  -- raises
  pub create_filter : Contract → String → Result Filter
  -- `get_new_entries` of a filter, the first time, the second time and so on
  pub new_entries : Filter → ℕ → Result (List Entry)
