-- ===== src/ChainListener/Loop.antt =====
-- `__init__`, the event filters and `deposit_chain_loop` of sequencer/src/ChainListener.py. The content
-- of Rollup.json is an argument; so is the number of polls that have been made, as the loop has no end
-- of its own.
pub mod Laws
use zkp_rollup.Base.{ℕ, zero, suc, String}
use zkp_rollup.Python.Result.{Result, ok, raised}
use zkp_rollup.Python.Exec.{Exec, pure, lift, ◌>>=◌, ◌>>◌}
use zkp_rollup.Services.{Services}
use zkp_rollup.Services.Web3.{Web3}
use zkp_rollup.State.{World}
use zkp_rollup.ChainListener.{DepositEntry, handle_deposit_entries}

module _ (web3 : Web3 DepositEntry) where
  pub record Listener : Type 0 where
    pub node_address : String
    pub contract_address : String
    pub contract : web3.Contract
    pub polling_interval : ℕ

  unfoldable pub init_contract : String → String → web3.Abi → Result web3.Contract
  init_contract node_address contract_address contract_abi =
      elim (web3.to_checksum_address contract_address) [
        | ok checksum_address ↦ ok (web3.contract node_address checksum_address contract_abi)
        | raised e ↦ raised e
      ]

  -- `__init__` logs what is raised and raises it again; the contract that web3 returns is never None.
  unfoldable pub chain_listener : ℕ → String → String → web3.Abi → Result Listener
  chain_listener polling_interval node_address contract_address contract_abi =
      elim (init_contract node_address contract_address contract_abi) [
        | ok contract ↦ ok (record {
          node_address = node_address;
          contract_address = contract_address;
          contract = contract;
          polling_interval = polling_interval;
        })
        | raised e ↦ raised e
      ]

  unfoldable pub init_deposit_event_filter : Listener → Result web3.Filter
  init_deposit_event_filter listener = web3.create_filter listener.contract "Deposit"

  unfoldable pub init_withdraw_event_filter : Listener → Result web3.Filter
  init_withdraw_event_filter listener = web3.create_filter listener.contract "Withdraw"

  module _ (v : Services) (whole_ether : ℕ → ℕ) where
    -- The next polls, from the one with this number; nothing catches what a poll raises.
    unfoldable pub poll_times : web3.Filter → ℕ → ℕ → Exec (World v) (Unit {0})
    poll_times deposit_event poll zero = pure tt
    poll_times deposit_event poll (suc more) = do
      entries ← lift (web3.new_entries deposit_event poll)
      handle_deposit_entries v whole_ether entries
      poll_times deposit_event (suc poll) more

    unfoldable pub deposit_chain_loop : Listener → ℕ → Exec (World v) (Unit {0})
    unfolding poll_times
    deposit_chain_loop listener polls = do
      deposit_event ← lift (init_deposit_event_filter listener)
      poll_times deposit_event 0 polls
