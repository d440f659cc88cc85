-- ===== src/Client/Deposits.antt =====
-- The deposits of client/chain_client.py, one for each account of funded_accounts.json, through the
-- contract of Rollup.json. Logging and the second of sleep after a deposit are not modelled.
pub mod Laws
use zkp_rollup.Base.{String, List, [], ◌∷◌}
use zkp_rollup.Python.Result.{Result}
use zkp_rollup.Python.Exec.{Exec, pure, lift, ◌>>=◌, ◌>>◌}
use zkp_rollup.Client.{ClientAccount}
use zkp_rollup.Services.Node.{Node, TxParams}

-- A call that reads the state and may raise.
abbrev pub reads {ℓ κ} : {S : Type ℓ} {A : Type κ} → (S → Result A) → Exec S A
reads f s = (f s, s)

abbrev pub contract_address : String
contract_address = "0xe7f1725e7734ce288f8367e1bb143e90bb3f0512"

module _ (web3 : Node) where
  unfoldable pub make_deposit_call : String → String → web3.Contract → Exec web3.State (Unit {0})
  make_deposit_call address private_key contract = do
    let value = web3.to_wei 1
    gas_estimate ← reads (web3.estimate_gas contract address address value)
    gas_price ← reads web3.gas_price
    nonce ← reads (web3.get_transaction_count address)
    let params : TxParams = record {
      sender = address;
      value = value;
      gas = gas_estimate;
      gas_price = gas_price;
      nonce = nonce;
    }
    tx ← reads (web3.build_transaction contract address params)
    signed_tx ← lift (web3.sign_transaction tx private_key)
    tx_hash ← web3.send_raw_transaction signed_tx
    web3.wait_for_transaction_receipt tx_hash

  unfoldable pub deposit_all : web3.Contract → List ClientAccount → Exec web3.State (Unit {0})
  deposit_all contract [] = pure tt
  deposit_all contract (acc ∷ accs) =
      make_deposit_call acc.pub_key acc.priv_key contract >> deposit_all contract accs

  unfoldable pub add_users_to_the_rollup :
      web3.Abi → List ClientAccount → Exec web3.State (Unit {0})
  add_users_to_the_rollup contract_abi layer_2_accounts = do
    address ← lift (web3.to_checksum_address contract_address)
    deposit_all (web3.contract address contract_abi) layer_2_accounts
