-- ===== src/ChainListener.antt =====
-- sequencer/src/ChainListener.py: the deposit events of the contract. The filter and the polling are
-- the web3 package's. `int(from_wei(amount, "ether"))` is a parameter of the model: whole ether of
-- an amount in wei.
pub mod Laws
pub mod Loop
use zkp_rollup.Base.{ℕ, String, List, [], ◌∷◌}
use zkp_rollup.Base.Int.{pos}
use zkp_rollup.Python.Exec.{Exec, pure, ◌>>◌, ◌>>=◌}
use zkp_rollup.Services.{Services}
use zkp_rollup.State.{World}
use zkp_rollup.MemPool.{insert_deposit_transaction}

-- The arguments of an event, with the time and the identifier that are drawn for it.
pub record DepositEntry : Type 0 where
  pub layer2_address : String
  pub amount : ℕ
  pub curr_time_stamp : ℕ
  pub submission_id : String

module _ (v : Services) (whole_ether : ℕ → ℕ) where
  unfoldable pub handle_deposit_entries : List DepositEntry → Exec (World v) (Unit {0})
  handle_deposit_entries [] = pure tt
  handle_deposit_entries (dep ∷ rest) =
      insert_deposit_transaction v dep.layer2_address (pos (whole_ether dep.amount))
        dep.curr_time_stamp dep.submission_id
      >> handle_deposit_entries rest
