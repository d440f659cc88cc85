-- ===== src/Tests/Deposits.antt =====
-- The deposits of the load generator on a node that refuses the second sender.
use zkp_rollup.Base.{◌≡◌, refl, String, ◌==◌, string_eq, List, [], ◌∷◌, ◌++◌, if◌then◌else◌}
use zkp_rollup.Python.Result.{ok, raised, value_error}
use zkp_rollup.Services.Node.{Node, IsNode}
use zkp_rollup.Client.{ClientAccount}
use zkp_rollup.Client.Deposits.{add_users_to_the_rollup, deposit_all, make_deposit_call}
use zkp_rollup.Client.Deposits.Laws.{Deposited, add_users-Deposited}

-- A transaction is the text of its sender; the state of the node is what it has accepted.
abbrev small_node : Node
small_node = record {
  State = List String;
  Abi = Unit {0};
  Contract = String;
  Tx = String;
  SignedTx = String;
  Hash = Unit {0};
  to_checksum_address = λ address. ok address;
  contract = λ address abi. address;
  to_wei = λ n. n;
  estimate_gas =
      λ contract address sender value s. if sender == "0x02" then raised value_error else ok 21000;
  gas_price = λ s. ok 7;
  get_transaction_count = λ address s. ok 0;
  build_transaction = λ contract address params s. ok params.sender;
  sign_transaction = λ tx private_key. ok tx;
  send_raw_transaction = λ signed s. (ok tt, s ++ signed ∷ []);
  wait_for_transaction_receipt = λ tx_hash s. (ok tt, s);
}

small_node-IsNode : IsNode small_node
small_node-IsNode = record {
  accepted = λ s. s;
  accepted-sent = λ signed s tx_hash h. refl;
  accepted-refused = λ signed s e h. cc;
  accepted-waited = λ tx_hash s. refl;
}

abbrev two_users : List ClientAccount
two_users =
    record { pub_key = "0x01"; priv_key = "0xaa" }
    ∷ record { pub_key = "0x02"; priv_key = "0xbb" }
    ∷ []

only_the_first :
    add_users_to_the_rollup small_node tt two_users [] ≡ (raised value_error, "0x01" ∷ [])
unfolding add_users_to_the_rollup deposit_all make_deposit_call string_eq
only_the_first = refl

add_users-Deposited_example :
    Deposited small_node small_node-IsNode "0xe7f1725e7734ce288f8367e1bb143e90bb3f0512" two_users []
      (add_users_to_the_rollup small_node tt two_users [])
add_users-Deposited_example =
    add_users-Deposited small_node small_node-IsNode tt two_users
      "0xe7f1725e7734ce288f8367e1bb143e90bb3f0512" [] refl
