-- ===== src/Tests/Ledger.antt =====
-- A small sequencer: three funded accounts, the genesis block, an empty queue, at most two
-- transactions in a batch.
use zkp_rollup.Base.{ℕ, String, [], ◌∷◌, none, some}
use zkp_rollup.Base.Int.{ℤ, pos}
use zkp_rollup.Types.{Transaction, AccountDocument, pending}
use zkp_rollup.Services.{Services, IsServices}
use zkp_rollup.Services.Memory.{
  memory_mongo, memory_mongo-IsMongo, memory_smt, memory_smt-IsSmt, memory_crypto,
  memory_crypto-IsCrypto,
}
use zkp_rollup.State.{World}
use zkp_rollup.MerkleTree.Leaf.{FundedAccount}
use zkp_rollup.Setup.{genesis_badge}

abbrev pub memory_services : Services
memory_services = record {
  mongo = memory_mongo;
  smt = memory_smt;
  crypto = memory_crypto;
  badge_size = 2;
}

pub memory_services-IsServices : IsServices memory_services
memory_services-IsServices = record {
  mongo = memory_mongo-IsMongo;
  smt = memory_smt-IsSmt;
  crypto = memory_crypto-IsCrypto;
}

abbrev pub account : String → ℤ → AccountDocument
account address balance = record {
  address = address;
  balance = balance;
  nonce = pos 0;
  account_updates = [];
}

abbrev pub alice : String
alice = "0x01"

abbrev pub bob : String
bob = "0x02"

abbrev pub carol : String
carol = "0x03"

abbrev pub alice_account : AccountDocument
alice_account = account alice (pos 10)

abbrev pub bob_account : AccountDocument
bob_account = account bob (pos 5)

abbrev pub carol_account : AccountDocument
carol_account = account carol (pos 1)

abbrev pub payment : String → String → String → ℤ → ℕ → Transaction
payment id sender receiver amount received_at = record {
  received_at = received_at;
  submission_id = some id;
  transaction_id = some id;
  sender = sender;
  receiver = some receiver;
  nonce = some (pos 0);
  signature = some "0xaa";
  amount = amount;
  status = some pending;
  badge_id = none;
  pub_key = some "0xaa";
}

abbrev pub deposit : Transaction
deposit = record (payment "d" alice bob (pos 7) 3) {
  receiver = none;
  nonce = none;
  signature = none;
  transaction_id = none;
  pub_key = none;
}

abbrev pub alice_pays : Transaction
alice_pays = payment "a" alice bob (pos 3) 1

abbrev pub bob_pays : Transaction
bob_pays = payment "b" bob carol (pos 2) 2

abbrev pub start : World memory_services
start = record {
  users = alice_account ∷ bob_account ∷ carol_account ∷ [];
  transactions = alice_pays ∷ bob_pays ∷ [];
  badges = genesis_badge "g" 0 ∷ [];
  curr = (record { curr_badge_id = "g" }) ∷ [];
  sparse_merkle_tree = [];
  queue = [];
  transaction_counter = 0;
  last_timestamp = 0;
}

-- The same with a deposit in the queue.
abbrev pub with_deposit : World memory_services
with_deposit = record start { transactions = deposit ∷ [] }

abbrev pub funded : String → ℤ → FundedAccount
funded pub_key balance = record { pub_key = pub_key; balance = balance }
