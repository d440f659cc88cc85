-- ===== src/Tests/Load.antt =====
-- The load generator at concrete inputs, with keys and signatures of one byte.
use zkp_rollup.Utils.{bytes_to_hex, hex_to_bytes}
use zkp_rollup.Base.{
  ◌≡◌, ◌<◌, refl, List, ◌++◌, some, string_eq, String, Bool, true, false, eqb, [], ◌∷◌, All, arith,
}
use zkp_rollup.Base.Int.{pos}
use zkp_rollup.Python.Result.{Result, ok, raised, value_error}
use zkp_rollup.Python.Bytes.{Bytes, from_hex, hex}
use zkp_rollup.Types.{Transaction, TransactionRequest, pending}
use zkp_rollup.Services.{Services, IsServices}
use zkp_rollup.Services.Memory.{memory_mongo-IsMongo, memory_smt-IsSmt}
use zkp_rollup.Services.Crypto.{Crypto}
use zkp_rollup.Validator.{check_transaction_validity}
use zkp_rollup.Block.{enrich_transaction}
use zkp_rollup.Client.{Signer, IsSigner, ClientAccount, create_transaction}
use zkp_rollup.Client.Laws.{created_is_valid}
use zkp_rollup.Tests.Ledger.{memory_services, start, alice, bob, alice_account}
use zkp_rollup.State.{World}
use zkp_rollup.State.Accounts.{find_account}
use zkp_rollup.MerkleTree.{accounts_collection, latest_balance}
use zkp_rollup.MerkleTree.Check.{Accepts}
use zkp_rollup.Client.User.{sequencer_api, user_task}
use zkp_rollup.Client.Accepted.{CanPay, user_task-Accepts}

abbrev pub bit_of : Bytes → Result Bool
bit_of [] = raised value_error
bit_of (b ∷ bs) = ok (eqb b 1)

abbrev pub byte_of : Bool → Bytes
byte_of true = 1 ∷ []
byte_of false = 0 ∷ []

abbrev same_bit : Bool → Bool → Bool
same_bit true b = b
same_bit false true = false
same_bit false false = true

-- A signature verifies with the key that it equals.
abbrev pub bit_crypto : Crypto
bit_crypto = record {
  sha256 = memory_services.crypto.sha256;
  Signature = Bool;
  PublicKey = Bool;
  signature_of = bit_of;
  public_key_of = bit_of;
  verify_msg = λ key msg signature. ok (same_bit key signature);
}

abbrev pub bit_services : Services
bit_services = record memory_services { crypto = bit_crypto }

abbrev pub bit_signer : Signer bit_crypto
bit_signer = record {
  PrivateKey = Bool;
  private_key_of = bit_of;
  public_key = λ key. key;
  sign_msg = λ key msg. key;
  sign_msg_hash = λ key digest. key;
  key_bytes = byte_of;
  signature_bytes = byte_of;
}

bit_read : (b : Bool) → bit_of (byte_of b) ≡ ok b
bit_read true = refl
bit_read false = refl

bit_is_byte : (b : Bool) → All (λ n. n < 256) (byte_of b)
bit_is_byte true = (omega arith, tt)
bit_is_byte false = (omega arith, tt)

bit_verified : (key : Bool) (msg : Bytes) → bit_crypto.verify_msg key msg key ≡ ok true
bit_verified true msg = refl
bit_verified false msg = refl

pub bit_signer-IsSigner : IsSigner bit_signer
bit_signer-IsSigner = record {
  key_read = bit_read;
  key_is_bytes = bit_is_byte;
  signature_read = bit_read;
  signature_is_bytes = bit_is_byte;
  signed = bit_verified;
}

pub bit_services-IsServices : IsServices bit_services
bit_services-IsServices = record {
  mongo = memory_mongo-IsMongo;
  smt = memory_smt-IsSmt;
  crypto = record { digest_size = λ msg. refl; digest_bytes = λ msg. omega arith };
}

abbrev client_account : String → ClientAccount
client_account pub_key = record { pub_key = pub_key; priv_key = "0x01" }

abbrev pub created : TransactionRequest
created = record {
  sender = alice;
  receiver = bob;
  amount = pos 1;
  nonce = pos 4;
  signature = record { pub_key = "0x01"; signature = "0x01" };
}

created_eq :
    create_transaction bit_signer (client_account alice) (client_account bob) (pos 4) ≡ ok created
unfolding create_transaction hex_to_bytes from_hex bytes_to_hex hex
created_eq = refl

created_is_valid_example :
    check_transaction_validity bit_services (enrich_transaction created "s" "t" 9) ≡ true
created_is_valid_example =
    created_is_valid bit_services bit_signer bit_signer-IsSigner (client_account alice)
      (client_account bob) (pos 4) created "s" "t" 9 created_eq

abbrev pub load_world : World bit_services
load_world = record {
  users = start.users;
  transactions = start.transactions;
  badges = start.badges;
  curr = start.curr;
  sparse_merkle_tree = start.sparse_merkle_tree;
  queue = [];
  transaction_counter = 0;
  last_timestamp = 0;
}

abbrev pub layer_2_accounts : List ClientAccount
layer_2_accounts = client_account alice ∷ client_account bob ∷ []

unfoldable pub alice_pays_bob :
    (w : World bit_services)
    → w.users ≡ load_world.users
    → CanPay bit_services bit_signer layer_2_accounts 0 1 w
unfolding hex_to_bytes from_hex find_account string_eq accounts_collection latest_balance
alice_pays_bob w same = record {
  sender = client_account alice;
  receiver = client_account bob;
  at_a = refl;
  at_b = refl;
  key_bytes = 1 ∷ [];
  key = true;
  hex = refl;
  signs = refl;
  document = alice_account;
  account = record { address = alice; balance = pos 10; nonce = pos 0; account_updates = [] };
  found = rw same refl;
  valid = refl;
  covered = omega arith;
  known = rw same (λ e. cc);
}

user_task-Accepts_example :
    let (r, new) =
      user_task bit_signer layer_2_accounts (sequencer_api bit_services "s" "t" 9) 0 1 load_world in
    (r ≡ ok tt)
    × (t : Transaction) × (bit_services.mongo.documents new.transactions
        ≡ bit_services.mongo.documents load_world.transactions ++ t ∷ [])
    × (t.status ≡ some pending)
    × (t.transaction_id ≡ some "t")
    × (t.sender ≡ alice)
    × (t.receiver ≡ some bob)
    × Accepts bit_services new t bob
unfolding alice_pays_bob
user_task-Accepts_example =
    user_task-Accepts bit_services bit_signer bit_services-IsServices bit_signer-IsSigner
      layer_2_accounts 0 1 load_world (alice_pays_bob load_world refl) "s" "t" 9
