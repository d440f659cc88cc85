-- ===== src/Setup.antt =====
-- sequencer/src/SetupService.py: the documents that the database starts with. The content of
-- funded_accounts.json, the identifier of the genesis block and the time are arguments.
pub mod Laws
use zkp_rollup.Base.{ℕ, String, Bool, true, false, List, [], ◌∷◌, map, Option, none, some}
use zkp_rollup.Base.Int.{pos}
use zkp_rollup.Python.Result.{system_exit}
use zkp_rollup.Python.Exec.{Exec, pure, raise, modify, ◌>>=◌, ◌>>◌}
use zkp_rollup.Types.{AccountDocument, TransactionBadge, CurrentBadge, BadgeStatus}
use zkp_rollup.Types
use zkp_rollup.Services.{Services}
use zkp_rollup.State.{World}
use zkp_rollup.MerkleTree.Leaf.{FundedAccount}

abbrev pub start_user : FundedAccount → AccountDocument
start_user user = record {
  address = user.pub_key;
  balance = user.balance;
  nonce = pos 0;
  account_updates = [];
}

-- `"0x" + "0" * 64`
abbrev pub zero_hash : String
zero_hash = "0x0000000000000000000000000000000000000000000000000000000000000000"

abbrev pub genesis_badge : String → ℕ → TransactionBadge
genesis_badge genesis_badge_id now = record {
  badge_id = genesis_badge_id;
  status = Types.BadgeStatus.verified;
  blockhash = zero_hash;
  state_root = zero_hash;
  blocknumber = 0;
  timestamp = now;
  execution_cause = none;
  transactions = [];
  prev_badge = some "0";
}

module _ (v : Services) where
  -- `insert_many` raises for an empty list, and the `except` leaves the program.
  unfoldable pub insert_start_users : List FundedAccount → Exec (World v) (Unit {0})
  insert_start_users [] = raise system_exit
  insert_start_users (user ∷ users) =
      modify (λ w. record w { users = v.mongo.insert_many (map start_user (user ∷ users)) w.users })

  unfoldable pub setup_genesis_badge : String → ℕ → Exec (World v) (Unit {0})
  setup_genesis_badge genesis_badge_id now = do
    modify (λ w. record w {
      badges = v.mongo.insert_one (genesis_badge genesis_badge_id now) w.badges;
    })
    modify (λ w. record w {
      curr = v.mongo.insert_one (record { curr_badge_id = genesis_badge_id }) w.curr;
    })

  -- `start_users_needed` is true in sequencer/main.py.
  unfoldable pub on_start : Bool → List FundedAccount → String → ℕ → Exec (World v) (Unit {0})
  unfolding insert_start_users setup_genesis_badge
  on_start true initial_state genesis_badge_id now =
      insert_start_users initial_state >> setup_genesis_badge genesis_badge_id now
  on_start false initial_state genesis_badge_id now = setup_genesis_badge genesis_badge_id now
