-- ===== src/MongoClient.antt =====
-- sequencer/src/AsyncMongoClient.py: the one client of the process. What the motor package returns for
-- `MONGO_URI` is an argument; the global is the state.
use zkp_rollup.Base.{◌≡◌, Option, none, some}
use zkp_rollup.Python.Result.{Result, ok, raised}
use zkp_rollup.Python.Exec.{Exec}

module _ {Client : Type 0} where
  abbrev pub keep : Result Client → Exec (Option Client) Client
  keep (ok client) s = (ok client, some client)
  keep (raised e) s = (raised e, s)

  unfoldable pub get_mongo_client : Result Client → Exec (Option Client) Client
  get_mongo_client made none = keep made none
  get_mongo_client made (some async_mongo_client) = (ok async_mongo_client, some async_mongo_client)

  -- After a call that returned, every call returns the same client and leaves it in place, whatever a
  -- new one would be: the controllers, which ask one after the other, work on the same collections.
  get_mongo_client-shared :
      (first_made next_made : Result Client) (s : Option Client) (client : Client)
      → (get_mongo_client first_made s).0 ≡ ok client
      → get_mongo_client next_made (get_mongo_client first_made s).1 ≡ (ok client, some client)
  unfolding get_mongo_client
  get_mongo_client-shared (ok c) next_made none client h = cc
  get_mongo_client-shared (raised e) next_made none client h = cc
  get_mongo_client-shared first_made next_made (some c) client h = cc
