-- ===== src/State/Accounts.antt =====
-- The users collection: the query by address, the update that pushes onto `account_updates`, and
-- what a look-up finds after such an update.
use zkp_rollup.Base.{
  ◌≡◌, ◌≢◌, String, Bool, ◌==◌, string_eq, beq_self, beq_ne, List, [], ◌∷◌, ◌++◌, Option, arith,
  first, if◌then◌else◌,
}
use mathlib.Core.Option
use zkp_rollup.Types.{AccountDocument, UpdateDocument}
use zkp_rollup.Services.{Services, IsServices}
use zkp_rollup.Services.Mongo.{update_first}

-- `{"address": address}`
abbrev pub by_address : String → AccountDocument → Bool
by_address address account = account.address == address

-- `{"$push": {"account_updates": entry}}`
abbrev pub push_update : UpdateDocument → AccountDocument → AccountDocument
push_update entry account = record account {
  account_updates = account.account_updates ++ entry ∷ [];
}

first-push_update :
    (a b : String) (u : UpdateDocument) (ds : List AccountDocument)
    → first (by_address b) (update_first (by_address a) (push_update u) ds) ≡ (
        if b == a
        then Option.map (push_update u) (first (by_address b) ds)
        else first (by_address b) ds)
first-push_update a b u [] = ground arith
first-push_update a b u (d ∷ ds) = ground (arith, first-push_update a b u ds)

module _ (v : Services) where
  -- The account that `find_one({"address": address})` finds.
  unfoldable pub find_account : String → v.mongo.Collection AccountDocument → Option AccountDocument
  find_account address users = v.mongo.find_one (by_address address) users

  unfoldable pub push_account :
      String
      → UpdateDocument
      → v.mongo.Collection AccountDocument
      → v.mongo.Collection AccountDocument
  push_account address entry users =
      v.mongo.update_one (by_address address) (push_update entry) users

  module _ (lawful : IsServices v) where
    -- A push reaches the account that a look-up of its address finds, and no other account.
    pub find_account-push_account :
        (a b : String) (u : UpdateDocument) (users : v.mongo.Collection AccountDocument)
        → find_account b (push_account a u users) ≡ (
            if b == a
            then Option.map (push_update u) (find_account b users)
            else find_account b users)
    unfolding find_account push_account
    find_account-push_account a b u users =
        rw
          (
            lawful.mongo.find_one_first, lawful.mongo.documents-update_one,
            lawful.mongo.find_one_first,
          )
          (first-push_update a b u (v.mongo.documents users))

    pub find_account-push_self :
        (a : String) (u : UpdateDocument) (users : v.mongo.Collection AccountDocument)
        → find_account a (push_account a u users)
          ≡ Option.map (push_update u) (find_account a users)
    find_account-push_self a u users = rw (find_account-push_account a a u users, beq_self a)

    pub find_account-push_ne :
        (a b : String) (u : UpdateDocument) (users : v.mongo.Collection AccountDocument)
        → b ≢ a
        → find_account b (push_account a u users) ≡ find_account b users
    find_account-push_ne a b u users h = rw (find_account-push_account a b u users, beq_ne b a h)
