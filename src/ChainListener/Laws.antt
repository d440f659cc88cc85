-- ===== src/ChainListener/Laws.antt =====
-- The collections after the events of a poll.
use mathlib.Core.List.{append_assoc, append-nil}
use zkp_rollup.Base.{ℕ, ◌≡◌, refl, sym, ◌∙◌, List, [], ◌∷◌, ◌++◌, map}
use zkp_rollup.Base.Int.{pos}
use zkp_rollup.Python.Result.{ok}
use zkp_rollup.Types.{Transaction, AccountDocument}
use zkp_rollup.Services.{Services, IsServices}
use zkp_rollup.State.{World}
use zkp_rollup.MemPool.{deposit_of, new_account, insert_deposit_transaction}
use zkp_rollup.ChainListener.{DepositEntry, handle_deposit_entries}

module _ (v : Services) (whole_ether : ℕ → ℕ) where
  -- The transaction and the account of an event.
  abbrev pub entry_transaction : DepositEntry → Transaction
  entry_transaction dep =
      deposit_of v dep.layer2_address (pos (whole_ether dep.amount)) dep.curr_time_stamp
        dep.submission_id

  abbrev pub entry_account : DepositEntry → AccountDocument
  entry_account dep = new_account v dep.layer2_address (pos (whole_ether dep.amount))

  -- The events leave the blocks, the pointer, the tree, the queue of causes and the counter alone.
  pub record SameService (w new : World v) : Type 0 where
    pub badges : new.badges ≡ w.badges
    pub curr : new.curr ≡ w.curr
    pub sparse_merkle_tree : new.sparse_merkle_tree ≡ w.sparse_merkle_tree
    pub queue : new.queue ≡ w.queue
    pub transaction_counter : new.transaction_counter ≡ w.transaction_counter

  pub handle_deposit_entries-SameService :
      (deps : List DepositEntry) (w : World v)
      → SameService w (handle_deposit_entries v whole_ether deps w).1
  unfolding handle_deposit_entries insert_deposit_transaction
  handle_deposit_entries-SameService [] w = record {
    badges = refl;
    curr = refl;
    sparse_merkle_tree = refl;
    queue = refl;
    transaction_counter = refl;
  }
  handle_deposit_entries-SameService (dep ∷ deps) w =
      let rest = handle_deposit_entries-SameService deps (record w {
        users = v.mongo.insert_one (entry_account dep) w.users;
        transactions = v.mongo.insert_one (entry_transaction dep) w.transactions;
      }) in
      record {
        badges = rest.badges;
        curr = rest.curr;
        sparse_merkle_tree = rest.sparse_merkle_tree;
        queue = rest.queue;
        transaction_counter = rest.transaction_counter;
      }

  -- Handling the events of a poll returns, and appends one account and one pending deposit for each
  -- event, in the order of the events, also for an address that has an account.
  pub deposits_recorded :
      (lawful : IsServices v) (deps : List DepositEntry) (w : World v)
      → let (r, new) = handle_deposit_entries v whole_ether deps w in
        (r ≡ ok tt)
        × (v.mongo.documents new.users ≡ v.mongo.documents w.users ++ map entry_account deps)
        × (v.mongo.documents new.transactions
            ≡ v.mongo.documents w.transactions ++ map entry_transaction deps)
  unfolding handle_deposit_entries insert_deposit_transaction
  deposits_recorded lawful [] w = (refl, sym (append-nil _), sym (append-nil _))
  deposits_recorded lawful (dep ∷ deps) w =
      let (returned, users, transactions) = deposits_recorded lawful deps (record w {
        users = v.mongo.insert_one (entry_account dep) w.users;
        transactions = v.mongo.insert_one (entry_transaction dep) w.transactions;
      }) in
      (
        returned,
        users
            ∙ rw lawful.mongo.documents-insert_one (
                append_assoc (v.mongo.documents w.users) (entry_account dep ∷ [])
                  (map entry_account deps)),
        transactions
            ∙ rw lawful.mongo.documents-insert_one (
                append_assoc (v.mongo.documents w.transactions) (entry_transaction dep ∷ [])
                  (map entry_transaction deps)),
      )
