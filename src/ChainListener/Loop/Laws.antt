-- ===== src/ChainListener/Loop/Laws.antt =====
-- The collections while the deposits are polled for.
use mathlib.Core.List.{append_assoc, append-nil, map-append}
use zkp_rollup.Base.{ℕ, zero, suc, ◌≡◌, ◌∙◌, refl, sym, ap, List, [], ◌++◌, map, inl, inr}
use zkp_rollup.Python.Result.{Result, ok, raised, Result-cases}
use zkp_rollup.Python.Exec.{Exec, continue, ◌>>◌}
use zkp_rollup.Services.{Services, IsServices}
use zkp_rollup.Services.Web3.{Web3}
use zkp_rollup.State.{World}
use zkp_rollup.ChainListener.{DepositEntry, handle_deposit_entries}
use zkp_rollup.ChainListener.Laws.{entry_account, entry_transaction, deposits_recorded}
use zkp_rollup.ChainListener.Loop.{
  Listener, init_deposit_event_filter, poll_times, deposit_chain_loop,
}

append_map :
    {A B : Type 0} (before : List B) (f : A → B) (xs ys : List A)
    → (before ++ map f xs) ++ map f ys ≡ before ++ map f (xs ++ ys)
append_map before f xs ys =
    append_assoc before (map f xs) (map f ys)
    ∙ ap (λ later. before ++ later) (sym (map-append f xs ys))

-- What follows a call that returned runs in the state that it left.
after_ok :
    {S A B : Type 0} (m : Exec S A) (n : Exec S B) (a : A) (s : S)
    → (m s).0 ≡ ok a
    → (m >> n) s ≡ n (m s).1
after_ok {S} {A} {B} m n a s h = go (m s) h
  where
    go : (r : Result A × S) → r.0 ≡ ok a → continue (λ (done : A). n) r ≡ n r.1
    go (ok b, t) h = refl
    go (raised e, t) h = cc

module _ (web3 : Web3 DepositEntry) where
  -- The events of a number of polls, one poll after the other, up to the first that raises.
  abbrev joined : Result (List DepositEntry) → List DepositEntry → List DepositEntry
  joined (ok entries) rest = entries ++ rest
  joined (raised e) rest = []

  abbrev pub events_from : web3.Filter → ℕ → ℕ → List DepositEntry
  events_from deposit_event poll zero = []
  events_from deposit_event poll (suc more) =
      let rest = events_from deposit_event (suc poll) more in
      joined (web3.new_entries deposit_event poll) rest

  -- None at all where the filter cannot be made.
  abbrev pub events_seen : Result web3.Filter → ℕ → List DepositEntry
  events_seen (ok deposit_event) polls = events_from deposit_event 0 polls
  events_seen (raised e) polls = []

  module _ (v : Services) (whole_ether : ℕ → ℕ) (lawful : IsServices v) where
    -- The accounts and the deposits of these events have been appended, in their order.
    pub record HasRecorded (events : List DepositEntry) (w new : World v) : Type 0 where
      pub users :
          v.mongo.documents new.users
          ≡ v.mongo.documents w.users ++ map (entry_account v whole_ether) events
      pub transactions :
          v.mongo.documents new.transactions
          ≡ v.mongo.documents w.transactions ++ map (entry_transaction v whole_ether) events

    HasRecorded-none : (w : World v) → HasRecorded [] w w
    HasRecorded-none w = record { users = sym (append-nil _); transactions = sym (append-nil _) }

    HasRecorded-append :
        (xs ys : List DepositEntry) (a b c : World v)
        → HasRecorded xs a b
        → HasRecorded ys b c
        → HasRecorded (xs ++ ys) a c
    HasRecorded-append xs ys a b c p q = record {
      users = q.users ∙ rw p.users (append_map _ (entry_account v whole_ether) xs ys);
      transactions =
          q.transactions ∙ rw p.transactions (append_map _ (entry_transaction v whole_ether) xs ys);
    }

    handled :
        (entries : List DepositEntry) (deposit_event : web3.Filter) (poll more : ℕ) (w : World v)
        → let s = (handle_deposit_entries v whole_ether entries w).1 in
          HasRecorded
            (events_from deposit_event poll more)
            s
            (poll_times web3 v whole_ether deposit_event poll more s).1
          → HasRecorded
              (entries ++ events_from deposit_event poll more)
              w
              ((handle_deposit_entries v whole_ether entries
                  >> poll_times web3 v whole_ether deposit_event poll more)
                w).1
    handled entries deposit_event poll more w later =
        let s = (handle_deposit_entries v whole_ether entries w).1 in
        let (returned, users, transactions) = deposits_recorded v whole_ether lawful entries w in
        rw
          (after_ok (handle_deposit_entries v whole_ether entries)
            (poll_times web3 v whole_ether deposit_event poll more) tt w returned)
          (HasRecorded-append entries _ w s _
            (record { users = users; transactions = transactions }) later)

    polled :
        (deposit_event : web3.Filter) (poll more : ℕ) (w : World v)
        → HasRecorded
            (events_from deposit_event poll more)
            w
            (poll_times web3 v whole_ether deposit_event poll more w).1
    unfolding poll_times
    polled deposit_event poll zero w = HasRecorded-none w
    polled deposit_event poll (suc more) w =
        elim (Result-cases (web3.new_entries deposit_event poll)) [
          | inl (entries, e) ↦ rw e (
              handled entries deposit_event (suc poll) more w
                (polled deposit_event (suc poll) more _))
          | inr (x, e) ↦ rw e (HasRecorded-none w)
        ]

    -- After any number of polls the loop has appended one account and one pending deposit for each
    -- event of the polls before the first that raises, in their order, and nothing for the polls after
    -- it; and nothing at all if the filter cannot be made.
    pub loop_records :
        (listener : Listener web3) (polls : ℕ) (w : World v)
        → HasRecorded
            (events_seen (init_deposit_event_filter web3 listener) polls)
            w
            (deposit_chain_loop web3 v whole_ether listener polls w).1
    unfolding deposit_chain_loop
    loop_records listener polls w = elim (Result-cases (init_deposit_event_filter web3 listener)) [
      | inl (deposit_event, e) ↦ rw e (polled deposit_event 0 polls w)
      | inr (x, e) ↦ rw e (HasRecorded-none w)
    ]
