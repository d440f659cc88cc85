-- ===== src/Server/Start/Answered.antt =====
-- What the two look-ups of the API answer, whatever the tasks have done since the service started.
use zkp_rollup.Base.{
  Bool-cases, false, sym, ℕ, ◌≡◌, String, List, [], ◌∷◌, ◌++◌, map, All, none, some, first, ◌⊎◌,
  inl, inr, option_eq, string_eq, Option-cases, arith, true,
}
use mathlib.Core.Path.{subst}
use zkp_rollup.Python.Result.{ok, raised, type_error}
use zkp_rollup.Types.{Transaction, AccountDocument, AccountsCollection, TransactionStatus}
use zkp_rollup.Services.{Services, IsServices}
use zkp_rollup.State.{World}
use zkp_rollup.State.Accounts.{find_account, by_address}
use zkp_rollup.MerkleTree.{accounts_collection, latest_nonce}
use zkp_rollup.MerkleTree.Leaf.{FundedAccount}
use zkp_rollup.Setup.{start_user, on_start}
use zkp_rollup.Block.{by_submission_id, get_nonce_for_account, get_status_for_transaction}
use zkp_rollup.Block.Typed.{
  is_typed, IsTypedAccount, account_accepted, account_refused, all_int64, typed_status,
}
use zkp_rollup.Services.Web3.{Web3}
use zkp_rollup.Services.Framework.{Framework, IsFramework}
use zkp_rollup.ChainListener.{DepositEntry}
use zkp_rollup.ChainListener.Loop.{Listener}
use zkp_rollup.Server.Answers.{status_refused}
use zkp_rollup.Server.Start.Begun.{start_service-Begun}
use zkp_rollup.Base.Filter.{All-append, first-All}
use zkp_rollup.Server.{value, http_exception, nonce_route, status_route}
use zkp_rollup.Server.Interleaved.{System, Interleaving, at_rest}
use zkp_rollup.Server.Interleaved.Typed.{AllTyped, TypedDocuments, Interleaving-Typed}
use zkp_rollup.Server.Start.{Database, start_service}

start_users-typed : (accs : List FundedAccount) → All IsTypedAccount (map start_user accs)
start_users-typed [] = tt
start_users-typed (a ∷ accs) = (tt, start_users-typed accs)

module _ (v : Services) (whole_ether : ℕ → ℕ) (lawful : IsServices v) where
  -- On a database whose documents have these shapes.
  abbrev pub TypedDatabase : Database v → Type 0
  TypedDatabase db =
      AllTyped (v.mongo.documents db.transactions) × All IsTypedAccount (v.mongo.documents db.users)

  set_up-Typed :
      (funded_accounts : List FundedAccount) (genesis_badge_id : String) (started : ℕ) (w : World v)
      → TypedDocuments v whole_ether lawful w
      → TypedDocuments v whole_ether lawful
          (on_start v true funded_accounts genesis_badge_id started w).1
  unfolding on_start
  set_up-Typed [] genesis_badge_id started w typed = typed
  set_up-Typed (a ∷ rest) genesis_badge_id started w (all, users) =
      let more : All IsTypedAccount (v.mongo.documents w.users ++ map start_user (a ∷ rest)) =
        All-append IsTypedAccount (v.mongo.documents w.users) (map start_user (a ∷ rest)) users
          (start_users-typed (a ∷ rest)) in
      (all, rw lawful.mongo.documents-insert_many more)

  -- What the nonce route answers: that there is no such account, or that the account that is found
  -- first is refused, or its nonce.
  abbrev pub IsNonceAnswer : String → World v → Type 0
  IsNonceAnswer account w =
      ((first (by_address account) (v.mongo.documents w.users) ≡ none)
        × (nonce_route v (record { account = account }) w ≡ http_exception 500))
      ⊎ (((d : AccountDocument) × (first (by_address account) (v.mongo.documents w.users) ≡ some d)
            × (all_int64 d.account_updates ≡ false)
            × (nonce_route v (record { account = account }) w ≡ http_exception 500))
          ⊎ ((d : AccountDocument) × (acc : AccountsCollection) × (first (by_address account)
                  (v.mongo.documents w.users)
                ≡ some d)
              × (all_int64 d.account_updates ≡ true)
              × (accounts_collection d ≡ ok acc)
              × (nonce_route v (record { account = account }) w
                  ≡ value (record { nonce = latest_nonce acc }))))

  -- What the controller finds as the status: that there is no such submission, or the status of the
  -- transaction that is found first.
  abbrev pub IsFoundStatus : String → World v → Type 0
  IsFoundStatus id w =
      ((first (by_submission_id id) (v.mongo.documents w.transactions) ≡ none)
        × (get_status_for_transaction v id w ≡ raised type_error))
      ⊎ ((t : Transaction) × (s : TransactionStatus) × (first (by_submission_id id)
              (v.mongo.documents w.transactions)
            ≡ some t)
          × (t.status ≡ some s)
          × (get_status_for_transaction v id w ≡ ok (record { submission_id = id; status = s })))

  nonce_answer :
      (account : String) (w : World v)
      → TypedDocuments v whole_ether lawful w
      → IsNonceAnswer account w
  unfolding nonce_route get_nonce_for_account find_account
  nonce_answer account w (all, users) =
      let found = lawful.mongo.find_one_first (by_address account) w.users in
      elim (Option-cases (first (by_address account) (v.mongo.documents w.users))) [
        | inl e ↦ inl (e, ground (arith, found, e))
        | inr (d, e) ↦ elim (Bool-cases (all_int64 d.account_updates)) [
          | inr wide ↦ inr (inl (d, e, wide, ground (arith, found, e, account_refused d wide)))
          | inl fits ↦
              let typed : IsTypedAccount d =
                first-All IsTypedAccount (by_address account) (v.mongo.documents w.users) d users
                  e in
              let (acc, accepted) = account_accepted d typed fits in
              inr (inr (d, acc, e, fits, accepted, ground (arith, found, e, accepted)))
        ]
      ]

  status_answer :
      (id : String) (w : World v) → TypedDocuments v whole_ether lawful w → IsFoundStatus id w
  unfolding get_status_for_transaction
  status_answer id w (all, users) =
      let found = lawful.mongo.find_one_first (by_submission_id id) w.transactions in
      elim (Option-cases (first (by_submission_id id) (v.mongo.documents w.transactions))) [
        | inl e ↦ inl (e, ground (arith, found, e))
        | inr (t, e) ↦
            let (s, has) = typed_status t (
              first-All (λ u. is_typed u ≡ true) (by_submission_id id)
                (v.mongo.documents w.transactions) t all e) in
            inr (t, s, e, has, ground (arith, found, e, has))
      ]

  -- From a start on a database whose transactions have the shape of a submission or of a deposit and
  -- whose accounts hold texts as identifiers, whatever steps the tasks have taken since, interleaved in
  -- any order: the documents are still of these shapes. The nonce route answers 500 for an address that
  -- no account has; else it answers the nonce of the first account that has it where the balances in
  -- its entries are below 2 ^ 63, which pydantic then accepts, and 500 where they are not. The
  -- controller raises for a submission identifier that no transaction has, and else finds the status
  -- of the first that has it; the status route answers 500 in both cases, as the framework refuses
  -- what it returns.
  pub documents_stay_typed :
      (web3 : Web3 DepositEntry) (contract_abi : web3.Abi) (listener : Listener web3)
      (framework : Framework) (checks : IsFramework framework)
      (funded_accounts : List FundedAccount) (genesis_badge_id : String) (loaded started : ℕ)
      (db : Database v) (w : World v) (new : System v whole_ether) (account submission_id : String)
      → start_service v web3 contract_abi funded_accounts genesis_badge_id loaded started db
        ≡ ok (w, listener)
      → TypedDatabase db
      → Interleaving v whole_ether (at_rest v whole_ether w) new
      → TypedDocuments v whole_ether lawful new.world
        × IsNonceAnswer account new.world
        × IsFoundStatus submission_id new.world
        × (status_route v framework (record { submission_id = submission_id }) new.world
            ≡ http_exception 500)
  documents_stay_typed web3 contract_abi listener framework checks funded_accounts genesis_badge_id
        loaded started db w new account id starts (all, users) run =
      let b =
        start_service-Begun v web3 funded_accounts genesis_badge_id loaded started db w contract_abi
          listener starts in
      let all_before : AllTyped (v.mongo.documents b.before.transactions) =
        subst (λ c. AllTyped (v.mongo.documents c)) (sym b.transactions) all in
      let users_before : All IsTypedAccount (v.mongo.documents b.before.users) =
        subst (λ c. All IsTypedAccount (v.mongo.documents c)) (sym b.users) users in
      let at_start : TypedDocuments v whole_ether lawful w =
        subst (TypedDocuments v whole_ether lawful) b.set_up (
          set_up-Typed funded_accounts genesis_badge_id started b.before
            (all_before, users_before)) in
      let (after, _) = Interleaving-Typed v whole_ether lawful at_start run in
      (
        after,
        nonce_answer account new.world after,
        status_answer id new.world after,
        status_refused v framework checks id new.world,
      )
