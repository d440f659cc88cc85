-- ===== src/Server/Start/Settled.antt =====
-- The first payments of the accounts that the service was set up with, from its start to the block that
-- holds them.
use zkp_rollup.Base.{
  ℕ, zero, suc, ◌<◌, ◌≤◌, ◌^◌, ◌≡◌, ◌≢◌, ◌∙◌, refl, sym, ap, String, true, List, [], ◌∷◌, map,
  length, All, some, get_elem?, arith,
}
use mathlib.Core.Path.{subst}
use zkp_rollup.Base.Bag.{of_list}
use zkp_rollup.Base.Filter.{All-map}
use zkp_rollup.Python.Result.{ok}
use zkp_rollup.Types.{Transaction, TransactionBadge, BadgeExecutionCause}
use zkp_rollup.Services.{Services, IsServices}
use zkp_rollup.State.{World}
use zkp_rollup.MemPool.{ids_of}
use zkp_rollup.MerkleTree.{checked_texts, get_merkle_root}
use zkp_rollup.MerkleTree.Leaf.{FundedAccount}
use zkp_rollup.MerkleTree.Leaf.Laws.{leaf_balance, leaf_nonce}
use zkp_rollup.Block.{any_document, point_to, form_new_L2_block}
use zkp_rollup.Block.Form.{batch_of}
use zkp_rollup.Block.Formed.{IsHashed}
use zkp_rollup.Setup.{start_user}
use zkp_rollup.Ledger.{AllApart, payment_of, ledger_of, settle, key_of}
use zkp_rollup.Ledger.Steps.{key_of-ok, IsPay}
use zkp_rollup.Ledger.Settle.{all_due, IsSettleable, batch_is_settled}
use zkp_rollup.Server.Interleaved.{System, Interleaving, at_rest}
use zkp_rollup.Server.Interleaved.Waiting.{AllLeave}
use zkp_rollup.Server.Interleaved.Untouched.{uninvolved_untouched}
use zkp_rollup.Server.Interleaved.Live.{HasPrevious, Interleaving-HasPrevious}
use zkp_rollup.Server.Start.{Database, start_service}
use zkp_rollup.Server.Start.Funded.{IsFundable, AllDiffer, IsFunded, service_starts}
use zkp_rollup.Server.Start.Begun.{same_pair, start_service-Begun, start_service-readable}
use zkp_rollup.Services.Web3.{Web3}
use zkp_rollup.ChainListener.{DepositEntry}
use zkp_rollup.ChainListener.Loop.{Listener}
use zkp_rollup.Server.Start.Payments.{IsOpening, IsOpening-IsPay}

All-at :
    {A : Type 0} (P : A → Type 0) (xs : List A) (i : ℕ) (a : A)
    → get_elem? xs i ≡ some a
    → All P xs
    → P a
All-at P [] i a h all = cc
All-at P (x ∷ xs) zero a h (p, all) = let same : x ≡ a = cc in subst P same p
All-at P (x ∷ xs) (suc i) a h (p, all) = All-at P xs i a h all

-- A stored transfer is the first of one account to another: the two stand in the list of accounts, and
-- everything stored that involves one of them is pending.
pub record IsOpeningOf (accounts : List FundedAccount) (stored : List Transaction) (t : Transaction)
    : Type 0 where
  pub payer : FundedAccount
  pub payee : FundedAccount
  pub payer_index : ℕ
  pub payee_index : ℕ
  pub payer_listed : get_elem? accounts payer_index ≡ some payer
  pub payee_listed : get_elem? accounts payee_index ≡ some payee
  pub opening : IsOpening t payer payee
  pub payer_waits : AllLeave (key_of payer.pub_key) stored
  pub payee_waits : AllLeave (key_of payee.pub_key) stored

module _ (v : Services) (whole_ether : ℕ → ℕ) (lawful : IsServices v)
    (funded_accounts : List FundedAccount) (genesis_badge_id : String) (loaded started : ℕ)
    (db : Database v) (w : World v) (web3 : Web3 DepositEntry) (contract_abi : web3.Abi)
    (listener : Listener web3)
    (starts : start_service v web3 contract_abi funded_accounts genesis_badge_id loaded started db
      ≡ ok (w, listener))
    (fundable : All IsFundable funded_accounts) (differ : AllDiffer funded_accounts)
    (no_users : v.mongo.documents db.users ≡ []) (no_badges : v.mongo.documents db.badges ≡ [])
    (no_curr : v.mongo.documents db.curr ≡ []) where
  start-IsFunded : All (IsFunded v lawful w) funded_accounts
  start-IsFunded = go funded_accounts starts fundable differ
    where
      go :
          (accs : List FundedAccount)
          → start_service v web3 contract_abi accs genesis_badge_id loaded started db
            ≡ ok (w, listener)
          → All IsFundable accs
          → AllDiffer accs
          → All (IsFunded v lawful w) accs
      go [] h all apart = tt
      go (a ∷ rest) h all apart =
          let (address, readable) =
            start_service-readable v web3 (a ∷ rest) genesis_badge_id loaded started db w
              contract_abi listener h in
          let (u, other, done, _, _, _, _, funded, _) =
            service_starts v lawful web3 a rest genesis_badge_id loaded started db contract_abi
              address readable all apart no_users no_badges no_curr in
          subst (λ s. All (IsFunded v lawful s) (a ∷ rest))
            (ap (λ (p : World v × Listener web3). p.0)
              (same_pair v web3 (u, other) (w, listener) (sym done ∙ h)))
            funded

  module _ {new : System v whole_ether}
      (run : Interleaving v whole_ether (at_rest v whole_ether w) new) where
    still-IsFunded :
        (acc : FundedAccount) (f : IsFundable acc)
        → IsFunded v lawful w acc
        → AllLeave (key_of acc.pub_key) (v.mongo.documents new.world.transactions)
        → IsFunded v lawful new.world acc
    still-IsFunded acc f funded all =
        let named = ap ok (sym (key_of-ok acc.pub_key f.key f.hex)) in
        let (found, leaf) =
          uninvolved_untouched v whole_ether lawful acc.pub_key (key_of acc.pub_key) (f.hex ∙ named)
            (start_user acc) funded.found run all in
        record {
          found = found;
          leaf = record {
            balance = ap leaf_balance leaf ∙ funded.leaf.balance;
            nonce = ap leaf_nonce leaf ∙ funded.leaf.nonce;
          };
        }

    opening_pays :
        (t : Transaction)
        → IsOpeningOf funded_accounts (v.mongo.documents new.world.transactions) t
        → IsPay v new.world t
    opening_pays t o =
        let f = All-at IsFundable funded_accounts o.payer_index o.payer o.payer_listed fundable in
        let g = All-at IsFundable funded_accounts o.payee_index o.payee o.payee_listed fundable in
        let a =
          All-at (IsFunded v lawful w) funded_accounts o.payer_index o.payer o.payer_listed
            start-IsFunded in
        let b =
          All-at (IsFunded v lawful w) funded_accounts o.payee_index o.payee o.payee_listed
            start-IsFunded in
        IsOpening-IsPay v lawful new.world t o.payer o.payee o.opening f g
          (still-IsFunded o.payer f a o.payer_waits) (still-IsFunded o.payee g b o.payee_waits)

    previous : HasPrevious v whole_ether lawful new.world
    previous =
        let b =
          start_service-Begun v web3 funded_accounts genesis_badge_id loaded started db w
            contract_abi listener starts in
        let from_start =
          subst (λ s. Interleaving v whole_ether (at_rest v whole_ether s) new) (sym b.set_up)
            run in
        Interleaving-HasPrevious v whole_ether lawful b.before true funded_accounts genesis_badge_id
          started b.returned (rw b.badges no_badges) (rw b.curr no_curr)
          (rw b.counter (omega arith)) from_start

    module _ (cause : BadgeExecutionCause) (badge_id : String) (now timestamp : ℕ) where
      abbrev batch : List Transaction
      batch = batch_of v cause badge_id now timestamp new.world

      -- The batch holds all that is due, and consists of the first transfers of different accounts,
      -- which can be hashed.
      pub record IsOpeningBatch : Type 0 where
        pub opens :
            All (IsOpeningOf funded_accounts (v.mongo.documents new.world.transactions)) batch
        pub apart : AllApart (map payment_of batch)
        pub hashed : All (IsHashed v) batch
        pub some_room : v.badge_size ≢ 0
        pub whole : length (all_due v lawful cause badge_id now timestamp new.world) ≤ v.badge_size

      -- From a start that returned, with accounts whose addresses are hexadecimal and differ as bytes and
      -- whose balances fit in eight bytes, on a database without accounts and blocks, whatever steps the
      -- tasks have taken since, interleaved in any order: a round whose batch holds all that is due and
      -- consists of first transfers of different accounts, of which nothing stored but what is pending
      -- involves either, with balances below 2 ^ 53 before and after, which can be hashed, while the
      -- number of blocks and the time fit in eight bytes, returns, writes one block with the next number,
      -- the ids of the whole batch and the new root, and moves the pointer to it; the leaves of the tree
      -- are then the ledger from before settled with the payments that are due, as a collection without
      -- order.
      pub first_payments_settled :
          IsOpeningBatch
          → length (v.mongo.documents new.world.badges) < 2 ^ 64
          → timestamp < 2 ^ 64
          → let (r, next) = form_new_L2_block v cause badge_id now timestamp new.world in
            let payments =
              map payment_of (all_due v lawful cause badge_id now timestamp new.world) in
            (r ≡ ok tt)
            × ((badge : TransactionBadge) × (next.badges
                  ≡ v.mongo.insert_one badge new.world.badges)
                × (badge.badge_id ≡ badge_id)
                × (badge.blocknumber ≡ length (v.mongo.documents new.world.badges))
                × (badge.state_root ≡ get_merkle_root v next)
                × (checked_texts (ids_of batch) ≡ some badge.transactions))
            × (next.curr ≡ v.mongo.update_one any_document (point_to badge_id) new.world.curr)
            × (ledger_of v next ≡ settle (of_list payments) (ledger_of v new.world))
      first_payments_settled o fits in_time =
          let p = previous in
          let settleable : IsSettleable v lawful cause badge_id now timestamp new.world = record {
            pays =
                All-map (IsOpeningOf funded_accounts (v.mongo.documents new.world.transactions))
                  opening_pays batch o.opens;
            apart = o.apart;
            hashed = o.hashed;
            some_room = o.some_room;
            whole = o.whole;
          } in
          let (r, (h, ids, texts, written), pointer, settled) =
            batch_is_settled v lawful cause badge_id now timestamp new.world settleable p.blockhash
              p.prev_id p.blocknumber p.key p.previous p.read (omega (arith, p.number, fits))
              in_time in
          (r, (_, written, refl, p.number, refl, texts), pointer, settled)
