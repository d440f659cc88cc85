-- ===== src/Ledger/Settle.antt =====
-- A round of the consumer on a batch of transfers, held against the settlement of their payments.
use zkp_rollup.Base.{
  ℕ, ◌+◌, ◌<◌, ◌≤◌, ◌^◌, ◌≡◌, ◌≢◌, ◌∙◌, refl, sym, ap, String, List, [], ◌∷◌, map, filter, length,
  take, All, arith, zero, suc, true, some,
}
use zkp_rollup.Base.Bag.{SameItems, of_list, run_all, run_bag, map-SameItems, run_all-SameItems}
use zkp_rollup.Base.Filter.{All-map}
use zkp_rollup.Python.Result.{ok}
use zkp_rollup.Python.Bytes.{Bytes}
use zkp_rollup.Utils.{hex_to_bytes}
use zkp_rollup.Types.{Transaction, BadgeExecutionCause, timedout, filledup}
use zkp_rollup.State.Accounts.{find_account}
use zkp_rollup.Services.{Services, IsServices}
use zkp_rollup.State.{World}
use zkp_rollup.MemPool.{is_due, ids_of, get_transaction_for_badge}
use zkp_rollup.MemPool.Batch.{due-take}
use zkp_rollup.MerkleTree.{
  checked_texts, get_merkle_root, make_rollup_transaction_between_existing_users,
}
use zkp_rollup.Block.{
  survivors, transactions_for_cause, update_from, form_new_L2_block, get_previous_block_information,
  any_document, point_to,
}
use zkp_rollup.Block.Apply.{update_from-first}
use zkp_rollup.Block.Form.{
  bound_of, batch_of, drawn, applied, drawn-SameBlocks, form-eq, finish_block-ok, new_badge,
  same_previous,
}
use zkp_rollup.Block.Formed.{IsHashed, create_block_hash-some, survivors-checked}
use zkp_rollup.Ledger.{
  pay, pay_comm, Payment-discrete, settle, payment_of, ledger_of, Apart, AllApart,
}
use zkp_rollup.Ledger.Steps.{IsPay, IsPay-same, IsPay-after, transfer_pays}

module _ (v : Services) (lawful : IsServices v) (badge_id : String) where
  rest_after :
      {w : World v} {t : Transaction} (p : IsPay v w t) (ts : List Transaction)
      → All (IsPay v w) ts
      → All (Apart (payment_of t)) (map payment_of ts)
      → All
          (IsPay v (make_rollup_transaction_between_existing_users v badge_id t p.receiver w).1)
          ts
  rest_after p [] pays apart = tt
  rest_after p (u ∷ ts) (q, pays) (a, apart) =
      (IsPay-after v lawful badge_id p q a, rest_after p ts pays apart)

  -- A batch of transfers between different accounts is applied whole, and comes to their payments.
  batch_pays :
      (ts : List Transaction) (w : World v)
      → All (IsPay v w) ts
      → AllApart (map payment_of ts)
      → ((update_from v badge_id [] ts w).0 ≡ [])
        × (ledger_of v (update_from v badge_id [] ts w).1
            ≡ run_all pay (map payment_of ts) (ledger_of v w))
  unfolding update_from
  batch_pays [] w pays apart = (refl, refl)
  batch_pays (t ∷ ts) w (p, pays) (a, apart) =
      let s = (make_rollup_transaction_between_existing_users v badge_id t p.receiver w).1 in
      let (none_failed, rest) = batch_pays ts s (rest_after p ts pays a) apart in
      rw
        (update_from-first v badge_id t p.receiver p.no_withdrawal lawful w ts p.first
          p.to_receiver)
        (
          none_failed,
          rest ∙ ap (run_all pay (map payment_of ts)) (transfer_pays v lawful badge_id p),
        )

survivors_all : (ts : List Transaction) → survivors [] ts ≡ ts
survivors_all [] = refl
survivors_all (t ∷ ts) = rw (survivors_all ts)

take_whole : (n : ℕ) (ts : List Transaction) → length ts ≤ n → take n ts ≡ ts
take_whole zero [] h = refl
take_whole zero (t ∷ ts) h = absurd (omega (arith, h))
take_whole (suc n) [] h = refl
take_whole (suc n) (t ∷ ts) h = rw (take_whole n ts (omega (arith, h)))

filter-true : (ts : List Transaction) → filter (λ t. true) ts ≡ ts
filter-true [] = refl
filter-true (t ∷ ts) = rw (filter-true ts)

-- Taking a batch leaves the documents of the accounts and the tree alone.
transactions_for_cause-accounts :
    (v : Services) (cause : BadgeExecutionCause) (w : World v)
    → let s = (transactions_for_cause v cause w).1 in
      (s.users ≡ w.users) × (s.sparse_merkle_tree ≡ w.sparse_merkle_tree)
unfolding transactions_for_cause get_transaction_for_badge
transactions_for_cause-accounts v timedout w = (refl, refl)
transactions_for_cause-accounts v filledup w = (refl, refl)

ledger_same :
    (v : Services) (a b : World v)
    → a.sparse_merkle_tree ≡ b.sparse_merkle_tree
    → ledger_of v a ≡ ledger_of v b
unfolding ledger_of
ledger_same v a b same = rw same

module _ (v : Services) (lawful : IsServices v) (cause : BadgeExecutionCause) (badge_id : String)
    (now timestamp : ℕ) (w : World v) where
  -- What is due, in the order of the database.
  abbrev pub all_due : List Transaction
  all_due = filter (is_due (bound_of cause w.last_timestamp)) (v.mongo.documents w.transactions)

  abbrev batch : List Transaction
  batch = batch_of v cause badge_id now timestamp w

  -- The batch of a round holds all that is due, and consists of first transfers between different
  -- accounts that can be hashed.
  pub record IsSettleable : Type 0 where
    pub pays : All (IsPay v w) batch
    pub apart : AllApart (map payment_of batch)
    pub hashed : All (IsHashed v) batch
    pub some_room : v.badge_size ≢ 0
    pub whole : length all_due ≤ v.badge_size

  -- The batch is what is due, in some order.
  batch_same : v.badge_size ≢ 0 → length all_due ≤ v.badge_size → SameItems batch all_due
  batch_same some_room whole test =
      let bound = bound_of cause w.last_timestamp in
      let sorted =
        v.mongo.sort_descending (λ t. t.received_at) (v.mongo.find (is_due bound) w.transactions) in
      let found = lawful.mongo.find_filter (is_due bound) w.transactions in
      let same_size =
        sym (ap length (filter-true sorted))
        ∙ lawful.mongo.sort_same (λ (t : Transaction). t.received_at) (λ t. true) _
        ∙ ap length (filter-true (v.mongo.find (is_due bound) w.transactions))
        ∙ ap length found in
      let e : batch ≡ sorted =
        due-take v lawful some_room bound w ∙ take_whole v.badge_size sorted (rw same_size whole) in
      rw e (lawful.mongo.sort_same _ test _ ∙ rw found)

  drawn_pays :
      (ts : List Transaction)
      → All (IsPay v w) ts
      → All (IsPay v (drawn v cause badge_id now timestamp w)) ts
  drawn_pays ts =
      let s = drawn v cause badge_id now timestamp w in
      let (users, tree) = transactions_for_cause-accounts v cause w in
      All-map (IsPay v w)
        (λ t p.
          IsPay-same v p s (ap (find_account v t.sender) users)
            (ap (find_account v p.receiver) users)
            (ap (λ tree. v.smt.get tree p.first.payer_key) tree)
            (ap (λ tree. v.smt.get tree p.first.payee_key) tree))
        ts

  module _ (o : IsSettleable) where
    none_failed : (applied v cause badge_id now timestamp w).0 ≡ []
    none_failed =
        (batch_pays v lawful badge_id batch (drawn v cause badge_id now timestamp w)
          (drawn_pays batch o.pays) o.apart).0

    applied-settle :
        ledger_of v (applied v cause badge_id now timestamp w).1
        ≡ settle (of_list (map payment_of all_due)) (ledger_of v w)
    unfolding settle run_bag
    applied-settle =
        let s = drawn v cause badge_id now timestamp w in
        let same = map-SameItems payment_of batch all_due (batch_same o.some_room o.whole) in
        (batch_pays v lawful badge_id batch s (drawn_pays batch o.pays) o.apart).1
        ∙ ap (run_all pay (map payment_of batch))
            (ledger_same v s w (transactions_for_cause-accounts v cause w).1)
        ∙ run_all-SameItems pay Payment-discrete pay_comm (map payment_of batch)
            (map payment_of all_due) same (ledger_of v w)

    -- A round whose batch holds all that is due and consists of first transfers between different
    -- accounts, which can be hashed and have amounts that the senders have, with balances below 2 ^ 53
    -- before and after, where documents and leaves agree, the pointer names a block whose hash is hexadecimal, and number and time fit in eight
    -- bytes: it returns, writes one block with the ids of the whole batch and the new root, moves the
    -- pointer to it, and the leaves of the tree are then the ledger from before settled with the
    -- payments that are due, as a collection without order.
    pub batch_is_settled :
        (blockhash prev_id : String) (blocknumber : ℕ) (key : Bytes)
        → get_previous_block_information v w ≡ some (blockhash, blocknumber, prev_id)
        → hex_to_bytes blockhash ≡ ok key
        → blocknumber + 1 < 2 ^ 64
        → timestamp < 2 ^ 64
        → let (r, new) = form_new_L2_block v cause badge_id now timestamp w in
          (r ≡ ok tt)
          × ((h : String) × (ids : List String) × (checked_texts (ids_of batch) ≡ some ids)
              × (new.badges
                  ≡ v.mongo.insert_one
                      (new_badge v cause badge_id timestamp new
                        (blockhash, blocknumber, prev_id)
                        h
                        ids)
                      w.badges))
          × (new.curr ≡ v.mongo.update_one any_document (point_to badge_id) w.curr)
          × (ledger_of v new ≡ settle (of_list (map payment_of all_due)) (ledger_of v w))
    unfolding get_merkle_root ledger_of
    batch_is_settled blockhash prev_id blocknumber key previous key_read hn ht =
        let s = (applied v cause badge_id now timestamp w).1 in
        let (badges, curr) = drawn-SameBlocks v cause badge_id now timestamp w in
        let (h, hashed) =
          create_block_hash-some v (blocknumber + 1) timestamp batch blockhash key o.hashed hn ht
            key_read in
        let (ids, checked) = survivors-checked v [] batch o.hashed in
        let all_ids : checked_texts (ids_of batch) ≡ some ids =
          ap (λ ts. checked_texts (ids_of ts)) (sym (survivors_all batch)) ∙ checked in
        let kept : survivors (applied v cause badge_id now timestamp w).0 batch ≡ batch =
          ap (λ failed. survivors failed batch) none_failed ∙ survivors_all batch in
        let found : get_previous_block_information v s ≡ some (blockhash, blocknumber, prev_id) =
          same_previous v s w badges curr ∙ previous in
        let written =
          finish_block-ok v cause badge_id timestamp batch
            (survivors (applied v cause badge_id now timestamp w).0 batch) s
            (blockhash, blocknumber, prev_id) h ids found hashed
            (ap (λ ts. checked_texts (ids_of ts)) kept ∙ all_ids) in
        rw (form-eq v cause badge_id now timestamp w)
          (rw written (refl, (h, ids, all_ids, rw badges), rw curr, applied-settle))
