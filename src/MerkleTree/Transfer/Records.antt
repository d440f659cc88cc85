-- ===== src/MerkleTree/Transfer/Records.antt =====
-- What `make_rollup_transaction_between_existing_users` writes into the users collection.
use zkp_rollup.Base.{◌≡◌, ◌≢◌, refl, ap, ◌∙◌, String, string_eq, some}
use zkp_rollup.Base.Int.{ℤ, ◌≤ℤ◌}
use zkp_rollup.Python.Float.{◌+f◌}
use zkp_rollup.Python.Result.{ok}
use zkp_rollup.Types.{Transaction, AccountDocument}
use zkp_rollup.Services.{Services, IsServices}
use zkp_rollup.State.{World}
use zkp_rollup.State.Accounts.{
  find_account, push_account, push_update, find_account-push_self, find_account-push_ne,
}
use zkp_rollup.MerkleTree.{make_rollup_transaction_between_existing_users}
use zkp_rollup.MerkleTree.Check.{Accepts}
use zkp_rollup.MerkleTree.Latest.{latest_of_pushed}
use zkp_rollup.MerkleTree.Transfer.{Moves, moved, transfer-moved, sender_entry, receiver_entry}

-- The document of the sender after a transfer.
abbrev pub with_both_entries :
    String → Transaction → ℤ × ℤ → ℤ × ℤ → AccountDocument → AccountDocument
with_both_entries badge_id t payer_before payee_before account =
    push_update (receiver_entry badge_id t payee_before)
      (push_update (sender_entry badge_id t payer_before) account)

module _ (v : Services) (lawful : IsServices v) {badge_id : String} {t : Transaction} {w : World v}
    {receiver : String} (accepted : Accepts v w t receiver) (distinct : t.sender ≢ receiver)
    (m : Moves v badge_id t w receiver) where
  moved-payer :
      find_account v t.sender (moved v badge_id t m).users
      ≡ some (with_both_entries badge_id t m.payer_before m.payee_before m.payer)
  moved-payer = rw (find_account-push_self v lawful, find_account-push_self v lawful, m.payer_found)

  moved-others :
      (other : String)
      → other ≢ t.sender
      → find_account v other (moved v badge_id t m).users ≡ find_account v other w.users
  moved-others other ne =
      let step = push_account v t.sender (sender_entry badge_id t m.payer_before) w.users in
      find_account-push_ne v lawful t.sender other (receiver_entry badge_id t m.payee_before) step
        ne
      ∙ find_account-push_ne v lawful t.sender other (sender_entry badge_id t m.payer_before)
          w.users ne

  -- After a transfer that passes the check, between different accounts whose new leaves can be
  -- written, the document of the sender has two entries more, its own and after it the one of the
  -- receiver; every other document, that of the receiver too, is what it was.
  pub transfer_documents :
      let (r, new) = make_rollup_transaction_between_existing_users v badge_id t receiver w in
      (r ≡ ok tt)
      × (find_account v t.sender new.users
          ≡ some (with_both_entries badge_id t m.payer_before m.payee_before m.payer))
      × ((other : String)
          → other ≢ t.sender
          → find_account v other new.users ≡ find_account v other w.users)
  transfer_documents =
      rw (transfer-moved v badge_id t lawful w receiver accepted distinct m)
        (refl, moved-payer, moved-others)

  -- What the check compares for the sender after the transfer.
  next_latest :
      (u : Transaction) (next_receiver : String)
      → u.sender ≡ t.sender
      → Accepts v (moved v badge_id t m) u next_receiver
      → (u.nonce ≡ some m.payee_before.1) × (u.amount ≤ℤ m.payee_before.0 +f t.amount)
  next_latest u next_receiver same next =
      let credit = receiver_entry badge_id t m.payee_before in
      let debited = push_update (sender_entry badge_id t m.payer_before) m.payer in
      let found : next.document ≡ push_update credit debited =
        cc
          (moved-payer, next.found, ap (λ a. find_account v a (moved v badge_id t m).users) same) in
      let (nonce, balance) =
        latest_of_pushed debited credit next.account (rw found at next.valid) in
      (next.in_order ∙ ap some nonce, rw balance at next.covered)

  -- After a transfer that passes the check, between different accounts whose new leaves can be
  -- written, the check holds the next transaction of the sender against the values of the receiver:
  -- one that it accepts has the nonce of the receiver, and an amount up to the receiver's balance
  -- plus the amount.
  pub next_check_uses_receiver :
      (u : Transaction) (next_receiver : String)
      → u.sender ≡ t.sender
      → Accepts v
          (make_rollup_transaction_between_existing_users v badge_id t receiver w).1
          u
          next_receiver
      → (u.nonce ≡ some m.payee_before.1) × (u.amount ≤ℤ m.payee_before.0 +f t.amount)
  next_check_uses_receiver u next_receiver same next =
      next_latest u next_receiver same
        (rw (transfer-moved v badge_id t lawful w receiver accepted distinct m) at next)
