-- ===== src/MerkleTree/Transfer.antt =====
-- `make_rollup_transaction_between_existing_users`, step by step: what each call returns and writes
-- where it does not raise, and the state after a transfer that succeeds.
pub mod Credit
pub mod Fresh
pub mod Funds
pub mod Records
use zkp_rollup.Base.{
  ◌≡◌, ◌≢◌, refl, sym, String, ◌==◌, string_eq, beq_ne, List, [], ◌∷◌, Option, none, some, arith,
  if◌then◌else◌,
}
use zkp_rollup.Base.Int.{ℤ, pos, ◌+ℤ◌, ◌-ℤ◌}
use zkp_rollup.Python.Float.{◌+f◌, ◌-f◌, IsExact, +f-exact, -f-exact}
use zkp_rollup.Python.Result.{Result, ok, raised}
use zkp_rollup.Python.Bytes.{Bytes}
use zkp_rollup.Utils.{hex_to_bytes}
use zkp_rollup.Types.{Transaction, AccountDocument, UpdateDocument}
use zkp_rollup.Services.{Services, IsServices}
use zkp_rollup.State.{World}
use zkp_rollup.State.Accounts.{find_account, push_account, find_account-push_account}
use zkp_rollup.MerkleTree.{
  values_before, check_tree_invariants_for_update, update_sender_leaf_return_bytes,
  update_receiver_bytes_return_bytes, make_rollup_transaction_between_existing_users,
}
use zkp_rollup.MerkleTree.Leaf.{leaf_to_bytes}
use zkp_rollup.MerkleTree.Index.{find_update_index, find_update_index-none}
use zkp_rollup.MerkleTree.Check.{Accepts, check-true_iff}

-- The entries that a transfer pushes, from the values that each side starts from.
abbrev pub sender_entry : String → Transaction → ℤ × ℤ → UpdateDocument
sender_entry badge_id t before = record {
  balance_before = before.0;
  balance_after = before.0 -f t.amount;
  nonce_before = before.1;
  nonce_after = before.1 +ℤ pos 1;
  transactions = t.transaction_id ∷ [];
  badge_id = badge_id;
}

abbrev pub receiver_entry : String → Transaction → ℤ × ℤ → UpdateDocument
receiver_entry badge_id t before = record {
  balance_before = before.0;
  balance_after = before.0 +f t.amount;
  nonce_before = before.1;
  nonce_after = before.1;
  transactions = t.transaction_id ∷ [];
  badge_id = badge_id;
}

-- The balances of payer and payee, before and after, are below 2 ^ 53, where a float is exact.
pub record AreExact (payer payee amount : ℤ) : Type 0 where
  pub payer_before : IsExact payer
  pub payer_after : IsExact (payer -ℤ amount)
  pub payee_before : IsExact payee
  pub payee_after : IsExact (payee +ℤ amount)

pub paid_exact :
    {payer payee amount : ℤ} → AreExact payer payee amount → payer -f amount ≡ payer -ℤ amount
paid_exact {payer} {payee} {amount} e = -f-exact payer amount e.payer_before e.payer_after

pub got_exact :
    {payer payee amount : ℤ} → AreExact payer payee amount → payee +f amount ≡ payee +ℤ amount
got_exact {payer} {payee} {amount} e = +f-exact payee amount e.payee_before e.payee_after

module _ (v : Services) (badge_id : String) (t : Transaction) where
  pub update_sender-ok :
      (w : World v) (payer : AccountDocument) (before : ℤ × ℤ) (leaf : Bytes)
      → find_account v t.sender w.users ≡ some payer
      → values_before payer (pos 2) ≡ ok before
      → leaf_to_bytes (before.0 -f t.amount) (before.1 +ℤ pos 1) t.sender ≡ ok leaf
      → update_sender_leaf_return_bytes v badge_id t w ≡ (
        ok leaf,
        record w { users = push_account v t.sender (sender_entry badge_id t before) w.users },
      )
  unfolding update_sender_leaf_return_bytes
  update_sender-ok w payer before leaf found values encoded =
      ground (arith, found, find_update_index-none badge_id payer.account_updates, values, encoded)

  pub update_receiver-ok :
      (w : World v) (receiver : String) (payee : AccountDocument) (before : ℤ × ℤ) (leaf : Bytes)
      → find_account v receiver w.users ≡ some payee
      → values_before payee (pos 1) ≡ ok before
      → leaf_to_bytes (before.0 +f t.amount) before.1 receiver ≡ ok leaf
      → update_receiver_bytes_return_bytes v badge_id t receiver w ≡ (
        ok leaf,
        record w { users = push_account v t.sender (receiver_entry badge_id t before) w.users },
      )
  unfolding update_receiver_bytes_return_bytes
  update_receiver-ok w receiver payee before leaf found values encoded =
      ground (arith, found, find_update_index-none badge_id payee.account_updates, values, encoded)

  -- The two accounts of a transfer, the values that each starts from, and its new leaf.
  pub record Moves (w : World v) (receiver : String) : Type 0 where
    pub payer : AccountDocument
    pub payee : AccountDocument
    pub payer_before : ℤ × ℤ
    pub payee_before : ℤ × ℤ
    pub payer_leaf : Bytes
    pub payee_leaf : Bytes
    pub payer_key : Bytes
    pub payee_key : Bytes
    pub payer_found : find_account v t.sender w.users ≡ some payer
    pub payee_found : find_account v receiver w.users ≡ some payee
    pub payer_values : values_before payer (pos 2) ≡ ok payer_before
    pub payee_values : values_before payee (pos 1) ≡ ok payee_before
    pub payer_encoded :
        leaf_to_bytes (payer_before.0 -f t.amount) (payer_before.1 +ℤ pos 1) t.sender
        ≡ ok payer_leaf
    pub payee_encoded :
        leaf_to_bytes (payee_before.0 +f t.amount) payee_before.1 receiver ≡ ok payee_leaf
    pub payer_hex : hex_to_bytes t.sender ≡ ok payer_key
    pub payee_hex : hex_to_bytes receiver ≡ ok payee_key

  -- The state after the transfer: both entries stand in the document of the sender.
  abbrev pub moved : {w : World v} {receiver : String} → Moves w receiver → World v
  moved {w} m = record w {
    users =
        push_account v t.sender (receiver_entry badge_id t m.payee_before)
          (push_account v t.sender (sender_entry badge_id t m.payer_before) w.users);
    sparse_merkle_tree =
        v.smt.update m.payee_key m.payee_leaf
          (v.smt.update m.payer_key m.payer_leaf w.sparse_merkle_tree);
  }

  -- A transfer between two accounts that passes the check, and whose leaves can be written, returns,
  -- and leaves the state `moved`.
  pub transfer-moved :
      (lawful : IsServices v) (w : World v) (receiver : String)
      → Accepts v w t receiver
      → t.sender ≢ receiver
      → (m : Moves w receiver)
      → make_rollup_transaction_between_existing_users v badge_id t receiver w ≡ (ok tt, moved m)
  unfolding make_rollup_transaction_between_existing_users
  transfer-moved lawful w receiver accepted distinct m =
      let paid : World v = record w {
        users = push_account v t.sender (sender_entry badge_id t m.payer_before) w.users;
        sparse_merkle_tree = v.smt.update m.payer_key m.payer_leaf w.sparse_merkle_tree;
      } in
      let still : find_account v receiver paid.users ≡ some m.payee =
        rw (find_account-push_account v lawful, beq_ne receiver t.sender (λ e. distinct (sym e)))
          m.payee_found in
      rw ((check-true_iff v w t receiver).1 accepted) (
        rw
          (update_sender-ok w m.payer m.payer_before m.payer_leaf m.payer_found m.payer_values
            m.payer_encoded)
          (rw m.payer_hex (
            rw
              (update_receiver-ok paid receiver m.payee m.payee_before m.payee_leaf still
                m.payee_values m.payee_encoded)
              (rw m.payee_hex))))
