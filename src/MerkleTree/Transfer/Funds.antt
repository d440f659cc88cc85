-- ===== src/MerkleTree/Transfer/Funds.antt =====
-- What `make_rollup_transaction_between_existing_users` writes into the tree.
use zkp_rollup.Base.{◌≡◌, ◌≢◌, refl, sym, ap, ◌∙◌, String}
use zkp_rollup.Base.Int.{ℤ, pos, ◌+ℤ◌, int_laws}
use zkp_rollup.Python.Float.{◌+f◌, ◌-f◌}
use zkp_rollup.Python.Result.{ok}
use zkp_rollup.Python.Bytes.{Bytes}
use zkp_rollup.Utils.{hex_to_bytes}
use zkp_rollup.Types.{Transaction}
use zkp_rollup.Services.{Services, IsServices}
use zkp_rollup.Services.Smt.{get-update_self, get-update_ne}
use zkp_rollup.State.{World}
use zkp_rollup.MerkleTree.{make_rollup_transaction_between_existing_users}
use zkp_rollup.MerkleTree.Leaf.Laws.{leaf_balance, leaf_nonce, leaf_to_bytes-decode}
use zkp_rollup.MerkleTree.Check.{Accepts}
use zkp_rollup.MerkleTree.Transfer.{AreExact, paid_exact, got_exact, Moves, moved, transfer-moved}

pub ok_inj : {a b : Bytes} → ok a ≡ ok b → a ≡ b
ok_inj h = cc

module _ (v : Services) where
  -- The leaf of a key, in a state.
  abbrev pub leaf_at : Bytes → World v → Bytes
  leaf_at key w = v.smt.get w.sparse_merkle_tree key

  -- The balances and the nonces that the leaves of two keys hold, and that all others are the same.
  pub record Leaves (payer_key payee_key : Bytes) (old new : World v) (paid got : ℤ × ℤ)
      : Type 0 where
    pub payer_balance : leaf_balance (leaf_at payer_key new) ≡ paid.0
    pub payer_nonce : leaf_nonce (leaf_at payer_key new) ≡ paid.1
    pub payee_balance : leaf_balance (leaf_at payee_key new) ≡ got.0
    pub payee_nonce : leaf_nonce (leaf_at payee_key new) ≡ got.1
    pub others :
        (key : Bytes) → key ≢ payer_key → key ≢ payee_key → leaf_at key new ≡ leaf_at key old

  -- Accounts whose keys differ have different addresses.
  pub keys_apart :
      {badge_id : String} {t : Transaction} {w : World v} {receiver : String}
      (m : Moves v badge_id t w receiver)
      → m.payer_key ≢ m.payee_key
      → t.sender ≢ receiver
  keys_apart m apart same = apart (ok_inj (sym m.payer_hex ∙ ap hex_to_bytes same ∙ m.payee_hex))

  module _ (lawful : IsServices v) {badge_id : String} {t : Transaction} {w : World v}
      {receiver : String} (m : Moves v badge_id t w receiver)
      (apart : m.payer_key ≢ m.payee_key) where
    -- The leaves after a transfer, for keys that differ.
    pub moved-Leaves :
        Leaves m.payer_key m.payee_key w
          (moved v badge_id t m)
          (m.payer_before.0 -f t.amount, m.payer_before.1 +ℤ pos 1)
          (m.payee_before.0 +f t.amount, m.payee_before.1)
    moved-Leaves =
        let paid = v.smt.update m.payer_key m.payer_leaf w.sparse_merkle_tree in
        let payee_at : leaf_at m.payee_key (moved v badge_id t m) ≡ m.payee_leaf =
          get-update_self v.smt lawful.smt paid m.payee_key m.payee_leaf in
        let payer_at : leaf_at m.payer_key (moved v badge_id t m) ≡ m.payer_leaf =
          get-update_ne v.smt lawful.smt paid m.payee_key m.payee_leaf m.payer_key apart
          ∙ get-update_self v.smt lawful.smt w.sparse_merkle_tree m.payer_key m.payer_leaf in
        let (b, n, _) = leaf_to_bytes-decode _ _ _ m.payer_leaf m.payer_encoded in
        let (c, o, _) = leaf_to_bytes-decode _ _ _ m.payee_leaf m.payee_encoded in
        record {
          payer_balance = rw payer_at b;
          payer_nonce = rw payer_at n;
          payee_balance = rw payee_at c;
          payee_nonce = rw payee_at o;
          others = λ key np nr.
              get-update_ne v.smt lawful.smt paid m.payee_key m.payee_leaf key nr
              ∙ get-update_ne v.smt lawful.smt w.sparse_merkle_tree m.payer_key m.payer_leaf key np;
        }

    -- A transfer that passes the check, between accounts whose leaves have different keys and whose
    -- new leaves can be written, with balances below 2 ^ 53 before and after, returns and conserves funds: what the two new leaves hold adds up to
    -- the two balances that the transfer started from, and no other leaf changes.
    pub transfer_conserves :
        AreExact m.payer_before.0 m.payee_before.0 t.amount
        → Accepts v w t receiver
        → let (r, new) = make_rollup_transaction_between_existing_users v badge_id t receiver w in
          (r ≡ ok tt)
          × (leaf_balance (leaf_at m.payer_key new) +ℤ leaf_balance (leaf_at m.payee_key new)
              ≡ m.payer_before.0 +ℤ m.payee_before.0)
          × ((key : Bytes)
              → key ≢ m.payer_key
              → key ≢ m.payee_key
              → leaf_at key new ≡ leaf_at key w)
    transfer_conserves exact accepted =
        rw (transfer-moved v badge_id t lawful w receiver accepted (keys_apart m apart) m) (
          refl,
          rw (moved-Leaves.payer_balance, moved-Leaves.payee_balance)
              (rw (paid_exact exact, got_exact exact) (omega int_laws)),
          moved-Leaves.others,
        )
