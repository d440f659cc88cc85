-- ===== src/MerkleTree/Transfer/Fresh.antt =====
-- Transfers between accounts that have no entry in `account_updates`.
use zkp_rollup.Base.{ℕ, ◌+◌, ◌≡◌, ◌≢◌, ◌∙◌, refl, String, [], some}
use zkp_rollup.Base.Int.{pos, negsuc, ◌+ℤ◌, ◌-ℤ◌, ◌≤ℤ◌, int_laws}
use zkp_rollup.Python.Result.{ok}
use zkp_rollup.Python.Bytes.{Bytes}
use zkp_rollup.Utils.{hex_to_bytes}
use zkp_rollup.Types.{Transaction, AccountDocument, AccountsCollection}
use zkp_rollup.Services.{Services, IsServices}
use zkp_rollup.State.{World}
use zkp_rollup.State.Accounts.{find_account}
use zkp_rollup.MerkleTree.{
  values_before, accounts_collection, latest_nonce, latest_balance,
  make_rollup_transaction_between_existing_users,
}
use zkp_rollup.MerkleTree.Leaf.Laws.{leaf_balance, leaf_to_bytes-ok_iff, FitsU64}
use zkp_rollup.MerkleTree.Check.{Accepts}
use zkp_rollup.MerkleTree.Transfer.{Moves, transfer-moved, AreExact, paid_exact, got_exact}
use zkp_rollup.MerkleTree.Transfer.Funds.{leaf_at, Leaves, moved-Leaves, keys_apart}

module _ (v : Services) where
  -- A transfer in order between two accounts without entries: the nonce is the sender's, the
  -- balance covers the amount, the addresses are hexadecimal and differ as bytes, the new values
  -- fit in eight bytes, and the balances before and after are below 2 ^ 53.
  pub record IsFirst (w : World v) (t : Transaction) (receiver : String) : Type 0 where
    pub payer : AccountDocument
    pub payee : AccountDocument
    pub payer_key : Bytes
    pub payee_key : Bytes
    pub payer_found : find_account v t.sender w.users ≡ some payer
    pub payee_found : find_account v receiver w.users ≡ some payee
    pub payer_fresh : payer.account_updates ≡ []
    pub payee_fresh : payee.account_updates ≡ []
    pub payer_hex : hex_to_bytes t.sender ≡ ok payer_key
    pub payee_hex : hex_to_bytes receiver ≡ ok payee_key
    pub apart : payer_key ≢ payee_key
    pub in_order : t.nonce ≡ some payer.nonce
    pub covered : t.amount ≤ℤ payer.balance
    pub payer_fits : FitsU64 (payer.balance -ℤ t.amount) × FitsU64 (payer.nonce +ℤ pos 1)
    pub payee_fits : FitsU64 (payee.balance +ℤ t.amount) × FitsU64 payee.nonce
    pub exact : AreExact payer.balance payee.balance t.amount

  module _ {w : World v} {t : Transaction} {receiver : String} (f : IsFirst w t receiver) where
    fresh_account : AccountDocument → AccountsCollection
    fresh_account d = record {
      address = d.address;
      balance = d.balance;
      nonce = d.nonce;
      account_updates = [];
    }

    pub IsFirst-Accepts : Accepts v w t receiver
    unfolding accounts_collection latest_balance latest_nonce fresh_account
    IsFirst-Accepts = record {
      document = f.payer;
      account = fresh_account f.payer;
      found = f.payer_found;
      valid = rw f.payer_fresh;
      covered = f.covered;
      in_order = f.in_order;
      known = λ e. cc (f.payee_found);
    }

    unfoldable pub first_moves : (badge_id : String) → Moves v badge_id t w receiver
    unfolding values_before
    first_moves badge_id =
        let (payer_leaf, payer_encoded) =
          (leaf_to_bytes-ok_iff (f.payer.balance -ℤ t.amount) (f.payer.nonce +ℤ pos 1) t.sender).1
            (f.payer_fits.0, f.payer_fits.1, (f.payer_key, f.payer_hex)) in
        let (payee_leaf, payee_encoded) =
          (leaf_to_bytes-ok_iff (f.payee.balance +ℤ t.amount) f.payee.nonce receiver).1
            (f.payee_fits.0, f.payee_fits.1, (f.payee_key, f.payee_hex)) in
        record {
          payer = f.payer;
          payee = f.payee;
          payer_before = (f.payer.balance, f.payer.nonce);
          payee_before = (f.payee.balance, f.payee.nonce);
          payer_leaf = payer_leaf;
          payee_leaf = payee_leaf;
          payer_key = f.payer_key;
          payee_key = f.payee_key;
          payer_found = f.payer_found;
          payee_found = f.payee_found;
          payer_values = rw f.payer_fresh;
          payee_values = rw f.payee_fresh;
          payer_encoded = rw (paid_exact f.exact) payer_encoded;
          payee_encoded = rw (got_exact f.exact) payee_encoded;
          payer_hex = f.payer_hex;
          payee_hex = f.payee_hex;
        }

    pub IsFirst-distinct : t.sender ≢ receiver
    unfolding first_moves
    IsFirst-distinct = keys_apart v (first_moves "") f.apart

    module _ (lawful : IsServices v) (badge_id : String) where
      -- The first transfer between two accounts, with balances below 2 ^ 53, succeeds and moves the amount: the leaf of the sender
      -- holds its balance less the amount and the next nonce, the leaf of the receiver its balance
      -- plus the amount and the nonce it had, and every other leaf is what it was.
      pub first_transfer_moves_funds :
          let (r, new) = make_rollup_transaction_between_existing_users v badge_id t receiver w in
          (r ≡ ok tt)
          × Leaves v f.payer_key f.payee_key w new
              (f.payer.balance -ℤ t.amount, f.payer.nonce +ℤ pos 1)
              (f.payee.balance +ℤ t.amount, f.payee.nonce)
      unfolding first_moves
      first_transfer_moves_funds =
          let m = first_moves badge_id in
          rw (transfer-moved v badge_id t lawful w receiver IsFirst-Accepts IsFirst-distinct m) (
            refl,
            let leaves = moved-Leaves v lawful m f.apart in
                record {
                  payer_balance = leaves.payer_balance ∙ paid_exact f.exact;
                  payer_nonce = leaves.payer_nonce;
                  payee_balance = leaves.payee_balance ∙ got_exact f.exact;
                  payee_nonce = leaves.payee_nonce;
                  others = leaves.others;
                },
          )

      -- With balances below 2 ^ 53 before and after, an amount below zero passes too, and takes funds from the receiver: its leaf then holds less
      -- than its balance and the leaf of the sender more, though only the sender signs.
      pub negative_amount_takes_funds :
          (k : ℕ)
          → t.amount ≡ negsuc k
          → let (r, new) = make_rollup_transaction_between_existing_users v badge_id t receiver w in
            (r ≡ ok tt)
            × (leaf_balance (leaf_at v f.payee_key new) +ℤ pos (k + 1) ≡ f.payee.balance)
            × (leaf_balance (leaf_at v f.payer_key new) ≡ f.payer.balance +ℤ pos (k + 1))
      negative_amount_takes_funds k negative =
          let (returned, leaves) = first_transfer_moves_funds in
          (
            returned,
            rw leaves.payee_balance (rw negative (omega int_laws)),
            rw leaves.payer_balance (rw negative (omega int_laws)),
          )
