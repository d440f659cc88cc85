-- ===== src/MerkleTree/Transfer/Credit.antt =====
-- Two transfers, the second one by the receiver of the first.
use zkp_rollup.Base.{◌≡◌, ◌≢◌, sym, ap, ◌∙◌, String}
use zkp_rollup.Base.Int.{◌+ℤ◌, ◌-ℤ◌, int_laws}
use zkp_rollup.Python.Result.{ok}
use zkp_rollup.Python.Bytes.{Bytes}
use zkp_rollup.Types.{Transaction, AccountDocument}
use zkp_rollup.Services.{Services, IsServices}
use zkp_rollup.State.{World}
use zkp_rollup.State.Accounts.{find_account}
use zkp_rollup.Utils.{hex_to_bytes}
use zkp_rollup.MerkleTree.{make_rollup_transaction_between_existing_users}
use zkp_rollup.MerkleTree.Leaf.Laws.{leaf_balance}
use zkp_rollup.MerkleTree.Transfer.Funds.{leaf_at, ok_inj}
use zkp_rollup.MerkleTree.Transfer.Fresh.{
  IsFirst, IsFirst-Accepts, IsFirst-distinct, first_moves, first_transfer_moves_funds,
}
use zkp_rollup.MerkleTree.Transfer.Records.{transfer_documents}

module _ (v : Services) (lawful : IsServices v) (badge_id : String) {w : World v}
    {t u : Transaction} {receiver next_receiver : String} where
  -- The transfer of another sender between accounts without entries is in order after the first as
  -- it was before.
  after_first :
      (f : IsFirst v w t receiver)
      → IsFirst v w u next_receiver
      → u.sender ≢ t.sender
      → next_receiver ≢ t.sender
      → IsFirst v
          (make_rollup_transaction_between_existing_users v badge_id t receiver w).1
          u
          next_receiver
  after_first f g other next_other =
      let m = first_moves v f badge_id in
      let (_, _, kept) =
        transfer_documents v lawful (IsFirst-Accepts v f) (IsFirst-distinct v f) m in
      record {
        payer = g.payer;
        payee = g.payee;
        payer_key = g.payer_key;
        payee_key = g.payee_key;
        payer_found = kept u.sender other ∙ g.payer_found;
        payee_found = kept next_receiver next_other ∙ g.payee_found;
        payer_fresh = g.payer_fresh;
        payee_fresh = g.payee_fresh;
        payer_hex = g.payer_hex;
        payee_hex = g.payee_hex;
        apart = g.apart;
        in_order = g.in_order;
        covered = g.covered;
        payer_fits = g.payer_fits;
        payee_fits = g.payee_fits;
        exact = g.exact;
      }

  -- Two transfers in order between three accounts without entries, with balances below 2 ^ 53 before
  -- and after, the second one by the receiver of the first: both succeed, the leaf of the middle account ends at its old balance less what it
  -- paid, and the three leaves together hold less than the three balances, by the first amount.
  pub credit_is_lost :
      (f : IsFirst v w t receiver) (g : IsFirst v w u next_receiver)
      → u.sender ≡ receiver
      → g.payee_key ≢ f.payer_key
      → let (first_result, between) =
          make_rollup_transaction_between_existing_users v badge_id t receiver w in
        let (second_result, new) =
          make_rollup_transaction_between_existing_users v badge_id u next_receiver between in
        (first_result ≡ ok tt)
        × (second_result ≡ ok tt)
        × (leaf_balance (leaf_at v f.payee_key new) ≡ f.payee.balance -ℤ u.amount)
        × (leaf_balance (leaf_at v f.payer_key new)
              +ℤ leaf_balance (leaf_at v f.payee_key new)
              +ℤ leaf_balance (leaf_at v g.payee_key new)
              +ℤ t.amount
            ≡ f.payer.balance +ℤ f.payee.balance +ℤ g.payee.balance)
  unfolding after_first
  credit_is_lost f g same apart =
      let other : u.sender ≢ t.sender = λ e. IsFirst-distinct v f (sym e ∙ same) in
      let next_other : next_receiver ≢ t.sender =
        λ e. apart (ok_inj (sym g.payee_hex ∙ ap hex_to_bytes e ∙ f.payer_hex)) in
      let middle_key : g.payer_key ≡ f.payee_key =
        ok_inj (sym g.payer_hex ∙ ap hex_to_bytes same ∙ f.payee_hex) in
      let middle : g.payer ≡ f.payee =
        cc (g.payer_found, f.payee_found, ap (λ a. find_account v a w.users) same) in
      let (ok1, first) = first_transfer_moves_funds v f lawful badge_id in
      let (ok2, second) =
        first_transfer_moves_funds v (after_first f g other next_other) lawful badge_id in
      let between : World v =
        (make_rollup_transaction_between_existing_users v badge_id t receiver w).1 in
      let new : World v =
        (make_rollup_transaction_between_existing_users v badge_id u next_receiver between).1 in
      let payer_kept =
        second.others f.payer_key (λ e. f.apart (e ∙ middle_key)) (λ e. apart (sym e)) in
      let payer_leaf = ap leaf_balance payer_kept ∙ first.payer_balance in
      let middle_leaf =
        ap (λ (k : Bytes). leaf_balance (leaf_at v k new)) (sym middle_key)
        ∙ second.payer_balance
        ∙ ap (λ (d : AccountDocument). d.balance -ℤ u.amount) middle in
      (ok1, ok2, middle_leaf, rw (payer_leaf, middle_leaf, second.payee_balance) (omega int_laws))
