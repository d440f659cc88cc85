-- ===== src/Block/Apply.antt =====
-- `update_merkle_tree` on a batch that starts with a transfer that succeeds.
use zkp_rollup.Base.{
  ◌≡◌, ◌≢◌, ◌∙◌, refl, ap, beq_ne, string_eq, String, List, [], ◌∷◌, Option, some,
}
use zkp_rollup.Python.Result.{Result, ok, raised}
use zkp_rollup.Types.{Transaction}
use zkp_rollup.Services.{Services, IsServices}
use zkp_rollup.State.{World}
use zkp_rollup.MerkleTree.{make_rollup_transaction_between_existing_users}
use zkp_rollup.MerkleTree.Transfer.Fresh.{IsFirst, first_transfer_moves_funds}
use zkp_rollup.Block.{zero_address, apply_transaction, apply_to, note_failure, update_from}

module _ (v : Services) (badge_id : String) (t : Transaction) (receiver : String)
    (no_withdrawal : receiver ≢ zero_address) where
  apply_receiver :
      (r : Option String) (s : World v)
      → r ≡ some receiver
      → apply_to v badge_id t r s
        ≡ make_rollup_transaction_between_existing_users v badge_id t receiver s
  apply_receiver r s e = rw e (rw (beq_ne receiver zero_address no_withdrawal))

  no_failure :
      (r : Result (Unit {0})) (s : World v) → r ≡ ok tt → note_failure v [] t (r, s) ≡ ([], s)
  unfolding note_failure
  no_failure (ok done) s h = refl
  no_failure (raised e) s h = cc

  -- The first transfer of the batch is applied and not marked, and the rest follows in the state
  -- that it leaves.
  pub update_from-first :
      (lawful : IsServices v) (w : World v) (ts : List Transaction)
      → IsFirst v w t receiver
      → t.receiver ≡ some receiver
      → update_from v badge_id [] (t ∷ ts) w
        ≡ update_from v badge_id [] ts
            (make_rollup_transaction_between_existing_users v badge_id t receiver w).1
  unfolding update_from apply_transaction
  update_from-first lawful w ts f to_receiver =
      let (r, s) = make_rollup_transaction_between_existing_users v badge_id t receiver w in
      ap {A = List (Option String) × World v} (λ a. update_from v badge_id a.0 ts a.1)
        (ap (note_failure v [] t) (apply_receiver t.receiver w to_receiver)
          ∙ no_failure r s (first_transfer_moves_funds v f lawful badge_id).0)
