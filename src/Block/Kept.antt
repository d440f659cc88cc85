-- ===== src/Block/Kept.antt =====
-- What the application of one transaction keeps, when each of its writes keeps it: a relation between the
-- state before a call and the state after it.
use zkp_rollup.Base.{
  ◌≡◌, refl, inl, inr, Bool-cases, ◌==◌, string_eq, if◌then◌else◌, String, Bool, true, false, not,
  Option, none, some,
}
use zkp_rollup.Python.Result.{Result, ok, raised, tree_invariants_failed}
use zkp_rollup.Python.Exec.{Exec, continue, raise, ◌>>=◌, ◌>>◌}
use zkp_rollup.Python.Bytes.{Bytes}
use zkp_rollup.Types.{Transaction}
use zkp_rollup.Services.{Services}
use zkp_rollup.State.{World}
use zkp_rollup.MerkleTree.{
  update_leaf, check_tree_invariants_for_update, update_sender_leaf_return_bytes,
  update_receiver_bytes_return_bytes, make_rollup_transaction_between_existing_users,
  handle_deposit_transaction,
}
use zkp_rollup.MerkleTree.Check.{check-total}
use zkp_rollup.Block.{zero_address, apply_to}

-- A call that keeps it, from every state.
abbrev pub Frames :
    {v : Services} {A : Type 0} → (World v → World v → Type 0) → Exec (World v) A → Type 0
Frames {v} Kept m = (w : World v) → Kept w (m w).1

module _ (v : Services) (Kept : World v → World v → Type 0) (kept_refl : (w : World v) → Kept w w)
    (kept_trans : (a b c : World v) → Kept a b → Kept b c → Kept a c) where
  Frames-continue :
      {A B : Type 0} (w : World v) (r : Result A) (s : World v) (f : A → Exec (World v) B)
      → Kept w s
      → ((a : A) → Frames Kept (f a))
      → Kept w (continue f (r, s)).1
  Frames-continue w (ok a) s f h k = kept_trans w s _ h (k a s)
  Frames-continue w (raised e) s f h k = h

  Frames-bind :
      {A B : Type 0} (m : Exec (World v) A) (f : A → Exec (World v) B)
      → Frames Kept m
      → ((a : A) → Frames Kept (f a))
      → Frames Kept (m >>= f)
  Frames-bind m f h k w = let (r, s) = m w in Frames-continue w r s f (h w) k

  check-Frames :
      (t : Transaction) (receiver : String)
      → Frames Kept (check_tree_invariants_for_update v t receiver)
  check-Frames t receiver w = elim (check-total v w t receiver) [
    | inl e ↦ rw e (kept_refl w)
    | inr e ↦ rw e (kept_refl w)
  ]

  -- The writes of a transfer.
  module _ (badge_id : String) (t : Transaction) (receiver : String)
      (sender_kept : Frames Kept (update_sender_leaf_return_bytes v badge_id t))
      (sender_leaf_kept : (leaf : Bytes) → Frames Kept (update_leaf v t.sender leaf))
      (receiver_kept : Frames Kept (update_receiver_bytes_return_bytes v badge_id t receiver))
      (receiver_leaf_kept : (leaf : Bytes) → Frames Kept (update_leaf v receiver leaf)) where
    abbrev moves : Exec (World v) (Unit {0})
    moves = do
      new_sender_leaf_data ← update_sender_leaf_return_bytes v badge_id t
      update_leaf v t.sender new_sender_leaf_data
      new_receiver_leaf ← update_receiver_bytes_return_bytes v badge_id t receiver
      update_leaf v receiver new_receiver_leaf

    moves-Frames : Frames Kept moves
    moves-Frames = Frames-bind (update_sender_leaf_return_bytes v badge_id t) _ sender_kept (λ leaf.
        Frames-bind (update_leaf v t.sender leaf) _ (sender_leaf_kept leaf) (λ done.
          Frames-bind (update_receiver_bytes_return_bytes v badge_id t receiver) _ receiver_kept
            receiver_leaf_kept))

    accepted-Frames :
        (b : Bool) → Frames Kept (if not b then raise tree_invariants_failed else moves)
    accepted-Frames true = moves-Frames
    accepted-Frames false = kept_refl

    pub transfer-Frames :
        Frames Kept (make_rollup_transaction_between_existing_users v badge_id t receiver)
    unfolding make_rollup_transaction_between_existing_users
    transfer-Frames =
        Frames-bind (check_tree_invariants_for_update v t receiver) _ (check-Frames t receiver)
          accepted-Frames

  -- A transaction of a batch, whatever it asks for.
  pub apply_to-keeps :
      (badge_id : String) (t : Transaction) (receiver : Option String)
      → (receiver ≡ none → Frames Kept (handle_deposit_transaction v t))
      → ((to : String)
          → receiver ≡ some to
          → Frames Kept (make_rollup_transaction_between_existing_users v badge_id t to))
      → Frames Kept (apply_to v badge_id t receiver)
  apply_to-keeps badge_id t none deposit transfer w = deposit refl w
  apply_to-keeps badge_id t (some receiver) deposit transfer w =
      elim (Bool-cases (receiver == zero_address)) [
        | inl e ↦ rw e (kept_refl w)
        | inr e ↦ rw e (transfer receiver refl w)
      ]
