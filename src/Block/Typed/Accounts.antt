-- ===== src/Block/Typed/Accounts.antt =====
-- The application of one transaction keeps the accounts such that pydantic accepts them.
use zkp_rollup.Base.{
  ◌≡◌, refl, String, true, List, [], ◌∷◌, All, Option, some, arith, Option-cases, inl, inr,
}
use zkp_rollup.Python.Result.{Result, ok, raised, Result-cases}
use zkp_rollup.Python.Bytes.{Bytes}
use zkp_rollup.Types.{Transaction, UpdateDocument}
use zkp_rollup.Services.{Services, IsServices}
use zkp_rollup.State.{World}
use zkp_rollup.State.Accounts.{find_account, push_account, push_update, by_address}
use zkp_rollup.MerkleTree.{
  values_before, checked_texts, update_leaf, update_sender_leaf_return_bytes,
  update_receiver_bytes_return_bytes, handle_deposit_transaction,
  make_rollup_transaction_between_existing_users,
}
use zkp_rollup.MerkleTree.Index.{find_update_index-none}
use zkp_rollup.MerkleTree.Transfer.{sender_entry, receiver_entry}
use zkp_rollup.Base.Int.{pos}
use zkp_rollup.Block.{apply_to, apply_transaction, note_failure}
use zkp_rollup.Block.Kept.{Frames, transfer-Frames, apply_to-keeps}
use zkp_rollup.Base.Filter.{All-append}
use zkp_rollup.Services.Mongo.Laws.{All-update_first}
use zkp_rollup.Block.Typed.{is_typed, IsTypedUpdate, IsTypedAccount, typed_id}

module _ (v : Services) (lawful : IsServices v) where
  -- The accounts of a state can all be read.
  abbrev pub TypedUsers : World v → Type 0
  TypedUsers w = All IsTypedAccount (v.mongo.documents w.users)

  -- They stay so.
  abbrev pub StayTyped : World v → World v → Type 0
  StayTyped old new = TypedUsers old → TypedUsers new

  StayTyped-refl : (w : World v) → StayTyped w w
  StayTyped-refl w typed = typed

  StayTyped-trans : (a b c : World v) → StayTyped a b → StayTyped b c → StayTyped a c
  StayTyped-trans a b c p q typed = q (p typed)

  -- A state whose accounts are those of another, or with one entry more, which has one identifier.
  data Pushed (id : String) (old new : World v) : Type 0 where
    none_pushed : new.users ≡ old.users → Pushed id old new
    one_pushed :
        (address : String) (entry : UpdateDocument)
        → entry.transactions ≡ some id ∷ []
        → new.users ≡ push_account v address entry old.users
        → Pushed id old new

  Pushed-StayTyped : (id : String) (old new : World v) → Pushed id old new → StayTyped old new
  unfolding push_account checked_texts
  Pushed-StayTyped id old new (none_pushed e) typed = rw e typed
  Pushed-StayTyped id old new (one_pushed address entry texts e) typed =
      let entry_typed : IsTypedUpdate entry = (id ∷ [], rw texts) in
      rw e (
        rw lawful.mongo.documents-update_one (
          All-update_first IsTypedAccount (by_address address) (push_update entry)
            (λ d h. All-append IsTypedUpdate d.account_updates (entry ∷ []) h (entry_typed, tt))
            (v.mongo.documents old.users) typed))

  module _ (badge_id : String) (t : Transaction) (id : String)
      (has_id : t.transaction_id ≡ some id) where
    update_sender-Pushed : Frames (Pushed id) (update_sender_leaf_return_bytes v badge_id t)
    unfolding update_sender_leaf_return_bytes
    update_sender-Pushed w = elim (Option-cases (find_account v t.sender w.users)) [
      | inl e ↦ none_pushed (rw e)
      | inr (d, e) ↦ elim (Result-cases (values_before d (pos 2))) [
        | inr (x, e2) ↦
            none_pushed (ground (arith, e, e2, find_update_index-none badge_id d.account_updates))
        | inl (before, e2) ↦
            one_pushed t.sender (sender_entry badge_id t before) (rw has_id)
              (ground (arith, e, e2, find_update_index-none badge_id d.account_updates))
      ]
    ]

    update_receiver-Pushed :
        (receiver : String)
        → Frames (Pushed id) (update_receiver_bytes_return_bytes v badge_id t receiver)
    unfolding update_receiver_bytes_return_bytes
    update_receiver-Pushed receiver w = elim (Option-cases (find_account v receiver w.users)) [
      | inl e ↦ none_pushed (rw e)
      | inr (d, e) ↦ elim (Result-cases (values_before d (pos 1))) [
        | inr (x, e2) ↦
            none_pushed (ground (arith, e, e2, find_update_index-none badge_id d.account_updates))
        | inl (before, e2) ↦
            one_pushed t.sender (receiver_entry badge_id t before) (rw has_id)
              (ground (arith, e, e2, find_update_index-none badge_id d.account_updates))
      ]
    ]

  update_leaf-users :
      (account : String) (leaf : Bytes) (w : World v)
      → (update_leaf v account leaf w).1.users ≡ w.users
  update_leaf-users account leaf w = ground arith

  same_users : (old new : World v) → new.users ≡ old.users → StayTyped old new
  same_users old new e typed = rw e typed

  handle_deposit-users :
      (t : Transaction) (w : World v) → (handle_deposit_transaction v t w).1.users ≡ w.users
  unfolding handle_deposit_transaction
  handle_deposit-users t w = ground arith

  note_failure-users :
      (marks : List (Option String)) (t : Transaction) (r : Result (Unit {0})) (s : World v)
      → (note_failure v marks t (r, s)).1.users ≡ s.users
  unfolding note_failure
  note_failure-users marks t (ok done) s = refl
  note_failure-users marks t (raised e) s = refl

  transfer-StayTyped :
      (badge_id : String) (t : Transaction) (to id : String)
      → t.transaction_id ≡ some id
      → Frames StayTyped (make_rollup_transaction_between_existing_users v badge_id t to)
  transfer-StayTyped badge_id t to id has_id =
      transfer-Frames v StayTyped StayTyped-refl StayTyped-trans badge_id t to
        (λ w.
          Pushed-StayTyped id w (update_sender_leaf_return_bytes v badge_id t w).1
            (update_sender-Pushed badge_id t id has_id w))
        (λ leaf w.
          same_users w (update_leaf v t.sender leaf w).1 (update_leaf-users t.sender leaf w))
        (λ w.
          Pushed-StayTyped id w (update_receiver_bytes_return_bytes v badge_id t to w).1
            (update_receiver-Pushed badge_id t id has_id to w))
        (λ leaf w. same_users w (update_leaf v to leaf w).1 (update_leaf-users to leaf w))

  -- A transaction of a batch that has the shape of a submission or a deposit.
  pub applied-StayTyped :
      (badge_id : String) (marks : List (Option String)) (t : Transaction) (w : World v)
      → is_typed t ≡ true
      → StayTyped w (note_failure v marks t (apply_transaction v badge_id t w)).1
  unfolding apply_transaction
  applied-StayTyped badge_id marks t w typed =
      let (r, s) = apply_to v badge_id t t.receiver w in
      let applied =
        apply_to-keeps v StayTyped StayTyped-refl StayTyped-trans badge_id t t.receiver
          (λ e u. same_users u (handle_deposit_transaction v t u).1 (handle_deposit-users t u))
          (λ to e.
            let (id, has_id) = typed_id t to typed e in transfer-StayTyped badge_id t to id has_id)
          w in
      StayTyped-trans w s (note_failure v marks t (r, s)).1 applied
        (same_users s (note_failure v marks t (r, s)).1 (note_failure-users marks t r s))
