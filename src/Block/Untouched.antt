-- ===== src/Block/Untouched.antt =====
-- An account that a transaction does not involve: its document and its leaf while the transaction is
-- applied, whether it succeeds, fails, or fails halfway.
use zkp_rollup.Base.{
  ◌≡◌, ◌≢◌, ◌∙◌, refl, sym, ite, bytes_discrete, String, Bool, true, false, not, ◌&&◌, inl, inr,
  List, Option, none, some, arith,
}
use zkp_rollup.Python.Result.{Result, ok, raised, Result-cases}
use zkp_rollup.Python.Bytes.{Bytes}
use zkp_rollup.Utils.{hex_to_bytes}
use zkp_rollup.Types.{Transaction, AccountDocument, UpdateDocument}
use zkp_rollup.Services.{Services, IsServices}
use zkp_rollup.Services.Smt.{get-update_ne}
use zkp_rollup.State.{World}
use zkp_rollup.State.Accounts.{find_account, push_account, find_account-push_ne}
use zkp_rollup.MerkleTree.{
  update_leaf, update_sender_leaf_return_bytes, update_receiver_bytes_return_bytes,
  handle_deposit_transaction,
}
use zkp_rollup.MerkleTree.Transfer.Funds.{leaf_at}
use zkp_rollup.MerkleTree.Leaf.{leaf_to_bytes}
use zkp_rollup.Base.Int.{pos}
use zkp_rollup.Block.{apply_to, apply_transaction, note_failure}
use zkp_rollup.Block.Kept.{Frames, transfer-Frames, apply_to-keeps}

abbrev pub holds_key : Bytes → Result Bytes → Bool
holds_key key (ok k) = ite (bytes_discrete k key) true false
holds_key key (raised e) = false

-- The address is written in hexadecimal and has these bytes.
abbrev pub is_key : Bytes → String → Bool
is_key key address = holds_key key (hex_to_bytes address)

abbrev pub may_be_key : Bytes → Option String → Bool
may_be_key key none = false
may_be_key key (some address) = is_key key address

-- Neither the sender nor the receiver has these bytes as address.
abbrev pub spares : Bytes → Transaction → Bool
spares key t = not (is_key key t.sender) && not (may_be_key key t.receiver)

pub neither : (a b : Bool) → (not a && not b) ≡ true → (a ≡ false) × (b ≡ false)
neither true b h = cc
neither false true h = cc
neither false false h = (refl, refl)

key_self : (key : Bytes) → ite {C = Bool} (bytes_discrete key key) true false ≡ true
key_self key = ground arith

key_apart : (key k : Bytes) → ite {C = Bool} (bytes_discrete k key) true false ≡ false → key ≢ k
key_apart key k h e = ground arith

module _ (v : Services) (lawful : IsServices v) (address : String) (key : Bytes)
    (named : hex_to_bytes address ≡ ok key) where
  -- Two states with the same document and the same leaf of the account.
  pub record IsSpared (old new : World v) : Type 0 where
    pub document : find_account v address new.users ≡ find_account v address old.users
    pub leaf : leaf_at v key new ≡ leaf_at v key old

  pub IsSpared-refl : (w : World v) → IsSpared w w
  IsSpared-refl w = record { document = refl; leaf = refl }

  pub IsSpared-trans : (a b c : World v) → IsSpared a b → IsSpared b c → IsSpared a c
  IsSpared-trans a b c p q = record { document = q.document ∙ p.document; leaf = q.leaf ∙ p.leaf }

  pub other_address : (other : String) → is_key key other ≡ false → address ≢ other
  other_address other h e =
      let same : is_key key other ≡ true = rw (← e, named) (key_self key) in
      let apart : true ≡ false = sym same ∙ h in cc

  pushed_elsewhere :
      (other : String)
      → is_key key other ≡ false
      → (u : UpdateDocument) (users : v.mongo.Collection AccountDocument)
      → find_account v address (push_account v other u users) ≡ find_account v address users
  pushed_elsewhere other h u users =
      find_account-push_ne v lawful other address u users (other_address other h)

  module _ (other : String) (apart : is_key key other ≡ false) (leaf : Bytes) where
    update_leaf-IsSpared : Frames IsSpared (update_leaf v other leaf)
    update_leaf-IsSpared w = elim (Result-cases (hex_to_bytes other)) [
      | inl (k, e) ↦ rw e (record {
        document = refl;
        leaf =
            get-update_ne v.smt lawful.smt w.sparse_merkle_tree k leaf key
              (key_apart key k (rw e at apart));
      })
      | inr (x, e) ↦ rw e (IsSpared-refl w)
    ]

  module _ (badge_id : String) (t : Transaction) (sender_apart : is_key key t.sender ≡ false) where
    update_sender-IsSpared : Frames IsSpared (update_sender_leaf_return_bytes v badge_id t)
    unfolding update_sender_leaf_return_bytes
    update_sender-IsSpared w = grind (arith, pushed_elsewhere t.sender sender_apart)

    update_receiver-IsSpared :
        (receiver : String)
        → Frames IsSpared (update_receiver_bytes_return_bytes v badge_id t receiver)
    unfolding update_receiver_bytes_return_bytes
    update_receiver-IsSpared receiver w = grind (arith, pushed_elsewhere t.sender sender_apart)

  handle_deposit-IsSpared :
      (t : Transaction)
      → is_key key t.sender ≡ false
      → Frames IsSpared (handle_deposit_transaction v t)
  unfolding handle_deposit_transaction
  handle_deposit-IsSpared t apart w =
      elim (Result-cases (leaf_to_bytes t.amount (pos 0) t.sender)) [
        | inl (leaf, e) ↦ rw e (update_leaf-IsSpared t.sender apart leaf w)
        | inr (x, e) ↦ rw e (IsSpared-refl w)
      ]

  pub apply_to-IsSpared :
      (badge_id : String) (t : Transaction) (receiver : Option String)
      → is_key key t.sender ≡ false
      → may_be_key key receiver ≡ false
      → Frames IsSpared (apply_to v badge_id t receiver)
  apply_to-IsSpared badge_id t receiver sender_apart receiver_apart =
      apply_to-keeps v IsSpared IsSpared-refl IsSpared-trans badge_id t receiver
        (λ e. handle_deposit-IsSpared t sender_apart)
        (λ to e.
          transfer-Frames v IsSpared IsSpared-refl IsSpared-trans badge_id t to
            (update_sender-IsSpared badge_id t sender_apart)
            (update_leaf-IsSpared t.sender sender_apart)
            (update_receiver-IsSpared badge_id t sender_apart to)
            (update_leaf-IsSpared to (rw e at receiver_apart)))

  note_failure-IsSpared :
      (marks : List (Option String)) (t : Transaction) (r : Result (Unit {0})) (s : World v)
      → IsSpared s (note_failure v marks t (r, s)).1
  unfolding note_failure
  note_failure-IsSpared marks t (ok done) s = IsSpared-refl s
  note_failure-IsSpared marks t (raised e) s = record { document = refl; leaf = refl }

  -- A transaction of a batch that spares an account leaves its document and its leaf alone.
  pub applied-IsSpared :
      (badge_id : String) (marks : List (Option String)) (t : Transaction) (w : World v)
      → spares key t ≡ true
      → IsSpared w (note_failure v marks t (apply_transaction v badge_id t w)).1
  unfolding apply_transaction
  applied-IsSpared badge_id marks t w h =
      let (r, s) = apply_to v badge_id t t.receiver w in
      IsSpared-trans w s (note_failure v marks t (r, s)).1
        (apply_to-IsSpared badge_id t t.receiver (neither _ _ h).0 (neither _ _ h).1 w)
        (note_failure-IsSpared marks t r s)
