-- ===== src/Block/Unhashed.antt =====
-- `form_new_L2_block` on a batch with a deposit, whose nonce is None.
use zkp_rollup.Base.{
  ℕ, ◌+◌, ◌≡◌, refl, inl, inr, String, List, [], ◌∷◌, ◌++◌, Option, none, some, arith, Option-cases,
}
use zkp_rollup.Python.Result.{Result, ok, raised, except_none, ◌>>=◌}
use zkp_rollup.Python.Bytes.{Bytes}
use zkp_rollup.Utils.{hex_to_bytes}
use zkp_rollup.Types.{Transaction, BadgeExecutionCause}
use zkp_rollup.Services.{Services}
use zkp_rollup.State.{World}
use zkp_rollup.Block.{finish_block, form_new_L2_block, get_previous_block_information}
use zkp_rollup.Block.Hash.{
  receiver_bytes, create_transaction_hash, rolling_from, create_rolling_transaction_hash,
  create_block_hash,
}
use zkp_rollup.Block.Form.{batch_of, delta, applied, form-eq, drawn-SameBlocks}

abbrev Raises {ℓ} : {A : Type ℓ} → Result A → Type 0
Raises (ok a) = ⊥
Raises (raised e) = Unit

Raises-bind :
    {A B : Type 0} (m : Result A) (f : A → Result B) → ((a : A) → Raises (f a)) → Raises (m >>= f)
Raises-bind (ok a) f h = h a
Raises-bind (raised e) f h = tt

bind-Raises : {A B : Type 0} (m : Result A) (f : A → Result B) → Raises m → Raises (m >>= f)
bind-Raises (ok a) f h = absurd h
bind-Raises (raised e) f h = tt

except_none-Raises : {A : Type 0} (m : Result A) → Raises m → except_none m ≡ none
except_none-Raises (ok a) h = absurd h
except_none-Raises (raised e) h = refl

module _ (v : Services) (t : Transaction) (no_nonce : t.nonce ≡ none) where
  create_transaction_hash-Raises : Raises (create_transaction_hash v t)
  unfolding create_transaction_hash
  create_transaction_hash-Raises =
      Raises-bind (hex_to_bytes t.sender) _
        (λ sender_bytes. Raises-bind (receiver_bytes t.receiver) _ (λ receiver. rw no_nonce tt))

  rolling_from-Raises :
      (h : Option Bytes) (before after : List Transaction)
      → Raises (rolling_from v h (before ++ t ∷ after))
  unfolding rolling_from
  rolling_from-Raises h [] after =
      bind-Raises (create_transaction_hash v t) _ create_transaction_hash-Raises
  rolling_from-Raises h (s ∷ before) after =
      Raises-bind (create_transaction_hash v s) _ (λ x. rolling_from-Raises (some _) before after)

  create_block_hash-none :
      (blocknumber timestamp : ℕ) (before after : List Transaction) (previous : Option String)
      → create_block_hash v blocknumber timestamp (before ++ t ∷ after) previous ≡ none
  unfolding create_block_hash create_rolling_transaction_hash
  create_block_hash-none blocknumber timestamp before after previous = except_none-Raises _ (
      bind-Raises (rolling_from v none (before ++ t ∷ after)) _
        (rolling_from-Raises none before after))

  finish_block-unchanged :
      (cause : BadgeExecutionCause) (badge_id : String) (timestamp : ℕ)
      (batch before after delta : List Transaction) (s : World v)
      → batch ≡ before ++ t ∷ after
      → (finish_block v cause badge_id timestamp batch delta s).1 ≡ s
  unfolding finish_block
  finish_block-unchanged cause badge_id timestamp batch before after delta s held =
      elim (Option-cases (get_previous_block_information v s)) [
        | inl e ↦ ground (arith, e)
        | inr (previous, e) ↦
            let unhashed : create_block_hash v (previous.1 + 1) timestamp batch (some previous.0)
                ≡ none =
              rw held (
                create_block_hash-none (previous.1 + 1) timestamp before after (some previous.0)) in
            ground (arith, e, unhashed)
      ]

  -- A batch with a transaction that has no nonce, as a deposit has none, forms no block: the blocks
  -- and the pointer stay as they were, though the batch has been applied to the tree.
  pub deposit_forms_no_block :
      (cause : BadgeExecutionCause) (badge_id : String) (now timestamp : ℕ) (w : World v)
      (before after : List Transaction)
      → batch_of v cause badge_id now timestamp w ≡ before ++ t ∷ after
      → let (r, new) = form_new_L2_block v cause badge_id now timestamp w in
        (r ≡ ok tt)
        × (new.badges ≡ w.badges)
        × (new.curr ≡ w.curr)
        × (new ≡ (applied v cause badge_id now timestamp w).1)
  deposit_forms_no_block cause badge_id now timestamp w before after held =
      let s = (applied v cause badge_id now timestamp w).1 in
      let (badges, curr) = drawn-SameBlocks v cause badge_id now timestamp w in
      let kept : (finish_block v cause badge_id timestamp
            (batch_of v cause badge_id now timestamp w) (delta v cause badge_id now timestamp w)
            s).1
          ≡ s =
        finish_block-unchanged cause badge_id timestamp (batch_of v cause badge_id now timestamp w)
          before after (delta v cause badge_id now timestamp w) s held in
      rw (form-eq v cause badge_id now timestamp w) (refl, rw kept badges, rw kept curr, kept)
