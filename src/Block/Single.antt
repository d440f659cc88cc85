-- ===== src/Block/Single.antt =====
-- A round of the consumer on one transfer: from the pending transaction to the block and the tree.
use zkp_rollup.Base.{
  ℕ, zero, suc, ◌+◌, ◌<◌, ◌^◌, ◌≡◌, ◌≢◌, ◌∙◌, refl, ap, sym, String, string_eq, List, [], ◌∷◌,
  Option, none, some, take, filter,
}
use zkp_rollup.Base.Int.{pos, ◌+ℤ◌, ◌-ℤ◌}
use zkp_rollup.Python.Result.{Result, ok}
use zkp_rollup.Python.Bytes.{Bytes}
use zkp_rollup.Utils.{hex_to_bytes}
use zkp_rollup.Types.{Transaction, filledup}
use zkp_rollup.Services.{Services, IsServices}
use zkp_rollup.State.{World}
use zkp_rollup.MemPool.{is_due, due, ids_of, get_transaction_for_badge}
use zkp_rollup.MemPool.Batch.{received}
use zkp_rollup.MerkleTree.{
  checked_texts, get_merkle_root, make_rollup_transaction_between_existing_users,
}
use zkp_rollup.MerkleTree.Transfer.Fresh.{IsFirst, first_transfer_moves_funds}
use zkp_rollup.MerkleTree.Transfer.Funds.{Leaves}
use zkp_rollup.Block.{
  zero_address, survivors, transactions_for_cause, update_from, finish_block, form_new_L2_block,
  get_previous_block_information, any_document, point_to,
}
use zkp_rollup.Block.Form.{drawn, form-eq, finish_block-ok, new_badge, same_previous}
use zkp_rollup.Block.Frame.{update_from-SameBlocks}
use zkp_rollup.Block.Apply.{update_from-first}
use zkp_rollup.Block.Formed.{IsHashed, create_block_hash-some}

take_one : (n : ℕ) (t : Transaction) → n ≢ 0 → take n (t ∷ []) ≡ t ∷ []
take_one zero t h = absurd (h refl)
take_one (suc zero) t h = refl
take_one (suc (suc n)) t h = refl

module _ (v : Services) (lawful : IsServices v) (w : World v) (t : Transaction)
    (receiver : String) where
  -- The only transaction that is due is a transfer, which can be hashed, and a batch can hold one.
  pub record IsOnlyDue : Type 0 where
    pub first : IsFirst v w t receiver
    pub to_receiver : t.receiver ≡ some receiver
    pub no_withdrawal : receiver ≢ zero_address
    pub only : filter (is_due none) (v.mongo.documents w.transactions) ≡ t ∷ []
    pub some_room : v.badge_size ≢ 0
    pub hashed : IsHashed v t

  module _ (o : IsOnlyDue) (badge_id : String) (now timestamp : ℕ) where
    due_one : due v none w ≡ t ∷ []
    due_one =
        let found = lawful.mongo.find_filter (is_due none) w.transactions ∙ o.only in
        ap (λ ts. v.mongo.limit v.badge_size (v.mongo.sort_descending received ts)) found
        ∙ ap (v.mongo.limit v.badge_size) (lawful.mongo.sort_one received t)
        ∙ lawful.mongo.limit_take v.badge_size (t ∷ []) o.some_room
        ∙ take_one v.badge_size t o.some_room

    taken : World v
    taken = drawn v filledup badge_id now timestamp w

    taken-IsFirst : IsFirst v taken t receiver
    unfolding taken transactions_for_cause get_transaction_for_badge
    taken-IsFirst =
        let f = o.first in
        record {
          payer = f.payer;
          payee = f.payee;
          payer_key = f.payer_key;
          payee_key = f.payee_key;
          payer_found = f.payer_found;
          payee_found = f.payee_found;
          payer_fresh = f.payer_fresh;
          payee_fresh = f.payee_fresh;
          payer_hex = f.payer_hex;
          payee_hex = f.payee_hex;
          apart = f.apart;
          in_order = f.in_order;
          covered = f.covered;
          payer_fits = f.payer_fits;
          payee_fits = f.payee_fits;
          exact = f.exact;
        }

    moved_world : World v
    moved_world = (make_rollup_transaction_between_existing_users v badge_id t receiver taken).1

    applied_one : update_from v badge_id [] (t ∷ []) taken ≡ ([], moved_world)
    unfolding update_from moved_world
    applied_one =
        update_from-first v badge_id t receiver o.no_withdrawal lawful taken [] taken-IsFirst
          o.to_receiver

    formed :
        form_new_L2_block v filledup badge_id now timestamp w
        ≡ (ok tt, (finish_block v filledup badge_id timestamp (t ∷ []) (t ∷ []) moved_world).1)
    unfolding taken
    formed =
        form-eq v filledup badge_id now timestamp w
        ∙ ap {A = List Transaction} {B = Result (Unit {0}) × World v}
            (λ ts.
              let a = update_from v badge_id [] ts taken in
              (ok tt, (finish_block v filledup badge_id timestamp ts (survivors a.0 ts) a.1).1))
            due_one
        ∙ ap {A = List (Option String) × World v} {B = Result (Unit {0}) × World v}
            (λ a. (
              ok tt,
              (finish_block v filledup badge_id timestamp (t ∷ []) (survivors a.0 (t ∷ [])) a.1).1,
            ))
            applied_one

    moved-blocks : (moved_world.badges ≡ w.badges) × (moved_world.curr ≡ w.curr)
    unfolding taken transactions_for_cause get_transaction_for_badge
    moved-blocks =
        let same = update_from-SameBlocks v badge_id [] (t ∷ []) taken in
        (
          ap (λ a. a.1.badges) (sym applied_one) ∙ same.badges,
          ap (λ a. a.1.curr) (sym applied_one) ∙ same.curr,
        )

    moved-previous :
        get_previous_block_information v moved_world ≡ get_previous_block_information v w
    moved-previous = same_previous v moved_world w moved-blocks.0 moved-blocks.1

    moved-Leaves :
        let f = o.first in
        Leaves v f.payer_key f.payee_key w moved_world
          (f.payer.balance -ℤ t.amount, f.payer.nonce +ℤ pos 1)
          (f.payee.balance +ℤ t.amount, f.payee.nonce)
    unfolding taken transactions_for_cause get_transaction_for_badge moved_world taken-IsFirst
    moved-Leaves =
        let l = (first_transfer_moves_funds v taken-IsFirst lawful badge_id).1 in
        record {
          payer_balance = l.payer_balance;
          payer_nonce = l.payer_nonce;
          payee_balance = l.payee_balance;
          payee_nonce = l.payee_nonce;
          others = l.others;
        }

    -- A round for a full queue, in which the only transaction that is due is the first transfer between
    -- two accounts, which can be hashed, and the pointer names a block whose hash is hexadecimal and
    -- whose number and the time fit in eight bytes: it returns, writes one block, which holds exactly
    -- this transaction and the root of the new tree, moves the pointer to it, and moves the amount: the
    -- leaf of the sender holds its balance less the amount and the next nonce, the leaf of the receiver
    -- its balance plus the amount, and every other leaf is what it was.
    pub transfer_is_settled :
        (blockhash prev_id : String) (blocknumber : ℕ) (key : Bytes)
        → get_previous_block_information v w ≡ some (blockhash, blocknumber, prev_id)
        → hex_to_bytes blockhash ≡ ok key
        → blocknumber + 1 < 2 ^ 64
        → timestamp < 2 ^ 64
        → let (r, new) = form_new_L2_block v filledup badge_id now timestamp w in
          let f = o.first in
          (r ≡ ok tt)
          × ((h : String) × (new.badges
                ≡ v.mongo.insert_one
                    (new_badge v filledup badge_id timestamp new
                      (blockhash, blocknumber, prev_id)
                      h
                      (o.hashed.id ∷ []))
                    w.badges))
          × (new.curr ≡ v.mongo.update_one any_document (point_to badge_id) w.curr)
          × Leaves v f.payer_key f.payee_key w new
              (f.payer.balance -ℤ t.amount, f.payer.nonce +ℤ pos 1)
              (f.payee.balance +ℤ t.amount, f.payee.nonce)
    unfolding checked_texts get_merkle_root
    transfer_is_settled blockhash prev_id blocknumber key previous key_read hn ht =
        let (h, hashed) =
          create_block_hash-some v (blocknumber + 1) timestamp (t ∷ []) blockhash key (o.hashed, tt)
            hn ht key_read in
        let checked : checked_texts (ids_of (t ∷ [])) ≡ some (o.hashed.id ∷ []) =
          rw o.hashed.named in
        let written =
          finish_block-ok v filledup badge_id timestamp (t ∷ []) (t ∷ []) moved_world
            (blockhash, blocknumber, prev_id) h (o.hashed.id ∷ []) (moved-previous ∙ previous)
            hashed checked in
        let l = moved-Leaves in
        rw formed (
          rw written (
            refl,
            (h, ap (v.mongo.insert_one _) moved-blocks.0),
            ap (v.mongo.update_one any_document (point_to badge_id)) moved-blocks.1,
            record {
              payer_balance = l.payer_balance;
              payer_nonce = l.payer_nonce;
              payee_balance = l.payee_balance;
              payee_nonce = l.payee_nonce;
              others = l.others;
            },
          ))
