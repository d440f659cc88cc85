-- ===== src/Client/Settled.antt =====
-- A payment of the load generator from its task to the block and the tree.
use zkp_rollup.Base.{
  ℕ, ◌+◌, ◌-◌, ◌<◌, ◌^◌, ◌≡◌, ◌∙◌, refl, ap, String, true, List, [], ◌∷◌, ◌++◌, Option, none, some,
  arith, ◌&&◌, ◌==◌, beq_self, option_eq,
}
use zkp_rollup.Base.Int.{pos, ◌+ℤ◌, ◌-ℤ◌, int_laws}
use zkp_rollup.Python.Float.{to_float, natural-IsExact}
use zkp_rollup.Python.Result.{ok}
use zkp_rollup.Python.Bytes.{Bytes, le_bytes}
use zkp_rollup.Python.Bytes.Laws.{to_bytes-fits}
use zkp_rollup.Utils.{hex_to_bytes}
use zkp_rollup.Types.{
  Transaction, TransactionRequest, TransactionStatus, pending, status_eq, filledup,
}
use zkp_rollup.Services.{Services, IsServices}
use zkp_rollup.State.{World}
use zkp_rollup.MemPool.{is_due}
use zkp_rollup.MerkleTree.{latest_nonce}
use zkp_rollup.MerkleTree.Transfer.Fresh.{IsFirst}
use zkp_rollup.MerkleTree.Transfer.Funds.{Leaves}
use zkp_rollup.Block.{
  enrich_transaction, form_new_L2_block, get_previous_block_information, any_document, point_to,
}
use zkp_rollup.Block.Form.{new_badge, same_previous}
use zkp_rollup.Block.Formed.{IsHashed}
use zkp_rollup.Block.Hash.{create_transaction_hash}
use zkp_rollup.Block.Single.{IsOnlyDue, transfer_is_settled}
use zkp_rollup.Server.{submit_transaction}
use zkp_rollup.Server.Answers.{stored, submitted-transactions}
use zkp_rollup.Client.{Signer, IsSigner, ClientAccount}
use zkp_rollup.Client.User.{sequencer_api, user_task}
use zkp_rollup.Client.Accepted.{request, task_run, stored_pending, submitted-users}
use zkp_rollup.Client.Quiet.{IsQuiet, fits, filter-append_none, fresh_nonce, submitted-same}

module _ (v : Services) (s : Signer v.crypto) where
  module _ (lawful : IsServices v) (signer : IsSigner s) (layer_2_accounts : List ClientAccount)
      (a b : ℕ) (w : World v) (q : IsQuiet v s layer_2_accounts a b w)
      (submission_id transaction_id : String) (now : ℕ) (small_now : now < 2 ^ 64) where
    posted : TransactionRequest
    posted = request v s lawful signer layer_2_accounts a b w q.pay submission_id transaction_id now

    payment : Transaction
    payment = stored v posted submission_id transaction_id now

    posted_world : World v
    posted_world = (submit_transaction v posted submission_id transaction_id now w).1

    nonce_eq : latest_nonce q.pay.account ≡ pos q.payer_nonce
    nonce_eq =
        fresh_nonce v s q.pay.document q.pay.account q.payer_fresh q.pay.valid ∙ q.payer_has.1

    amount_one : payment.amount ≡ pos 1
    unfolding payment posted request enrich_transaction to_float
    amount_one = refl

    payment-IsFirst : IsFirst v posted_world payment q.pay.receiver.pub_key
    unfolding payment posted_world posted request enrich_transaction to_float
    payment-IsFirst =
        let users = submitted-users v s posted submission_id transaction_id now w in
        record {
          payer = q.pay.document;
          payee = q.payee;
          payer_key = q.payer_key;
          payee_key = q.payee_key;
          payer_found = rw users q.pay.found;
          payee_found = rw users q.payee_found;
          payer_fresh = q.payer_fresh;
          payee_fresh = q.payee_fresh;
          payer_hex = q.payer_hex;
          payee_hex = q.payee_hex;
          apart = q.apart;
          in_order =
              ap some (fresh_nonce v s q.pay.document q.pay.account q.payer_fresh q.pay.valid);
          covered = rw q.payer_has.0 (omega (int_laws, q.payer_fits.0));
          payer_fits = (
            fits v s _ (q.payer_balance - 1) (rw q.payer_has.0 (omega (int_laws, q.payer_fits.0)))
                (omega (arith, q.payer_fits.0, q.payer_fits.1)),
            fits v s _ (q.payer_nonce + 1) (rw q.payer_has.1 (omega int_laws)) q.payer_fits.2,
          );
          payee_fits = (
            fits v s _ (q.payee_balance + 1) (rw q.payee_has.0 (omega int_laws))
                (omega (arith, q.payee_fits.0)),
            fits v s _ q.payee_nonce q.payee_has.1 q.payee_fits.1,
          );
          exact = record {
            payer_before = rw q.payer_has.0 (omega (arith, q.payer_fits));
            payer_after =
                natural-IsExact _ (q.payer_balance - 1)
                  (rw q.payer_has.0 (rw amount_one (omega (int_laws, q.payer_fits.0))))
                  (omega (arith, q.payer_fits));
            payee_before = rw q.payee_has.0 (omega (arith, q.payee_fits));
            payee_after =
                natural-IsExact _ (q.payee_balance + 1)
                  (rw q.payee_has.0 (rw amount_one (omega int_laws))) q.payee_fits.0;
          };
        }

    payment-IsHashed : IsHashed v payment
    unfolding payment posted request enrich_transaction create_transaction_hash to_float
    payment-IsHashed = record {
      digest = v.crypto.sha256 (
          q.payer_key ++ q.payee_key ++ le_bytes 8 q.payer_nonce ++ le_bytes 8 1 ++ le_bytes 8 now);
      id = transaction_id;
      hashed = rw q.payer_hex (
          rw q.payee_hex (
            rw nonce_eq (
              rw (to_bytes-fits 8 q.payer_nonce (omega (arith, q.payer_fits.2)))
                (rw (to_bytes-fits 8 1 (omega arith)) (rw (to_bytes-fits 8 now small_now) refl)))));
      named = refl;
    }

    payment_waits : is_due none payment ≡ true
    unfolding payment posted
    payment_waits =
        let waits =
          stored_pending v s lawful signer layer_2_accounts a b w q.pay submission_id transaction_id
            now in
        ap (λ (o : Option TransactionStatus). (o == some pending) && true) waits
        ∙ ap (λ e. e && true) (beq_self (some pending))

    payment-IsOnlyDue : IsOnlyDue v lawful posted_world payment q.pay.receiver.pub_key
    unfolding payment posted request enrich_transaction posted_world to_float
    payment-IsOnlyDue = record {
      first = payment-IsFirst;
      to_receiver = refl;
      no_withdrawal = q.no_withdrawal;
      only =
          rw
            (
              submitted-transactions v posted submission_id transaction_id now w,
              lawful.mongo.documents-insert_one,
            )
            (filter-append_none v s (is_due none) (v.mongo.documents w.transactions) payment
              q.nothing_due payment_waits);
      some_room = q.some_room;
      hashed = payment-IsHashed;
    }

    -- A payment of the load generator, between two accounts without entries that the sequencer knows,
    -- with balances below 2 ^ 53 and nonces within eight bytes, while nothing else is due; and then a round for a full queue,
    -- where the pointer names a block whose hash is hexadecimal and whose number and the time fit in
    -- eight bytes. Both return. The round writes one block, which holds exactly the transaction of the
    -- payment and the root of the new tree, and moves the pointer to it. In the tree, the leaf of the
    -- sender then holds its balance less 1 and the next nonce, the leaf of the receiver its balance plus
    -- 1, and every other leaf is what it was.
    pub payment_is_settled :
        (badge_id : String) (time timestamp : ℕ) (blockhash prev_id : String) (blocknumber : ℕ)
        (key : Bytes)
        → get_previous_block_information v w ≡ some (blockhash, blocknumber, prev_id)
        → hex_to_bytes blockhash ≡ ok key
        → blocknumber + 1 < 2 ^ 64
        → timestamp < 2 ^ 64
        → let (posting, waiting) =
            user_task s layer_2_accounts (sequencer_api v submission_id transaction_id now) a b w in
          let (forming, new) = form_new_L2_block v filledup badge_id time timestamp waiting in
          (posting ≡ ok tt)
          × (forming ≡ ok tt)
          × ((h : String) × (new.badges
                ≡ v.mongo.insert_one
                    (new_badge v filledup badge_id timestamp new
                      (blockhash, blocknumber, prev_id)
                      h
                      (transaction_id ∷ []))
                    w.badges))
          × (new.curr ≡ v.mongo.update_one any_document (point_to badge_id) w.curr)
          × Leaves v q.payer_key q.payee_key w new
              (q.pay.document.balance -ℤ pos 1, q.pay.document.nonce +ℤ pos 1)
              (q.payee.balance +ℤ pos 1, q.payee.nonce)
    unfolding posted_world posted payment request enrich_transaction to_float payment-IsOnlyDue
        payment-IsFirst payment-IsHashed
    payment_is_settled badge_id time timestamp blockhash prev_id blocknumber key previous key_read
          hn ht =
        let (badges, curr, tree) = submitted-same v s posted submission_id transaction_id now w in
        let (forming, (h, blocks), pointer, l) =
          transfer_is_settled v lawful posted_world payment q.pay.receiver.pub_key payment-IsOnlyDue
            badge_id time timestamp blockhash prev_id blocknumber key
            (same_previous v posted_world w badges curr ∙ previous) key_read hn ht in
        rw
          (task_run v s lawful signer layer_2_accounts a b w q.pay submission_id transaction_id now)
          (
            refl,
            forming,
            (h, blocks ∙ ap (v.mongo.insert_one _) badges),
            pointer ∙ ap (v.mongo.update_one any_document (point_to badge_id)) curr,
            record {
              payer_balance = l.payer_balance;
              payer_nonce = l.payer_nonce;
              payee_balance = l.payee_balance;
              payee_nonce = l.payee_nonce;
              others = λ k np nq. l.others k np nq ∙ ap (λ x. v.smt.get x k) tree;
            },
          )
