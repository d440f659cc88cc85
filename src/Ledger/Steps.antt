-- ===== src/Ledger/Steps.antt =====
-- One transfer, held against the payment that it asks for.
use mathlib.Core.Path.{fun_ext}
use zkp_rollup.Base.{◌≡◌, ◌≢◌, ◌∙◌, sym, ap, bytes_discrete, String, some, arith}
use zkp_rollup.Base.Int.{ℤ, pos, ◌+ℤ◌, ◌-ℤ◌, int_laws}
use zkp_rollup.Python.Result.{ok}
use zkp_rollup.Python.Bytes.{Bytes}
use zkp_rollup.Utils.{hex_to_bytes}
use zkp_rollup.Types.{Transaction, AccountDocument}
use zkp_rollup.Services.{Services, IsServices}
use zkp_rollup.State.{World}
use zkp_rollup.State.Accounts.{find_account}
use zkp_rollup.MerkleTree.{make_rollup_transaction_between_existing_users}
use zkp_rollup.MerkleTree.Leaf.Laws.{leaf_balance, leaf_nonce}
use zkp_rollup.MerkleTree.Transfer.Funds.{leaf_at, Leaves}
use zkp_rollup.MerkleTree.Transfer.Fresh.{
  IsFirst, first_transfer_moves_funds, first_moves, IsFirst-Accepts, IsFirst-distinct,
}
use zkp_rollup.MerkleTree.Transfer.Records.{transfer_documents}
use zkp_rollup.Block.{zero_address}
use zkp_rollup.Ledger.{
  Ledger, Payment, pay, spent, gained, signed, key_of, receiver_key, payment_of, ledger_of, Apart,
}

pub key_of-ok :
    (address : String) (key : Bytes) → hex_to_bytes address ≡ ok key → key_of address ≡ key
unfolding key_of
key_of-ok address key h = ground (arith, h)

plus_zero : (a : ℤ) → a +ℤ pos 0 ≡ a
plus_zero a = omega int_laws

minus_zero : (a : ℤ) → a -ℤ pos 0 ≡ a
minus_zero a = omega int_laws

module _ (p : Payment) where
  spent_self : spent p p.payer ≡ p.amount
  spent_self = ground arith

  signed_self : signed p p.payer ≡ pos 1
  signed_self = ground arith

  gained_self : gained p p.payee ≡ p.amount
  gained_self = ground arith

  module _ (key : Bytes) where
    spent_ne : key ≢ p.payer → spent p key ≡ pos 0
    spent_ne n = ground arith

    signed_ne : key ≢ p.payer → signed p key ≡ pos 0
    signed_ne n = ground arith

    gained_ne : key ≢ p.payee → gained p key ≡ pos 0
    gained_ne n = ground arith

  -- What has moved the amount of a payment and left all other keys alone is the payment.
  module _ (old new : Ledger) (apart : p.payer ≢ p.payee)
      (payer_new : new p.payer ≡ ((old p.payer).0 -ℤ p.amount, (old p.payer).1 +ℤ pos 1))
      (payee_new : new p.payee ≡ ((old p.payee).0 +ℤ p.amount, (old p.payee).1))
      (others : (key : Bytes) → key ≢ p.payer → key ≢ p.payee → new key ≡ old key) where
    at_payer : new p.payer ≡ pay p old p.payer
    unfolding pay
    at_payer = rw (payer_new, spent_self, signed_self, gained_ne p.payer apart) (rw plus_zero)

    at_payee : new p.payee ≡ pay p old p.payee
    unfolding pay
    at_payee =
        rw
          (
            payee_new,
            gained_self,
            spent_ne p.payee (λ e. apart (sym e)),
            signed_ne p.payee (λ e. apart (sym e)),
          )
          (rw (minus_zero, plus_zero))

    at_other : (key : Bytes) → key ≢ p.payer → key ≢ p.payee → new key ≡ pay p old key
    unfolding pay
    at_other key n m =
        rw (others key n m, gained_ne key m, spent_ne key n, signed_ne key n)
          (rw (minus_zero, plus_zero, plus_zero))

    pub moved_is_pay : new ≡ pay p old
    moved_is_pay = fun_ext λ key. elim (bytes_discrete key p.payer) [
      | yes e ↦ rw e at_payer
      | no n ↦ elim (bytes_discrete key p.payee) [ yes e ↦ rw e at_payee | no m ↦ at_other key n m ]
    ]

module _ (v : Services) where
  -- The leaf of a key holds the balance and the nonce of a document.
  pub record HasLeaf (w : World v) (key : Bytes) (d : AccountDocument) : Type 0 where
    pub balance : leaf_balance (leaf_at v key w) ≡ d.balance
    pub nonce : leaf_nonce (leaf_at v key w) ≡ d.nonce

  -- A first transfer, to a receiver that is not the zero address, between two accounts whose leaves
  -- agree with their documents.
  pub record IsPay (w : World v) (t : Transaction) : Type 0 where
    pub receiver : String
    pub first : IsFirst v w t receiver
    pub to_receiver : t.receiver ≡ some receiver
    pub no_withdrawal : receiver ≢ zero_address
    pub payer_has : HasLeaf w first.payer_key first.payer
    pub payee_has : HasLeaf w first.payee_key first.payee

  -- Where the documents and the leaves of both accounts are the same, the transfer is one too.
  pub IsPay-same :
      {w : World v} {t : Transaction} (p : IsPay w t) (s : World v)
      → find_account v t.sender s.users ≡ find_account v t.sender w.users
      → find_account v p.receiver s.users ≡ find_account v p.receiver w.users
      → leaf_at v p.first.payer_key s ≡ leaf_at v p.first.payer_key w
      → leaf_at v p.first.payee_key s ≡ leaf_at v p.first.payee_key w
      → IsPay s t
  IsPay-same p s sender_same receiver_same payer_same payee_same =
      let f = p.first in
      record {
        receiver = p.receiver;
        first = record {
          payer = f.payer;
          payee = f.payee;
          payer_key = f.payer_key;
          payee_key = f.payee_key;
          payer_found = sender_same ∙ f.payer_found;
          payee_found = receiver_same ∙ f.payee_found;
          payer_fresh = f.payer_fresh;
          payee_fresh = f.payee_fresh;
          payer_hex = f.payer_hex;
          payee_hex = f.payee_hex;
          apart = f.apart;
          in_order = f.in_order;
          covered = f.covered;
          payer_fits = f.payer_fits;
          payee_fits = f.payee_fits;
          exact = f.exact;
        };
        to_receiver = p.to_receiver;
        no_withdrawal = p.no_withdrawal;
        payer_has = record {
          balance = ap leaf_balance payer_same ∙ p.payer_has.balance;
          nonce = ap leaf_nonce payer_same ∙ p.payer_has.nonce;
        };
        payee_has = record {
          balance = ap leaf_balance payee_same ∙ p.payee_has.balance;
          nonce = ap leaf_nonce payee_same ∙ p.payee_has.nonce;
        };
      }

  module _ {w : World v} {t : Transaction} (p : IsPay w t) where
    pub payer-key : (payment_of t).payer ≡ p.first.payer_key
    unfolding payment_of
    payer-key = key_of-ok t.sender p.first.payer_key p.first.payer_hex

    pub payee-key : (payment_of t).payee ≡ p.first.payee_key
    unfolding payment_of receiver_key
    payee-key = rw p.to_receiver (key_of-ok p.receiver p.first.payee_key p.first.payee_hex)

  module _ (lawful : IsServices v) (badge_id : String) {w : World v} {t : Transaction}
      (p : IsPay w t) where
    abbrev after : World v
    after = (make_rollup_transaction_between_existing_users v badge_id t p.receiver w).1

    after-Leaves :
        let f = p.first in
        Leaves v f.payer_key f.payee_key w after
          (f.payer.balance -ℤ t.amount, f.payer.nonce +ℤ pos 1)
          (f.payee.balance +ℤ t.amount, f.payee.nonce)
    after-Leaves = (first_transfer_moves_funds v p.first lawful badge_id).1

    pub transfer_pays : ledger_of v after ≡ pay (payment_of t) (ledger_of v w)
    unfolding ledger_of payment_of
    transfer_pays =
        let f = p.first in
        let leaves = after-Leaves in
        moved_is_pay (payment_of t) (ledger_of v w) (ledger_of v after)
          (λ e. f.apart (sym (payer-key p) ∙ e ∙ payee-key p))
          (rw (payer-key p)
            (rw (leaves.payer_balance, leaves.payer_nonce, p.payer_has.balance, p.payer_has.nonce)))
          (rw (payee-key p)
            (rw (leaves.payee_balance, leaves.payee_nonce, p.payee_has.balance, p.payee_has.nonce)))
          (λ key n m.
            let same =
              leaves.others key (λ e. n (e ∙ sym (payer-key p))) (λ e. m (e ∙ sym (payee-key p))) in
            rw same)

    -- A transfer between other accounts is still to be made.
    pub IsPay-after :
        {u : Transaction} → IsPay w u → Apart (payment_of t) (payment_of u) → IsPay after u
    unfolding payment_of
    IsPay-after {u} q apart =
        let f = p.first in
        let same =
          (transfer_documents v lawful (IsFirst-Accepts v f) (IsFirst-distinct v f)
            (first_moves v f badge_id)).2 in
        let leaves = after-Leaves in
        IsPay-same q after (same u.sender (λ e. apart.payer_payer (ap key_of e)))
          (same q.receiver (λ e.
            apart.payee_payer
              (payee-key q ∙ sym (key_of-ok q.receiver _ q.first.payee_hex) ∙ ap key_of e)))
          (leaves.others q.first.payer_key
            (λ e. apart.payer_payer (payer-key q ∙ e ∙ sym (payer-key p)))
            (λ e. apart.payer_payee (payer-key q ∙ e ∙ sym (payee-key p))))
          (leaves.others q.first.payee_key
            (λ e. apart.payee_payer (payee-key q ∙ e ∙ sym (payer-key p)))
            (λ e. apart.payee_payee (payee-key q ∙ e ∙ sym (payee-key p))))
