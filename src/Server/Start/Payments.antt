-- ===== src/Server/Start/Payments.antt =====
-- Transfers between accounts that the service was set up with.
use zkp_rollup.Base.{◌≡◌, ◌≢◌, ◌∙◌, refl, sym, ap, some, arith}
use zkp_rollup.Base.Int.{pos, ◌+ℤ◌, ◌-ℤ◌, ◌≤ℤ◌}
use zkp_rollup.Types.{Transaction}
use zkp_rollup.Services.{Services, IsServices}
use zkp_rollup.State.{World}
use zkp_rollup.State.Accounts.{find_account}
use zkp_rollup.MerkleTree.Leaf.{FundedAccount}
use zkp_rollup.MerkleTree.Transfer.{AreExact}
use zkp_rollup.MerkleTree.Leaf.Laws.{FitsU64, leaf_balance, leaf_nonce}
use zkp_rollup.MerkleTree.Transfer.Funds.{leaf_at}
use zkp_rollup.Block.{zero_address}
use zkp_rollup.Setup.{start_user}
use zkp_rollup.Ledger.{key_of}
use zkp_rollup.Ledger.Steps.{IsPay, HasLeaf, key_of-ok}
use zkp_rollup.Server.Start.Funded.{IsFundable, IsFunded}

-- The first transfer of one account to another: it has nonce 0, an amount that the account has, and
-- new balances that fit in eight bytes.
pub record IsOpening (t : Transaction) (payer payee : FundedAccount) : Type 0 where
  pub from_payer : t.sender ≡ payer.pub_key
  pub to_payee : t.receiver ≡ some payee.pub_key
  pub no_withdrawal : payee.pub_key ≢ zero_address
  pub apart : key_of payer.pub_key ≢ key_of payee.pub_key
  pub nonce : t.nonce ≡ some (pos 0)
  pub covered : t.amount ≤ℤ payer.balance
  pub payer_fits : FitsU64 (payer.balance -ℤ t.amount)
  pub payee_fits : FitsU64 (payee.balance +ℤ t.amount)
  pub exact : AreExact payer.balance payee.balance t.amount

module _ (v : Services) (lawful : IsServices v) (w : World v) where
  at_key :
      (acc : FundedAccount) (f : IsFundable acc)
      → HasLeaf v w (key_of acc.pub_key) (start_user acc)
      → HasLeaf v w f.key (start_user acc)
  at_key acc f has =
      let e = ap (λ key. leaf_at v key w) (sym (key_of-ok acc.pub_key f.key f.hex)) in
      record { balance = ap leaf_balance e ∙ has.balance; nonce = ap leaf_nonce e ∙ has.nonce }

  -- While documents and leaves are those of the start, an opening transfer can be paid.
  pub IsOpening-IsPay :
      (t : Transaction) (payer payee : FundedAccount)
      → IsOpening t payer payee
      → IsFundable payer
      → IsFundable payee
      → IsFunded v lawful w payer
      → IsFunded v lawful w payee
      → IsPay v w t
  unfolding ◌+ℤ◌
  IsOpening-IsPay t payer payee o f g a b = record {
    receiver = payee.pub_key;
    first = record {
      payer = start_user payer;
      payee = start_user payee;
      payer_key = f.key;
      payee_key = g.key;
      payer_found = ap (λ address. find_account v address w.users) o.from_payer ∙ a.found;
      payee_found = b.found;
      payer_fresh = refl;
      payee_fresh = refl;
      payer_hex = rw o.from_payer f.hex;
      payee_hex = g.hex;
      apart = λ e.
          o.apart
            (key_of-ok payer.pub_key f.key f.hex ∙ e ∙ sym (key_of-ok payee.pub_key g.key g.hex));
      in_order = o.nonce;
      covered = o.covered;
      payer_fits = (o.payer_fits, omega arith);
      payee_fits = (o.payee_fits, omega arith);
      exact = o.exact;
    };
    to_receiver = o.to_payee;
    no_withdrawal = o.no_withdrawal;
    payer_has = at_key payer f a.leaf;
    payee_has = at_key payee g b.leaf;
  }
