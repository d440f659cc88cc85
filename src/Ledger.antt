-- ===== src/Ledger.antt =====
-- What a batch of transfers promises: a ledger of balances and nonces by key, payments between keys,
-- and the settlement of payments whose order is forgotten. sequencer/src/MerkleTreeController.py and
-- sequencer/src/BlockController.py are held against it in the modules below.
pub mod Steps
pub mod Settle
use mathlib.Core.Path.{fun_ext}
use mathlib.Core.HLevel.{hedberg}
use native.Mathlib.Decide.{ℕ_discrete}
use zkp_rollup.Base.{
  ◌≡◌, refl, sym, ap, ◌∙◌, ite, bytes_discrete, String, List, [], ◌∷◌, Option, none, some, All, map,
  ◌≢◌,
}
use zkp_rollup.Base.Int.{ℤ, pos, ◌+ℤ◌, ◌-ℤ◌, int_laws}
use zkp_rollup.Base.Bag.{Bag, run_all, run_bag}
use zkp_rollup.Python.Result.{Result, ok, raised}
use zkp_rollup.Python.Bytes.{Bytes}
use zkp_rollup.Utils.{hex_to_bytes}
use zkp_rollup.Types.{Transaction}
use zkp_rollup.Services.{Services}
use zkp_rollup.State.{World}
use zkp_rollup.MerkleTree.Leaf.Laws.{leaf_balance, leaf_nonce}
use zkp_rollup.MerkleTree.Transfer.Funds.{leaf_at}

-- A balance and a nonce for every key.
abbrev pub Ledger : Type 0
Ledger = Bytes → ℤ × ℤ

pub record Payment : Type 0 where
  pub payer : Bytes
  pub payee : Bytes
  pub amount : ℤ

pub Payment-discrete : Discrete Payment
Payment-discrete = hlevel ℕ_discrete

pub Ledger-set : IsSet Ledger
Ledger-set = hlevel (hedberg, ℕ_discrete)

-- What a payment adds to the balance of a key, what it takes from it, and how it counts for the nonce.
abbrev pub gained : Payment → Bytes → ℤ
gained p key = ite (bytes_discrete key p.payee) p.amount (pos 0)

abbrev pub spent : Payment → Bytes → ℤ
spent p key = ite (bytes_discrete key p.payer) p.amount (pos 0)

abbrev pub signed : Payment → Bytes → ℤ
signed p key = ite (bytes_discrete key p.payer) (pos 1) (pos 0)

unfoldable pub pay : Payment → Ledger → Ledger
pay p ledger key = ((ledger key).0 -ℤ spent p key +ℤ gained p key, (ledger key).1 +ℤ signed p key)

swap_balance : (x a b c d : ℤ) → x -ℤ a +ℤ b -ℤ c +ℤ d ≡ x -ℤ c +ℤ d -ℤ a +ℤ b
swap_balance x a b c d = omega int_laws

swap_nonce : (x a b : ℤ) → x +ℤ a +ℤ b ≡ x +ℤ b +ℤ a
swap_nonce x a b = omega int_laws

-- Two payments come to the same in either order.
pub pay_comm : (p q : Payment) (ledger : Ledger) → pay p (pay q ledger) ≡ pay q (pay p ledger)
unfolding pay
pay_comm p q ledger = fun_ext λ key. rw (
  swap_balance (ledger key).0 (spent q key) (gained q key) (spent p key) (gained p key),
  swap_nonce (ledger key).1 (signed q key) (signed p key),
)

-- The settlement of payments, whatever their order.
unfoldable pub settle : Bag Payment → Ledger → Ledger
settle = run_bag pay Payment-discrete pay_comm Ledger-set

-- The bytes of an address, and the payment that a transaction asks for.
unfoldable pub key_of : String → Bytes
key_of address = elim (hex_to_bytes address) [ ok key ↦ key | raised e ↦ [] ]

unfoldable pub receiver_key : Option String → Bytes
receiver_key none = []
receiver_key (some receiver) = key_of receiver

unfoldable pub payment_of : Transaction → Payment
payment_of t = record {
  payer = key_of t.sender;
  payee = receiver_key t.receiver;
  amount = t.amount;
}

-- The ledger that the leaves of the tree hold.
unfoldable pub ledger_of : (v : Services) → World v → Ledger
ledger_of v w key = (leaf_balance (leaf_at v key w), leaf_nonce (leaf_at v key w))

-- Payments between four different keys.
pub record Apart (p q : Payment) : Type 0 where
  pub payer_payer : q.payer ≢ p.payer
  pub payer_payee : q.payer ≢ p.payee
  pub payee_payer : q.payee ≢ p.payer
  pub payee_payee : q.payee ≢ p.payee

abbrev pub AllApart : List Payment → Type 0
AllApart [] = Unit
AllApart (p ∷ ps) = All (Apart p) ps × AllApart ps
