-- ===== src/TestBadge/Run.antt =====
-- The script against its accounts: how often an account pays and is paid says what it ends with.
pub mod Step
use zkp_rollup.Base.{
  ℕ, zero, suc, ◌+◌, ◌<◌, ◌≡◌, ◌≢◌, ◌∙◌, refl, ap, sym, Bool, true, false, eqb, List, [], ◌∷◌,
  Option, none, some, length, All, get_elem?, arith, Bool-cases, inl, inr, if◌then◌else◌,
}
use mathlib.Core.Option
use zkp_rollup.Base.Count.{count}
use zkp_rollup.Base.Int.{ℤ, pos, ◌+ℤ◌, ◌-ℤ◌, int_laws}
use zkp_rollup.Python.Result.{Result, ok}
use zkp_rollup.Python.Bytes.{Bytes}
use zkp_rollup.Utils.{hex_to_bytes, bytes_to_hex}
use zkp_rollup.Services.{Services, IsServices}
use zkp_rollup.Client.{Signer}
use zkp_rollup.TestBadge.{AccountInformation, Book, apply_transaction}
use zkp_rollup.TestBadge.Script.{BadgeTransaction, create_transaction, serialized}
use zkp_rollup.TestBadge.Main.{make_transactions}
use Step.{
  KeysApart, IsLeaf, Applied, apply_transaction-Applied, origin, Each-HasRoom, moved-KeysApart,
  moved-private_key, map-some,
}
use zkp_rollup.TestBadge.Tree.{Each, moved, HasRoom, get_elem?-some, map_same}

-- How often an index pays, and is paid.
abbrev pub paid_by : ℕ → List (ℕ × ℕ) → ℕ
paid_by k = count (λ p. eqb k p.0)

abbrev pub paid_to : ℕ → List (ℕ × ℕ) → ℕ
paid_to k = count (λ p. eqb k p.1)

-- The account at an index after transactions of amount 1 between pairs of indices: the description
-- that does not go through the transactions one by one.
abbrev pub settled : List (ℕ × ℕ) → ℕ → AccountInformation → AccountInformation
settled pairs k acc = record acc {
  balance = acc.balance -ℤ pos (paid_by k pairs) +ℤ pos (paid_to k pairs);
  nonce = acc.nonce +ℤ pos (paid_by k pairs);
}

added_zero : (a : ℤ) → a +ℤ pos 0 ≡ a
added_zero a = omega int_laws

nothing_added : (a : ℤ) → a -ℤ pos 0 +ℤ pos 0 ≡ a
nothing_added a = omega int_laws

same_numbers :
    (acc : AccountInformation) {b c n o : ℤ}
    → b ≡ c
    → n ≡ o
    → ◌≡◌ {A = AccountInformation}
        (record acc { balance = b; nonce = n })
        (record acc { balance = c; nonce = o })
same_numbers acc hb hn = rw (hb, hn)

pub settled-nil : (k : ℕ) (acc : AccountInformation) → settled [] k acc ≡ acc
settled-nil k acc = rw (nothing_added acc.balance, added_zero acc.nonce)

pub settled-moved :
    (i j k : ℕ) (pairs : List (ℕ × ℕ)) (acc : AccountInformation)
    → settled pairs k (moved i j k acc) ≡ settled ((i, j) ∷ pairs) k acc
settled-moved i j k pairs acc = elim (Bool-cases (eqb k i)) [
  | inl e ↦ elim (Bool-cases (eqb k j)) [
    | inl e2 ↦ rw (e, e2) (same_numbers acc (omega int_laws) (omega int_laws))
    | inr e2 ↦ rw (e, e2) (same_numbers acc (omega int_laws) (omega int_laws))
  ]
  | inr e ↦ elim (Bool-cases (eqb k j)) [
    | inl e2 ↦ rw (e, e2) (same_numbers acc (omega int_laws) (omega int_laws))
    | inr e2 ↦ rw (e, e2)
  ]
]

map_twice :
    (f g h : AccountInformation → AccountInformation)
    → ((a : AccountInformation) → f (g a) ≡ h a)
    → (o : Option AccountInformation) → Option.map f (Option.map g o) ≡ Option.map h o
map_twice f g h same none = refl
map_twice f g h same (some a) = ap some (same a)

module _ (v : Services) (s : Signer v.crypto) where
  -- An account whose private key can sign.
  pub record CanSign (acc : AccountInformation) : Type 0 where
    pub key_bytes : Bytes
    pub private_key : s.PrivateKey
    pub hex : hex_to_bytes acc.private_key ≡ ok key_bytes
    pub signs : s.private_key_of key_bytes ≡ ok private_key

  -- Accounts that so many transactions can run on, with the leaves that they have.
  pub record IsReady (m : ℕ) (b : Book v) : Type 0 where
    pub apart : KeysApart b.account_information
    pub room : Each (HasRoom m) b.account_information
    pub sign : Each CanSign b.account_information
    pub leaves : Each (IsLeaf v b.tree) b.account_information

  abbrev pub InRange : ℕ → List (ℕ × ℕ) → Type 0
  InRange n pairs = All (λ p. (p.0 < n) × (p.1 < n)) pairs

  abbrev entry : AccountInformation → AccountInformation → s.PrivateKey → BadgeTransaction
  entry payer payee private_key = record {
    from_key = payer.public_key;
    to_key = payee.public_key;
    amount = pos 1;
    nonce = payer.nonce;
    signature = record {
      pub_key = payer.public_key;
      signature = bytes_to_hex (
          s.signature_bytes (
            s.sign_msg_hash private_key
              (v.crypto.sha256 (serialized payer.public_key payee.public_key payer.nonce))));
    };
  }

  create_transaction-ok :
      (accs : List AccountInformation) (i j : ℕ)
      → i < length accs
      → j < length accs
      → Each CanSign accs
      → (t : BadgeTransaction) × (create_transaction v s accs i j ≡ ok t) × (t.amount ≡ pos 1)
  unfolding create_transaction
  create_transaction-ok accs i j hi hj sign =
      let (payer, at_i) = get_elem?-some i accs hi in
      let (payee, at_j) = get_elem?-some j accs hj in
      let c = sign i payer at_i in
      (entry payer payee c.private_key, rw at_i (rw at_j (rw (c.hex, c.signs))), refl)

  -- Each account ends as the pairs say.
  abbrev pub IsSettled : List (ℕ × ℕ) → Book v → Book v → Type 0
  IsSettled pairs b new =
      (k : ℕ)
      → get_elem? new.account_information k
        ≡ Option.map (settled pairs k) (get_elem? b.account_information k)

  module _ (lawful : IsServices v) where
    next-IsReady :
        (m i j : ℕ) (b new : Book v)
        → IsReady (suc m) b
        → Applied v lawful i j b new
        → IsReady m new
    next-IsReady m i j b new r a =
        let old = b.account_information in
        record {
          apart = moved-KeysApart i j old new.account_information a.lookup r.apart;
          room = Each-HasRoom i j old new.account_information a.lookup m r.room;
          sign = λ k acc found.
              let (before, was, same) =
                origin i j old new.account_information a.lookup k acc found in
              let c = r.sign k before was in
              record {
                key_bytes = c.key_bytes;
                private_key = c.private_key;
                hex =
                    ap hex_to_bytes
                      (ap (λ a. a.private_key) (sym same) ∙ moved-private_key i j k before)
                    ∙ c.hex;
                signs = c.signs;
              };
          leaves = a.leaves;
        }

    pub make_transactions-IsSettled :
        (pairs : List (ℕ × ℕ)) (b : Book v)
        → InRange (length b.account_information) pairs
        → IsReady (length pairs) b
        → (ts : List BadgeTransaction) × (new : Book v) × (make_transactions v s pairs b
            ≡ (ok ts, new))
          × IsSettled pairs b new
          × IsReady 0 new
    unfolding make_transactions
    make_transactions-IsSettled [] b range ready = (
      [],
      b,
      refl,
      λ k. map_same (settled [] k) (settled-nil k) (get_elem? b.account_information k),
      ready,
    )
    make_transactions-IsSettled ((i, j) ∷ pairs) b ((hi, hj), range) ready =
        let accs = b.account_information in
        let (t, made, one) = create_transaction-ok accs i j hi hj ready.sign in
        let (next, applied, a) =
          apply_transaction-Applied v lawful (length pairs) i j b hi hj ready.apart ready.room
            ready.leaves in
        let range2 : InRange (length next.account_information) pairs = rw a.size range in
        let (ts, new, run, ends, ready2) =
          make_transactions-IsSettled pairs next range2
            (next-IsReady (length pairs) i j b next ready a) in
        (
          t ∷ ts,
          new,
          rw made (rw one (rw applied (rw run))),
          λ k.
              ends k
              ∙ ap (Option.map (settled pairs k)) (a.lookup k)
              ∙ map_twice (settled pairs k) (moved i j k) (settled ((i, j) ∷ pairs) k)
                  (settled-moved i j k pairs) (get_elem? accs k),
          ready2,
        )
