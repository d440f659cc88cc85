-- ===== src/TestBadge/Tree.antt =====
-- The accounts of the script one by one, and their leaves.
use zkp_rollup.Base.{
  ℕ, zero, suc, ◌+◌, ◌-◌, ◌<◌, ◌≤◌, ◌^◌, ◌≡◌, ◌∙◌, refl, ap, sym, eqb, List, [], ◌∷◌, Option, none,
  some, length, get_elem?, arith, Bool-cases, inl, inr, if◌then◌else◌,
}
use mathlib.Core.Option
use zkp_rollup.Base.Int.{ℤ, pos, int_laws}
use zkp_rollup.Python.Result.{ok}
use zkp_rollup.Python.Bytes.{Bytes}
use zkp_rollup.Utils.{hex_to_bytes}
use zkp_rollup.MerkleTree.Leaf.{leaf_to_bytes}
use zkp_rollup.MerkleTree.Leaf.Laws.{leaf_to_bytes-ok_iff}
use zkp_rollup.TestBadge.{AccountInformation, update_at, debit, next_nonce, credit}

-- What holds of each item of a list.
abbrev pub Each : (AccountInformation → Type 0) → List AccountInformation → Type 0
Each P accs = (k : ℕ) (acc : AccountInformation) → get_elem? accs k ≡ some acc → P acc

-- A function on the item at an index, seen from the index `k`.
abbrev pub at :
    ℕ → (AccountInformation → AccountInformation) → ℕ → AccountInformation → AccountInformation
at i f k acc = if eqb k i then f acc else acc

pub map_same :
    (g : AccountInformation → AccountInformation)
    → ((a : AccountInformation) → g a ≡ a)
    → (o : Option AccountInformation) → o ≡ Option.map g o
map_same g h none = refl
map_same g h (some a) = ap some (sym (h a))

map_eq :
    (f g : AccountInformation → AccountInformation)
    → ((a : AccountInformation) → f a ≡ g a)
    → (o : Option AccountInformation) → Option.map f o ≡ Option.map g o
map_eq f g h none = refl
map_eq f g h (some a) = ap some (h a)

lookup_here :
    (f : AccountInformation → AccountInformation) (x : AccountInformation)
    (xs : List AccountInformation) (k : ℕ)
    → get_elem? (f x ∷ xs) k ≡ Option.map (at zero f k) (get_elem? (x ∷ xs) k)
lookup_here f x xs zero = ground arith
lookup_here f x xs (suc k) = map_same (at zero f (suc k)) (λ a. ground arith) (get_elem? xs k)

lookup_later :
    (i : ℕ) (f : AccountInformation → AccountInformation) (x : AccountInformation)
    (xs new : List AccountInformation)
    → ((k : ℕ) → get_elem? new k ≡ Option.map (at i f k) (get_elem? xs k))
    → (k : ℕ) → get_elem? (x ∷ new) k ≡ Option.map (at (suc i) f k) (get_elem? (x ∷ xs) k)
lookup_later i f x xs new rest zero = ground arith
lookup_later i f x xs new rest (suc k) =
    rest k ∙ map_eq (at i f k) (at (suc i) f (suc k)) (λ a. ground arith) (get_elem? xs k)

pub update_at-lookup :
    (i : ℕ) (f : AccountInformation → AccountInformation) (accs : List AccountInformation)
    → i < length accs
    → (new : List AccountInformation) × (update_at i f accs ≡ some new)
      × (length new ≡ length accs)
      × ((k : ℕ) → get_elem? new k ≡ Option.map (at i f k) (get_elem? accs k))
unfolding update_at
update_at-lookup i f [] h = absurd (omega arith)
update_at-lookup zero f (x ∷ xs) h = (f x ∷ xs, refl, refl, lookup_here f x xs)
update_at-lookup (suc i) f (x ∷ xs) h =
    let (new, done, size, rest) = update_at-lookup i f xs (omega arith) in
    (x ∷ new, rw done, ap suc size, lookup_later i f x xs new rest)

pub get_elem?-some {ℓ} :
    {A : Type ℓ} (i : ℕ) (xs : List A) → i < length xs → (x : A) × (get_elem? xs i ≡ some x)
get_elem?-some i [] h = absurd (omega arith)
get_elem?-some zero (x ∷ xs) h = (x, refl)
get_elem?-some (suc i) (x ∷ xs) h = get_elem?-some i xs (omega arith)

-- The account at an index after a transaction of amount 1 between two indices.
abbrev pub moved : ℕ → ℕ → ℕ → AccountInformation → AccountInformation
moved i j k acc = at j (credit (pos 1)) k (at i next_nonce k (at i (debit (pos 1)) k acc))

-- An account that can take part in so many transactions: its numbers stay within eight bytes, and
-- its key is hexadecimal.
pub record HasRoom (m : ℕ) (acc : AccountInformation) : Type 0 where
  pub b : ℕ
  pub n : ℕ
  pub balance : acc.balance ≡ pos b
  pub nonce : acc.nonce ≡ pos n
  pub enough : m ≤ b
  pub small : b + m < 2 ^ 64
  pub few : n + m < 2 ^ 64
  pub key : Bytes
  pub hex : hex_to_bytes acc.public_key ≡ ok key

pub HasRoom-leaf :
    (m : ℕ) (acc : AccountInformation)
    → HasRoom m acc
    → (leaf : Bytes) × (leaf_to_bytes acc.balance acc.nonce acc.public_key ≡ ok leaf)
HasRoom-leaf m acc r =
    (leaf_to_bytes-ok_iff acc.balance acc.nonce acc.public_key).1
      (rw r.balance (omega (arith, r.small)), rw r.nonce (omega (arith, r.few)), (r.key, r.hex))

pub moved-HasRoom :
    (m i j k : ℕ) (acc : AccountInformation) → HasRoom (suc m) acc → HasRoom m (moved i j k acc)
moved-HasRoom m i j k acc r = elim (Bool-cases (eqb k i)) [
  | inl e ↦ elim (Bool-cases (eqb k j)) [
    | inl e2 ↦
        rw (e, e2)
          (room r.b (r.n + 1) (rw r.balance (omega int_laws)) (rw r.nonce (omega int_laws))
            (omega (arith, r.enough)) (omega (arith, r.small, r.enough)) (omega (arith, r.few)))
    | inr e2 ↦
        rw (e, e2)
          (room (r.b - 1) (r.n + 1) (rw r.balance (omega (int_laws, r.enough)))
            (rw r.nonce (omega int_laws)) (omega (arith, r.enough))
            (omega (arith, r.small, r.enough)) (omega (arith, r.few)))
  ]
  | inr e ↦ elim (Bool-cases (eqb k j)) [
    | inl e2 ↦
        rw (e, e2)
          (room (r.b + 1) r.n (rw r.balance (omega int_laws)) r.nonce (omega (arith, r.enough))
            (omega (arith, r.small, r.enough)) (omega (arith, r.few)))
    | inr e2 ↦
        rw (e, e2)
          (room r.b r.n r.balance r.nonce (omega (arith, r.enough))
            (omega (arith, r.small, r.enough)) (omega (arith, r.few)))
  ]
]
  where
    room :
        {balance nonce : ℤ} (b n : ℕ)
        → balance ≡ pos b
        → nonce ≡ pos n
        → m ≤ b
        → b + m < 2 ^ 64
        → n + m < 2 ^ 64
        → HasRoom m (record acc { balance = balance; nonce = nonce })
    room b n hb hn enough small few = record {
      b = b;
      n = n;
      balance = hb;
      nonce = hn;
      enough = enough;
      small = small;
      few = few;
      key = r.key;
      hex = r.hex;
    }
