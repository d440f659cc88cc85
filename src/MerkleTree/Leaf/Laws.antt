-- ===== src/MerkleTree/Leaf/Laws.antt =====
-- Reading and writing a leaf.
use mathlib.Core.List.{append_assoc}
use zkp_rollup.Base.{◌^◌, ◌<◌, ◌≡◌, ◌++◌, ◌↔◌, refl, arith, String, take, drop}
use zkp_rollup.Base.Int.{ℤ, pos, negsuc}
use zkp_rollup.Python.Result.{ok, >>=-eq-ok}
use zkp_rollup.Python.Bytes.{Bytes, to_bytes, le_bytes, from_le}
use zkp_rollup.Python.Bytes.Laws.{from_le-to_bytes, to_bytes-fits, take-append, drop-append}
use zkp_rollup.Utils.{hex_to_bytes}
use zkp_rollup.MerkleTree.Leaf.{leaf_to_bytes, FundedAccount, hash_account_to_leaf_value}

-- What a reader of a leaf takes from it.
abbrev pub leaf_balance : Bytes → ℤ
leaf_balance leaf = pos (from_le (take 8 leaf))

abbrev pub leaf_nonce : Bytes → ℤ
leaf_nonce leaf = pos (from_le (take 8 (drop 8 leaf)))

abbrev pub leaf_address : Bytes → Bytes
leaf_address leaf = drop 8 (drop 8 leaf)

-- The two numbers of eight bytes each, in front of the address, are the ones that were written.
split_leaf :
    (b n : ℤ) (bs ns address : Bytes)
    → to_bytes 8 b ≡ ok bs
    → to_bytes 8 n ≡ ok ns
    → let leaf = bs ++ ns ++ address in
      (leaf_balance leaf ≡ b) × (leaf_nonce leaf ≡ n) × (leaf_address leaf ≡ address)
split_leaf b n bs ns address hb hn =
    let (balance, balance_size) = from_le-to_bytes 8 b bs hb in
    let (nonce, nonce_size) = from_le-to_bytes 8 n ns hn in
    rw append_assoc (
      rw
        (
          take-append 8 bs (ns ++ address) balance_size,
          drop-append 8 bs (ns ++ address) balance_size,
        )
        (rw (take-append 8 ns address nonce_size, drop-append 8 ns address nonce_size)
          (balance, nonce, refl)))

-- The numbers that eight bytes hold.
abbrev pub FitsU64 : ℤ → Type 0
FitsU64 (pos n) = n < 2 ^ 64
FitsU64 (negsuc n) = ⊥

to_bytes-FitsU64 : (n : ℤ) (bs : Bytes) → to_bytes 8 n ≡ ok bs → FitsU64 n
unfolding to_bytes
to_bytes-FitsU64 (pos n) bs h = ground arith
to_bytes-FitsU64 (negsuc n) bs h = cc

pub FitsU64-to_bytes : (n : ℤ) → FitsU64 n → (bs : Bytes) × (to_bytes 8 n ≡ ok bs)
FitsU64-to_bytes (pos n) h = (le_bytes 8 n, to_bytes-fits 8 n h)
FitsU64-to_bytes (negsuc n) h = absurd h

-- A leaf that was written is read back: its first eight bytes are the balance, the next eight the
-- nonce, and the rest are the bytes of the address.
pub leaf_to_bytes-decode :
    (balance nonce : ℤ) (account : String) (leaf : Bytes)
    → leaf_to_bytes balance nonce account ≡ ok leaf
    → (leaf_balance leaf ≡ balance)
      × (leaf_nonce leaf ≡ nonce)
      × (hex_to_bytes account ≡ ok (leaf_address leaf))
unfolding leaf_to_bytes
leaf_to_bytes-decode balance nonce account leaf h =
    let (ns, hn, rest) = >>=-eq-ok (to_bytes 8 nonce) _ h in
    let (bs, hb, rest2) = >>=-eq-ok (to_bytes 8 balance) _ rest in
    let (address, ha, built) = >>=-eq-ok (hex_to_bytes account) _ rest2 in
    let (b, n, a) = split_leaf balance nonce bs ns address hb hn in
    ground (arith, b, n, a, ha, built)

-- A leaf can be written exactly when balance and nonce fit in eight bytes each (so neither is
-- negative) and the address is hexadecimal.
pub leaf_to_bytes-ok_iff :
    (balance nonce : ℤ) (account : String)
    → ((leaf : Bytes) × (leaf_to_bytes balance nonce account ≡ ok leaf)) ↔ (
        FitsU64 balance × FitsU64 nonce × ((address : Bytes) × (hex_to_bytes account ≡ ok address)))
unfolding leaf_to_bytes
leaf_to_bytes-ok_iff balance nonce account = (
  λ (leaf, h).
      let (ns, hn, rest) = >>=-eq-ok (to_bytes 8 nonce) _ h in
      let (bs, hb, rest2) = >>=-eq-ok (to_bytes 8 balance) _ rest in
      let (address, ha, _) = >>=-eq-ok (hex_to_bytes account) _ rest2 in
      (to_bytes-FitsU64 balance bs hb, to_bytes-FitsU64 nonce ns hn, (address, ha)),
  λ (fb, fn, (address, ha)).
      let (bs, hb) = FitsU64-to_bytes balance fb in
      let (ns, hn) = FitsU64-to_bytes nonce fn in (bs ++ ns ++ address, rw (hn, hb, ha)),
)

-- A funded account starts with the leaf of its balance and nonce 0.
pub hash_account_to_leaf_value-eq :
    (account : FundedAccount)
    → hash_account_to_leaf_value account ≡ leaf_to_bytes account.balance (pos 0) account.pub_key
unfolding hash_account_to_leaf_value leaf_to_bytes
hash_account_to_leaf_value-eq account = refl
