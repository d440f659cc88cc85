-- ===== src/Python/Bytes/Laws.antt =====
-- The laws of byte strings: little-endian digits and hexadecimal text can be read back.
use Prim.Native.Char.{code}
use native.Mathlib.Nat.{pow-succ'}
use zkp_rollup.Base.{
  ℕ, zero, suc, ◌*◌, ◌/◌, ◌%◌, ◌^◌, ◌<◌, ◌≡◌, ◌≢◌, refl, ap, Bool, true, false, List, [], ◌∷◌, ◌++◌,
  Option, none, some, arith, eqb, length, take, drop, All, if◌then◌else◌,
}
use zkp_rollup.Base.Int.{ℤ, pos, negsuc}
use zkp_rollup.Python.Result.{ok}
use zkp_rollup.Python.Bytes.{
  Bytes, codes, le_bytes, from_le, to_bytes, hex_digit, is_space, hex_byte, from_hex, hex_char, hex,
}

pub length-le_bytes : (k n : ℕ) → length (le_bytes k n) ≡ k
unfolding le_bytes
length-le_bytes zero n = refl
length-le_bytes (suc k) n = ap suc (length-le_bytes k (n / 256))

pub from_le-le_bytes : (k n : ℕ) → n < 256 ^ k → from_le (le_bytes k n) ≡ n
unfolding le_bytes from_le
from_le-le_bytes zero n h = omega arith
from_le-le_bytes (suc k) n h =
    let below : n < 256 * 256 ^ k = rw pow-succ' at h in
    omega (arith, from_le-le_bytes k (n / 256) (omega arith))

-- The bytes of a number, if it has any, are `k` many and give the number back.
pub from_le-to_bytes :
    (k : ℕ) (n : ℤ) (bs : Bytes) → to_bytes k n ≡ ok bs → (pos (from_le bs) ≡ n) × (length bs ≡ k)
unfolding to_bytes
from_le-to_bytes k (pos n) bs h = ground (arith, from_le-le_bytes k n, length-le_bytes k n)
from_le-to_bytes k (negsuc n) bs h = cc

pub to_bytes-fits : (k n : ℕ) → n < 256 ^ k → to_bytes k (pos n) ≡ ok (le_bytes k n)
unfolding to_bytes
to_bytes-fits k n h = ground arith

-- The first and the second part of a join, by the length of the first.
pub take-append {ℓ} : {A : Type ℓ} (k : ℕ) (xs ys : List A) → length xs ≡ k → take k (xs ++ ys) ≡ xs
take-append zero [] ys h = refl
take-append (suc k) [] ys h = absurd (omega arith)
take-append zero (x ∷ xs) ys h = absurd (omega arith)
take-append (suc k) (x ∷ xs) ys h = ap (λ l. x ∷ l) (take-append k xs ys (omega arith))

pub drop-append {ℓ} : {A : Type ℓ} (k : ℕ) (xs ys : List A) → length xs ≡ k → drop k (xs ++ ys) ≡ ys
drop-append zero [] ys h = refl
drop-append (suc k) [] ys h = absurd (omega arith)
drop-append zero (x ∷ xs) ys h = absurd (omega arith)
drop-append (suc k) (x ∷ xs) ys h = drop-append k xs ys (omega arith)

-- Every hexadecimal digit below a bound passes a test, found by running the test.
digits_pass : (ℕ → Bool) → ℕ → Bool
digits_pass test zero = true
digits_pass test (suc bound) = if test bound then digits_pass test bound else false

digits_pass-at :
    (test : ℕ → Bool) (bound digit : ℕ)
    → digit < bound
    → digits_pass test bound ≡ true
    → test digit ≡ true
unfolding digits_pass
digits_pass-at test zero digit below passed = absurd (omega arith)
digits_pass-at test (suc bound) digit below passed = ground (arith, digits_pass-at test bound digit)

is_digit : ℕ → Option ℕ → Bool
is_digit n none = false
is_digit n (some m) = eqb m n

is_digit-eq : (n : ℕ) (o : Option ℕ) → is_digit n o ≡ true → o ≡ some n
unfolding is_digit
is_digit-eq n none h = cc
is_digit-eq n (some m) h = ground arith

hex_digit_table : digits_pass (λ n. is_digit n (hex_digit (code (hex_char n)))) 16 ≡ true
unfolding digits_pass is_digit hex_digit hex_char
hex_digit_table = refl

no_space_table : digits_pass (λ n. eqb (if is_space (code (hex_char n)) then 1 else 0) 0) 16 ≡ true
unfolding digits_pass is_space hex_char
no_space_table = refl

hex_digit-hex_char : (n : ℕ) → n < 16 → hex_digit (code (hex_char n)) ≡ some n
hex_digit-hex_char n h =
    is_digit-eq n _
      (digits_pass-at (λ m. is_digit m (hex_digit (code (hex_char m)))) 16 n h hex_digit_table)

is_space-hex_char : (n : ℕ) → n < 16 → is_space (code (hex_char n)) ≡ false
is_space-hex_char n h = ground (
  arith,
  digits_pass-at (λ m. eqb (if is_space (code (hex_char m)) then 1 else 0) 0) 16 n h no_space_table,
)

-- No hexadecimal digit is an `x`, so no hexadecimal text starts with `0x`.
hex_digit_x : hex_digit b'x' ≡ none
unfolding hex_digit
hex_digit_x = refl

hex_char_ne_x : (n : ℕ) → n < 16 → b'x' ≢ code (hex_char n)
hex_char_ne_x n h e = cc (hex_digit-hex_char n h, ap hex_digit e, hex_digit_x)

pub hex_ne_x :
    (bs : Bytes) (c : ℕ) (cs : List ℕ) → All (λ b. b < 256) bs → c ∷ b'x' ∷ cs ≢ codes (hex bs)
unfolding hex
hex_ne_x [] c cs h e = cc
hex_ne_x (b ∷ bs) c cs (h, hs) e =
    let second : b'x' ≡ code (hex_char (b % 16)) = cc in hex_char_ne_x (b % 16) (omega arith) second

-- `bytes.fromhex` reads back what `bytes.hex` writes.
pub from_hex-hex : (bs : Bytes) → All (λ b. b < 256) bs → from_hex (codes (hex bs)) ≡ ok bs
unfolding from_hex hex hex_byte
from_hex-hex [] h = refl
from_hex-hex (b ∷ bs) (h, hs) =
    let hi : b / 16 < 16 = omega arith in
    let lo : b % 16 < 16 = omega arith in
    rw
      (
        is_space-hex_char (b / 16) hi,
        hex_digit-hex_char (b / 16) hi,
        hex_digit-hex_char (b % 16) lo,
        from_hex-hex bs hs,
      )
      (ap (λ x. ok (x ∷ bs)) (omega arith))
