-- ===== src/Python/Float.antt =====
-- `float`, for values that are whole numbers: what an `int` becomes in it, and sums and differences of
-- an `int` and a `float`. A double has 53 bits; the nearest one is taken, and of two equally near the
-- one whose last bit is 0. The range is not bounded here: above 2 ^ 1024 Python raises instead.
use zkp_rollup.Base.{
  ℕ, zero, suc, ◌+◌, ◌*◌, ◌/◌, ◌%◌, ◌^◌, ◌<◌, ◌≡◌, refl, true, ltb, arith, Bool-cases, inl, inr,
  if◌then◌else◌,
}
use zkp_rollup.Base.Int.{ℤ, pos, negsuc, pos_part, neg_part, sub_ℕ, ◌+ℤ◌, ◌-ℤ◌}

-- The unit of the last bit, from `u`, for a number below 2 ^ 53 times `u` times 2 ^ fuel.
unfoldable pub unit_from : ℕ → ℕ → ℕ → ℕ
unit_from zero u n = u
unit_from (suc fuel) u n =
    let more = unit_from fuel (2 * u) n in if ltb n (2 ^ 53 * u) then u else more

-- The multiple of `u` next to q * u + r.
unfoldable pub round_half_even : ℕ → ℕ → ℕ → ℕ
round_half_even u q r =
    if ltb (2 * r) u then q * u else if ltb u (2 * r) then (q + 1) * u else (q + q % 2) * u

unfoldable pub nearest_wide : ℕ → ℕ
unfolding unit_from round_half_even
nearest_wide n = let u = unit_from 1024 1 n in round_half_even u (n / u) (n % u)

unfoldable pub nearest : ℕ → ℕ
unfolding nearest_wide
nearest n = if ltb n (2 ^ 53) then n else nearest_wide n

-- `float(n)`
unfoldable pub to_float : ℤ → ℤ
unfolding nearest
to_float (pos n) = pos (nearest n)
to_float (negsuc n) = sub_ℕ 0 (nearest (suc n))

-- `a + x` and `a - x`, with an `int` on the left and a `float` on the right
infixl 65 ◌+f◌ ◌-f◌
unfoldable pub ◌+f◌ : ℤ → ℤ → ℤ
a +f x = to_float (to_float a +ℤ x)

unfoldable pub ◌-f◌ : ℤ → ℤ → ℤ
a -f x = to_float (to_float a -ℤ x)

ltb_lt : (a b : ℕ) → ltb a b ≡ true → a < b
ltb_lt a b h = ground arith

-- What the fuel allows for: after `fuel` doublings of `u`.
unfoldable pub doubled : ℕ → ℕ → ℕ
doubled zero u = u
doubled (suc fuel) u = doubled fuel (2 * u)

-- The fuel is enough for a number below 2 ^ 53 times what it allows for: it has 53 bits of the unit.
unit_from-enough : (fuel u n : ℕ) → n < 2 ^ 53 * doubled fuel u → n < 2 ^ 53 * unit_from fuel u n
unfolding doubled unit_from
unit_from-enough zero u n h = h
unit_from-enough (suc fuel) u n h = elim (Bool-cases (ltb n (2 ^ 53 * u))) [
  | inl e ↦ rw e (ltb_lt n (2 ^ 53 * u) e)
  | inr e ↦ rw e (unit_from-enough fuel (2 * u) n h)
]

-- A whole number with at most 53 bits.
abbrev pub IsExact : ℤ → Type 0
IsExact z = (pos_part z < 2 ^ 53) × (neg_part z < 2 ^ 53)

pub natural-IsExact : (z : ℤ) (n : ℕ) → z ≡ pos n → n < 2 ^ 53 → IsExact z
natural-IsExact z n e h = rw e (h, omega arith)

kept_below : (n wide bound : ℕ) → n < bound → (if ltb n bound then n else wide) ≡ n
kept_below n wide bound h = ground (arith, h)

pub nearest-exact : (n : ℕ) → n < 2 ^ 53 → nearest n ≡ n
unfolding nearest
nearest-exact n h = kept_below n (nearest_wide n) (2 ^ 53) h

pub to_float-exact : (z : ℤ) → IsExact z → to_float z ≡ z
unfolding to_float
to_float-exact (pos n) (h, k) = rw (nearest-exact n h) refl
to_float-exact (negsuc n) (h, k) = rw (nearest-exact (suc n) k) (ground arith)

pub +f-exact : (a x : ℤ) → IsExact a → IsExact (a +ℤ x) → a +f x ≡ a +ℤ x
unfolding ◌+f◌
+f-exact a x h k = rw (to_float-exact a h) (to_float-exact (a +ℤ x) k)

pub -f-exact : (a x : ℤ) → IsExact a → IsExact (a -ℤ x) → a -f x ≡ a -ℤ x
unfolding ◌-f◌
-f-exact a x h k = rw (to_float-exact a h) (to_float-exact (a -ℤ x) k)

-- One less than 2 ^ 60 is not a double: a payer of 1 keeps the whole balance.
one_is_lost : pos 1152921504606846976 -f pos 1 ≡ pos 1152921504606846976
unfolding ◌-f◌ to_float nearest nearest_wide unit_from round_half_even ◌-ℤ◌
one_is_lost = refl

-- Ties go to the even neighbour.
tie_down : to_float (pos 9007199254740993) ≡ pos 9007199254740992
unfolding to_float nearest nearest_wide unit_from round_half_even
tie_down = refl

tie_up : to_float (negsuc 9007199254740994) ≡ negsuc 9007199254740995
unfolding to_float nearest nearest_wide unit_from round_half_even
tie_up = refl
