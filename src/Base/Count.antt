-- ===== src/Base/Count.antt =====
-- How many elements of a list pass a test.
use zkp_rollup.Base.Tests.{Bool-cases}
use Prim.Native.Nat.{ℕ, zero, suc, ◌+◌, ◌≤◌}
use mathlib.Core.Path.{◌≡◌, refl}
use mathlib.Core.Logic.{inl, inr}
use mathlib.Core.Bool.{Bool, true, false, ◌&&◌}
use mathlib.Core.List.{List, [], ◌∷◌, ◌++◌, map}
use native.Mathlib.Omega.{arith}
use zkp_rollup.Base.Lists.{length, take, filter}

module _ {ℓ} {A : Type ℓ} where
  abbrev pub count : (A → Bool) → List A → ℕ
  count p xs = length (filter p xs)

  pub count_later :
      (p : A → Bool) (x : A) (ys : List A) → p x ≡ false → count p (x ∷ ys) ≡ count p ys
  count_later p x ys h = ground (arith, h)

  pub count_here :
      (p : A → Bool) (x : A) (ys : List A) → p x ≡ true → count p (x ∷ ys) ≡ suc (count p ys)
  count_here p x ys h = ground (arith, h)

  pub count_more : (p : A → Bool) (x : A) (ys : List A) → count p ys ≤ count p (x ∷ ys)
  count_more p x ys = ground arith

  pub count-append : (p : A → Bool) (xs ys : List A) → count p (xs ++ ys) ≡ count p xs + count p ys
  count-append p [] ys = omega arith
  count-append p (x ∷ xs) ys = ground (arith, count-append p xs ys)

  pub count-take-le : (p : A → Bool) (n : ℕ) (xs : List A) → count p (take n xs) ≤ count p xs
  count-take-le p zero xs = omega arith
  count-take-le p (suc n) [] = omega arith
  count-take-le p (suc n) (x ∷ xs) = ground (arith, count-take-le p n xs)

  pub count-filter :
      (p q : A → Bool) (xs : List A) → count p (filter q xs) ≡ count (λ x. q x && p x) xs
  count-filter p q [] = refl
  count-filter p q (x ∷ xs) = ground (arith, count-filter p q xs)

  -- A test that implies another passes no more often.
  pub count_imp-le :
      (p q : A → Bool)
      → ((x : A) → p x ≡ true → q x ≡ true)
      → (xs : List A) → count p xs ≤ count q xs
  count_imp-le p q h [] = omega arith
  count_imp-le p q h (x ∷ xs) = elim (Bool-cases (p x)) [
    | inl e ↦ ground (arith, e, h x e, count_imp-le p q h xs)
    | inr e ↦ ground (arith, e, count_imp-le p q h xs)
  ]

  pub count_none : (p : A → Bool) → ((x : A) → p x ≡ false) → (xs : List A) → count p xs ≡ 0
  count_none p h [] = refl
  count_none p h (x ∷ xs) = rw (h x) (count_none p h xs)

pub count-map {ℓ κ} :
    {A : Type ℓ} {B : Type κ} (p : B → Bool) (f : A → B) (xs : List A)
    → count p (map f xs) ≡ count (λ x. p (f x)) xs
count-map p f [] = refl
count-map p f (x ∷ xs) = ground (arith, count-map p f xs)
