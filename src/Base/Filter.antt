-- ===== src/Base/Filter.antt =====
-- What passes a test: `filter` keeps that and no more, and counts tell whether all pass.
use zkp_rollup.Base.Tests.{Bool-cases}
use Prim.Native.Nat.{ℕ, zero, suc, ◌≤◌}
use mathlib.Core.Path.{◌≡◌, refl, subst}
use mathlib.Core.Option.{some}
use mathlib.Core.Logic.{inl, inr}
use mathlib.Core.Bool.{Bool, true, false, not}
use mathlib.Core.List.{List, [], ◌∷◌, ◌++◌, map}
use native.Mathlib.Omega.{arith}
use zkp_rollup.Base.Lists.{length, take, drop, filter, All, first}

module _ {ℓ} {A : Type ℓ} (p : A → Bool) where
  pub filter-All : (xs : List A) → All (λ x. p x ≡ true) (filter p xs)
  filter-All [] = tt
  filter-All (x ∷ xs) = ground (arith, filter-All xs)

  pub None-filter : (xs : List A) → length (filter (λ x. not (p x)) (filter p xs)) ≡ 0
  None-filter [] = refl
  None-filter (x ∷ xs) = ground (arith, None-filter xs)

  pub All-of_none :
      (xs : List A) → length (filter (λ x. not (p x)) xs) ≡ 0 → All (λ x. p x ≡ true) xs
  All-of_none [] h = tt
  All-of_none (x ∷ xs) h = ground (arith, All-of_none xs)

  pub filter_none : (xs : List A) → All (λ x. p x ≡ false) xs → filter p xs ≡ []
  filter_none [] h = refl
  filter_none (x ∷ xs) h = ground (arith, filter_none xs h.1)

pub None-filter_imp {ℓ} :
    {A : Type ℓ} (p q : A → Bool) (xs : List A)
    → All (λ x. p x ≡ true → q x ≡ true) xs
    → length (filter (λ x. not (q x)) (filter p xs)) ≡ 0
None-filter_imp p q [] h = refl
None-filter_imp p q (x ∷ xs) (h, hs) = elim (Bool-cases (p x)) [
  | inl e ↦ ground (arith, h e, None-filter_imp p q xs hs)
  | inr e ↦ ground (arith, None-filter_imp p q xs hs)
]

pub map-All {ℓ κ} :
    {A : Type ℓ} (P : A → Type κ) (f : A → A) (g : (x : A) → P (f x)) (xs : List A)
    → All P (map f xs)
map-All P f g [] = tt
map-All P f g (x ∷ xs) = (g x, map-All P f g xs)

module _ {ℓ κ} {A : Type ℓ} (P : A → Type κ) where
  pub All-take : (n : ℕ) (xs : List A) → All P xs → All P (take n xs)
  All-take zero xs h = tt
  All-take (suc n) [] h = tt
  All-take (suc n) (x ∷ xs) h = (h.0, All-take n xs h.1)

  pub All-last : (xs : List A) (x : A) → All P (xs ++ x ∷ []) → P x
  All-last [] x h = h.0
  All-last (y ∷ xs) x h = All-last xs x h.1

  pub All-drop : (n : ℕ) (xs : List A) → All P xs → All P (drop n xs)
  All-drop zero xs h = h
  All-drop (suc n) [] h = tt
  All-drop (suc n) (x ∷ xs) h = All-drop n xs h.1

  pub All-map {μ} : {Q : A → Type μ} (f : (x : A) → P x → Q x) (xs : List A) → All P xs → All Q xs
  All-map f [] h = tt
  All-map f (x ∷ xs) h = (f x h.0, All-map f xs h.1)

pub All-map2 {ℓ κ μ ν} :
    {A : Type ℓ} {P : A → Type κ} {Q : A → Type μ} {R : A → Type ν} (f : (x : A) → P x → Q x → R x)
    (xs : List A)
    → All P xs
    → All Q xs
    → All R xs
All-map2 f [] ps qs = tt
All-map2 f (x ∷ xs) (p, ps) (q, qs) = (f x p q, All-map2 f xs ps qs)

pub length-take-le {ℓ} : {A : Type ℓ} (n : ℕ) (xs : List A) → length (take n xs) ≤ n
length-take-le zero xs = omega arith
length-take-le (suc n) [] = omega arith
length-take-le (suc n) (x ∷ xs) = omega (arith, length-take-le n xs)

pub take-append-drop {ℓ} : {A : Type ℓ} (n : ℕ) (xs : List A) → take n xs ++ drop n xs ≡ xs
take-append-drop zero xs = refl
take-append-drop (suc n) [] = refl
take-append-drop (suc n) (x ∷ xs) = rw (take-append-drop n xs)

module _ {ℓ κ} {A : Type ℓ} (P : A → Type κ) where
  pub All-append : (xs ys : List A) → All P xs → All P ys → All P (xs ++ ys)
  All-append [] ys h k = k
  All-append (x ∷ xs) ys (p, h) k = (p, All-append xs ys h k)

pub first-All {ℓ κ} :
    {A : Type ℓ} (P : A → Type κ) (p : A → Bool) (xs : List A) (a : A)
    → All P xs
    → first p xs ≡ some a
    → P a
first-All P p [] a all h = cc
first-All P p (x ∷ xs) a (one, all) h = elim (Bool-cases (p x)) [
  | inl e ↦ let same : x ≡ a = ground (arith, e, h) in subst P same one
  | inr e ↦ first-All P p xs a all (ground (arith, e, h))
]
