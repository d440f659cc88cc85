-- ===== src/Base/Bag.antt =====
-- Lists up to order, and steps whose order does not matter.
use Prim.Native.Nat.{◌≤◌}
use mathlib.Core.Path.{◌≡◌, refl, sym, ap, ◌∙◌}
use mathlib.Core.Logic.{◌≢◌, inl, inr, ite}
use zkp_rollup.Base.Tests.{Bool-cases}
use mathlib.Core.Bool.{Bool, true, false}
use mathlib.Core.List.{List, [], ◌∷◌, map}
use mathlib.Core.Quot
use mathlib.Core.Quot.{Quot}
use native.Mathlib.Omega.{arith}
use zkp_rollup.Base.Count.{count, count-map, count_here, count_later}

-- Two lists hold the same items, each as often: as many pass any test.
abbrev pub SameItems {ℓ} : {A : Type ℓ} → List A → List A → Type ℓ
SameItems {A} xs ys = (test : A → Bool) → count test xs ≡ count test ys

abbrev pub Bag {ℓ} : Type ℓ → Type ℓ
Bag A = Quot {α = List A} SameItems

abbrev pub of_list {ℓ} : {A : Type ℓ} → List A → Bag A
of_list = Quot.mk

pub map-SameItems {ℓ κ} :
    {A : Type ℓ} {B : Type κ} (f : A → B) (xs ys : List A)
    → SameItems xs ys
    → SameItems (map f xs) (map f ys)
map-SameItems f xs ys same test =
    count-map test f xs ∙ same (λ x. test (f x)) ∙ sym (count-map test f ys)

module _ {ℓ κ} {A : Type ℓ} {S : Type κ} (step : A → S → S) where
  -- One step for each element, the first one first.
  abbrev pub run_all : List A → S → S
  run_all [] s = s
  run_all (x ∷ xs) s = run_all xs (step x s)

  module _ (dec : Discrete A)
      (step_comm : (x y : A) (s : S) → step x (step y s) ≡ step y (step x s)) where
    -- An element of a list can be run first.
    record TakenOut (x : A) (ys : List A) : Type (ℓ ⊔ κ) where
      rest : List A
      same : SameItems ys (x ∷ rest)
      run : (s : S) → run_all ys s ≡ run_all rest (step x s)

    abbrev is_item : A → A → Bool
    is_item x y = ite (dec y x) true false

    is_item_self : (x : A) → is_item x x ≡ true
    is_item_self x = ground arith

    is_item_ne : (x y : A) → y ≢ x → is_item x y ≡ false
    is_item_ne x y n = ground arith

    -- What is counted in front does not tell the tails apart.
    count_tails :
        (test : A → Bool) (x : A) (xs ys : List A)
        → count test (x ∷ xs) ≡ count test (x ∷ ys)
        → count test xs ≡ count test ys
    count_tails test x xs ys h = elim (Bool-cases (test x)) [
      | inl e ↦ omega (arith, h, count_here test x xs e, count_here test x ys e)
      | inr e ↦ omega (arith, h, count_later test x xs e, count_later test x ys e)
    ]

    take_out : (x : A) (ys : List A) → 1 ≤ count (is_item x) ys → TakenOut x ys
    take_out x [] h = absurd (omega (arith, h))
    take_out x (y ∷ ys) h = elim (dec y x) [
      | yes e ↦ record { rest = ys; same = λ test. rw e; run = λ s. rw e }
      | no n ↦
          let there : 1 ≤ count (is_item x) ys =
            omega (arith, h, count_later (is_item x) y ys (is_item_ne x y n)) in
          let t = take_out x ys there in
          record {
            rest = y ∷ t.rest;
            same = λ test. ground (arith, t.same test);
            run = λ s. t.run (step y s) ∙ ap (run_all t.rest) (step_comm x y s);
          }
    ]

    pub run_all-SameItems :
        (xs ys : List A) → SameItems xs ys → (s : S) → run_all xs s ≡ run_all ys s
    run_all-SameItems [] [] same s = refl
    run_all-SameItems [] (y ∷ ys) same s = absurd (let e = same (λ z. true) in omega (arith, e))
    run_all-SameItems (x ∷ xs) ys same s =
        let t =
          take_out x ys
            (omega (arith, same (is_item x), count_here (is_item x) x xs (is_item_self x))) in
        run_all-SameItems xs t.rest (λ test. count_tails test x xs t.rest (same test ∙ t.same test))
          (step x s)
        ∙ sym (t.run s)

    -- The run of a bag, when the states are a set.
    unfoldable pub run_bag : IsSet S → Bag A → S → S
    run_bag set b s =
        Quot.lift set (λ xs. run_all xs s) (λ xs ys same. run_all-SameItems xs ys same s) b
