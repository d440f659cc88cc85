-- ===== src/Base/Equality.antt =====
-- Python's `==` on texts, on bytes and on values that may be None.
use Prim.Native.Nat.{ℕ}
use Prim.Native.String.{String}
use mathlib.Core.Path.{◌≡◌, refl, ap, sym}
use mathlib.Core.Logic.{◌≢◌, ite, dite}
use mathlib.Core.Bool.{Bool, true, false, Bool-discrete}
use mathlib.Core.Option.{Option, none, some, none-ne-some, some-ne-none, some-injective}
use mathlib.Core.List.{List}
use native.Mathlib.Omega.{arith}
use native.Mathlib.Decide.{ℕ_discrete}
use text.Mathlib.Text
use text.Mathlib.TextEquality.{eq_iff}

pub record Eq {ℓ} (A : Type ℓ) : Type ℓ where
  pub dec : Discrete A

module _ {ℓ} {A : Type ℓ} ⦃e : Eq A⦄ where
  infix 50 ◌==◌
  abbrev pub ◌==◌ : A → A → Bool
  a == b = ite (e.dec a b) true false

  pub beq_self : (a : A) → (a == a) ≡ true
  beq_self a = ground arith

  pub beq_ne : (a b : A) → a ≢ b → (a == b) ≡ false
  beq_ne a b h = ground arith

  pub beq_eq : (a b : A) → (a == b) ≡ true → a ≡ b
  beq_eq a b h = ground arith

  pub beq_comm : (a b : A) → (a == b) ≡ (b == a)
  beq_comm a b = elim (e.dec a b) [
    | yes p ↦ rw p
    | no n ↦ rw (beq_ne a b n, beq_ne b a (λ p. n (sym p)))
  ]

  option_dec : Discrete (Option A)
  option_dec none none = yes refl
  option_dec none (some b) = no (none-ne-some b)
  option_dec (some a) none = no (some-ne-none a)
  option_dec (some a) (some b) =
      dite (e.dec a b) (λ p. yes (ap some p)) (λ n. no (λ p. n (some-injective a b p)))

  instance unfoldable pub option_eq : Eq (Option A)
  unfolding option_dec
  option_eq = record { dec = option_dec }

instance unfoldable pub string_eq : Eq String
string_eq = record {
  dec = λ s t.
      dite (Bool-discrete (Text.◌==◌ s t) true) (λ same. yes ((eq_iff s t).0 same))
        (λ differ. no (λ p. differ ((eq_iff s t).1 p)));
}

instance unfoldable pub ℕ_eq : Eq ℕ
unfolding ℕ_discrete
ℕ_eq = record { dec = ℕ_discrete }

-- Two byte strings are the same.
pub bytes_discrete : Discrete (List ℕ)
bytes_discrete = hlevel ℕ_discrete
