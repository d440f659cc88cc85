-- ===== src/Python/Result.antt =====
-- A pure function that returns or raises.
use zkp_rollup.Base.{◌≡◌, ◌⊎◌, inl, inr, refl, Option, none, some}

-- The exceptions that the program meets. `tree_invariants_failed` is its own
-- `Exception("Tree invariants failed")`, `validation_error` is pydantic's, `system_exit` what
-- `sys.exit` raises.
pub data Error : Type 0 where
  type_error attribute_error index_error value_error overflow_error validation_error : Error
  tree_invariants_failed system_exit : Error

pub data Result {ℓ} (A : Type ℓ) : Type ℓ where
  ok : A → Result A
  raised : Error → Result A

pub Result-cases {ℓ} :
    {A : Type ℓ} (r : Result A) → ((a : A) × (r ≡ ok a)) ⊎ ((e : Error) × (r ≡ raised e))
Result-cases (ok a) = inl (a, refl)
Result-cases (raised e) = inr (e, refl)

module _ {ℓ κ} {A : Type ℓ} {B : Type κ} where
  infixl 10 ◌>>=◌
  abbrev pub ◌>>=◌ : Result A → (A → Result B) → Result B
  raised e >>= next = raised e
  ok a >>= next = next a

  -- A chain that returned returned at each link.
  pub >>=-eq-ok :
      (link : Result A) (next : A → Result B) {out : B}
      → (link >>= next) ≡ ok out
      → (a : A) × (link ≡ ok a) × (next a ≡ ok out)
  >>=-eq-ok (raised e) next returned = cc
  >>=-eq-ok (ok a) next returned = (a, refl, returned)

-- A value that must be there: using None in its place raises `e`.
abbrev pub require {ℓ} : {A : Type ℓ} → Error → Option A → Result A
require e none = raised e
require e (some a) = ok a

-- `try: return f() except Exception: return None`
abbrev pub except_none {ℓ} : {A : Type ℓ} → Result A → Option A
except_none (ok a) = some a
except_none (raised e) = none
