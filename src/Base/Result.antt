-- ===== src/Base/Result.antt =====
-- What a JavaScript call does: it throws an error, or it returns a value.
use mathlib.Core.Path.{◌≡◌, refl}
use mathlib.Core.Logic.{◌⊎◌, inl, inr}
use native.Mathlib.Omega.{arith}
use mathlib.Core.Bool.{Bool, true, false, not}

pub data Result {ℓ} (E A : Type ℓ) : Type ℓ where
  err : E → Result E A
  ok : A → Result E A

module _ {ℓ} {E A : Type ℓ} where
  abbrev pub is_ok : Result E A → Bool
  is_ok r = elim r [ err e ↦ false | ok a ↦ true ]

  pub eq_of_ok : {a b : A} → ◌≡◌ {A = Result E A} (ok a) (ok b) → a ≡ b
  eq_of_ok h = cc

  -- Returned or thrown, with what it was.
  pub Result-cases : (r : Result E A) → ((a : A) × (r ≡ ok a)) ⊎ ((e : E) × (r ≡ err e))
  Result-cases (err e) = inr (e, refl)
  Result-cases (ok a) = inl (a, refl)

module _ {ℓ} {E A B : Type ℓ} where
  -- The statements after a call are run if it returned.
  infixl 5 ◌>>=◌ ◌>>◌
  abbrev pub ◌>>=◌ : Result E A → (A → Result E B) → Result E B
  r >>= rest = elim r [ err e ↦ err e | ok a ↦ rest a ]

  abbrev pub ◌>>◌ : Result E A → Result E B → Result E B
  r >> rest = elim r [ err e ↦ err e | ok _ ↦ rest ]

  -- If the statements after a call returned, the call did.
  pub bind-eq-ok :
      (r : Result E A) (rest : A → Result E B) {b : B}
      → (r >>= rest) ≡ ok b
      → (a : A) × (r ≡ ok a) × (rest a ≡ ok b)
  bind-eq-ok (err e) rest h = absurd (ground arith)
  bind-eq-ok (ok a) rest h = (a, refl, h)

-- `if (!test) throw e;`
abbrev pub ensure {ℓ} : {E : Type ℓ} → Bool → E → Result E Unit
ensure test e = elim test [ true ↦ ok tt | false ↦ err e ]

pub ensure-not {ℓ} :
    {E : Type ℓ} (b : Bool) (e : E) → ◌≡◌ {A = Result E Unit} (ensure (not b) e) (ok tt) → b ≡ false
ensure-not false e h = refl
ensure-not true e h = cc
