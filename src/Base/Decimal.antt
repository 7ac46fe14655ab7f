-- ===== src/Base/Decimal.antt =====
-- The decimal text of a number, as `String(n)` and `BigInt.toString(10)` write it, and its value.
use lagrange_images.Base.Tests.{ltb, leb, if◌then◌else◌, Bool-cases}
use Prim.Native.Nat.{ℕ, zero, suc, ◌+◌, ◌-◌, ◌*◌, ◌/◌, ◌%◌, ◌<◌}
use mathlib.Core.Path.{◌≡◌, refl}
use mathlib.Core.Logic.{◌≢◌, inl, inr}
use mathlib.Core.Bool.{Bool, true, ◌&&◌}
use mathlib.Core.List.{List, [], ◌∷◌, ◌++◌}
use native.Mathlib.Omega.{arith}

-- The fuel bounds the number of digits.
unfoldable pub digits_of : ℕ → ℕ → List ℕ
digits_of zero n = []
digits_of (suc f) n =
    let rest = digits_of f (n / 10) in
    if ltb n 10 then (b'0' + n) ∷ [] else rest ++ (b'0' + n % 10) ∷ []

unfoldable pub to_decimal : ℕ → List ℕ
unfolding digits_of
to_decimal n = digits_of (suc n) n

abbrev pub is_digit : ℕ → Bool
is_digit c = leb b'0' c && leb c b'9'

-- `/^\d*$/`
unfoldable pub all_digits : List ℕ → Bool
all_digits [] = true
all_digits (c ∷ cs) = is_digit c && all_digits cs

unfoldable pub value_from : ℕ → List ℕ → ℕ
value_from acc [] = acc
value_from acc (c ∷ cs) = value_from (acc * 10 + (c - b'0')) cs

-- `Number(text)` and `BigInt(text)` of a text of digits.
unfoldable pub of_decimal : List ℕ → ℕ
unfolding value_from
of_decimal cs = value_from 0 cs

value_from-append :
    (acc : ℕ) (xs : List ℕ) (c : ℕ)
    → value_from acc (xs ++ c ∷ []) ≡ value_from acc xs * 10 + (c - b'0')
unfolding value_from
value_from-append acc [] c = refl
value_from-append acc (x ∷ xs) c = value_from-append (acc * 10 + (x - b'0')) xs c

all_digits-append :
    (xs : List ℕ) (c : ℕ)
    → all_digits xs ≡ true
    → is_digit c ≡ true
    → all_digits (xs ++ c ∷ []) ≡ true
unfolding all_digits
all_digits-append [] c h k = ground arith
all_digits-append (x ∷ xs) c h k = ground (arith, all_digits-append xs c)

value-digits_of : (f n : ℕ) → n < f → value_from 0 (digits_of f n) ≡ n
unfolding digits_of
value-digits_of zero n h = elim h [ ]
value-digits_of (suc f) n h = elim (Bool-cases (ltb n 10)) [
  | inl small ↦ rw small (unfold value_from in omega arith)
  | inr large ↦ rw large (
      rw (value_from-append 0 (digits_of f (n / 10)) (b'0' + n % 10))
        (rw (value-digits_of f (n / 10) (ground arith)) (omega arith)))
]

digits_of-all_digits : (f n : ℕ) → all_digits (digits_of f n) ≡ true
unfolding digits_of
digits_of-all_digits zero n = unfold all_digits in refl
digits_of-all_digits (suc f) n = elim (Bool-cases (ltb n 10)) [
  | inl small ↦ rw small (unfold all_digits in ground arith)
  | inr large ↦ rw large (
      all_digits-append (digits_of f (n / 10)) (b'0' + n % 10) (digits_of-all_digits f (n / 10))
        (ground arith))
]

pub of_decimal-to_decimal : (n : ℕ) → of_decimal (to_decimal n) ≡ n
unfolding of_decimal to_decimal
of_decimal-to_decimal n = value-digits_of (suc n) n (omega arith)

pub to_decimal-all_digits : (n : ℕ) → all_digits (to_decimal n) ≡ true
unfolding to_decimal
to_decimal-all_digits n = digits_of-all_digits (suc n) n

append_ne_nil : (xs : List ℕ) (c : ℕ) → xs ++ c ∷ [] ≢ []
append_ne_nil [] c e = cc
append_ne_nil (x ∷ xs) c e = cc

pub to_decimal_ne_nil : (n : ℕ) → to_decimal n ≢ []
unfolding to_decimal
to_decimal_ne_nil n e = elim (Bool-cases (ltb n 10)) [
  | inl small ↦ ground arith
  | inr large ↦ ground (arith, append_ne_nil (digits_of n (n / 10)) (b'0' + n % 10))
]
