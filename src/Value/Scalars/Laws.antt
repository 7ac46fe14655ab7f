-- ===== src/Value/Scalars/Laws.antt =====
-- The forms of the Values that src/value/scalars.js returns, and their texts.
use lagrange_images.Base.Integers.{ℤ, pos, negsuc}
use lagrange_images.Base.{
  ℕ, suc, ◌≡◌, ◌≢◌, refl, true, false, some, [], ◌∷◌, length, ◌==◌, arith, inl, inr, List-cases,
}
use lagrange_images.Base.Decimal.{
  to_decimal, all_digits, of_decimal, of_decimal-to_decimal, to_decimal-all_digits,
  to_decimal_ne_nil,
}
use lagrange_images.Base.Result.{ok}
use lagrange_images.Support.PortableBytes.{Bytes, Text, bytes_equal, base64_encode, base64_decode}
use lagrange_images.Value.Kinds.{Value, integer, float64, bytes, ref, pinned_ref}
use lagrange_images.Value.Scalars.{signed_decimal, is_digits, parse_integer, all_hex, lower}

-- The text of an integer is read as the integer.
digits_of_decimal : (n : ℕ) → is_digits (to_decimal n) ≡ true
unfolding is_digits
digits_of_decimal n = elim (List-cases (to_decimal n)) [
  | inl e ↦ absurd (to_decimal_ne_nil n e)
  | inr (c, cs, e) ↦ rw e (rw e at (to_decimal-all_digits n))
]

first_digit : (n c : ℕ) (cs : Text) → to_decimal n ≡ c ∷ cs → (c == b'-') ≡ false
unfolding all_digits
first_digit n c cs e = ground (arith, rw e at (to_decimal-all_digits n))

pub parse_integer-signed_decimal : (i : ℤ) → parse_integer (signed_decimal i) ≡ some i
unfolding parse_integer signed_decimal
parse_integer-signed_decimal (pos n) = elim (List-cases (to_decimal n)) [
  | inl e ↦ absurd (to_decimal_ne_nil n e)
  | inr (c, cs, e) ↦
      let digits : is_digits (c ∷ cs) ≡ true = rw e at (digits_of_decimal n) in
      let value : of_decimal (c ∷ cs) ≡ n = rw e at (of_decimal-to_decimal n) in
      rw (e, parse_integer, first_digit n c cs e, digits, value) refl
]
parse_integer-signed_decimal (negsuc n) =
    rw (digits_of_decimal (suc n), of_decimal-to_decimal (suc n)) refl

pub lower_lem :
    (t : Text)
    → all_hex t ≡ true
    → (all_hex (lower t) ≡ true) × (lower (lower t) ≡ lower t) × (length (lower t) ≡ length t)
unfolding all_hex lower
lower_lem [] h = (refl, refl, refl)
lower_lem (c ∷ cs) h = ground (arith, lower_lem cs)

-- The forms that `canonicalizeValue` returns.
unfoldable pub IsCanonical : Value → Type 0
IsCanonical (Value.boolean b) = Unit
IsCanonical (integer t) = (i : ℤ) × (t ≡ signed_decimal i)
IsCanonical (float64 t) = (length t ≡ 16) × (all_hex t ≡ true) × (lower t ≡ t)
IsCanonical (Value.text t) = Unit
IsCanonical (bytes t) =
    (bs : Bytes) × (base64_decode t ≡ ok bs) × (bytes_equal (base64_encode bs) t ≡ true)
IsCanonical (ref i o) = (i ≢ []) × (o ≢ [])
IsCanonical (pinned_ref i o r) = (i ≢ []) × (o ≢ []) × (r ≢ [])
