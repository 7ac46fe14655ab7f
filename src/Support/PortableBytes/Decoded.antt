-- ===== src/Support/PortableBytes/Decoded.antt =====
-- What the decoder of src/support/portable-bytes.js returns are bytes.
use lagrange_images.Base.{
  ℕ, ◌+◌, ◌-◌, ◌≡◌, refl, subst, [], ◌∷◌, leb, ◌==◌, arith, All, Bool-cases, Option-cases, inl, inr,
}
use lagrange_images.Base.Result.{Result, ok, err, eq_of_ok}
use lagrange_images.Support.PortableBytes.{
  Bytes, Text, Malformed, push, index_of, shift_in, decode_loop, base64_decode, base64_alphabet,
}
use lagrange_images.Support.PortableBytes.Base64.{IsByte}

push-IsByte :
    (b : ℕ) (r : Result Malformed Bytes) (bs : Bytes)
    → IsByte b
    → ((cs : Bytes) → r ≡ ok cs → All IsByte cs)
    → push b r ≡ ok bs
    → All IsByte bs
push-IsByte b (ok cs) bs h k e = subst (All IsByte) (eq_of_ok e) (h, k cs refl)
push-IsByte b (err x) bs h k e = absurd (cc e)

decode_loop-IsByte :
    (a : Text) (accumulator bits : ℕ) (cs : Text) (bs : Bytes)
    → decode_loop a accumulator bits cs ≡ ok bs
    → All IsByte bs
unfolding decode_loop
decode_loop-IsByte a accumulator bits [] bs e = subst (All IsByte) (eq_of_ok e) tt
decode_loop-IsByte a accumulator bits (c ∷ cs) bs e = elim (Bool-cases (c == b'=')) [
  | inl t ↦ subst (All IsByte) (eq_of_ok (rw (decode_loop, t) at e)) tt
  | inr f ↦ elim (Option-cases (index_of c a)) [
    | inl i ↦ absurd (cc (rw (decode_loop, f, i) at e))
    | inr (value, i) ↦ elim (Bool-cases (leb 8 (bits + 6))) [
      | inl full ↦
          push-IsByte _ (decode_loop a (shift_in accumulator value) (bits + 6 - 8) cs) bs
            (omega arith)
            (λ ds d. decode_loop-IsByte a (shift_in accumulator value) (bits + 6 - 8) cs ds d)
            (rw (decode_loop, f, i, full) at e)
      | inr more ↦
          decode_loop-IsByte a (shift_in accumulator value) (bits + 6) cs bs
            (rw (decode_loop, f, i, more) at e)
    ]
  ]
]

pub base64_decode-IsByte : (t : Text) (bs : Bytes) → base64_decode t ≡ ok bs → All IsByte bs
unfolding base64_decode
base64_decode-IsByte t bs h = decode_loop-IsByte base64_alphabet 0 0 t bs h
