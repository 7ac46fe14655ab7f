-- ===== src/Support/PortableBytes/Base64.antt =====
-- Decoding gives back what was encoded, over both alphabets.
use lagrange_images.Base.{
  ℕ, zero, suc, ◌+◌, ◌-◌, ◌*◌, ◌/◌, ◌%◌, ◌^◌, ◌<◌, ◌≤◌, ◌≡◌, refl, ap, ◌∙◌, Bool, true, false, not,
  ◌&&◌, none, some, [], ◌∷◌, ◌++◌, All, arith, ◌==◌,
}
use lagrange_images.Base.Result.{ok}
use lagrange_images.Support.PortableBytes.{
  Bytes, Text, char_of, index_of, shift_in, push, padding, encode_base64_with, decode_loop,
  base64_alphabet, base64url_alphabet, base64_encode, base64_decode, base64url_encode,
  base64url_decode,
}

abbrev pub IsByte : ℕ → Type 0
IsByte b = b < 256

-- An alphabet of 64 distinct characters, '=' not among them.
abbrev pub IsAlphabet : Text → Type 0
IsAlphabet a =
    (i : ℕ) → i < 64 → (index_of (char_of a i) a ≡ some i) × ((char_of a i == b'=') ≡ false)

module _ (a : Text) (chars : IsAlphabet a) where
  decode_char_wait :
      (acc bits i : ℕ) (cs : Text)
      → i < 64
      → bits + 6 < 8
      → decode_loop a acc bits (char_of a i ∷ cs) ≡ decode_loop a (shift_in acc i) (bits + 6) cs
  unfolding decode_loop
  decode_char_wait acc bits i cs h w = ground (arith, chars i h)

  decode_char_push :
      (acc bits i : ℕ) (cs : Text)
      → i < 64
      → 8 ≤ bits + 6
      → decode_loop a acc bits (char_of a i ∷ cs)
        ≡ push
            (shift_in acc i / 2 ^ (bits + 6 - 8) % 256)
            (decode_loop a (shift_in acc i) (bits + 6 - 8) cs)
  unfolding decode_loop
  decode_char_push acc bits i cs h w = ground (arith, chars i h)

  -- The bits below the accumulator's last twelve do not reach the byte that is read.
  first_byte :
      (acc i j : ℕ) → i < 64 → j < 64 → shift_in (shift_in acc i) j / 2 ^ 4 % 256 ≡ i * 4 + j / 16
  unfolding shift_in
  first_byte acc i j h k = omega arith

  second_byte :
      (acc i j : ℕ)
      → i < 64
      → j < 64
      → shift_in (shift_in acc i) j / 2 ^ 2 % 256 ≡ i % 16 * 16 + j / 4
  unfolding shift_in
  second_byte acc i j h k = omega arith

  third_byte :
      (acc i j : ℕ) → i < 64 → j < 64 → shift_in (shift_in acc i) j / 2 ^ 0 % 256 ≡ i % 4 * 64 + j
  unfolding shift_in
  third_byte acc i j h k = omega arith

  decode_pair :
      (acc i j : ℕ) (cs : Text)
      → i < 64
      → j < 64
      → decode_loop a acc 0 (char_of a i ∷ char_of a j ∷ cs)
        ≡ push (i * 4 + j / 16) (decode_loop a (shift_in (shift_in acc i) j) 4 cs)
  decode_pair acc i j cs h k =
      decode_char_wait acc 0 i (char_of a j ∷ cs) h (omega arith)
      ∙ decode_char_push (shift_in acc i) 6 j cs k (omega arith)
      ∙ ap (λ b. push b (decode_loop a (shift_in (shift_in acc i) j) 4 cs)) (first_byte acc i j h k)

  decode_third :
      (acc i j : ℕ) (cs : Text)
      → i < 64
      → j < 64
      → decode_loop a (shift_in acc i) 4 (char_of a j ∷ cs)
        ≡ push (i % 16 * 16 + j / 4) (decode_loop a (shift_in (shift_in acc i) j) 2 cs)
  decode_third acc i j cs h k =
      decode_char_push (shift_in acc i) 4 j cs k (omega arith)
      ∙ ap (λ b. push b (decode_loop a (shift_in (shift_in acc i) j) 2 cs))
          (second_byte acc i j h k)

  decode_fourth :
      (acc i j : ℕ) (cs : Text)
      → i < 64
      → j < 64
      → decode_loop a (shift_in acc i) 2 (char_of a j ∷ cs)
        ≡ push (i % 4 * 64 + j) (decode_loop a (shift_in (shift_in acc i) j) 0 cs)
  decode_fourth acc i j cs h k =
      decode_char_push (shift_in acc i) 2 j cs k (omega arith)
      ∙ ap (λ b. push b (decode_loop a (shift_in (shift_in acc i) j) 0 cs)) (third_byte acc i j h k)

  -- What is left in the accumulator ends at the padding or at the end of the text.
  decode_padding : (acc bits : ℕ) (pad : Bool) → decode_loop a acc bits (padding pad) ≡ ok []
  unfolding decode_loop
  decode_padding acc bits true = refl
  decode_padding acc bits false = refl

  decode_padding_twice :
      (acc bits : ℕ) (pad : Bool) → decode_loop a acc bits (padding pad ++ padding pad) ≡ ok []
  unfolding decode_loop
  decode_padding_twice acc bits true = refl
  decode_padding_twice acc bits false = refl

  decode-encode :
      (acc : ℕ) (pad : Bool) (bs : Bytes)
      → All IsByte bs
      → decode_loop a acc 0 (encode_base64_with a pad bs) ≡ ok bs
  unfolding encode_base64_with
  decode-encode acc pad [] h = unfold decode_loop in refl
  decode-encode acc pad (b0 ∷ []) h =
      rw
        (decode_pair acc (b0 / 4) (b0 % 4 * 16) (padding pad ++ padding pad) (omega arith)
          (omega arith))
        (rw (decode_padding_twice (shift_in (shift_in acc (b0 / 4)) (b0 % 4 * 16)) 4 pad)
          (ap (λ b. ok (b ∷ [])) (omega arith)))
  decode-encode acc pad (b0 ∷ b1 ∷ []) h =
      rw
        (
          decode_pair acc (b0 / 4) (b0 % 4 * 16 + b1 / 16) _ (omega arith) (omega arith),
          decode_third (shift_in acc (b0 / 4)) (b0 % 4 * 16 + b1 / 16) (b1 % 16 * 4) (padding pad)
              (omega arith) (omega arith),
          decode_padding _ 2 pad,
        )
        (ground arith)
  decode-encode acc pad (b0 ∷ b1 ∷ b2 ∷ rest) h =
      rw
        (
          decode_pair acc (b0 / 4) (b0 % 4 * 16 + b1 / 16) _ (omega arith) (omega arith),
          decode_third (shift_in acc (b0 / 4)) (b0 % 4 * 16 + b1 / 16) (b1 % 16 * 4 + b2 / 64) _
              (omega arith) (omega arith),
          decode_fourth (shift_in (shift_in acc (b0 / 4)) (b0 % 4 * 16 + b1 / 16))
              (b1 % 16 * 4 + b2 / 64) (b2 % 64) _ (omega arith) (omega arith),
          decode-encode
              (shift_in
                (shift_in (shift_in (shift_in acc (b0 / 4)) (b0 % 4 * 16 + b1 / 16))
                  (b1 % 16 * 4 + b2 / 64))
                (b2 % 64))
              pad rest h.1.1.1,
        )
        (ground arith)

-- A test that passes at every number below a bound, by evaluation.
passes : (ℕ → Bool) → ℕ → Bool
passes test bound = elim bound [ zero ↦ true | suc (k → before) ↦ before && test k ]

passes_at :
    (test : ℕ → Bool) (bound : ℕ) → passes test bound ≡ true → (i : ℕ) → i < bound → test i ≡ true
unfolding passes
passes_at test zero h i lt = elim lt [ ]
passes_at test (suc k) h i lt = ground (arith, passes_at test k (ground arith) i)

is_index : Text → ℕ → Bool
is_index a i =
    elim (index_of (char_of a i) a) [ none ↦ false | some j ↦ j == i ] && not (char_of a i == b'=')

is_index_sound :
    (a : Text) (i : ℕ)
    → is_index a i ≡ true
    → (index_of (char_of a i) a ≡ some i) × ((char_of a i == b'=') ≡ false)
unfolding is_index
is_index_sound a i h = ground arith

base64_table : passes (is_index base64_alphabet) 64 ≡ true
unfolding passes is_index char_of index_of
base64_table = refl

base64url_table : passes (is_index base64url_alphabet) 64 ≡ true
unfolding passes is_index char_of index_of
base64url_table = refl

base64_alphabet-IsAlphabet : IsAlphabet base64_alphabet
base64_alphabet-IsAlphabet i h =
    is_index_sound base64_alphabet i (passes_at (is_index base64_alphabet) 64 base64_table i h)

base64url_alphabet-IsAlphabet : IsAlphabet base64url_alphabet
base64url_alphabet-IsAlphabet i h =
    is_index_sound base64url_alphabet i
      (passes_at (is_index base64url_alphabet) 64 base64url_table i h)

-- Decoding the base64 text of a byte sequence gives the sequence, padded text and unpadded URL-safe
-- text alike.
pub base64_round_trip :
    (bs : Bytes)
    → All IsByte bs
    → (base64_decode (base64_encode bs) ≡ ok bs) × (base64url_decode (base64url_encode bs) ≡ ok bs)
unfolding base64_encode base64_decode base64url_encode base64url_decode
base64_round_trip bs h = (
  decode-encode base64_alphabet base64_alphabet-IsAlphabet 0 true bs h,
  decode-encode base64url_alphabet base64url_alphabet-IsAlphabet 0 false bs h,
)

-- No character of the text is this one.
abbrev pub Avoids : ℕ → Text → Type 0
Avoids c text = All (λ d. (d == c) ≡ false) text

encode-Avoids :
    (a : Text) (sep : ℕ)
    → ((i : ℕ) → i < 64 → (char_of a i == sep) ≡ false)
    → (bs : Bytes) → All IsByte bs
    → Avoids sep (encode_base64_with a false bs)
unfolding encode_base64_with
encode-Avoids a sep h [] v = tt
encode-Avoids a sep h (b0 ∷ []) v = (h (b0 / 4) (omega arith), (h (b0 % 4 * 16) (omega arith), tt))
encode-Avoids a sep h (b0 ∷ b1 ∷ []) v = (
  h (b0 / 4) (omega arith),
  (h (b0 % 4 * 16 + b1 / 16) (omega arith), (h (b1 % 16 * 4) (omega arith), tt)),
)
encode-Avoids a sep h (b0 ∷ b1 ∷ b2 ∷ rest) v = (
  h (b0 / 4) (omega arith),
  (
    h (b0 % 4 * 16 + b1 / 16) (omega arith),
    (
      h (b1 % 16 * 4 + b2 / 64) (omega arith),
      (h (b2 % 64) (omega arith), encode-Avoids a sep h rest v.1.1.1),
    ),
  ),
)

not_char : Text → ℕ → ℕ → Bool
not_char a sep i = not (char_of a i == sep)

not_char_sound : (a : Text) (sep i : ℕ) → not_char a sep i ≡ true → (char_of a i == sep) ≡ false
unfolding not_char
not_char_sound a sep i h = ground arith

-- The text of base64url holds no character that the alphabet does not hold.
base64url_encode-Avoids :
    (sep : ℕ)
    → passes (not_char base64url_alphabet sep) 64 ≡ true
    → (bs : Bytes) → All IsByte bs
    → Avoids sep (base64url_encode bs)
unfolding base64url_encode
base64url_encode-Avoids sep table bs v =
    encode-Avoids base64url_alphabet sep
      (λ i h.
        not_char_sound base64url_alphabet sep i
          (passes_at (not_char base64url_alphabet sep) 64 table i h))
      bs v

pub base64url_encode_no_dot : (bs : Bytes) → All IsByte bs → Avoids b'.' (base64url_encode bs)
unfolding passes not_char char_of
base64url_encode_no_dot = base64url_encode-Avoids b'.' refl

pub base64url_encode_no_colon : (bs : Bytes) → All IsByte bs → Avoids b':' (base64url_encode bs)
unfolding passes not_char char_of
base64url_encode_no_colon = base64url_encode-Avoids b':' refl
