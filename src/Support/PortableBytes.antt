-- ===== src/Support/PortableBytes.antt =====
-- src/support/portable-bytes.js: base64, base64url and hexadecimal, with no help from the host. A
-- byte sequence is a list of numbers below 256, a text the list of its UTF-16 code units.
-- The proofs are in the modules below.
pub mod Base64
pub mod Hex
pub mod Decoded
mod Tests
use lagrange_images.Base.{
  ℕ, zero, suc, ◌+◌, ◌-◌, ◌*◌, ◌/◌, ◌%◌, ◌^◌, Bool, true, false, ◌&&◌, ◌||◌, Option, none, some,
  List, [], ◌∷◌, ◌++◌, length, get_or, ltb, leb, ◌==◌, if◌then◌else◌, codes,
}
use lagrange_images.Base.Result.{Result, ok, err, ◌>>=◌}

abbrev pub Bytes : Type 0
Bytes = List ℕ

abbrev pub Text : Type 0
Text = List ℕ

abbrev pub base64_alphabet : Text
base64_alphabet = codes "ABCDEFGHIJKLMNOPQRSTUVWXYZabcdefghijklmnopqrstuvwxyz0123456789+/"

abbrev pub base64url_alphabet : Text
base64url_alphabet = codes "ABCDEFGHIJKLMNOPQRSTUVWXYZabcdefghijklmnopqrstuvwxyz0123456789-_"

-- The TypeErrors of the decoders.
pub data Malformed : Type 0 where
  invalid_base64 invalid_hex : Malformed

-- `alphabet[i]`, for an index below 64.
unfoldable pub char_of : Text → ℕ → ℕ
char_of alphabet i = get_or alphabet i 0

-- `pad ? '=' : ''`
abbrev pub padding : Bool → Text
padding true = b'=' ∷ []
padding false = []

-- `encodeBase64With`: three bytes a round. The operands of each `|` share no bit, so it is `+`.
unfoldable pub encode_base64_with : Text → Bool → Bytes → Text
unfolding char_of
encode_base64_with a pad [] = []
encode_base64_with a pad (b0 ∷ []) =
    char_of a (b0 / 4) ∷ char_of a (b0 % 4 * 16) ∷ (padding pad ++ padding pad)
encode_base64_with a pad (b0 ∷ b1 ∷ []) =
    char_of a (b0 / 4) ∷ char_of a (b0 % 4 * 16 + b1 / 16) ∷ char_of a (b1 % 16 * 4) ∷ padding pad
encode_base64_with a pad (b0 ∷ b1 ∷ b2 ∷ rest) =
    char_of a (b0 / 4)
    ∷ char_of a (b0 % 4 * 16 + b1 / 16)
    ∷ char_of a (b1 % 16 * 4 + b2 / 64)
    ∷ char_of a (b2 % 64)
    ∷ encode_base64_with a pad rest

-- `reverse.get(char)`: the index that the character has in the alphabet.
unfoldable pub index_of : ℕ → Text → Option ℕ
index_of c [] = none
index_of c (d ∷ a) =
    if d == c then some 0 else elim (index_of c a) [ none ↦ none | some i ↦ some (suc i) ]

-- `(accumulator << 6) | value`, on 32-bit words. The sign is never seen: what is read of the word
-- are bits below the fourteenth.
unfoldable pub shift_in : ℕ → ℕ → ℕ
shift_in accumulator value = accumulator * 64 % 2 ^ 32 + value

-- The bytes pushed before the rest of the loop.
abbrev pub push : ℕ → Result Malformed Bytes → Result Malformed Bytes
push b (ok bs) = ok (b ∷ bs)
push b (err e) = err e

-- The loop of `decodeBase64With`; '=' ends it.
unfoldable pub decode_loop : Text → ℕ → ℕ → Text → Result Malformed Bytes
unfolding index_of shift_in
decode_loop a accumulator bits [] = ok []
decode_loop a accumulator bits (c ∷ cs) = elim (c == b'=') [
  | true ↦ ok []
  | false ↦ elim (index_of c a) [
    | none ↦ err invalid_base64
    | some value ↦ elim (leb 8 (bits + 6)) [
      | true ↦
          push (shift_in accumulator value / 2 ^ (bits + 6 - 8) % 256)
            (decode_loop a (shift_in accumulator value) (bits + 6 - 8) cs)
      | false ↦ decode_loop a (shift_in accumulator value) (bits + 6) cs
    ]
  ]
]

unfoldable pub decode_base64_with : Text → Text → Result Malformed Bytes
unfolding decode_loop
decode_base64_with text a = decode_loop a 0 0 text

unfoldable pub base64_encode : Bytes → Text
unfolding encode_base64_with
base64_encode bytes = encode_base64_with base64_alphabet true bytes

unfoldable pub base64_decode : Text → Result Malformed Bytes
unfolding decode_base64_with
base64_decode text = decode_base64_with text base64_alphabet

unfoldable pub base64url_encode : Bytes → Text
unfolding encode_base64_with
base64url_encode bytes = encode_base64_with base64url_alphabet false bytes

unfoldable pub base64url_decode : Text → Result Malformed Bytes
unfolding decode_base64_with
base64url_decode text = decode_base64_with text base64url_alphabet

unfoldable pub bytes_equal : Bytes → Bytes → Bool
bytes_equal [] [] = true
bytes_equal [] (y ∷ ys) = false
bytes_equal (x ∷ xs) [] = false
bytes_equal (x ∷ xs) (y ∷ ys) = x == y && bytes_equal xs ys

unfoldable pub concat_bytes : List Bytes → Bytes
concat_bytes [] = []
concat_bytes (chunk ∷ chunks) = chunk ++ concat_bytes chunks

-- A digit of `toString(16)`.
unfoldable pub hex_digit : ℕ → ℕ
hex_digit d = if ltb d 10 then b'0' + d else b'a' + (d - 10)

-- `toString(16).padStart(2, '0')` of a byte is its two digits.
unfoldable pub bytes_to_hex : Bytes → Text
bytes_to_hex [] = []
bytes_to_hex (b ∷ bs) = hex_digit (b / 16) ∷ hex_digit (b % 16) ∷ bytes_to_hex bs

-- `[0-9a-fA-F]` and the value that `parseInt` gives the digit.
unfoldable pub hex_value : ℕ → Option ℕ
hex_value c =
    if leb b'0' c && leb c b'9'
    then some (c - b'0')
    else if leb b'a' c && leb c b'f'
    then some (c - b'a' + 10)
    else if leb b'A' c && leb c b'F'
    then some (c - b'A' + 10)
    else none

-- `hexToBytes`: an odd length or a character that is no digit is refused.
unfoldable pub hex_to_bytes : Text → Result Malformed Bytes
hex_to_bytes [] = ok []
hex_to_bytes (c ∷ []) = err invalid_hex
hex_to_bytes (c ∷ d ∷ rest) = elim (hex_value c) [
  | none ↦ err invalid_hex
  | some hi ↦ elim (hex_value d) [
    | none ↦ err invalid_hex
    | some lo ↦ push (hi * 16 + lo) (hex_to_bytes rest)
  ]
]
