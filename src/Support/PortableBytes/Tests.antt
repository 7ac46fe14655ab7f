-- ===== src/Support/PortableBytes/Tests.antt =====
-- Runs of the codecs, and the theorems at concrete bytes.
use lagrange_images.Base.{◌≡◌, refl, [], ◌∷◌, codes, arith}
use lagrange_images.Base.Result.{ok}
use lagrange_images.Support.PortableBytes.{
  Bytes, base64_encode, base64_decode, base64url_encode, base64url_decode, bytes_to_hex, hex_digit,
}
use lagrange_images.Support.PortableBytes.Base64.{base64_round_trip}

abbrev four_bytes : Bytes
four_bytes = 0 ∷ 255 ∷ 16 ∷ 250 ∷ []

padded : base64_encode four_bytes ≡ codes "AP8Q+g=="
unfolding base64_encode
padded = refl

hexadecimal : bytes_to_hex four_bytes ≡ codes "00ff10fa"
unfolding bytes_to_hex hex_digit
hexadecimal = refl

base64_round_trip_example :
    (base64_decode (base64_encode four_bytes) ≡ ok four_bytes)
    × (base64url_decode (base64url_encode four_bytes) ≡ ok four_bytes)
base64_round_trip_example = base64_round_trip four_bytes (omega arith)
