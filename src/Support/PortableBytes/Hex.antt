-- ===== src/Support/PortableBytes/Hex.antt =====
-- The hexadecimal form of a byte sequence.
use lagrange_images.Base.{ℕ, ◌/◌, ◌%◌, ◌<◌, ◌≡◌, refl, some, [], ◌∷◌, All, arith}
use lagrange_images.Base.Result.{ok}
use lagrange_images.Support.PortableBytes.{Bytes, hex_digit, hex_value, bytes_to_hex, hex_to_bytes}
use lagrange_images.Support.PortableBytes.Base64.{IsByte}

hex_value-digit : (d : ℕ) → d < 16 → hex_value (hex_digit d) ≡ some d
unfolding hex_value hex_digit
hex_value-digit d h = ground arith

-- Reading the hexadecimal text of a byte sequence gives the sequence.
pub hex_round_trip : (bs : Bytes) → All IsByte bs → hex_to_bytes (bytes_to_hex bs) ≡ ok bs
unfolding hex_to_bytes bytes_to_hex
hex_round_trip [] h = refl
hex_round_trip (b ∷ bs) h =
    ground (arith, hex_value-digit (b / 16), hex_value-digit (b % 16), hex_round_trip bs h.1)
