-- ===== src/Support/Utf8.antt =====
-- The host's `TextEncoder` and lossy `TextDecoder`, which src/support/portable-bytes.js calls. They
-- are parameters. What is used of them: the encoder gives bytes and is injective on well-formed UTF-16
-- (it replaces a lone surrogate), which ASCII is. The decoder always gives well-formed text, and takes
-- back what was encoded, less a byte order mark at the front: it is made without `ignoreBOM`.
pub mod Ascii
use lagrange_images.Base.{
  ℕ, ◌<◌, ◌≡◌, refl, ◌∙◌, Bool, true, [], ◌∷◌, All, ◌==◌, if◌then◌else◌, arith,
}
use lagrange_images.Support.PortableBytes.{Bytes, Text}
use lagrange_images.Support.PortableBytes.Base64.{IsByte}

abbrev pub byte_order_mark : ℕ
byte_order_mark = 65279

-- The text without a mark at its front.
unfoldable pub strip_mark : Text → Text
strip_mark [] = []
strip_mark (c ∷ cs) = if c == byte_order_mark then cs else c ∷ cs

pub record Utf8 : Type 0 where
  pub encode : Text → Bytes
  pub decode : Bytes → Text
  pub well_formed : Text → Bool
  pub encode-IsByte : (s : Text) → All IsByte (encode s)
  pub encode_injective :
      (s t : Text) → well_formed s ≡ true → well_formed t ≡ true → encode s ≡ encode t → s ≡ t
  pub decode-encode : (s : Text) → well_formed s ≡ true → decode (encode s) ≡ strip_mark s
  pub decode-well_formed : (bs : Bytes) → well_formed (decode bs) ≡ true
  pub well_formed_of_ascii : (s : Text) → All (λ c. c < 128) s → well_formed s ≡ true

abbrev pub IsWellFormed : Utf8 → Text → Type 0
IsWellFormed u s = u.well_formed s ≡ true

-- Well-formed, with no mark at the front.
abbrev pub IsPlain : Utf8 → Text → Type 0
IsPlain u s = (u.well_formed s ≡ true) × (strip_mark s ≡ s)

pub decode-encode_plain : (u : Utf8) (s : Text) → IsPlain u s → u.decode (u.encode s) ≡ s
decode-encode_plain u s h = u.decode-encode s h.0 ∙ h.1

pub ascii-IsPlain : (u : Utf8) (s : Text) → All (λ c. c < 128) s → IsPlain u s
unfolding strip_mark
ascii-IsPlain u [] h = (u.well_formed_of_ascii [] h, refl)
ascii-IsPlain u (c ∷ cs) h = (u.well_formed_of_ascii (c ∷ cs) h, ground (arith, h.0))
