-- ===== src/Object/VersionToken.antt =====
-- src/object/version-token.js: opaque tokens for the versions of objects, and the write that takes one.
pub mod Laws
use lagrange_images.Base.{
  ℕ, zero, suc, ◌+◌, ◌-◌, ◌^◌, ◌≤◌, ◌≡◌, ◌≢◌, refl, sym, ap, ◌∙◌, Bool, true, false, Option, none,
  some, List, [], ◌∷◌, ◌++◌, ◌==◌, if◌then◌else◌, arith, All, Bool-cases, inl, inr, leb, codes,
}
use lagrange_images.Base.Decimal.{
  to_decimal, of_decimal, all_digits, of_decimal-to_decimal, to_decimal-all_digits,
}
use lagrange_images.Base.Result.{
  Result, ok, err, ◌>>=◌, ◌>>◌, ensure, bind-eq-ok, eq_of_ok, Result-cases,
}
use lagrange_images.Support.PortableBytes.{
  Bytes, Text, Malformed, base64url_encode, base64url_decode,
}
use lagrange_images.Support.PortableBytes.Base64.{
  Avoids, base64_round_trip, base64url_encode_no_colon,
}
use lagrange_images.Support.Utf8.{Utf8}
use lagrange_images.Object.Resource.{
  object_resource, text_eq, text_eq_refl, eq_of_text_eq, required_text, encode_part,
  decode_canonical, object_resource_eq,
}

abbrev pub object_version_token_v0 : Text
object_version_token_v0 = codes "object-version/v0"

-- Number.MAX_SAFE_INTEGER
abbrev pub max_safe_integer : ℕ
max_safe_integer = 2 ^ 53 - 1

pub data TokenFailure : Type 0 where
  unnamed malformed_token different_object unsafe_version : TokenFailure

-- A version is a natural number here; the source refuses every other number by the same test.
unfoldable pub assert_backend_version : ℕ → Result TokenFailure ℕ
assert_backend_version v = if leb v max_safe_integer then ok v else err unsafe_version

-- `text.split(separator)`
unfoldable pub split : ℕ → Text → List Text
split sep [] = [] ∷ []
split sep (c ∷ cs) =
    let rest = split sep cs in
    if c == sep
    then [] ∷ rest
    else elim rest [ [] ↦ (c ∷ []) ∷ [] | part ∷ parts ↦ (c ∷ part) ∷ parts ]

-- Exactly three parts.
unfoldable pub three_parts : List Text → Result TokenFailure (Text × Text × Text)
three_parts (a ∷ b ∷ c ∷ []) = ok (a, b, c)
three_parts (a ∷ b ∷ c ∷ d ∷ rest) = err malformed_token
three_parts _ = err malformed_token

module _ (u : Utf8) where
  unfoldable pub scope_of : Text → Text → Result TokenFailure Text
  scope_of image_id object_id = elim (object_resource u image_id object_id) [
    | err e ↦ err unnamed
    | ok scope ↦ ok scope
  ]

  unfoldable pub object_version_token : Text → Text → ℕ → Result TokenFailure Text
  object_version_token image_id object_id backend_version = do
    scope ← scope_of image_id object_id
    version ← assert_backend_version backend_version
    ok (
        object_version_token_v0
        ++ b':' ∷ scope
        ++ b':' ∷ base64url_encode (u.encode (to_decimal version)))

  -- `/^\d+$/`
  unfoldable pub version_of : Text → Result TokenFailure ℕ
  version_of [] = err malformed_token
  version_of (c ∷ cs) =
      if all_digits (c ∷ cs)
      then assert_backend_version (of_decimal (c ∷ cs))
      else err malformed_token

  unfoldable pub parse_object_version_token : Text → Text → Text → Result TokenFailure ℕ
  parse_object_version_token [] image_id object_id = err unnamed
  parse_object_version_token (c ∷ cs) image_id object_id = do
    parts ← three_parts (split b':' (c ∷ cs))
    ensure (text_eq parts.0 object_version_token_v0) malformed_token
    expected ← scope_of image_id object_id
    ensure (text_eq parts.1 expected) different_object
    decoded ← elim (decode_canonical parts.2) [ err e ↦ err malformed_token | ok bytes ↦ ok bytes ]
    version_of (u.decode decoded)
