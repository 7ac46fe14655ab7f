-- ===== src/Value/Scalars.antt =====
-- src/value/scalars.js and src/value/kinds.js: canonical Values and their form as host records.
mod Laws
pub mod Canonical
use lagrange_images.Base.Integers.{ℤ, pos, negsuc}
use lagrange_images.Base.{
  ℕ, zero, suc, ◌+◌, ◌-◌, ◌≡◌, String, Bool, true, false, not, ◌&&◌, ◌||◌, Option, none, some, List,
  [], ◌∷◌, ◌++◌, length, str_eq, if◌then◌else◌, ltb, leb, ◌==◌, codes,
}
use lagrange_images.Base.Result.{Result, ok, err, ◌>>=◌, ensure}
use lagrange_images.Base.Decimal.{to_decimal, all_digits, of_decimal}
use lagrange_images.Base.TextOrder.{sort_texts}
use lagrange_images.Support.PortableBytes.{Bytes, Text, base64_encode, base64_decode, bytes_equal}
use lagrange_images.Value.Kinds.{Value, integer, float64, bytes, ref, pinned_ref}
use lagrange_images.Value.Host.{
  HostValue, boolean, number, bigint, text, byte_array, array, object, other, Members, no_members,
  member, get_member, keys, HostNumbers, is_safe_integer,
}

pub data ValueError : Type 0 where
  not_a_record unknown_kind malformed : ValueError
  bad_boolean bad_integer bad_float bad_text bad_bytes bad_reference bad_revision : ValueError

-- `BigInt(n).toString(10)`
unfoldable pub signed_decimal : ℤ → Text
signed_decimal (pos n) = to_decimal n
signed_decimal (negsuc n) = b'-' ∷ to_decimal (suc n)

abbrev pub opposite : ℕ → ℤ
opposite zero = pos zero
opposite (suc n) = negsuc n

-- `/^\d+$/`
unfoldable pub is_digits : Text → Bool
is_digits [] = false
is_digits (c ∷ cs) = all_digits (c ∷ cs)

-- `/^-?\d+$/`, and `BigInt(text)` of such a text.
unfoldable pub parse_integer : Text → Option ℤ
unfolding is_digits
parse_integer [] = none
parse_integer (c ∷ cs) =
    if c == b'-'
    then (if is_digits cs then some (opposite (of_decimal cs)) else none)
    else (if is_digits (c ∷ cs) then some (pos (of_decimal (c ∷ cs))) else none)

-- `integerValue`
unfoldable pub integer_value : HostNumbers → HostValue → Result ValueError Value
unfolding signed_decimal parse_integer is_safe_integer
integer_value host (number n) = elim (is_safe_integer host n) [
  | false ↦ err bad_integer
  | true ↦ elim (host.integer_of n) [
    | none ↦ err bad_integer
    | some i ↦ ok (integer (signed_decimal i))
  ]
]
integer_value host (text t) = elim (parse_integer t) [
  | none ↦ err bad_integer
  | some i ↦ ok (integer (signed_decimal i))
]
integer_value host (bigint i) = ok (integer (signed_decimal i))
integer_value host _ = err bad_integer

-- `/^[0-9a-fA-F]*$/`
unfoldable pub all_hex : Text → Bool
all_hex [] = true
all_hex (c ∷ cs) =
    ((leb b'0' c && leb c b'9') || ((leb b'a' c && leb c b'f') || (leb b'A' c && leb c b'F')))
    && all_hex cs

-- `toLowerCase` of hexadecimal digits.
unfoldable pub lower : Text → Text
lower [] = []
lower (c ∷ cs) = (if leb b'A' c && leb c b'F' then c + 32 else c) ∷ lower cs

-- `float64FromBits`
unfoldable pub float64_from_bits : HostValue → Result ValueError Value
unfolding all_hex lower
float64_from_bits (text t) =
    if (length t == 16) && all_hex t then ok (float64 (lower t)) else err bad_float
float64_from_bits _ = err bad_float

-- `bytesFromBase64`: the text must be the encoder's own.
unfoldable pub bytes_from_base64 : HostValue → Result ValueError Value
unfolding base64_decode base64_encode bytes_equal
bytes_from_base64 (text t) = elim (base64_decode t) [
  | err e ↦ err bad_bytes
  | ok decoded ↦ if bytes_equal (base64_encode decoded) t then ok (bytes t) else err bad_bytes
]
bytes_from_base64 _ = err bad_bytes

-- `bytesValue` of a typed array.
unfoldable pub bytes_value : Bytes → Result ValueError Value
unfolding bytes_from_base64
bytes_value bs = bytes_from_base64 (text (base64_encode bs))

-- `requiredText`
unfoldable pub required_text : HostValue → Result ValueError Text
required_text (text []) = err bad_reference
required_text (text (c ∷ cs)) = ok (c ∷ cs)
required_text _ = err bad_reference

-- What `pinnedRef` makes of a revision.
unfoldable pub revision_text : HostNumbers → HostValue → Result ValueError Text
unfolding is_safe_integer signed_decimal
revision_text host (text []) = err bad_revision
revision_text host (text (c ∷ cs)) = ok (c ∷ cs)
revision_text host (number n) = elim (is_safe_integer host n) [
  | false ↦ err bad_revision
  | true ↦ elim (host.integer_of n) [ none ↦ err bad_revision | some i ↦ ok (signed_decimal i) ]
]
revision_text host (bigint i) = ok (signed_decimal i)
revision_text host _ = err bad_revision

unfoldable pub texts_equal : List String → List String → Bool
texts_equal [] [] = true
texts_equal (a ∷ xs) (b ∷ ys) = str_eq a b && texts_equal xs ys
texts_equal _ _ = false

-- `sameKeys`
unfoldable pub same_keys : Members → List String → Bool
unfolding keys sort_texts texts_equal
same_keys ms names = texts_equal (sort_texts (keys ms)) (sort_texts names)

-- `value[key]`, where a missing key is `undefined`.
unfoldable pub member_or : String → Members → HostValue
unfolding get_member
member_or k ms = elim (get_member k ms) [ none ↦ other | some v ↦ v ]

-- The text of `value.kind`, none of another value.
unfoldable pub kind_of : Members → Option Text
unfolding get_member
kind_of ms = elim (get_member "kind" ms) [ some (text t) ↦ some t | _ ↦ none ]

-- The branches of the switch in `canonicalizeValue`.
unfoldable pub boolean_value : HostValue → Result ValueError Value
boolean_value (boolean b) = ok (Value.boolean b)
boolean_value _ = err bad_boolean

unfoldable pub text_value : HostValue → Result ValueError Value
text_value (text t) = ok (Value.text t)
text_value _ = err bad_text

unfoldable pub object_ref : HostValue → HostValue → Result ValueError Value
unfolding required_text
object_ref image target = elim (required_text image) [
  | err e ↦ err e
  | ok i ↦ elim (required_text target) [ err e ↦ err e | ok o ↦ ok (ref i o) ]
]

unfoldable pub pinned_object_ref :
    HostNumbers → HostValue → HostValue → HostValue → Result ValueError Value
unfolding required_text revision_text
pinned_object_ref host image target revision = elim (revision_text host revision) [
  | err e ↦ err e
  | ok r ↦ elim (required_text image) [
    | err e ↦ err e
    | ok i ↦ elim (required_text target) [ err e ↦ err e | ok o ↦ ok (pinned_ref i o r) ]
  ]
]

abbrev pub value_keys : List String
value_keys = "kind" ∷ "value" ∷ []

-- A branch whose record must have just these keys.
abbrev pub with_keys : Members → List String → Result ValueError Value → Result ValueError Value
with_keys ms names r = elim (same_keys ms names) [ true ↦ r | false ↦ err malformed ]

unfoldable pub canonicalize_members : HostNumbers → Members → Result ValueError Value
unfolding kind_of bytes_equal boolean_value integer_value float64_from_bits text_value
    bytes_from_base64 object_ref pinned_object_ref member_or
canonicalize_members host ms = elim (kind_of ms) [
  | none ↦ err unknown_kind
  | some k ↦
      if bytes_equal k (codes "boolean")
      then with_keys ms value_keys (boolean_value (member_or "value" ms))
      else if bytes_equal k (codes "integer")
      then with_keys ms value_keys (integer_value host (member_or "value" ms))
      else if bytes_equal k (codes "float64")
      then with_keys ms ("kind" ∷ "bits" ∷ []) (float64_from_bits (member_or "bits" ms))
      else if bytes_equal k (codes "text")
      then with_keys ms value_keys (text_value (member_or "value" ms))
      else if bytes_equal k (codes "bytes")
      then with_keys ms ("kind" ∷ "base64" ∷ []) (bytes_from_base64 (member_or "base64" ms))
      else if bytes_equal k (codes "ref")
      then with_keys ms ("kind" ∷ "imageId" ∷ "objectId" ∷ [])
          (object_ref (member_or "imageId" ms) (member_or "objectId" ms))
      else if bytes_equal k (codes "pinned-ref")
      then with_keys ms ("kind" ∷ "imageId" ∷ "objectId" ∷ "revision" ∷ []) (
          pinned_object_ref host (member_or "imageId" ms) (member_or "objectId" ms)
            (member_or "revision" ms))
      else err unknown_kind
]

-- `canonicalizeValue`
unfoldable pub canonicalize_value : HostNumbers → HostValue → Result ValueError Value
unfolding canonicalize_members
canonicalize_value host (object ms) = canonicalize_members host ms
canonicalize_value host _ = err not_a_record

-- The record that a canonical Value is, with its keys in the order of the literals.
unfoldable pub record_of : Value → HostValue
record_of (Value.boolean b) =
    object (member "kind" (text (codes "boolean")) (member "value" (boolean b) no_members))
record_of (integer t) =
    object (member "kind" (text (codes "integer")) (member "value" (text t) no_members))
record_of (float64 t) =
    object (member "kind" (text (codes "float64")) (member "bits" (text t) no_members))
record_of (Value.text t) =
    object (member "kind" (text (codes "text")) (member "value" (text t) no_members))
record_of (bytes t) =
    object (member "kind" (text (codes "bytes")) (member "base64" (text t) no_members))
record_of (ref i o) = object (
    member "kind" (text (codes "ref"))
      (member "imageId" (text i) (member "objectId" (text o) no_members)))
record_of (pinned_ref i o r) = object (
    member "kind" (text (codes "pinned-ref")) (
      member "imageId" (text i)
        (member "objectId" (text o) (member "revision" (text r) no_members))))

-- `isReference` of a canonical Value.
unfoldable pub is_reference : Value → Bool
is_reference (ref i o) = true
is_reference (pinned_ref i o r) = true
is_reference _ = false

-- `referencesOfValue`
unfoldable pub references_of_value : HostNumbers → HostValue → Result ValueError (List Value)
unfolding is_reference canonicalize_value
references_of_value host v = elim (canonicalize_value host v) [
  | err e ↦ err e
  | ok c ↦ ok (if is_reference c then c ∷ [] else [])
]
