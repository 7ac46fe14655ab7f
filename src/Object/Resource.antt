-- ===== src/Object/Resource.antt =====
-- src/authority/object-resource.js: one text that names an object of an image, injectively.
use lagrange_images.Base.{
  ℕ, ◌≡◌, ◌≢◌, refl, sym, ap, ◌∙◌, Bool, true, false, Option, none, some, [], ◌∷◌, ◌++◌, ◌==◌,
  if◌then◌else◌, arith,
}
use lagrange_images.Base.Result.{Result, ok, err, ◌>>=◌, ◌>>◌, ensure, eq_of_ok}
use lagrange_images.Support.PortableBytes.{Bytes, Text, base64url_encode, base64url_decode}
use lagrange_images.Support.PortableBytes.Base64.{
  Avoids, base64_round_trip, base64url_encode_no_dot,
}
use lagrange_images.Support.Utf8.{Utf8, IsPlain, decode-encode_plain}

pub data Failure : Type 0 where
  bad_text invalid_resource invalid_part : Failure

unfoldable pub text_eq : Text → Text → Bool
text_eq [] [] = true
text_eq [] (d ∷ ds) = false
text_eq (c ∷ cs) [] = false
text_eq (c ∷ cs) (d ∷ ds) = let rest = text_eq cs ds in if c == d then rest else false

pub text_eq_refl : (cs : Text) → text_eq cs cs ≡ true
unfolding text_eq
text_eq_refl [] = refl
text_eq_refl (c ∷ cs) = ground (arith, text_eq_refl cs)

pub eq_of_text_eq : (cs ds : Text) → text_eq cs ds ≡ true → cs ≡ ds
unfolding text_eq
eq_of_text_eq [] [] h = refl
eq_of_text_eq [] (d ∷ ds) h = cc
eq_of_text_eq (c ∷ cs) [] h = cc
eq_of_text_eq (c ∷ cs) (d ∷ ds) h = ground (arith, eq_of_text_eq cs ds)

unfoldable pub required_text : Text → Result Failure Text
required_text [] = err bad_text
required_text (c ∷ cs) = ok (c ∷ cs)

-- `text.indexOf(separator)` and the slices on its two sides.
unfoldable pub split_first : ℕ → Text → Option (Text × Text)
split_first sep [] = none
split_first sep (c ∷ cs) =
    if c == sep
    then some ([], cs)
    else elim (split_first sep cs) [ none ↦ none | some (l, r) ↦ some (c ∷ l, r) ]

pub split_first-append :
    (sep : ℕ) (l r : Text) → Avoids sep l → split_first sep (l ++ sep ∷ r) ≡ some (l, r)
unfolding split_first
split_first-append sep [] r h = ground arith
split_first-append sep (c ∷ l) r h = ground (arith, split_first-append sep l r h.1)

pub split_first-none : (sep : ℕ) (l : Text) → Avoids sep l → split_first sep l ≡ none
unfolding split_first
split_first-none sep [] h = refl
split_first-none sep (c ∷ l) h = ground (arith, split_first-none sep l h.1)

-- A base64url text whose bytes it spells canonically.
unfoldable pub decode_canonical : Text → Result Failure Bytes
decode_canonical part = elim (base64url_decode part) [
  | err e ↦ err invalid_part
  | ok bytes ↦ if text_eq (base64url_encode bytes) part then ok bytes else err invalid_part
]

required_text_eq : (s : Text) → s ≢ [] → required_text s ≡ ok s
unfolding required_text
required_text_eq [] h = absurd (h refl)
required_text_eq (c ∷ cs) h = refl

required_text_append : (l : Text) (c : ℕ) (r : Text) → required_text (l ++ c ∷ r) ≡ ok (l ++ c ∷ r)
unfolding required_text
required_text_append [] c r = refl
required_text_append (d ∷ l) c r = refl

module _ (u : Utf8) where
  unfoldable pub encode_part : Text → Text
  encode_part value = base64url_encode (u.encode value)

  unfoldable pub object_resource : Text → Text → Result Failure Text
  object_resource image_id object_id = do
    image ← required_text image_id
    object ← required_text object_id
    ok (encode_part image ++ b'.' ∷ encode_part object)

  -- The resource is one separator with a part on each side.
  unfoldable pub parse_object_resource : Text → Result Failure (Text × Text)
  parse_object_resource resource = do
    text ← required_text resource
    parts ← elim (split_first b'.' text) [ none ↦ err invalid_resource | some p ↦ ok p ]
    ensure (elim (split_first b'.' parts.1) [ none ↦ true | some p ↦ false ]) invalid_resource
    image ← decode_canonical parts.0
    object ← decode_canonical parts.1
    ok (u.decode image, u.decode object)

  pub decode_canonical_encoded :
      (s : Text) → decode_canonical (base64url_encode (u.encode s)) ≡ ok (u.encode s)
  unfolding decode_canonical
  decode_canonical_encoded s = ground (
    arith,
    (base64_round_trip (u.encode s) (u.encode-IsByte s)).1,
    text_eq_refl (base64url_encode (u.encode s)),
  )

  decode_canonical_part : (s : Text) → decode_canonical (encode_part s) ≡ ok (u.encode s)
  unfolding encode_part
  decode_canonical_part s = decode_canonical_encoded s

  pub encode_part-Avoids : (s : Text) → Avoids b'.' (encode_part s)
  unfolding encode_part
  encode_part-Avoids s = base64url_encode_no_dot (u.encode s) (u.encode-IsByte s)

  pub object_resource_eq :
      (image_id object_id : Text)
      → image_id ≢ []
      → object_id ≢ []
      → object_resource image_id object_id
        ≡ ok (encode_part image_id ++ b'.' ∷ encode_part object_id)
  unfolding object_resource
  object_resource_eq i o hi ho = rw (required_text_eq i hi, required_text_eq o ho)

  named : (i o : Text) {r : Text} → object_resource i o ≡ ok r → (i ≢ []) × (o ≢ [])
  unfolding object_resource required_text
  named [] o h = absurd (ground arith)
  named (c ∷ i) [] h = absurd (ground arith)
  named (c ∷ i) (d ∷ o) h = (λ e. cc, λ e. cc)

  parse_eq :
      (i o : Text)
      → parse_object_resource (encode_part i ++ b'.' ∷ encode_part o)
        ≡ ok (u.decode (u.encode i), u.decode (u.encode o))
  unfolding parse_object_resource
  parse_eq i o = rw (
    required_text_append (encode_part i) b'.' (encode_part o),
    split_first-append b'.' (encode_part i) (encode_part o) (encode_part-Avoids i),
    split_first-none b'.' (encode_part o) (encode_part-Avoids o),
    decode_canonical_part i,
    decode_canonical_part o,
  )

  -- Two well-formed, non-empty names with no byte order mark in front make a resource, and the resource
  -- gives both names back.
  pub parse-object_resource :
      (image_id object_id : Text)
      → image_id ≢ []
      → object_id ≢ []
      → IsPlain u image_id
      → IsPlain u object_id
      → (object_resource image_id object_id >>= parse_object_resource) ≡ ok (image_id, object_id)
  parse-object_resource i o hi ho wi wo = rw (
    object_resource_eq i o hi ho,
    parse_eq i o,
    decode-encode_plain u i wi,
    decode-encode_plain u o wo,
  )

  -- The bytes of the two parts of a resource.
  encoded_parts : Text → Result Failure (Bytes × Bytes)
  encoded_parts resource = do
    parts ← elim (split_first b'.' resource) [ none ↦ err invalid_resource | some p ↦ ok p ]
    image ← decode_canonical parts.0
    object ← decode_canonical parts.1
    ok (image, object)

  encoded_parts_eq :
      (i o : Text)
      → encoded_parts (encode_part i ++ b'.' ∷ encode_part o) ≡ ok (u.encode i, u.encode o)
  unfolding encoded_parts
  encoded_parts_eq i o = rw (
    split_first-append b'.' (encode_part i) (encode_part o) (encode_part-Avoids i),
    decode_canonical_part i,
    decode_canonical_part o,
  )

  -- Objects with different names have different resources, where the names are well-formed.
  pub object_resource_injective :
      (i o i' o' : Text)
      → u.well_formed i ≡ true
      → u.well_formed o ≡ true
      → u.well_formed i' ≡ true
      → u.well_formed o' ≡ true
      → {r : Text} → object_resource i o ≡ ok r
      → object_resource i' o' ≡ ok r
      → (i ≡ i') × (o ≡ o')
  object_resource_injective i o i' o' wi wo wi' wo' {r} h h' =
      let back = object_resource_eq i o (named i o h).0 (named i o h).1 in
      let back' = object_resource_eq i' o' (named i' o' h').0 (named i' o' h').1 in
      let same =
        sym (encoded_parts_eq i o)
        ∙ ap encoded_parts (eq_of_ok (sym back ∙ h ∙ sym h' ∙ back'))
        ∙ encoded_parts_eq i' o' in
      (
        u.encode_injective i i' wi wi' (ap (λ (p : Bytes × Bytes). p.0) (eq_of_ok same)),
        u.encode_injective o o' wo wo' (ap (λ (p : Bytes × Bytes). p.1) (eq_of_ok same)),
      )
