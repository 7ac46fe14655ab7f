-- ===== src/Object/VersionToken/Laws.antt =====
-- A token opens for the object that it was issued for, with the version that it was issued with, and
-- for no other object.
use lagrange_images.Base.{
  ℕ, ◌≤◌, ◌<◌, ◌≡◌, ◌≢◌, refl, sym, ap, ◌∙◌, true, false, [], ◌∷◌, ◌++◌, ◌==◌, arith, All,
  All-append, not_true, leb-true,
}
use lagrange_images.Base.Decimal.{
  to_decimal, of_decimal, all_digits, of_decimal-to_decimal, to_decimal-all_digits,
  to_decimal_ne_nil,
}
use lagrange_images.Base.Result.{Result, ok, err, ◌>>=◌, ◌>>◌, ensure}
use lagrange_images.Support.PortableBytes.{Text, base64url_encode}
use lagrange_images.Support.PortableBytes.Base64.{Avoids, base64url_encode_no_colon}
use lagrange_images.Support.Utf8.{Utf8, ascii-IsPlain, decode-encode_plain}
use lagrange_images.Object.Resource.{
  text_eq, text_eq_refl, eq_of_text_eq, encode_part, decode_canonical_encoded, object_resource_eq,
  object_resource_injective,
}
use lagrange_images.Object.VersionToken.{
  object_version_token_v0, max_safe_integer, TokenFailure, different_object, assert_backend_version,
  split, three_parts, scope_of, object_version_token, version_of, parse_object_version_token,
}

split-append : (sep : ℕ) (l r : Text) → Avoids sep l → split sep (l ++ sep ∷ r) ≡ l ∷ split sep r
unfolding split
split-append sep [] r h = ground arith
split-append sep (c ∷ l) r h = rw (h.0, split-append sep l r h.1)

split_single : (sep : ℕ) (l : Text) → Avoids sep l → split sep l ≡ l ∷ []
unfolding split
split_single sep [] h = refl
split_single sep (c ∷ l) h = rw (h.0, split_single sep l h.1)

ascii_of_digits : (s : Text) → all_digits s ≡ true → All (λ c. c < 128) s
unfolding all_digits
ascii_of_digits [] h = tt
ascii_of_digits (c ∷ cs) h = (ground arith, ascii_of_digits cs (ground arith))

Avoids-append : (sep : ℕ) (xs ys : Text) → Avoids sep xs → Avoids sep ys → Avoids sep (xs ++ ys)
Avoids-append sep xs ys here below = All-append ys (λ d. (d == sep) ≡ false) below xs here

module _ (u : Utf8) where
  version_text : (v : ℕ) → u.decode (u.encode (to_decimal v)) ≡ to_decimal v
  version_text v =
      decode-encode_plain u (to_decimal v)
        (ascii-IsPlain u (to_decimal v) (ascii_of_digits (to_decimal v) (to_decimal-all_digits v)))

  version_of_digits :
      (s : Text)
      → s ≢ []
      → all_digits s ≡ true
      → of_decimal s ≤ max_safe_integer
      → version_of u s ≡ ok (of_decimal s)
  unfolding version_of assert_backend_version
  version_of_digits [] n d h = absurd (n refl)
  version_of_digits (c ∷ cs) n d h = ground arith

  version_of-to_decimal : (v : ℕ) → v ≤ max_safe_integer → version_of u (to_decimal v) ≡ ok v
  version_of-to_decimal v h =
      version_of_digits (to_decimal v) (to_decimal_ne_nil v) (to_decimal-all_digits v)
        (rw of_decimal-to_decimal h)
      ∙ ap ok (of_decimal-to_decimal v)

  resource_no_colon : (i o : Text) → Avoids b':' (encode_part u i ++ b'.' ∷ encode_part u o)
  unfolding encode_part
  resource_no_colon i o =
      Avoids-append b':' (base64url_encode (u.encode i)) (b'.' ∷ base64url_encode (u.encode o))
        (base64url_encode_no_colon (u.encode i) (u.encode-IsByte i))
        (ground arith, base64url_encode_no_colon (u.encode o) (u.encode-IsByte o))

  abbrev token_text : Text → Text → ℕ → Text
  token_text i o v =
      object_version_token_v0
      ++ b':' ∷ (encode_part u i ++ b'.' ∷ encode_part u o)
      ++ b':' ∷ base64url_encode (u.encode (to_decimal v))

  scope_eq :
      (i o : Text)
      → i ≢ []
      → o ≢ []
      → scope_of u i o ≡ ok (encode_part u i ++ b'.' ∷ encode_part u o)
  unfolding scope_of
  scope_eq i o hi ho = ground (arith, object_resource_eq u i o hi ho)

  assert_version : (v : ℕ) → v ≤ max_safe_integer → assert_backend_version v ≡ ok v
  unfolding assert_backend_version
  assert_version v h = rw (leb-true v max_safe_integer h)

  token_eq :
      (i o : Text) (v : ℕ)
      → i ≢ []
      → o ≢ []
      → v ≤ max_safe_integer
      → object_version_token u i o v ≡ ok (token_text i o v)
  unfolding object_version_token
  token_eq i o v hi ho h = rw (scope_eq i o hi ho, assert_version v h)

  -- What the split of a token gives.
  split_token :
      (i o : Text) (v : ℕ)
      → three_parts (split b':' (token_text i o v))
        ≡ ok (
          object_version_token_v0,
          encode_part u i ++ b'.' ∷ encode_part u o,
          base64url_encode (u.encode (to_decimal v)),
        )
  unfolding three_parts
  split_token i o v = rw (
    split-append b':' object_version_token_v0
        ((encode_part u i ++ b'.' ∷ encode_part u o)
          ++ b':' ∷ base64url_encode (u.encode (to_decimal v)))
        (ground arith),
    split-append b':' (encode_part u i ++ b'.' ∷ encode_part u o)
        (base64url_encode (u.encode (to_decimal v))) (resource_no_colon i o),
    split_single b':' (base64url_encode (u.encode (to_decimal v)))
        (base64url_encode_no_colon (u.encode (to_decimal v)) (u.encode-IsByte (to_decimal v))),
  )

  -- What is left of reading a token once it is split.
  abbrev after_split : Text → Text → ℕ → Text → Text → Result TokenFailure ℕ
  after_split i o v i' o' = scope_of u i' o' >>= λ expected.
      ensure (text_eq (encode_part u i ++ b'.' ∷ encode_part u o) expected) different_object
      >> version_of u (u.decode (u.encode (to_decimal v)))

  parse_token_text :
      (i o : Text) (v : ℕ) (i' o' : Text)
      → parse_object_version_token u (token_text i o v) i' o' ≡ after_split i o v i' o'
  unfolding parse_object_version_token
  parse_token_text i o v i' o' = rw (
    split_token i o v,
    text_eq_refl object_version_token_v0,
    decode_canonical_encoded u (to_decimal v),
  )

  -- A token that was issued for an object opens for that object, with the version that it was issued
  -- with, for every version that is a safe integer.
  pub parse-object_version_token :
      (image_id object_id : Text) (v : ℕ)
      → image_id ≢ []
      → object_id ≢ []
      → v ≤ max_safe_integer
      → (object_version_token u image_id object_id v >>= λ token.
          parse_object_version_token u token image_id object_id)
        ≡ ok v
  parse-object_version_token i o v hi ho h = rw (
    token_eq i o v hi ho h,
    parse_token_text i o v i o,
    scope_eq i o hi ho,
    text_eq_refl (encode_part u i ++ b'.' ∷ encode_part u o),
    version_text v,
    version_of-to_decimal v h,
  )

  scopes_differ :
      (i o i' o' : Text)
      → i ≢ []
      → o ≢ []
      → i' ≢ []
      → o' ≢ []
      → u.well_formed i ≡ true
      → u.well_formed o ≡ true
      → u.well_formed i' ≡ true
      → u.well_formed o' ≡ true
      → ¬ ((i ≡ i') × (o ≡ o'))
      → text_eq
          (encode_part u i ++ b'.' ∷ encode_part u o)
          (encode_part u i' ++ b'.' ∷ encode_part u o')
        ≡ false
  scopes_differ i o i' o' hi ho hi' ho' wi wo wi' wo' ne = not_true λ same. ne (
      object_resource_injective u i o i' o' wi wo wi' wo' (object_resource_eq u i o hi ho)
        (object_resource_eq u i' o' hi' ho' ∙ ap ok (sym (eq_of_text_eq _ _ same))))

  -- A token that was issued for one object is refused for every other one as a token of a different
  -- object, where the names are well-formed and not empty.
  pub token_of_other_object :
      (i o i' o' : Text) (v : ℕ)
      → i ≢ []
      → o ≢ []
      → i' ≢ []
      → o' ≢ []
      → u.well_formed i ≡ true
      → u.well_formed o ≡ true
      → u.well_formed i' ≡ true
      → u.well_formed o' ≡ true
      → ¬ ((i ≡ i') × (o ≡ o'))
      → v ≤ max_safe_integer
      → (object_version_token u i o v >>= λ token. parse_object_version_token u token i' o')
        ≡ err different_object
  token_of_other_object i o i' o' v hi ho hi' ho' wi wo wi' wo' ne h = rw (
    token_eq i o v hi ho h,
    parse_token_text i o v i' o',
    scope_eq i' o' hi' ho',
    scopes_differ i o i' o' hi ho hi' ho' wi wo wi' wo' ne,
  )
