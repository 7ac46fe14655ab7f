-- ===== src/Callable/Envelope/RoundTrip.antt =====
-- Envelopes of src/callable/composite-codec.js: what is packed is unpacked, and under no other type.
use lagrange_images.Base.{
  suc, ◌≡◌, ◌≢◌, ◌⊎◌, inl, inr, refl, sym, ◌∙◌, subst, false, [], ◌∷◌, length, drop, ltb,
  if◌then◌else◌, arith, All, Bool-cases, ltb→lt, not_true,
}
use lagrange_images.Base.Result.{ok, err, Result-cases, eq_of_ok}
use lagrange_images.Support.PortableBytes.{
  Bytes, Text, base64_encode, base64_decode, bytes_equal, concat_bytes,
}
use lagrange_images.Support.PortableBytes.Base64.{IsByte}
use lagrange_images.Support.Utf8.{IsPlain, IsWellFormed, strip_mark, byte_order_mark}
use lagrange_images.Value.Kinds.{Value, bytes}
use lagrange_images.Value.Host.{text, HostValue}
use lagrange_images.Value.Scalars.{canonicalize_value, record_of}
use lagrange_images.Callable.TypeGrammar.{named, primitive_of, TypeExpr, Declarations}
use lagrange_images.Callable.Buffers.{payload_too_large, max_payload_bytes}
use lagrange_images.Callable.CompositeCodec.{
  write_value, holds_reference, max_value_depth, read_value,
}
use lagrange_images.Callable.Fingerprint.{Platform, type_fingerprint}
use lagrange_images.Callable.Envelope.{
  codec, wrong_type, header_length, pack_composite_value, bytes_of_value, decode_payload,
  check_header, unpack_composite_value, composite_payload_of, composite_envelope_of,
}
use lagrange_images.Callable.Typed.{HasType, IsNormal}
use lagrange_images.Support.PortableBytes.Decoded.{base64_decode-IsByte}
use lagrange_images.Callable.CompositeCodec.Codes.{value-Codes}
use lagrange_images.Callable.CompositeCodec.Primitives.{Codes, text-Codes}
use lagrange_images.Callable.CompositeCodec.Sound.{value-Sound, All-drop}
use lagrange_images.Callable.Envelope.Laws.{
  bytes_equal_refl, eq_of_bytes_equal, value_of_bytes-base64, envelope, envelope-IsByte,
  length-envelope, drop-envelope, fingerprint-envelope, bytes_of_value-record_of, fingerprint_lem,
  pack_cases,
}

tall : (f payload : Bytes) → length f ≡ 32 → ltb (length (envelope f payload)) header_length ≡ false
tall f payload h = ground (arith, length-envelope f payload)

module _ (platform : Platform) where
  -- The header of an envelope passes where the fingerprint is the expected one, and only there.
  check_header-envelope :
      (t : TypeExpr) (types : Declarations) (f expected payload : Bytes)
      → length f ≡ 32
      → type_fingerprint platform t types ≡ ok expected
      → check_header platform t types (envelope f payload)
        ≡ (if bytes_equal f expected then ok tt else err wrong_type)
  unfolding check_header concat_bytes bytes_equal
  check_header-envelope t types f expected payload size print =
      rw (check_header, tall f payload size, print, fingerprint-envelope f payload size) refl

  -- A value that has a code, under a type with a fingerprint, is unpacked as what its code is read as.
  unpack_code :
      (types : Declarations) (t : TypeExpr) (v x : HostValue) (f : Bytes)
      → Codes
          (write_value platform.numbers platform.utf8 types (suc max_value_depth) t v)
          (read_value platform.numbers platform.utf8 types (suc max_value_depth) t)
          x
      → type_fingerprint platform t types ≡ ok f
      → ((env : Value) × (pack_composite_value platform v t types ≡ ok env)
          × (unpack_composite_value platform (record_of env) t types ≡ ok x))
        ⊎ (pack_composite_value platform v t types ≡ err (codec payload_too_large))
  unfolding unpack_composite_value
  unpack_code types t v x f code print =
      let (payload, byte, fits, over) = pack_cases platform types t v x f code print in
      let (size, f_byte) = fingerprint_lem platform t types f print in
      elim (Bool-cases (ltb max_payload_bytes (length payload))) [
        | inl big ↦ inr (over (ltb→lt max_payload_bytes (length payload) big))
        | inr small ↦
            let (packed, read) = fits (ground arith) in
            inl (
              bytes (base64_encode (envelope f payload)),
              packed,
              rw
                  (
                    unpack_composite_value,
                    bytes_of_value-record_of platform (envelope f payload)
                        (envelope-IsByte f payload f_byte byte),
                    check_header-envelope t types f f payload size print,
                    bytes_equal_refl f,
                    drop-envelope f payload size,
                  )
                  read,
            )
      ]

  -- A value that has the type within the depth and whose texts are well-formed with no byte order mark
  -- in front, where the declarations are normalized and the type has a fingerprint, is packed and
  -- unpacked as itself, or its payload is above 64 MiB and packing throws just that.
  pub unpack-pack :
      (types : Declarations) (t : TypeExpr) (v : HostValue) (f : Bytes)
      → IsNormal types
      → HasType platform.numbers (IsPlain platform.utf8) types (suc max_value_depth) t v
      → type_fingerprint platform t types ≡ ok f
      → ((env : Value) × (pack_composite_value platform v t types ≡ ok env)
          × (unpack_composite_value platform (record_of env) t types ≡ ok v))
        ⊎ (pack_composite_value platform v t types ≡ err (codec payload_too_large))
  unpack-pack types t v f normal typed =
      unpack_code types t v v f
        (value-Codes platform.numbers platform.utf8 types normal (suc max_value_depth) t v typed)

  -- A well-formed text that starts with a byte order mark is packed as a string and unpacked without
  -- the mark, or its payload is above 64 MiB, where the type has a fingerprint.
  pub unpack_loses_mark :
      (types : Declarations) (s : Text) (f : Bytes)
      → IsWellFormed platform.utf8 (byte_order_mark ∷ s)
      → type_fingerprint platform (named "string") types ≡ ok f
      → ((env : Value) × (pack_composite_value platform
              (text (byte_order_mark ∷ s))
              (named "string")
              types
            ≡ ok env)
          × (unpack_composite_value platform (record_of env) (named "string") types ≡ ok (text s)))
        ⊎ (pack_composite_value platform (text (byte_order_mark ∷ s)) (named "string") types
            ≡ err (codec payload_too_large))
  unfolding strip_mark write_value read_value primitive_of holds_reference canonicalize_value
  unpack_loses_mark types s f h =
      unpack_code types (named "string") (text (byte_order_mark ∷ s)) (text s) f
        (text-Codes platform.numbers platform.utf8 (byte_order_mark ∷ s) h)

  -- Where declarations are normalized and a value was packed that has the type within the depth and
  -- whose texts are well-formed with no byte order mark in front, unpacking the envelope against a type
  -- with another fingerprint throws for the type.
  pub unpack_of_other_type :
      (types types' : Declarations) (t t' : TypeExpr) (v : HostValue) (f f' : Bytes) (env : Value)
      → IsNormal types
      → HasType platform.numbers (IsPlain platform.utf8) types (suc max_value_depth) t v
      → type_fingerprint platform t types ≡ ok f
      → type_fingerprint platform t' types' ≡ ok f'
      → f ≢ f'
      → pack_composite_value platform v t types ≡ ok env
      → unpack_composite_value platform (record_of env) t' types' ≡ err wrong_type
  unfolding unpack_composite_value
  unpack_of_other_type types types' t t' v f f' env normal typed print print' apart h =
      let (payload, byte, fits, over) =
        pack_cases platform types t v v f
          (value-Codes platform.numbers platform.utf8 types normal (suc max_value_depth) t v typed)
          print in
      let (size, f_byte) = fingerprint_lem platform t types f print in
      elim (Bool-cases (ltb max_payload_bytes (length payload))) [
        | inl big ↦ absurd (cc (h, over (ltb→lt max_payload_bytes (length payload) big)))
        | inr small ↦
            let (packed, _) = fits (ground arith) in
            rw (sym (eq_of_ok (sym packed ∙ h))) (
              rw
                (
                  unpack_composite_value,
                  bytes_of_value-record_of platform (envelope f payload)
                      (envelope-IsByte f payload f_byte byte),
                  check_header-envelope t' types' f f' payload size print',
                  not_true (λ e. apart (eq_of_bytes_equal f f' e)),
                )
                refl)
      ]

  -- Where declarations are normalized, and a value was packed that has the type within the depth and
  -- whose texts are well-formed with no byte order mark in front: the payload taken out of the envelope
  -- and put into an envelope again, for the same type, gives the same envelope.
  pub envelope-payload :
      (types : Declarations) (t : TypeExpr) (v : HostValue) (f : Bytes) (env : Value)
      → IsNormal types
      → HasType platform.numbers (IsPlain platform.utf8) types (suc max_value_depth) t v
      → type_fingerprint platform t types ≡ ok f
      → pack_composite_value platform v t types ≡ ok env
      → (payload : Value) × (composite_payload_of platform (record_of env) ≡ ok payload)
        × (composite_envelope_of platform (record_of payload) t types ≡ ok env)
  unfolding composite_payload_of composite_envelope_of
  envelope-payload types t v f env normal typed print h =
      let (payload, byte, fits, over) =
        pack_cases platform types t v v f
          (value-Codes platform.numbers platform.utf8 types normal (suc max_value_depth) t v typed)
          print in
      let (size, f_byte) = fingerprint_lem platform t types f print in
      elim (Bool-cases (ltb max_payload_bytes (length payload))) [
        | inl big ↦ absurd (cc (h, over (ltb→lt max_payload_bytes (length payload) big)))
        | inr small ↦
            let (packed, read) = fits (ground arith) in
            (
              bytes (base64_encode payload),
              rw (sym (eq_of_ok (sym packed ∙ h))) (
                  rw
                    (
                      composite_payload_of,
                      bytes_of_value-record_of platform (envelope f payload)
                          (envelope-IsByte f payload f_byte byte),
                      tall f payload size,
                      drop-envelope f payload size,
                    )
                    (value_of_bytes-base64 payload byte)),
              rw (composite_envelope_of, bytes_of_value-record_of platform payload byte, read) h,
            )
      ]

  bytes_of_value-IsByte :
      (value : HostValue) (bs : Bytes) → bytes_of_value platform value ≡ ok bs → All IsByte bs
  unfolding bytes_of_value
  bytes_of_value-IsByte value bs h =
      elim (Result-cases (canonicalize_value platform.numbers value)) [
        | inr (e, c) ↦ absurd (cc (rw (bytes_of_value, c) at h))
        | inl (bytes t, c) ↦ elim (Result-cases (base64_decode t)) [
          | inr (e, d) ↦ absurd (cc (rw (bytes_of_value, c, d) at h))
          | inl (cs, d) ↦
              subst (All IsByte) (eq_of_ok (rw (bytes_of_value, c, d) at h))
                (base64_decode-IsByte t cs d)
        ]
        | inl (_, c) ↦ absurd (cc (rw (bytes_of_value, c) at h))
      ]

  decode_payload-HasType :
      (types : Declarations) (t : TypeExpr) (payload : Bytes) (v : HostValue)
      → IsNormal types
      → All IsByte payload
      → decode_payload platform t types payload ≡ ok v
      → HasType platform.numbers (IsWellFormed platform.utf8) types (suc max_value_depth) t v
  unfolding decode_payload
  decode_payload-HasType types t payload v normal h d =
      elim (Result-cases
        (read_value platform.numbers platform.utf8 types (suc max_value_depth) t payload)) [
          | inr (e, r) ↦ absurd (cc (rw (decode_payload, r) at d))
          | inl ((w, []), r) ↦
              subst
                (HasType platform.numbers (IsWellFormed platform.utf8) types (suc max_value_depth)
                  t)
                (eq_of_ok (rw (decode_payload, r) at d))
                (value-Sound platform.numbers platform.utf8 types normal (suc max_value_depth) t
                  payload w [] h r).0
          | inl ((w, _ ∷ _), r) ↦ absurd (cc (rw (decode_payload, r) at d))
        ]

  -- What unpacking against a type returns, where the declarations are normalized, has the type within
  -- the depth, and its texts are well-formed.
  pub unpack-HasType :
      (types : Declarations) (t : TypeExpr) (value v : HostValue)
      → IsNormal types
      → unpack_composite_value platform value t types ≡ ok v
      → HasType platform.numbers (IsWellFormed platform.utf8) types (suc max_value_depth) t v
  unfolding unpack_composite_value decode_payload
  unpack-HasType types t value v normal h = elim (Result-cases (bytes_of_value platform value)) [
    | inr (e, k) ↦ absurd (cc (rw (unpack_composite_value, k) at h))
    | inl (bs, k) ↦ elim (Result-cases (check_header platform t types bs)) [
      | inr (e, c) ↦ absurd (cc (rw (unpack_composite_value, k, c) at h))
      | inl (_, c) ↦
          decode_payload-HasType types t (drop header_length bs) v normal
            (All-drop IsByte header_length bs (bytes_of_value-IsByte value bs k))
            (rw (unpack_composite_value, k, c) at h)
    ]
  ]
