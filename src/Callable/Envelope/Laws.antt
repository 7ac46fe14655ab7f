-- ===== src/Callable/Envelope/Laws.antt =====
-- What is packed by src/callable/composite-codec.js is unpacked again, and nothing else is.
use lagrange_images.Base.{
  suc, ◌+◌, ◌≤◌, ◌<◌, ◌≡◌, inl, inr, refl, ◌∙◌, subst, true, [], ◌∷◌, ◌++◌, length, drop, codes,
  take-append, drop-append, arith, All, All-append, length-append,
}
use lagrange_images.Base.Result.{ok, err, Result-cases, eq_of_ok}
use lagrange_images.Support.PortableBytes.{Bytes, base64_encode, bytes_equal, concat_bytes}
use lagrange_images.Support.PortableBytes.Base64.{IsByte, base64_round_trip}
use lagrange_images.Value.Kinds.{bytes}
use lagrange_images.Value.Host.{HostValue, text, member, no_members, keys}
use lagrange_images.Value.Scalars.{
  same_keys, texts_equal, canonicalize_value, bytes_value, bytes_from_base64, record_of,
}
use lagrange_images.Base.TextOrder.{sort_texts, insert_text, text_leb, code_units, units_leb}
use lagrange_images.Callable.Declarations.{reachable_declarations}
use mathlib.Core.List.{append-nil}
use lagrange_images.Callable.TypeGrammar.{TypeExpr, Declarations}
use lagrange_images.Callable.Buffers.{payload_too_large, new_writer, contents, max_payload_bytes}
use lagrange_images.Callable.CompositeCodec.{write_value, max_value_depth, read_value}
use lagrange_images.Callable.Fingerprint.{Platform, schema_hash, type_fingerprint}
use lagrange_images.Callable.Envelope.{
  codec, magic, version, header_length, value_of_bytes, pack_composite_value, bytes_of_value,
  envelope_fingerprint, decode_payload,
}
use lagrange_images.Callable.CompositeCodec.Primitives.{Codes}

pub bytes_equal_refl : (bs : Bytes) → bytes_equal bs bs ≡ true
unfolding bytes_equal
bytes_equal_refl [] = refl
bytes_equal_refl (b ∷ bs) = ground (arith, bytes_equal_refl bs)

pub eq_of_bytes_equal : (xs ys : Bytes) → bytes_equal xs ys ≡ true → xs ≡ ys
unfolding bytes_equal
eq_of_bytes_equal [] [] h = refl
eq_of_bytes_equal (x ∷ xs) (y ∷ ys) h = ground (arith, eq_of_bytes_equal xs ys)
eq_of_bytes_equal [] (y ∷ ys) h = cc
eq_of_bytes_equal (x ∷ xs) [] h = cc

bytes_value-base64 : (bs : Bytes) → All IsByte bs → bytes_value bs ≡ ok (bytes (base64_encode bs))
unfolding bytes_value bytes_from_base64
bytes_value-base64 bs h =
    rw
      (
        bytes_value,
        bytes_from_base64,
        (base64_round_trip bs h).0,
        bytes_equal_refl (base64_encode bs),
      )
      refl

pub value_of_bytes-base64 :
    (bs : Bytes) → All IsByte bs → value_of_bytes bs ≡ ok (bytes (base64_encode bs))
unfolding value_of_bytes
value_of_bytes-base64 bs h = rw (value_of_bytes, bytes_value-base64 bs h) refl

-- The bytes of an envelope.
abbrev pub envelope : Bytes → Bytes → Bytes
envelope f payload = concat_bytes (magic ∷ (version ∷ []) ∷ f ∷ payload ∷ [])

pub envelope-IsByte :
    (f payload : Bytes) → All IsByte f → All IsByte payload → All IsByte (envelope f payload)
unfolding concat_bytes
envelope-IsByte f payload h k =
    All-append (f ++ (payload ++ [])) IsByte
      (All-append (payload ++ []) IsByte (All-append [] IsByte tt payload k) f h)
      (magic ++ version ∷ [])
      (omega arith, (omega arith, (omega arith, (omega arith, (omega arith, tt)))))

pub length-envelope :
    (f payload : Bytes) → length (envelope f payload) ≡ 5 + (length f + length payload)
unfolding concat_bytes
length-envelope f payload = omega (arith, length-append f (payload ++ []), length-append payload [])

pub drop-envelope :
    (f payload : Bytes) → length f ≡ 32 → drop header_length (envelope f payload) ≡ payload
unfolding concat_bytes
drop-envelope f payload h =
    let at_f : drop 32 (f ++ (payload ++ [])) ≡ payload ++ [] =
      rw h at (drop-append f (payload ++ [])) in
    at_f ∙ append-nil payload

pub fingerprint-envelope :
    (f payload : Bytes) → length f ≡ 32 → envelope_fingerprint (envelope f payload) ≡ f
unfolding concat_bytes envelope_fingerprint
fingerprint-envelope f payload h = rw h at (take-append f (payload ++ []))

bytes_key :
    (bs : Bytes)
    → same_keys
        (member "kind"
          (text (codes "bytes"))
          (member "base64" (text (base64_encode bs)) no_members))
        ("kind" ∷ "base64" ∷ [])
      ≡ true
unfolding same_keys keys sort_texts insert_text text_leb code_units units_leb texts_equal
bytes_key bs = refl

module _ (platform : Platform) where
  pub bytes_of_value-record_of :
      (bs : Bytes)
      → All IsByte bs
      → bytes_of_value platform (record_of (bytes (base64_encode bs))) ≡ ok bs
  unfolding bytes_of_value canonicalize_value record_of bytes_from_base64
  bytes_of_value-record_of bs h =
      rw
        (
          bytes_of_value,
          bytes_key bs,
          bytes_from_base64,
          (base64_round_trip bs h).0,
          bytes_equal_refl (base64_encode bs),
          (base64_round_trip bs h).0,
        )
        refl

  pub fingerprint_lem :
      (t : TypeExpr) (types : Declarations) (f : Bytes)
      → type_fingerprint platform t types ≡ ok f
      → (length f ≡ 32) × All IsByte f
  unfolding type_fingerprint schema_hash
  fingerprint_lem t types f h = elim (Result-cases (reachable_declarations t types)) [
    | inr (e, k) ↦ absurd (cc (rw (type_fingerprint, k) at h))
    | inl (r, k) ↦
        subst (λ b. (length b ≡ 32) × All IsByte b) (eq_of_ok (rw (type_fingerprint, k) at h))
          (platform.length-sha256 _, platform.sha256-IsByte _)
  ]

  decoded :
      (types : Declarations) (t : TypeExpr) (payload : Bytes) (v : HostValue)
      → read_value platform.numbers platform.utf8 types (suc max_value_depth) t payload ≡ ok (v, [])
      → decode_payload platform t types payload ≡ ok v
  unfolding decode_payload
  decoded types t payload v h = rw (decode_payload, h) refl

  -- What comes of packing a value that has a code: the payload is the code.
  pub pack_cases :
      (types : Declarations) (t : TypeExpr) (v x : HostValue) (f : Bytes)
      → Codes
          (write_value platform.numbers platform.utf8 types (suc max_value_depth) t v)
          (read_value platform.numbers platform.utf8 types (suc max_value_depth) t)
          x
      → type_fingerprint platform t types ≡ ok f
      → (payload : Bytes) × All IsByte payload
        × (length payload ≤ max_payload_bytes
            → (pack_composite_value platform v t types
                ≡ ok (bytes (base64_encode (envelope f payload))))
              × (decode_payload platform t types payload ≡ ok x))
        × (max_payload_bytes < length payload
            → pack_composite_value platform v t types ≡ err (codec payload_too_large))
  unfolding pack_composite_value decode_payload contents concat_bytes
  pack_cases types t v x f code print =
      let (payload, byte, writes, reads) = code in
      let (fits, over) = writes new_writer (omega arith) in
      let (size, f_byte) = fingerprint_lem t types f print in
      (
        payload,
        byte,
        λ h.
            let (u, ran, here, _) = fits (omega (arith, h)) in
            (
              rw
                  (
                    pack_composite_value,
                    ran,
                    print,
                    here,
                    value_of_bytes-base64 (envelope f payload)
                        (envelope-IsByte f payload f_byte byte),
                  )
                  refl,
              decoded types t payload x (
                  subst
                    (λ b.
                      read_value platform.numbers platform.utf8 types (suc max_value_depth) t b
                      ≡ ok (x, []))
                    (append-nil payload) (reads h [])),
            ),
        λ h. rw (pack_composite_value, over (omega (arith, h))) refl,
      )
