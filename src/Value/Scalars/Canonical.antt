-- ===== src/Value/Scalars/Canonical.antt =====
-- src/value/scalars.js: a canonical Value is the canonical form of its own record.
use lagrange_images.Base.Integers.{ℤ, pos, negsuc}
use lagrange_images.Base.{
  ◌≡◌, ◌≢◌, refl, subst, Bool, true, false, ◌&&◌, List, [], ◌∷◌, length, codes, if◌then◌else◌, ◌==◌,
  Bool-cases, Option-cases, inl, inr, both_true, String, ==_iff, ◌∙◌,
}
use lagrange_images.Base.Decimal.{to_decimal_ne_nil}
use lagrange_images.Base.Result.{Result, ok, err, Result-cases, eq_of_ok}
use lagrange_images.Base.TextOrder.{sort_texts, insert_text, text_leb, code_units, units_leb}
use lagrange_images.Support.PortableBytes.{Bytes, Text, bytes_equal, base64_encode, base64_decode}
use lagrange_images.Value.Kinds.{Value, integer, float64, bytes, ref, pinned_ref}
use lagrange_images.Value.Host.{
  HostValue, boolean, number, bigint, text, object, Members, keys, get_member, HostNumbers,
  is_safe_integer,
}
use lagrange_images.Value.Scalars.{
  ValueError, signed_decimal, parse_integer, integer_value, all_hex, lower, float64_from_bits,
  bytes_from_base64, required_text, revision_text, texts_equal, same_keys, kind_of, member_or,
  boolean_value, text_value, object_ref, pinned_object_ref, canonicalize_members,
  canonicalize_value, record_of, with_keys, bad_float, bad_bytes, value_keys,
}
use lagrange_images.Value.Scalars.Laws.{IsCanonical, parse_integer-signed_decimal, lower_lem}

abbrev Good : Result ValueError Value → Type 0
Good r = elim r [ err e ↦ Unit | ok c ↦ IsCanonical c ]

Good-if :
    (t : Bool) (r s : Result ValueError Value)
    → (t ≡ true → Good r)
    → (t ≡ false → Good s)
    → Good (if t then r else s)
Good-if true r s h k = h refl
Good-if false r s h k = k refl

Good-with_keys :
    (ms : Members) (names : List String) (r : Result ValueError Value)
    → Good r
    → Good (with_keys ms names r)
Good-with_keys ms names r h = elim (Bool-cases (same_keys ms names)) [
  | inl t ↦ rw (with_keys, t) h
  | inr f ↦ rw (with_keys, f) tt
]

boolean_value-Good : (v : HostValue) → Good (boolean_value v)
unfolding boolean_value IsCanonical
boolean_value-Good (boolean b) = tt
boolean_value-Good _ = tt

text_value-Good : (v : HostValue) → Good (text_value v)
unfolding text_value IsCanonical
text_value-Good (text t) = tt
text_value-Good _ = tt

integer_value-Good : (host : HostNumbers) (v : HostValue) → Good (integer_value host v)
unfolding integer_value IsCanonical
integer_value-Good host (number n) = elim (Bool-cases (is_safe_integer host n)) [
  | inl t ↦ elim (Option-cases (host.integer_of n)) [
    | inl e ↦ rw (integer_value, t, e) tt
    | inr (i, e) ↦ rw (integer_value, t, e) (i, refl)
  ]
  | inr f ↦ rw (integer_value, f) tt
]
integer_value-Good host (text t) = elim (Option-cases (parse_integer t)) [
  | inl e ↦ rw (integer_value, e) tt
  | inr (i, e) ↦ rw (integer_value, e) (i, refl)
]
integer_value-Good host (bigint i) = (i, refl)
integer_value-Good host _ = tt

float64_from_bits-Good : (v : HostValue) → Good (float64_from_bits v)
unfolding float64_from_bits IsCanonical
float64_from_bits-Good (text t) =
    Good-if ((length t == 16) && all_hex t) (ok (float64 (lower t))) (err bad_float)
      (λ e.
        let (size, hex) = both_true (length t == 16) (all_hex t) e in
        let (hex', same, size') = lower_lem t hex in
        (size' ∙ (==_iff (length t) 16).0 size, hex', same))
      (λ e. tt)
float64_from_bits-Good _ = tt

bytes_from_base64-Good : (v : HostValue) → Good (bytes_from_base64 v)
unfolding IsCanonical bytes_from_base64
bytes_from_base64-Good (text t) = elim (Result-cases (base64_decode t)) [
  | inr (e, d) ↦ rw (bytes_from_base64, d) tt
  | inl (bs, d) ↦
      rw (bytes_from_base64, d)
        (Good-if (bytes_equal (base64_encode bs) t) (ok (bytes t)) (err bad_bytes) (λ e. (bs, d, e))
          (λ e. tt))
]
bytes_from_base64-Good _ = tt

required_text_ne_nil : (v : HostValue) (t : Text) → required_text v ≡ ok t → t ≢ []
unfolding required_text
required_text_ne_nil (text []) t h e = cc
required_text_ne_nil (text (c ∷ cs)) t h e = cc
required_text_ne_nil _ t h e = cc

signed_decimal_ne_nil : (i : ℤ) → signed_decimal i ≢ []
unfolding signed_decimal
signed_decimal_ne_nil (pos n) e = to_decimal_ne_nil n e
signed_decimal_ne_nil (negsuc n) e = cc

revision_text_ne_nil :
    (host : HostNumbers) (v : HostValue) (t : Text) → revision_text host v ≡ ok t → t ≢ []
unfolding revision_text
revision_text_ne_nil host (text []) t h e = cc
revision_text_ne_nil host (text (c ∷ cs)) t h e = cc
revision_text_ne_nil host (number n) t h e = elim (Bool-cases (is_safe_integer host n)) [
  | inr f ↦ absurd (cc (rw (revision_text, f) at h))
  | inl s ↦ elim (Option-cases (host.integer_of n)) [
    | inl i ↦ absurd (cc (rw (revision_text, s, i) at h))
    | inr (i, k) ↦ signed_decimal_ne_nil i (eq_of_ok (rw (revision_text, s, k) at h) ∙ e)
  ]
]
revision_text_ne_nil host (bigint i) t h e = signed_decimal_ne_nil i (eq_of_ok h ∙ e)
revision_text_ne_nil host _ t h e = cc

object_ref-Good : (image target : HostValue) → Good (object_ref image target)
unfolding object_ref IsCanonical
object_ref-Good image target = elim (Result-cases (required_text image)) [
  | inr (e, i) ↦ rw (object_ref, i) tt
  | inl (s, i) ↦ elim (Result-cases (required_text target)) [
    | inr (e, o) ↦ rw (object_ref, i, o) tt
    | inl (t, o) ↦
        rw (object_ref, i, o) (required_text_ne_nil image s i, required_text_ne_nil target t o)
  ]
]

pinned_object_ref-Good :
    (host : HostNumbers) (image target revision : HostValue)
    → Good (pinned_object_ref host image target revision)
unfolding pinned_object_ref IsCanonical
pinned_object_ref-Good host image target revision =
    elim (Result-cases (revision_text host revision)) [
      | inr (e, r) ↦ rw (pinned_object_ref, r) tt
      | inl (u, r) ↦ elim (Result-cases (required_text image)) [
        | inr (e, i) ↦ rw (pinned_object_ref, r, i) tt
        | inl (s, i) ↦ elim (Result-cases (required_text target)) [
          | inr (e, o) ↦ rw (pinned_object_ref, r, i, o) tt
          | inl (t, o) ↦
              rw (pinned_object_ref, r, i, o)
                (
                  required_text_ne_nil image s i,
                  required_text_ne_nil target t o,
                  revision_text_ne_nil host revision u r,
                )
        ]
      ]
    ]

canonicalize_members-Good :
    (host : HostNumbers) (ms : Members) → Good (canonicalize_members host ms)
unfolding canonicalize_members
canonicalize_members-Good host ms = elim (Option-cases (kind_of ms)) [
  | inl e ↦ rw (canonicalize_members, e) tt
  | inr (k, e) ↦
      rw (canonicalize_members, e)
        (Good-if (bytes_equal k (codes "boolean")) _ _
          (λ _. Good-with_keys ms value_keys _ (boolean_value-Good (member_or "value" ms)))
          (λ _.
            Good-if (bytes_equal k (codes "integer")) _ _
              (λ _. Good-with_keys ms value_keys _ (integer_value-Good host (member_or "value" ms)))
              (λ _.
                Good-if (bytes_equal k (codes "float64")) _ _
                  (λ _.
                    Good-with_keys ms ("kind" ∷ "bits" ∷ []) _
                      (float64_from_bits-Good (member_or "bits" ms)))
                  (λ _.
                    Good-if (bytes_equal k (codes "text")) _ _
                      (λ _. Good-with_keys ms value_keys _ (text_value-Good (member_or "value" ms)))
                      (λ _.
                        Good-if (bytes_equal k (codes "bytes")) _ _
                          (λ _.
                            Good-with_keys ms ("kind" ∷ "base64" ∷ []) _
                              (bytes_from_base64-Good (member_or "base64" ms)))
                          (λ _.
                            Good-if (bytes_equal k (codes "ref")) _ _
                              (λ _. Good-with_keys ms ("kind" ∷ "imageId" ∷ "objectId" ∷ []) _ (
                                object_ref-Good (member_or "imageId" ms) (member_or "objectId" ms)))
                              (λ _.
                                Good-if (bytes_equal k (codes "pinned-ref")) _ _
                                  (λ _.
                                    Good-with_keys ms
                                      ("kind" ∷ "imageId" ∷ "objectId" ∷ "revision" ∷ []) _
                                      (pinned_object_ref-Good host (member_or "imageId" ms)
                                        (member_or "objectId" ms) (member_or "revision" ms)))
                                  (λ _. tt))))))))
]

canonicalize_value-IsCanonical :
    (host : HostNumbers) (v : HostValue) (c : Value)
    → canonicalize_value host v ≡ ok c
    → IsCanonical c
unfolding canonicalize_value
canonicalize_value-IsCanonical host (object ms) c h =
    let good : Good (ok c) = subst Good h (canonicalize_members-Good host ms) in good
canonicalize_value-IsCanonical host _ c h = absurd (cc h)

required_text_of : (t : Text) → t ≢ [] → required_text (text t) ≡ ok t
unfolding required_text
required_text_of [] h = absurd (h refl)
required_text_of (c ∷ cs) h = refl

revision_text_of : (host : HostNumbers) (t : Text) → t ≢ [] → revision_text host (text t) ≡ ok t
unfolding revision_text
revision_text_of host [] h = absurd (h refl)
revision_text_of host (c ∷ cs) h = refl

integer_value_of :
    (host : HostNumbers) (i : ℤ)
    → integer_value host (text (signed_decimal i)) ≡ ok (integer (signed_decimal i))
unfolding integer_value
integer_value_of host i = rw (integer_value, parse_integer-signed_decimal i) refl

float64_of :
    (t : Text)
    → length t ≡ 16
    → all_hex t ≡ true
    → lower t ≡ t
    → float64_from_bits (text t) ≡ ok (float64 t)
unfolding float64_from_bits
float64_of t size hex same = rw (float64_from_bits, size, hex, same) refl

bytes_of :
    (t : Text) (bs : Bytes)
    → base64_decode t ≡ ok bs
    → bytes_equal (base64_encode bs) t ≡ true
    → bytes_from_base64 (text t) ≡ ok (bytes t)
unfolding bytes_from_base64
bytes_of t bs d e = rw (bytes_from_base64, d, e) refl

object_ref_of : (i o : Text) → i ≢ [] → o ≢ [] → object_ref (text i) (text o) ≡ ok (ref i o)
unfolding object_ref
object_ref_of i o h k = rw (object_ref, required_text_of i h, required_text_of o k) refl

pinned_object_ref_of :
    (host : HostNumbers) (i o r : Text)
    → i ≢ []
    → o ≢ []
    → r ≢ []
    → pinned_object_ref host (text i) (text o) (text r) ≡ ok (pinned_ref i o r)
unfolding pinned_object_ref
pinned_object_ref_of host i o r h k l =
    rw (pinned_object_ref, revision_text_of host r l, required_text_of i h, required_text_of o k)
      refl

-- What the branch of each kind is of the record.
canonicalize-record_of :
    (host : HostNumbers) (c : Value) → IsCanonical c → canonicalize_value host (record_of c) ≡ ok c
unfolding canonicalize_value record_of IsCanonical canonicalize_members kind_of bytes_equal
    same_keys keys sort_texts insert_text text_leb code_units units_leb texts_equal member_or
    get_member boolean_value text_value
canonicalize-record_of host (Value.boolean b) h = refl
canonicalize-record_of host (Value.text t) h = refl
canonicalize-record_of host (integer t) (i, e) = rw e (integer_value_of host i)
canonicalize-record_of host (float64 t) (size, hex, same) = float64_of t size hex same
canonicalize-record_of host (bytes t) (bs, d, e) = bytes_of t bs d e
canonicalize-record_of host (ref i o) (h, k) = object_ref_of i o h k
canonicalize-record_of host (pinned_ref i o r) (h, k, l) = pinned_object_ref_of host i o r h k l

-- The canonical form of a value, as a record, is its own canonical form.
pub canonicalize_value_idempotent :
    (host : HostNumbers) (v : HostValue) (c : Value)
    → canonicalize_value host v ≡ ok c
    → canonicalize_value host (record_of c) ≡ ok c
canonicalize_value_idempotent host v c h =
    canonicalize-record_of host c (canonicalize_value-IsCanonical host v c h)
