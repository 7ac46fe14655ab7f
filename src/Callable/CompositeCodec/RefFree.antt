-- ===== src/Callable/CompositeCodec/RefFree.antt =====
-- `assertRefFree` of src/callable/composite-codec.js lets typed values pass: an object with the field
-- names of a declaration is no reference, since "imageId" is no declared name.
use lagrange_images.Base.{
  ◌≡◌, refl, ap, String, Bool, true, false, List, [], ◌∷◌, str_eq, eq_iff, if◌then◌else◌, All,
  Bool-cases, Option-cases, ◌==◌, ◌&&◌, length, inl, inr, both_true, codes,
}
use lagrange_images.Base.Result.{Result, ok, err, Result-cases}
use lagrange_images.Base.TextOrder.{member as listed, sort_texts, member-sort_texts}
use lagrange_images.Support.PortableBytes.{bytes_equal, base64_decode, base64_encode}
use lagrange_images.Value.Kinds.{Value, float64, bytes}
use lagrange_images.Value.Host.{
  HostValue, boolean, number, bigint, text, object, Members, no_members, member, keys, HostNumbers,
  is_safe_integer,
}
use lagrange_images.Value.Scalars.{
  ValueError, texts_equal, same_keys, kind_of, canonicalize_members, canonicalize_value,
  is_reference, member_or, boolean_value, integer_value, float64_from_bits, text_value,
  bytes_from_base64, with_keys, value_keys, parse_integer, all_hex, lower, bad_float, bad_bytes,
}
use lagrange_images.Callable.TypeGrammar.{TypeExpr, RecordFields, is_declared_name, name_tail}
use lagrange_images.Callable.CompositeCodec.{holds_reference}
use lagrange_images.Callable.Typed.{FieldsHave}

abbrev refers : Result ValueError Value → Bool
refers r = elim r [ err e ↦ false | ok c ↦ is_reference c ]

refers-if :
    (t : Bool) (r s : Result ValueError Value)
    → refers r ≡ false
    → refers s ≡ false
    → refers (if t then r else s) ≡ false
refers-if true r s h k = h
refers-if false r s h k = k

refers-with_keys :
    (ms : Members) (names : List String) (r : Result ValueError Value)
    → refers r ≡ false
    → refers (with_keys ms names r) ≡ false
refers-with_keys ms names r h = elim (Bool-cases (same_keys ms names)) [
  | inl t ↦ rw (refers, t) h
  | inr f ↦ rw (refers, f) refl
]

refers_wrong_keys :
    (ms : Members) (names : List String) (r : Result ValueError Value)
    → same_keys ms names ≡ false
    → refers (with_keys ms names r) ≡ false
refers_wrong_keys ms names r h = rw (refers, h) refl

refers-boolean_value : (v : HostValue) → refers (boolean_value v) ≡ false
unfolding boolean_value is_reference
refers-boolean_value (boolean b) = refl
refers-boolean_value _ = refl

refers-text_value : (v : HostValue) → refers (text_value v) ≡ false
unfolding text_value is_reference
refers-text_value (text t) = refl
refers-text_value _ = refl

refers-integer_value : (host : HostNumbers) (v : HostValue) → refers (integer_value host v) ≡ false
unfolding integer_value is_reference
refers-integer_value host (number n) = elim (Bool-cases (is_safe_integer host n)) [
  | inl t ↦ elim (Option-cases (host.integer_of n)) [
    | inl e ↦ rw (refers, t, e) refl
    | inr (i, e) ↦ rw (refers, t, e) refl
  ]
  | inr f ↦ rw (refers, f) refl
]
refers-integer_value host (text t) = elim (Option-cases (parse_integer t)) [
  | inl e ↦ rw (refers, e) refl
  | inr (i, e) ↦ rw (refers, e) refl
]
refers-integer_value host (bigint i) = refl
refers-integer_value host _ = refl

refers-float64_from_bits : (v : HostValue) → refers (float64_from_bits v) ≡ false
unfolding float64_from_bits is_reference
refers-float64_from_bits (text t) =
    refers-if ((length t == 16) && all_hex t) (ok (float64 (lower t))) (err bad_float) refl refl
refers-float64_from_bits _ = refl

refers-bytes_from_base64 : (v : HostValue) → refers (bytes_from_base64 v) ≡ false
unfolding bytes_from_base64 is_reference
refers-bytes_from_base64 (text t) = elim (Result-cases (base64_decode t)) [
  | inr (e, p) ↦ rw (refers, p) refl
  | inl (b, p) ↦
      rw (refers, p)
        (refers-if (bytes_equal (base64_encode b) t) (ok (bytes t)) (err bad_bytes) refl refl)
]
refers-bytes_from_base64 _ = refl

refers-canonicalize_members :
    (host : HostNumbers) (ms : Members)
    → same_keys ms ("kind" ∷ "imageId" ∷ "objectId" ∷ []) ≡ false
    → same_keys ms ("kind" ∷ "imageId" ∷ "objectId" ∷ "revision" ∷ []) ≡ false
    → refers (canonicalize_members host ms) ≡ false
unfolding canonicalize_members
refers-canonicalize_members host ms h k = elim (Option-cases (kind_of ms)) [
  | inl e ↦ rw (refers, e) refl
  | inr (t, e) ↦
      rw (refers, e)
        (refers-if (bytes_equal t (codes "boolean")) _ _
          (refers-with_keys ms value_keys _ (refers-boolean_value (member_or "value" ms)))
          (refers-if (bytes_equal t (codes "integer")) _ _
            (refers-with_keys ms value_keys _ (refers-integer_value host (member_or "value" ms)))
            (refers-if (bytes_equal t (codes "float64")) _ _
              (refers-with_keys ms ("kind" ∷ "bits" ∷ []) _
                (refers-float64_from_bits (member_or "bits" ms)))
              (refers-if (bytes_equal t (codes "text")) _ _
                (refers-with_keys ms value_keys _ (refers-text_value (member_or "value" ms)))
                (refers-if (bytes_equal t (codes "bytes")) _ _
                  (refers-with_keys ms ("kind" ∷ "base64" ∷ []) _
                    (refers-bytes_from_base64 (member_or "base64" ms)))
                  (refers-if (bytes_equal t (codes "ref")) _ _
                    (refers_wrong_keys ms ("kind" ∷ "imageId" ∷ "objectId" ∷ []) _ h)
                    (refers-if (bytes_equal t (codes "pinned-ref")) _ _
                      (refers_wrong_keys ms ("kind" ∷ "imageId" ∷ "objectId" ∷ "revision" ∷ []) _ k)
                      refl)))))))
]

texts_path : (a b : List String) → texts_equal a b ≡ true → a ≡ b
unfolding texts_equal
texts_path [] [] h = refl
texts_path (x ∷ xs) (y ∷ ys) h =
    let (first, rest) = both_true (str_eq x y) (texts_equal xs ys) h in
    let p = (eq_iff x y).0 first in let q = texts_path xs ys rest in λ i. p i ∷ q i
texts_path [] (y ∷ ys) h = cc
texts_path (x ∷ xs) [] h = cc

-- Records with the same keys have the same members.
other_keys :
    (k : String) (ms : Members) (names : List String)
    → listed k names ≡ true
    → listed k (keys ms) ≡ false
    → same_keys ms names ≡ false
unfolding same_keys
other_keys k ms names here absent =
    elim (Bool-cases (texts_equal (sort_texts (keys ms)) (sort_texts names))) [
      | inl t ↦ cc (
        member-sort_texts k (keys ms),
        member-sort_texts k names,
        ap (listed k) (texts_path (sort_texts (keys ms)) (sort_texts names) t),
      )
      | inr f ↦ f
    ]

another_name :
    (j k name : String)
    → j ≡ name
    → is_declared_name name ≡ true
    → is_declared_name k ≡ false
    → str_eq j k ≡ false
another_name j k name e t f = elim (Bool-cases (str_eq j k)) [
  | inl same ↦ cc (ap is_declared_name ((eq_iff j k).0 same), ap is_declared_name e, t, f)
  | inr apart ↦ apart
]

-- The keys of a typed object are declared names.
not_a_key :
    (k : String) (P : TypeExpr → HostValue → Type 0) (fields : RecordFields) (ms : Members)
    → is_declared_name k ≡ false
    → All (λ (f : String × TypeExpr). is_declared_name f.0 ≡ true) fields
    → FieldsHave P fields ms
    → listed k (keys ms) ≡ false
unfolding FieldsHave keys listed
not_a_key k P [] no_members h a f = refl
not_a_key k P ((name, t) ∷ fields) (member j v ms) h a f =
    rw (not_a_key k P fields ms h a.1 f.2, another_name j k name f.0 a.0 h) refl
not_a_key k P [] (member j v ms) h a f = absurd f
not_a_key k P ((name, t) ∷ fields) no_members h a f = absurd f

pub object_holds_no_reference :
    (host : HostNumbers) (P : TypeExpr → HostValue → Type 0) (fields : RecordFields) (ms : Members)
    → All (λ (f : String × TypeExpr). is_declared_name f.0 ≡ true) fields
    → FieldsHave P fields ms
    → holds_reference host (object ms) ≡ false
unfolding holds_reference canonicalize_value
object_holds_no_reference host P fields ms a f =
    let absent = not_a_key "imageId" P fields ms (unfold is_declared_name name_tail in refl) a f in
    refers-canonicalize_members host ms
      (other_keys "imageId" ms ("kind" ∷ "imageId" ∷ "objectId" ∷ []) (unfold listed in refl)
        absent)
      (other_keys "imageId" ms ("kind" ∷ "imageId" ∷ "objectId" ∷ "revision" ∷ [])
        (unfold listed in refl) absent)
