-- ===== src/Callable/CompositeCodec/Codes.antt =====
-- The code of a typed value: what `writeValue` appends for it is what `readValue` reads it from.
use lagrange_images.Base.{
  ℕ, zero, suc, ◌≤◌, ◌≡◌, refl, String, false, none, some, ◌++◌, length-append, ltb, arith,
  All-append, Option-cases, inl, inr,
}
use lagrange_images.Base.Dict.{get, All-get}
use lagrange_images.Support.PortableBytes.Base64.{IsByte}
use lagrange_images.Support.Utf8.{Utf8, IsPlain}
use lagrange_images.Value.Host.{
  HostValue, boolean, number, bigint, text, byte_array, array, object, no_members, count_values,
  HostNumbers, get_member,
}
use lagrange_images.Value.Scalars.{canonicalize_value}
use mathlib.Core.List.{append_assoc}
use lagrange_images.Callable.TypeGrammar.{
  TypeExpr, named, list, RecordFields, Declarations, Primitive, bool, s32, s64, f32, f64, string,
  byte_list, primitive_of,
}
use lagrange_images.Callable.BigEndian.{big_endian, big_endian-IsByte}
use lagrange_images.Callable.Buffers.{push}
use lagrange_images.Callable.PrimitiveCodec.{write_primitive}
use lagrange_images.Callable.CompositeCodec.{
  max_list_length, holds_reference, write_value, read_value, write_each, write_fields,
}
use lagrange_images.Callable.Typed.{
  IsPrimitive, ObjectHas, ArrayHas, HasType, IsNormal, IsNormalFields,
}
use lagrange_images.Callable.CompositeCodec.Writes.{
  eq-Writes, and_then, and_then-Writes, push-Writes, take_unsigned-big_endian,
}
use lagrange_images.Callable.CompositeCodec.Primitives.{Codes, primitive-Codes}
use lagrange_images.Callable.CompositeCodec.RefFree.{object_holds_no_reference}
use lagrange_images.Callable.CompositeCodec.Fields.{each-Codes, fields-Codes, no_extra}

not_above : (m n : ℕ) → n ≤ m → ltb m n ≡ false
not_above m n h = ground arith

module _ (host : HostNumbers) (utf8 : Utf8) (types : Declarations) (normal : IsNormal types) where
  primitive_holds_no_reference :
      (p : Primitive) (v : HostValue)
      → IsPrimitive host (IsPlain utf8) p v
      → holds_reference host v ≡ false
  unfolding IsPrimitive holds_reference canonicalize_value
  primitive_holds_no_reference bool (boolean b) h = refl
  primitive_holds_no_reference s32 (number n) h = refl
  primitive_holds_no_reference s64 (bigint i) h = refl
  primitive_holds_no_reference f32 (number n) h = refl
  primitive_holds_no_reference f64 (number n) h = refl
  primitive_holds_no_reference string (text t) h = refl
  primitive_holds_no_reference byte_list (byte_array bs) h = refl
  primitive_holds_no_reference _ _ h = absurd h

  array-Codes :
      (d : ℕ) (t : TypeExpr) (v : HostValue)
      → ((w : HostValue)
          → HasType host (IsPlain utf8) types d t w
          → Codes (write_value host utf8 types d t w) (read_value host utf8 types d t) w)
      → ArrayHas (HasType host (IsPlain utf8) types d t) v
      → Codes
          (write_value host utf8 types (suc d) (list t) v)
          (read_value host utf8 types (suc d) (list t))
          v
  unfolding ArrayHas write_value push read_value
  array-Codes d t (array vs) code (bound, h) =
      let (bs, byte, writes, reads) =
        each-Codes (HasType host (IsPlain utf8) types d t) (write_value host utf8 types d t)
          (read_value host utf8 types d t) code vs h in
      (
        big_endian 4 (count_values vs) ++ bs,
        All-append bs IsByte byte (big_endian 4 (count_values vs))
            (big_endian-IsByte 4 (count_values vs)),
        eq-Writes (big_endian 4 (count_values vs) ++ bs)
            (write_value host utf8 types (suc d) (list t) (array vs))
            (and_then (push (big_endian 4 (count_values vs)))
              (write_each (write_value host utf8 types d t) vs))
            (λ w.
              rw
                (
                  write_value,
                  holds_reference,
                  canonicalize_value,
                  not_above max_list_length (count_values vs) bound,
                )
                refl)
            (and_then-Writes (big_endian 4 (count_values vs)) bs
              (push (big_endian 4 (count_values vs)))
              (write_each (write_value host utf8 types d t) vs)
              (push-Writes (big_endian 4 (count_values vs))) writes),
        λ fits rest.
            rw
              (
                append_assoc (big_endian 4 (count_values vs)) bs rest,
                read_value,
                take_unsigned-big_endian 4 (count_values vs) (bs ++ rest) (omega arith),
                not_above max_list_length (count_values vs) bound,
                reads (omega (arith, length-append (big_endian 4 (count_values vs)) bs)) rest,
              )
              refl,
      )
  array-Codes d t _ code h = absurd h

  object-Codes :
      (d : ℕ) (name : String) (fields : RecordFields) (v : HostValue)
      → primitive_of name ≡ none
      → get name types ≡ some fields
      → ((t : TypeExpr) (w : HostValue)
          → HasType host (IsPlain utf8) types d t w
          → Codes (write_value host utf8 types d t w) (read_value host utf8 types d t) w)
      → ObjectHas (HasType host (IsPlain utf8) types d) fields v
      → Codes
          (write_value host utf8 types (suc d) (named name) v)
          (read_value host utf8 types (suc d) (named name))
          v
  unfolding ObjectHas get_member write_value write_fields read_value
  object-Codes d name fields (object ms) e g code h =
      let n : IsNormalFields fields = All-get IsNormalFields name types fields normal g in
      let (bs, byte, writes, reads) =
        fields-Codes (HasType host (IsPlain utf8) types d) (write_value host utf8 types d)
          (read_value host utf8 types d) code fields ms ms no_members n.0 h (λ k j. refl)
          (λ k j. refl) in
      (
        bs,
        byte,
        eq-Writes bs (write_value host utf8 types (suc d) (named name) (object ms))
            (write_fields (write_value host utf8 types d) fields ms)
            (λ w.
              rw
                (
                  write_value,
                  object_holds_no_reference host (HasType host (IsPlain utf8) types d) fields ms n.1
                      h,
                  e,
                  g,
                  no_extra (HasType host (IsPlain utf8) types d) fields fields ms h (λ k j. j),
                )
                refl)
            writes,
        λ fits rest. rw (read_value, e, g, reads fits rest) refl,
      )
  object-Codes d name fields _ e g code h = absurd h

  pub value-Codes :
      (d : ℕ) (t : TypeExpr) (v : HostValue)
      → HasType host (IsPlain utf8) types d t v
      → Codes (write_value host utf8 types d t v) (read_value host utf8 types d t) v
  unfolding HasType write_value write_primitive read_value
  value-Codes zero t v h = absurd h
  value-Codes (suc d) (list t) v h = array-Codes d t v (λ w k. value-Codes d t w k) h
  value-Codes (suc d) (named name) v h = elim (Option-cases (primitive_of name)) [
    | inr (p, e) ↦
        let k : IsPrimitive host (IsPlain utf8) p v = rw (HasType, e) at h in
        let (bs, byte, writes, reads) = primitive-Codes host utf8 p v k in
        (
          bs,
          byte,
          eq-Writes bs (write_value host utf8 types (suc d) (named name) v)
              (write_primitive host utf8 p v)
              (λ w. rw (write_value, primitive_holds_no_reference p v k, e) refl) writes,
          λ fits rest. rw (read_value, e) (reads fits rest),
        )
    | inl e ↦ elim (Option-cases (get name types)) [
      | inl g ↦ absurd (rw (HasType, e, g) at h)
      | inr (fields, g) ↦
          object-Codes d name fields v e g (λ t w k. value-Codes d t w k) (rw (HasType, e, g) at h)
    ]
  ]
