-- ===== src/Callable/CompositeCodec/Sound.antt =====
-- What `readValue` of src/callable/composite-codec.js returns has the type that it was read against.
use lagrange_images.Base.{
  ℕ, zero, suc, ◌^◌, ◌≤◌, ◌<◌, ◌≡◌, refl, sym, ap, ◌∙◌, subst, String, true, false, none, List, [],
  ◌∷◌, length, take, drop, ltb, arith, All, Bool-cases, Option-cases, inl, inr, eq_refl,
  if◌then◌else◌, ◌==◌,
}
use lagrange_images.Base.Dict.{get, All-get, IsDistinct}
use lagrange_images.Base.Result.{Result, ok, err, Result-cases, eq_of_ok}
use lagrange_images.Support.PortableBytes.{Bytes}
use lagrange_images.Support.PortableBytes.Base64.{IsByte}
use lagrange_images.Support.Utf8.{Utf8, IsWellFormed}
use lagrange_images.Value.Host.{
  HostValue, boolean, number, bigint, text, byte_array, array, object, no_values, value, Members,
  no_members, member, count_values, HostNumbers, get_member, set_member,
}
use lagrange_images.Callable.TypeGrammar.{
  TypeExpr, named, list, RecordFields, Declarations, Primitive, bool, s32, s64, f32, f64, string,
  byte_list, primitive_of,
}
use lagrange_images.Callable.BigEndian.{unsigned, unsigned_from_lt, signed, signed-in_range}
use lagrange_images.Callable.Buffers.{
  CodecError, invalid_boolean, list_too_long, take_bytes, take_unsigned, take_counted,
}
use lagrange_images.Callable.PrimitiveCodec.{s32_half, s64_half, reading, read_primitive}
use lagrange_images.Callable.CompositeCodec.{
  max_list_length, read_value, read_each, read_fields, has_field,
}
use lagrange_images.Callable.Typed.{
  IsPrimitive, EachHas, FieldsHave, ObjectHas, ArrayHas, HasType, IsNormal, IsNormalFields,
}
use lagrange_images.Callable.CompositeCodec.Fields.{
  append_members, append_no_members, set_absent, get_member-set_member, later_name,
}

-- A reader's step on bytes gives what satisfies the predicate, and leaves bytes.
abbrev pub Sound : {A : Type 0} → (A → Type 0) → (Bytes → Result CodecError (A × Bytes)) → Type 0
Sound {A} P g =
    (bs : Bytes) (x : A) (rest : Bytes)
    → All IsByte bs
    → g bs ≡ ok (x, rest)
    → P x × All IsByte rest

All-take : {A : Type 0} (P : A → Type 0) (n : ℕ) (xs : List A) → All P xs → All P (take n xs)
All-take P zero xs h = tt
All-take P (suc n) [] h = tt
All-take P (suc n) (x ∷ xs) h = (h.0, All-take P n xs h.1)

pub All-drop : {A : Type 0} (P : A → Type 0) (n : ℕ) (xs : List A) → All P xs → All P (drop n xs)
All-drop P zero xs h = h
All-drop P (suc n) [] h = tt
All-drop P (suc n) (x ∷ xs) h = All-drop P n xs h.1

length-take : {A : Type 0} (n : ℕ) (xs : List A) → n ≤ length xs → length (take n xs) ≡ n
length-take zero xs h = refl
length-take (suc n) [] h = absurd (omega arith)
length-take (suc n) (x ∷ xs) h = omega (arith, length-take n xs (omega arith))

take_bytes-Sound : (n : ℕ) → Sound (λ bs. (length bs ≡ n) × All IsByte bs) (take_bytes n)
unfolding take_bytes
take_bytes-Sound n bs x rest h e = elim (Bool-cases (ltb (length bs) n)) [
  | inl short ↦ absurd (cc (rw short at e))
  | inr long ↦
      let got = eq_of_ok (rw long at e) in
      (
        (
          sym (ap (λ (p : Bytes × Bytes). length p.0) got) ∙ length-take n bs (ground arith),
          subst (All IsByte) (ap (λ (p : Bytes × Bytes). p.0) got) (All-take IsByte n bs h),
        ),
        subst (All IsByte) (ap (λ (p : Bytes × Bytes). p.1) got) (All-drop IsByte n bs h),
      )
]

-- What is done with a result that is read.
then-Sound :
    {A B : Type 0} {P : A → Type 0} {Q : B → Type 0} (g : Bytes → Result CodecError (A × Bytes))
    (k : A → Bytes → Result CodecError (B × Bytes))
    → Sound P g
    → ((x : A) → P x → Sound Q (k x))
    → Sound Q (λ bs. elim (g bs) [ err e ↦ err e | ok r ↦ k r.0 r.1 ])
then-Sound g k hg hk bs y rest h e = elim (Result-cases (g bs)) [
  | inr (er, p) ↦ absurd (cc (rw p at e))
  | inl (r, p) ↦ let (here, left) = hg bs r.0 r.1 h p in hk r.0 here r.1 y rest left (rw p at e)
]

-- Nothing is read.
done-Sound : {A : Type 0} (P : A → Type 0) (x : A) → P x → Sound P (λ bs. ok (x, bs))
done-Sound P x px bs y rest h e =
    let got = eq_of_ok e in
    (
      subst P (ap (λ (p : _ × Bytes). p.0) got) px,
      subst (All IsByte) (ap (λ (p : _ × Bytes). p.1) got) h,
    )

ok-Sound :
    {A B : Type 0} (P : A → Type 0) (Q : B → Type 0) (g : Bytes → Result CodecError (A × Bytes))
    (make : A → B)
    → Sound P g
    → ((x : A) → P x → Q (make x))
    → Sound Q (λ bs. elim (g bs) [ err e ↦ err e | ok r ↦ ok (make r.0, r.1) ])
ok-Sound P Q g make hg hk =
    then-Sound g (λ x rest. ok (make x, rest)) hg (λ x px. done-Sound Q (make x) (hk x px))

take_unsigned-Sound : (n : ℕ) → Sound (λ u. u < 256 ^ n) (take_unsigned n)
unfolding take_unsigned unsigned
take_unsigned-Sound n =
    ok-Sound (λ bs. (length bs ≡ n) × All IsByte bs) (λ u. u < 256 ^ n) (take_bytes n) unsigned
      (take_bytes-Sound n)
      (λ bs (size, byte).
        subst (λ k. unsigned bs < 256 ^ k) size (omega (arith, unsigned_from_lt 0 bs byte)))

take_counted-Sound : Sound (All IsByte) take_counted
unfolding take_counted
take_counted-Sound =
    then-Sound (take_unsigned 4) (λ n rest. take_bytes n rest) (take_unsigned-Sound 4)
      (λ n _ bs x rest h e. let (got, left) = take_bytes-Sound n bs x rest h e in (got.1, left))

module _ (host : HostNumbers) (utf8 : Utf8) where
  primitive-Sound :
      (p : Primitive) → Sound (IsPrimitive host (IsWellFormed utf8) p) (read_primitive host utf8 p)
  unfolding read_primitive IsPrimitive
  primitive-Sound bool =
      then-Sound (take_unsigned 1)
        (λ n rest. if ltb 1 n then err invalid_boolean else ok (boolean (n == 1), rest))
        (take_unsigned-Sound 1)
        (λ n _ bs x rest h e. elim (Bool-cases (ltb 1 n)) [
          | inl big ↦ absurd (cc (rw big at e))
          | inr small ↦
              let got = eq_of_ok (rw small at e) in
              (
                subst (IsPrimitive host (IsWellFormed utf8) bool)
                    (ap (λ (p : HostValue × Bytes). p.0) got) tt,
                subst (All IsByte) (ap (λ (p : HostValue × Bytes). p.1) got) h,
              )
        ])
  primitive-Sound s32 =
      ok-Sound (λ n. n < 256 ^ 4) (IsPrimitive host (IsWellFormed utf8) s32) (take_unsigned 4)
        (λ n. number (host.number_of (signed s32_half n))) (take_unsigned-Sound 4)
        (λ n h. (signed s32_half n, signed-in_range s32_half n h, refl))
  primitive-Sound s64 =
      ok-Sound (λ n. n < 256 ^ 8) (IsPrimitive host (IsWellFormed utf8) s64) (take_unsigned 8)
        (λ n. bigint (signed s64_half n)) (take_unsigned-Sound 8)
        (λ n h. signed-in_range s64_half n h)
  primitive-Sound f32 =
      ok-Sound (λ n. n < 256 ^ 4) (IsPrimitive host (IsWellFormed utf8) f32) (take_unsigned 4)
        (λ n. number (host.double_of n)) (take_unsigned-Sound 4) (λ n h. (n, h, refl))
  primitive-Sound f64 =
      ok-Sound (λ n. n < 256 ^ 8) (IsPrimitive host (IsWellFormed utf8) f64) (take_unsigned 8)
        number (take_unsigned-Sound 8) (λ n h. h)
  primitive-Sound string =
      ok-Sound (All IsByte) (IsPrimitive host (IsWellFormed utf8) string) take_counted
        (λ b. text (utf8.decode b)) take_counted-Sound (λ b h. utf8.decode-well_formed b)
  primitive-Sound byte_list =
      ok-Sound (All IsByte) (IsPrimitive host (IsWellFormed utf8) byte_list) take_counted byte_array
        take_counted-Sound (λ b h. h)

-- As many values as the count says, each with the type.
each-Sound :
    (P : HostValue → Type 0) (g : Bytes → Result CodecError (HostValue × Bytes))
    → Sound P g
    → (n : ℕ) → Sound (λ vs. (count_values vs ≡ n) × EachHas P vs) (read_each g n)
unfolding read_each EachHas count_values
each-Sound P g hg zero =
    done-Sound (λ vs. (count_values vs ≡ 0) × EachHas P vs) no_values (refl, tt)
each-Sound P g hg (suc n) =
    then-Sound g
      (λ v rest. elim (read_each g n rest) [ err e ↦ err e | ok s ↦ ok (value v s.0, s.1) ]) hg
      (λ v pv.
        ok-Sound (λ vs. (count_values vs ≡ n) × EachHas P vs)
          (λ vs. (count_values vs ≡ suc n) × EachHas P vs) (read_each g n) (λ vs. value v vs)
          (each-Sound P g hg n) (λ vs (size, all). (ap suc size, (pv, all))))

-- The members read are those of before, and the declared fields with their types.
fields-Sound :
    (P : TypeExpr → HostValue → Type 0)
    (g : TypeExpr → Bytes → Result CodecError (HostValue × Bytes))
    → ((t : TypeExpr) → Sound (P t) (g t))
    → (fields : RecordFields) (acc : Members) → IsDistinct fields
    → ((n : String) → has_field fields n ≡ true → get_member n acc ≡ none)
    → Sound
        (λ ms. (more : Members) × (ms ≡ append_members acc more) × FieldsHave P fields more)
        (read_fields g fields acc)
unfolding read_fields FieldsHave has_field
fields-Sound P g hg [] acc d free =
    done-Sound (λ ms. (more : Members) × (ms ≡ append_members acc more) × FieldsHave P [] more) acc
      (no_members, sym (append_no_members acc), tt)
fields-Sound P g hg ((name, t) ∷ fields) acc d free =
    then-Sound (g t) (λ v rest. read_fields g fields (set_member name v acc) rest) (hg t)
      (λ v pv bs ms rest h e.
        let ((more, same, have), left) =
          fields-Sound P g hg fields (set_member name v acc) d.1
            (λ n k.
              rw (get_member-set_member name n v acc, later_name name n fields d.0 k)
                (free n (rw (has_field, k) (ground arith))))
            bs ms rest h e in
        (
          (
            member name v more,
            same ∙ set_absent name v acc more (free name (rw eq_refl refl)),
            (refl, pv, have),
          ),
          left,
        ))

module _ (host : HostNumbers) (utf8 : Utf8) (types : Declarations) (normal : IsNormal types) where
  pub value-Sound :
      (d : ℕ) (t : TypeExpr)
      → Sound (HasType host (IsWellFormed utf8) types d t) (read_value host utf8 types d t)
  unfolding read_value HasType ObjectHas ArrayHas get_member
  value-Sound zero t = λ bs v rest h e. absurd (cc e)
  value-Sound (suc d) (list t) =
      then-Sound (take_unsigned 4)
        (λ n rest. elim (ltb max_list_length n) [
          | true ↦ err list_too_long
          | false ↦ reading array (read_each (read_value host utf8 types d t) n rest)
        ])
        (take_unsigned-Sound 4)
        (λ n _ bs v rest h e. elim (Bool-cases (ltb max_list_length n)) [
          | inl long ↦ absurd (cc (rw long at e))
          | inr short ↦
              ok-Sound
                (λ vs.
                  (count_values vs ≡ n) × EachHas (HasType host (IsWellFormed utf8) types d t) vs)
                (ArrayHas (HasType host (IsWellFormed utf8) types d t))
                (read_each (read_value host utf8 types d t) n) array
                (each-Sound (HasType host (IsWellFormed utf8) types d t)
                  (read_value host utf8 types d t) (value-Sound d t) n)
                (λ vs (size, all). (ground arith, all)) bs v rest h (rw short at e)
        ])
  value-Sound (suc d) (named name) = λ bs v rest h e. elim (Option-cases (primitive_of name)) [
    | inr (p, k) ↦
        let (has, left) = primitive-Sound host utf8 p bs v rest h (rw (read_value, k) at e) in
        (rw (HasType, k) has, left)
    | inl k ↦ elim (Option-cases (get name types)) [
      | inl g ↦ absurd (cc (rw (read_value, k, g) at e))
      | inr (fields, g) ↦
          let n : IsNormalFields fields = All-get IsNormalFields name types fields normal g in
          let (has, left) =
            ok-Sound
              (λ ms.
                (more : Members) × (ms ≡ append_members no_members more)
                × FieldsHave (HasType host (IsWellFormed utf8) types d) fields more)
              (ObjectHas (HasType host (IsWellFormed utf8) types d) fields)
              (read_fields (read_value host utf8 types d) fields no_members) object
              (fields-Sound (HasType host (IsWellFormed utf8) types d)
                (read_value host utf8 types d) (λ t. value-Sound d t) fields no_members n.0
                (λ k j. refl))
              (λ ms (more, same, have).
                subst (FieldsHave (HasType host (IsWellFormed utf8) types d) fields) (sym same)
                  have)
              bs v rest h (rw (read_value, k, g) at e) in
          (rw (HasType, k, g) has, left)
    ]
  ]
