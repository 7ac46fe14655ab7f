-- ===== src/Callable/CompositeCodec/Fields.antt =====
-- The fields of a record and the elements of an array, in src/callable/composite-codec.js: the code of
-- the whole is the codes of the parts, one after another.
use lagrange_images.Base.{
  ◌≡◌, refl, sym, ap, ◌∙◌, String, true, false, none, some, [], ◌∷◌, ◌++◌, length-append, str_eq,
  eq_iff, eq_refl, if◌then◌else◌, arith, Bool-cases, inl, inr, All-append,
}
use lagrange_images.Base.Dict.{get, IsDistinct}
use lagrange_images.Base.Result.{Result, ok}
use lagrange_images.Support.PortableBytes.{Bytes}
use lagrange_images.Support.PortableBytes.Base64.{IsByte}
use lagrange_images.Value.Host.{
  HostValue, Values, no_values, value, Members, no_members, member, count_values, get_member,
  set_member,
}
use lagrange_images.Callable.TypeGrammar.{TypeExpr, RecordFields}
use lagrange_images.Callable.Buffers.{CodecError, Writer, contents}
use lagrange_images.Callable.CompositeCodec.{
  write_each, write_fields, has_field, has_extra, read_each, read_fields,
}
use lagrange_images.Callable.Typed.{EachHas, FieldsHave}
use lagrange_images.Callable.CompositeCodec.Writes.{Writes, eq-Writes, and_then, and_then-Writes}
use lagrange_images.Callable.CompositeCodec.Primitives.{Codes}
use mathlib.Core.List.{append_assoc, append-nil}

-- Nothing is written for nothing.
nothing-Writes : Writes [] (λ w. ok w)
nothing-Writes w k =
    (λ h. (w, refl, sym (append-nil (contents w)), omega arith), λ h. absurd (omega arith))

pub each-Codes :
    (P : HostValue → Type 0) (f : HostValue → Writer → Result CodecError Writer)
    (g : Bytes → Result CodecError (HostValue × Bytes))
    → ((v : HostValue) → P v → Codes (f v) g v)
    → (vs : Values) → EachHas P vs
    → Codes (write_each f vs) (read_each g (count_values vs)) vs
unfolding EachHas write_each read_each count_values
each-Codes P f g code no_values h = ([], tt, nothing-Writes, λ _ rest. refl)
each-Codes P f g code (value v vs) (h, hs) =
    let (bs, byte, writes, reads) = code v h in
    let (cs, byte', writes', reads') = each-Codes P f g code vs hs in
    (
      bs ++ cs,
      All-append cs IsByte byte' bs byte,
      and_then-Writes bs cs (f v) (write_each f vs) writes writes',
      λ fits rest.
          rw
            (
              append_assoc bs cs rest,
              reads (omega (arith, length-append bs cs)) (cs ++ rest),
              reads' (omega (arith, length-append bs cs)) rest,
            )
            refl,
    )

-- The members of the one before those of the other.
abbrev pub append_members : Members → Members → Members
append_members no_members more = more
append_members (member k v ms) more = member k v (append_members ms more)

pub append_no_members : (ms : Members) → append_members ms no_members ≡ ms
append_no_members no_members = refl
append_no_members (member k v ms) = ap (member k v) (append_no_members ms)

pub set_absent :
    (k : String) (v : HostValue) (ms more : Members)
    → get_member k ms ≡ none
    → append_members (set_member k v ms) more ≡ append_members ms (member k v more)
unfolding get_member set_member
set_absent k v no_members more h = refl
set_absent k v (member j w ms) more h = ground (arith, set_absent k v ms more)

pub get_member-set_member :
    (k j : String) (v : HostValue) (ms : Members)
    → get_member j (set_member k v ms) ≡ (if str_eq k j then some v else get_member j ms)
unfolding get_member set_member
get_member-set_member k j v no_members = refl
get_member-set_member k j v (member i w ms) =
    ground (arith, get_member-set_member k j v ms, eq_iff i k, eq_iff i j, eq_iff k j)

has_field-get :
    (n : String) (fields : RecordFields) → get n fields ≡ none → has_field fields n ≡ false
unfolding get has_field
has_field-get n [] h = refl
has_field-get n ((j, t) ∷ fields) h = ground (arith, has_field-get n fields)

-- A field that comes later has another name.
pub later_name :
    (name n : String) (fields : RecordFields)
    → get name fields ≡ none
    → has_field fields n ≡ true
    → str_eq name n ≡ false
later_name name n fields h e = elim (Bool-cases (str_eq name n)) [
  | inl t ↦ cc (has_field-get name fields h, e, ap (has_field fields) ((eq_iff name n).0 t))
  | inr f ↦ f
]

-- The fields still to come are found in the object as in the rest of its members, and the record read
-- so far has none of them.
pub fields-Codes :
    (P : TypeExpr → HostValue → Type 0)
    (f : TypeExpr → HostValue → Writer → Result CodecError Writer)
    (g : TypeExpr → Bytes → Result CodecError (HostValue × Bytes))
    → ((t : TypeExpr) (v : HostValue) → P t v → Codes (f t v) (g t) v)
    → (fields : RecordFields) (rest whole acc : Members) → IsDistinct fields
    → FieldsHave P fields rest
    → ((n : String) → has_field fields n ≡ true → get_member n whole ≡ get_member n rest)
    → ((n : String) → has_field fields n ≡ true → get_member n acc ≡ none)
    → Codes (write_fields f fields whole) (read_fields g fields acc) (append_members acc rest)
unfolding FieldsHave write_fields read_fields has_field get_member
fields-Codes P f g code [] no_members whole acc d h found free =
    ([], tt, nothing-Writes, λ _ more. rw (append_no_members acc) refl)
fields-Codes P f g code ((name, t) ∷ fields) (member k v rest) whole acc d h found free =
    let (same, here, more) = h in
    let mine : get_member name whole ≡ some v =
      found name (rw eq_refl refl) ∙ rw (get_member, same, eq_refl) refl in
    let (bs, byte, writes, reads) = code t v here in
    let (cs, byte', writes', reads') =
      fields-Codes P f g code fields rest whole (set_member name v acc) d.1 more
        (λ n e.
          found n (rw (has_field, e) (ground arith))
          ∙ rw (get_member, same, later_name name n fields d.0 e) refl)
        (λ n e.
          rw (get_member-set_member name n v acc, later_name name n fields d.0 e)
            (free n (rw (has_field, e) (ground arith)))) in
    (
      bs ++ cs,
      All-append cs IsByte byte' bs byte,
      eq-Writes (bs ++ cs) (write_fields f ((name, t) ∷ fields) whole)
          (and_then (f t v) (write_fields f fields whole)) (λ w. rw (write_fields, mine) refl)
          (and_then-Writes bs cs (f t v) (write_fields f fields whole) writes writes'),
      λ fits after.
          rw
            (
              append_assoc bs cs after,
              read_fields,
              reads (omega (arith, length-append bs cs)) (cs ++ after),
              reads' (omega (arith, length-append bs cs)) after,
              set_absent name v acc rest (free name (rw eq_refl refl)),
              same,
            )
            refl,
    )
fields-Codes P f g code [] (member k v rest) whole acc d h found free = absurd h
fields-Codes P f g code ((name, t) ∷ fields) no_members whole acc d h found free = absurd h

pub no_extra :
    (P : TypeExpr → HostValue → Type 0) (all fields : RecordFields) (ms : Members)
    → FieldsHave P fields ms
    → ((n : String) → has_field fields n ≡ true → has_field all n ≡ true)
    → has_extra all ms ≡ false
unfolding FieldsHave has_extra has_field
no_extra P all [] no_members h sub = refl
no_extra P all ((name, t) ∷ fields) (member k v ms) h sub =
    rw
      (
        h.0,
        sub name (rw eq_refl refl),
        no_extra P all fields ms h.2 (λ n e. sub n (rw e (ground arith))),
      )
      refl
no_extra P all [] (member k v ms) h sub = absurd h
no_extra P all ((name, t) ∷ fields) no_members h sub = absurd h
