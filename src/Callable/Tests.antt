-- ===== src/Callable/Tests.antt =====
-- A host with integers for numbers, and the theorems about types and envelopes at it.
use lagrange_images.Base.Integers.{negsuc}
use lagrange_images.Base.{
  map, String, ℕ, zero, suc, ◌+◌, ◌%◌, ◌≡◌, ◌≢◌, ◌⊎◌, refl, ◌<◌, true, false, some, [], ◌∷◌, ◌++◌,
  inl, inr, ap, get_or, ◌==◌, codes, arith, All,
}
use lagrange_images.Base.Dict.{get, put}
use lagrange_images.Base.Json.{
  Json, str, arr, obj, nil, cons, end, field, get_field, field_names, list_of,
}
use lagrange_images.Base.TextOrder.{
  sort_texts, insert_text, text_leb, code_units, units_leb, member as listed,
}
use lagrange_images.Base.Result.{ok, err, is_ok}
use lagrange_images.Support.PortableBytes.{
  Bytes, base64_encode, base64_decode, bytes_equal, concat_bytes,
}
use lagrange_images.Support.PortableBytes.Base64.{IsByte}
use lagrange_images.Support.Utf8.{IsPlain, IsWellFormed, strip_mark, byte_order_mark}
use lagrange_images.Support.Utf8.Ascii.{small_host, is_known, encode}
use lagrange_images.Value.Host.{
  HostValue, number, text, array, object, value, no_values, member, no_members, in_range,
  count_values, get_member,
}
use lagrange_images.Value.Scalars.{texts_equal}
use lagrange_images.Callable.TypeGrammar.{
  out_of_fuel, named, list, RecordFields, Declarations, primitive_of, is_primitive_type,
  is_declared_name, name_tail, normalize_declaration, declared_fields, normalize_fields,
  normalize_field, normalize_type_expression, normalize_at, normalize_name, exact_keys, record_kind,
  list_kind, field_name, has_angle,
}
use lagrange_images.Callable.Declarations.{
  check_names, normalize_all, normalize_type_declarations, assert_acyclic, visit, visit_each,
  references_of, referenced_names, reach, onto, count_references, sorted_by, reachable_declarations,
}
use lagrange_images.Callable.CompositeCodec.{max_value_depth}
use lagrange_images.Callable.Typed.{
  IsPrimitive, EachHas, FieldsHave, ObjectHas, ArrayHas, HasType, IsNormal,
}
use lagrange_images.Callable.BigEndian.{big_endian, signed, twos_complement}
use lagrange_images.Callable.Fingerprint.{
  Platform, schema_hash, type_fingerprint, canonical_type_json, json_of_type, items_of_fields,
  fields_of_declarations, insert_entry, join, entry_texts,
}
use lagrange_images.Value.Kinds.{Value}
use lagrange_images.Callable.BigEndian.Integers.{toy_numbers}
use lagrange_images.Value.Scalars.{
  record_of, canonicalize_value, is_reference, bytes_value, bytes_from_base64,
}
use lagrange_images.Callable.Buffers.{payload_too_large, push, push_bytes, contents}
use lagrange_images.Callable.PrimitiveCodec.{write_primitive, write_integer, integer_in}
use lagrange_images.Callable.CompositeCodec.{
  write_value, holds_reference, write_fields, write_each, has_extra, has_field,
}
use lagrange_images.Callable.Envelope.{
  codec, wrong_type, value_of_bytes, pack_composite_value, unpack_composite_value,
  composite_payload_of, composite_envelope_of,
}
use lagrange_images.Callable.Envelope.RoundTrip.{
  unpack-pack, unpack-HasType, envelope-payload, unpack_of_other_type, unpack_loses_mark,
  unpack_loses_mark,
}
use lagrange_images.Callable.Fingerprint.Inherited.{fingerprint_of_inherited}
use lagrange_images.Callable.Declarations.Acyclic.{IsFounded}
use lagrange_images.Callable.Declarations.Normal.{normalize_type_declarations_lem}
use lagrange_images.Callable.Declarations.Visiting.{walks-ne-out_of_fuel}

checksum : Bytes → ℕ
checksum [] = 0
checksum (b ∷ bs) = (b + checksum bs) % 256

fill : ℕ → ℕ → Bytes
fill zero b = []
fill (suc n) b = b ∷ fill n b

fill-IsByte : (n b : ℕ) → b < 256 → All IsByte (fill n b)
unfolding fill
fill-IsByte zero b h = tt
fill-IsByte (suc n) b h = (h, fill-IsByte n b h)

toy : Platform
unfolding fill
toy = record {
  numbers = toy_numbers;
  utf8 = small_host;
  quote = λ t. b'"' ∷ (codes t ++ b'"' ∷ []);
  sha256 = λ bs. fill 32 (checksum bs % 256);
  length-sha256 = λ bs. refl;
  sha256-IsByte = λ bs. fill-IsByte 32 (checksum bs % 256) (omega arith);
}

-- {"kind": "record", "fields": [{"name": "x", "type": "s32"}, {"name": "tags", "type": {"kind": "list",
-- "element": "string"}}]}
abbrev point_fields : RecordFields
point_fields = ("x", named "s32") ∷ ("tags", list (named "string")) ∷ []

abbrev point_types : Declarations
point_types = ("point", point_fields) ∷ []

abbrev point_input : Json
point_input = obj (
    field "point"
      (obj (
        field "kind" (str "record") (
          field "fields"
            (arr (
              cons (obj (field "name" (str "x") (field "type" (str "s32") end))) (
                cons
                  (obj (
                    field "name" (str "tags") (
                      field "type"
                        (obj (field "kind" (str "list") (field "element" (str "string") end)))
                        end)))
                  nil)))
            end)))
      end)

abbrev point : HostValue
point = object (
    member "x" (number (twos_complement 9223372036854775808 (negsuc 4)))
      (member "tags" (array (value (text (codes "a")) no_values)) no_members))

point_print : Bytes
point_print = schema_hash toy (named "point") point_types

point_types-IsNormal : IsNormal point_types
unfolding get is_declared_name name_tail
point_types-IsNormal = (((refl, (refl, tt)), (refl, (refl, tt))), tt)

point-HasType :
    HasType toy.numbers (IsPlain toy.utf8) point_types (suc max_value_depth) (named "point") point
unfolding HasType primitive_of IsPrimitive ObjectHas ArrayHas FieldsHave EachHas count_values get
    in_range toy is_known strip_mark
point-HasType = (refl, (negsuc 4, refl, refl), (refl, (omega arith, ((refl, refl), tt)), tt))

point-fingerprint : type_fingerprint toy (named "point") point_types ≡ ok point_print
unfolding type_fingerprint point_print reachable_declarations reach referenced_names references_of
    is_primitive_type primitive_of get put onto count_references sorted_by sort_texts insert_text
    text_leb code_units units_leb
point-fingerprint = refl

normalize_example : normalize_type_declarations (some point_input) ≡ ok point_types
unfolding normalize_type_declarations normalize_all normalize_declaration declared_fields
    normalize_fields normalize_field normalize_type_expression normalize_at normalize_name
    exact_keys record_kind list_kind field_name check_names assert_acyclic visit visit_each
    texts_equal sort_texts insert_text text_leb code_units units_leb field_names get_field get put
    list_of listed is_declared_name is_primitive_type primitive_of name_tail references_of
    referenced_names has_angle
normalize_example = refl

point_fits : is_ok (pack_composite_value toy point (named "point") point_types) ≡ true
unfolding pack_composite_value write_value holds_reference write_fields write_each write_primitive
    write_integer integer_in in_range push push_bytes big_endian twos_complement has_extra has_field
    get_member count_values canonicalize_value is_reference contents concat_bytes type_fingerprint
    reachable_declarations reach referenced_names references_of is_primitive_type primitive_of get
    put onto count_references sorted_by sort_texts insert_text text_leb code_units units_leb
    value_of_bytes bytes_value bytes_from_base64 base64_encode base64_decode bytes_equal schema_hash
    canonical_type_json json_of_type items_of_fields fields_of_declarations insert_entry join
    entry_texts toy fill checksum signed encode
point_fits = refl

point_packed :
    (env : Value) × (pack_composite_value toy point (named "point") point_types ≡ ok env)
    × (unpack_composite_value toy (record_of env) (named "point") point_types ≡ ok point)
point_packed =
    elim (unpack-pack toy point_types (named "point") point point_print point_types-IsNormal
      point-HasType point-fingerprint) [ inl r ↦ r | inr e ↦ absurd (cc (ap is_ok e, point_fits)) ]

unpack-pack_example :
    ((env : Value) × (pack_composite_value toy point (named "point") point_types ≡ ok env)
      × (unpack_composite_value toy (record_of env) (named "point") point_types ≡ ok point))
    ⊎ (pack_composite_value toy point (named "point") point_types ≡ err (codec payload_too_large))
unpack-pack_example =
    unpack-pack toy point_types (named "point") point point_print point_types-IsNormal point-HasType
      point-fingerprint

unpack-HasType_example :
    HasType toy.numbers
      (IsWellFormed toy.utf8)
      point_types
      (suc max_value_depth)
      (named "point")
      point
unpack-HasType_example =
    unpack-HasType toy point_types (named "point") (record_of point_packed.0) point
      point_types-IsNormal point_packed.2

envelope-payload_example :
    (payload : Value) × (composite_payload_of toy (record_of point_packed.0) ≡ ok payload)
    × (composite_envelope_of toy (record_of payload) (named "point") point_types
        ≡ ok point_packed.0)
envelope-payload_example =
    envelope-payload toy point_types (named "point") point point_print point_packed.0
      point_types-IsNormal point-HasType point-fingerprint point_packed.1

s32-fingerprint : type_fingerprint toy (named "s32") [] ≡ ok (schema_hash toy (named "s32") [])
unfolding type_fingerprint reachable_declarations reach referenced_names is_primitive_type
    primitive_of count_references sorted_by sort_texts
s32-fingerprint = refl

first_differs : (get_or point_print 0 0 == get_or (schema_hash toy (named "s32") []) 0 0) ≡ false
unfolding point_print schema_hash canonical_type_json json_of_type items_of_fields
    fields_of_declarations insert_entry join entry_texts toy fill checksum text_leb code_units
    units_leb encode
first_differs = refl

different_print : point_print ≢ schema_hash toy (named "s32") []
different_print e = ground (arith, ap (λ (b : Bytes). get_or b 0 0) e, first_differs)

unpack_of_other_type_example :
    unpack_composite_value toy (record_of point_packed.0) (named "s32") [] ≡ err wrong_type
unpack_of_other_type_example =
    unpack_of_other_type toy point_types [] (named "point") (named "s32") point point_print
      (schema_hash toy (named "s32") []) point_packed.0 point_types-IsNormal point-HasType
      point-fingerprint s32-fingerprint different_print point_packed.1

fingerprint_of_inherited_example :
    type_fingerprint toy (named "constructor") (("constructor", point_fields) ∷ [])
    ≡ type_fingerprint toy (named "constructor") (("constructor", ("x", named "string") ∷ []) ∷ [])
fingerprint_of_inherited_example =
    fingerprint_of_inherited toy (("constructor", point_fields) ∷ [])
      (("constructor", ("x", named "string") ∷ []) ∷ [])

normalize_type_declarations_lem_example :
    IsNormal point_types
    × ((name : String)
        → listed name (map (λ (e : String × RecordFields). e.0) point_types) ≡ true
        → IsFounded point_types name)
normalize_type_declarations_lem_example =
    normalize_type_declarations_lem (some point_input) point_types normalize_example

walks-ne-out_of_fuel_example :
    (assert_acyclic (("a", ("b", named "a") ∷ []) ∷ []) ≢ err out_of_fuel)
    × (reachable_declarations (named "a") (("a", ("b", named "a") ∷ []) ∷ []) ≢ err out_of_fuel)
walks-ne-out_of_fuel_example = walks-ne-out_of_fuel (named "a") (("a", ("b", named "a") ∷ []) ∷ [])

string-fingerprint :
    type_fingerprint toy (named "string") [] ≡ ok (schema_hash toy (named "string") [])
unfolding type_fingerprint reachable_declarations reach referenced_names is_primitive_type
    primitive_of count_references sorted_by sort_texts
string-fingerprint = refl

unpack_loses_mark_example :
    ((env : Value) × (pack_composite_value toy
          (text (byte_order_mark ∷ codes "a"))
          (named "string")
          []
        ≡ ok env)
      × (unpack_composite_value toy (record_of env) (named "string") [] ≡ ok (text (codes "a"))))
    ⊎ (pack_composite_value toy (text (byte_order_mark ∷ codes "a")) (named "string") []
        ≡ err (codec payload_too_large))
unfolding is_known toy
unpack_loses_mark_example =
    unpack_loses_mark toy [] (codes "a") (schema_hash toy (named "string") []) refl
      string-fingerprint
