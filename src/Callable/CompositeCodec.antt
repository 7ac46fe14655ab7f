-- ===== src/Callable/CompositeCodec.antt =====
-- `writeValue` and `readValue` of src/callable/composite-codec.js.
mod Writes
pub mod Primitives
mod RefFree
mod Fields
pub mod Codes
pub mod Sound
use lagrange_images.Base.{
  ℕ, zero, suc, ◌+◌, ◌-◌, String, Bool, true, false, not, ◌&&◌, ◌||◌, Option, none, some, List, [],
  ◌∷◌, ◌++◌, length, take, drop, str_eq, if◌then◌else◌, ltb, leb, ◌==◌, map,
}
use lagrange_images.Base.Dict.{get}
use lagrange_images.Base.Result.{Result, ok, err, ◌>>=◌}
use lagrange_images.Support.PortableBytes.{Bytes, Text, concat_bytes}
use lagrange_images.Support.Utf8.{Utf8}
use lagrange_images.Value.Host.{
  HostValue, boolean, number, bigint, text, byte_array, array, object, other, Values, no_values,
  value, Members, no_members, member, count_values, get_member, set_member, keys, in_range,
  HostNumbers,
}
use lagrange_images.Value.Scalars.{canonicalize_value, is_reference}
use lagrange_images.Callable.TypeGrammar.{
  TypeExpr, named, list, RecordFields, Declarations, Primitive, bool, s32, s64, f32, f64, string,
  byte_list, primitive_of,
}
use lagrange_images.Callable.BigEndian.{big_endian, unsigned, signed, twos_complement}
use lagrange_images.Callable.Buffers.{
  CodecError, too_deep, has_reference, undeclared, not_array, not_record, list_too_long,
  extra_fields, missing_field, Writer, push, take_unsigned,
}
use lagrange_images.Callable.PrimitiveCodec.{reading, write_primitive, read_primitive}

abbrev pub max_value_depth : ℕ
max_value_depth = 32

abbrev pub max_list_length : ℕ
max_list_length = 1000000

-- `value.forEach` over the elements of an array.
unfoldable pub write_each :
    (HostValue → Writer → Result CodecError Writer) → Values → Writer → Result CodecError Writer
write_each step no_values w = ok w
write_each step (value v vs) w = elim (step v w) [ err e ↦ err e | ok u ↦ write_each step vs u ]

-- The fields of a record, in the order of the declaration.
unfoldable pub write_fields :
    (TypeExpr → HostValue → Writer → Result CodecError Writer)
    → RecordFields
    → Members
    → Writer
    → Result CodecError Writer
unfolding get_member
write_fields step [] ms w = ok w
write_fields step ((name, t) ∷ fields) ms w = elim (get_member name ms) [
  | none ↦ err missing_field
  | some v ↦ elim (step t v w) [ err e ↦ err e | ok u ↦ write_fields step fields ms u ]
]

-- `resolved.fields.some((field) => field.name === key)` for every key.
unfoldable pub has_field : RecordFields → String → Bool
has_field [] k = false
has_field ((name, t) ∷ fields) k = str_eq name k || has_field fields k

unfoldable pub has_extra : RecordFields → Members → Bool
unfolding has_field
has_extra fields no_members = false
has_extra fields (member k v ms) = not (has_field fields k) || has_extra fields ms

-- As many values as the count says.
unfoldable pub read_each :
    (Bytes → Result CodecError (HostValue × Bytes)) → ℕ → Bytes → Result CodecError (Values × Bytes)
read_each step zero bs = ok (no_values, bs)
read_each step (suc n) bs = elim (step bs) [
  | err e ↦ err e
  | ok r ↦ elim (read_each step n r.1) [ err e ↦ err e | ok s ↦ ok (value r.0 s.0, s.1) ]
]

-- `record[field.name] = ...` for each field.
unfoldable pub read_fields :
    (TypeExpr → Bytes → Result CodecError (HostValue × Bytes))
    → RecordFields
    → Members
    → Bytes
    → Result CodecError (Members × Bytes)
unfolding set_member
read_fields step [] ms bs = ok (ms, bs)
read_fields step ((name, t) ∷ fields) ms bs = elim (step t bs) [
  | err e ↦ err e
  | ok r ↦ read_fields step fields (set_member name r.0 ms) r.1
]

-- `assertRefFree`
unfoldable pub holds_reference : HostNumbers → HostValue → Bool
unfolding canonicalize_value is_reference
holds_reference host v = elim (canonicalize_value host v) [ err e ↦ false | ok c ↦ is_reference c ]

-- `writeValue`, on the depth that is left: `MAX_VALUE_DEPTH + 1 - depth`.
unfoldable pub write_value :
    HostNumbers → Utf8 → Declarations → ℕ → TypeExpr → HostValue → Writer → Result CodecError Writer
unfolding holds_reference primitive_of write_primitive get has_extra
write_value host utf8 types zero t v w = err too_deep
write_value host utf8 types (suc d) (named name) v w = elim (holds_reference host v) [
  | true ↦ err has_reference
  | false ↦ elim (primitive_of name) [
    | some p ↦ write_primitive host utf8 p v w
    | none ↦ elim (get name types) [
      | none ↦ err undeclared
      | some fields ↦ elim v [
        | object ms ↦ elim (has_extra fields ms) [
          | true ↦ err extra_fields
          | false ↦ write_fields (write_value host utf8 types d) fields ms w
        ]
        | _ ↦ err not_record
      ]
    ]
  ]
]
write_value host utf8 types (suc d) (list t) v w = elim (holds_reference host v) [
  | true ↦ err has_reference
  | false ↦ elim v [
    | array vs ↦ elim (ltb max_list_length (count_values vs)) [
      | true ↦ err list_too_long
      | false ↦ elim (push (big_endian 4 (count_values vs)) w) [
        | err e ↦ err e
        | ok u ↦ write_each (write_value host utf8 types d t) vs u
      ]
    ]
    | _ ↦ err not_array
  ]
]

-- `readValue`, on the depth that is left.
unfoldable pub read_value :
    HostNumbers → Utf8 → Declarations → ℕ → TypeExpr → Bytes → Result CodecError (HostValue × Bytes)
unfolding primitive_of read_primitive get read_fields read_each take_unsigned
read_value host utf8 types zero t bs = err too_deep
read_value host utf8 types (suc d) (named name) bs = elim (primitive_of name) [
  | some p ↦ read_primitive host utf8 p bs
  | none ↦ elim (get name types) [
    | none ↦ err undeclared
    | some fields ↦ reading object (read_fields (read_value host utf8 types d) fields no_members bs)
  ]
]
read_value host utf8 types (suc d) (list t) bs = elim (take_unsigned 4 bs) [
  | err e ↦ err e
  | ok r ↦ elim (ltb max_list_length r.0) [
    | true ↦ err list_too_long
    | false ↦ reading array (read_each (read_value host utf8 types d t) r.0 r.1)
  ]
]
