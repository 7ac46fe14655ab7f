-- ===== src/Callable/Typed.antt =====
-- The values that a type of src/callable/type-grammar.js describes, and normalized declarations.
use lagrange_images.Base.Integers.{ℤ}
use lagrange_images.Base.{ℕ, zero, suc, ◌≤◌, ◌<◌, ◌≡◌, String, true, none, some, [], ◌∷◌, All}
use lagrange_images.Base.Dict.{get, IsDistinct}
use lagrange_images.Support.PortableBytes.{Text}
use lagrange_images.Support.PortableBytes.Base64.{IsByte}
use lagrange_images.Value.Host.{
  HostValue, boolean, number, bigint, text, byte_array, array, object, Values, no_values, value,
  Members, no_members, member, count_values, in_range, HostNumbers,
}
use lagrange_images.Callable.TypeGrammar.{
  TypeExpr, named, list, RecordFields, Declarations, Primitive, bool, s32, s64, f32, f64, string,
  byte_list, primitive_of, is_declared_name,
}
use lagrange_images.Callable.PrimitiveCodec.{s32_half, s64_half}
use lagrange_images.Callable.CompositeCodec.{max_list_length}

-- The form in which a value of a primitive type is decoded.
unfoldable pub IsPrimitive : HostNumbers → (Text → Type 0) → Primitive → HostValue → Type 0
unfolding in_range
IsPrimitive host IsText bool (boolean b) = Unit
IsPrimitive host IsText s32 (number n) =
    (i : ℤ) × (in_range s32_half i ≡ true) × (n ≡ host.number_of i)
IsPrimitive host IsText s64 (bigint i) = in_range s64_half i ≡ true
IsPrimitive host IsText f32 (number n) = (s : ℕ) × (s < 4294967296) × (n ≡ host.double_of s)
IsPrimitive host IsText f64 (number n) = n < 18446744073709551616
IsPrimitive host IsText string (text t) = IsText t
IsPrimitive host IsText byte_list (byte_array bs) = All IsByte bs
IsPrimitive host IsText _ _ = ⊥

unfoldable pub EachHas : (HostValue → Type 0) → Values → Type 0
EachHas P no_values = Unit
EachHas P (value v vs) = P v × EachHas P vs

-- The declared fields and no others, in the declared order.
unfoldable pub FieldsHave : (TypeExpr → HostValue → Type 0) → RecordFields → Members → Type 0
FieldsHave P [] no_members = Unit
FieldsHave P ((name, t) ∷ fields) (member k v ms) = (k ≡ name) × P t v × FieldsHave P fields ms
FieldsHave P _ _ = ⊥

unfoldable pub ObjectHas : (TypeExpr → HostValue → Type 0) → RecordFields → HostValue → Type 0
unfolding FieldsHave
ObjectHas P fields (object ms) = FieldsHave P fields ms
ObjectHas P fields _ = ⊥

unfoldable pub ArrayHas : (HostValue → Type 0) → HostValue → Type 0
unfolding EachHas count_values
ArrayHas P (array vs) = (count_values vs ≤ max_list_length) × EachHas P vs
ArrayHas P _ = ⊥

-- A value has a type within a depth, where the texts are those of the predicate.
unfoldable pub HasType :
    HostNumbers → (Text → Type 0) → Declarations → ℕ → TypeExpr → HostValue → Type 0
unfolding primitive_of IsPrimitive get ObjectHas ArrayHas
HasType host IsText types zero t v = ⊥
HasType host IsText types (suc d) (named name) v = elim (primitive_of name) [
  | some p ↦ IsPrimitive host IsText p v
  | none ↦ elim (get name types) [
    | none ↦ ⊥
    | some fields ↦ ObjectHas (HasType host IsText types d) fields v
  ]
]
HasType host IsText types (suc d) (list t) v = ArrayHas (HasType host IsText types d t) v

abbrev pub IsNormalFields : RecordFields → Type 0
IsNormalFields fields =
    IsDistinct fields × All (λ (f : String × TypeExpr). is_declared_name f.0 ≡ true) fields

-- What `normalizeTypeDeclarations` makes sure of.
abbrev pub IsNormal : Declarations → Type 0
IsNormal types = All (λ (e : String × RecordFields). IsNormalFields e.1) types
