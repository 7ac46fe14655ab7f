-- ===== src/Callable/TypeGrammar.antt =====
-- src/callable/type-grammar.js: the type grammar of an interface. A descriptor comes as JSON.
use lagrange_images.Base.{
  ℕ, zero, suc, String, Bool, true, false, not, ◌&&◌, ◌||◌, Option, none, some, List, [], ◌∷◌,
  length, str_eq, if◌then◌else◌, ltb, leb, ◌==◌, codes,
}
use lagrange_images.Base.Dict.{Dict}
use lagrange_images.Base.Json.{
  Json, Items, Fields, str, arr, obj, nil, cons, get_field, field_names, list_of,
}
use lagrange_images.Base.Result.{Result, ok, err, ensure}
use lagrange_images.Base.TextOrder.{member, sort_texts}
use lagrange_images.Value.Scalars.{texts_equal}

-- A normalized type: a primitive or declared name, or a list. A declaration lists its fields.
pub data TypeExpr : Type 0 where
  named : String → TypeExpr
  list : TypeExpr → TypeExpr

abbrev pub RecordFields : Type 0
RecordFields = List (String × TypeExpr)

abbrev pub Declarations : Type 0
Declarations = Dict RecordFields

pub data Primitive : Type 0 where
  bool s32 s64 f32 f64 string byte_list : Primitive

pub data GrammarError : Type 0 where
  too_deep string_expression invalid_name undeclared not_an_object bad_kind : GrammarError
  unsupported_constructor wrong_keys bad_fields no_fields too_many_fields : GrammarError
  duplicate_field too_many_declarations shadows_primitive cyclic not_declared : GrammarError
  out_of_fuel : GrammarError

abbrev pub max_type_depth : ℕ
max_type_depth = 16

abbrev pub max_record_fields : ℕ
max_record_fields = 256

abbrev pub max_declarations : ℕ
max_declarations = 256

-- `CALLABLE_PRIMITIVE_TYPES`, with the case that each has in the codec.
unfoldable pub primitive_of : String → Option Primitive
primitive_of t =
    if str_eq t "bool"
    then some bool
    else if str_eq t "s32"
    then some s32
    else if str_eq t "s64"
    then some s64
    else if str_eq t "f32"
    then some f32
    else if str_eq t "f64"
    then some f64
    else if str_eq t "string"
    then some string
    else if str_eq t "list<u8>"
    then some byte_list
    else none

unfoldable pub is_primitive_type : String → Bool
unfolding primitive_of
is_primitive_type t = elim (primitive_of t) [ none ↦ false | some p ↦ true ]

-- `TYPE_EXPRESSION_SHAPE`
unfoldable pub has_angle : List ℕ → Bool
has_angle [] = false
has_angle (c ∷ cs) = ((c == b'<') || (c == b'>')) || has_angle cs

abbrev pub is_lower : ℕ → Bool
is_lower c = leb b'a' c && leb c b'z'

abbrev pub is_lower_or_digit : ℕ → Bool
is_lower_or_digit c = is_lower c || (leb b'0' c && leb c b'9')

-- `/^[a-z0-9]*(-[a-z0-9]+)*$/`, where the flag tells that the last character was a dash.
unfoldable pub name_tail : Bool → List ℕ → Bool
name_tail after_dash [] = not after_dash
name_tail after_dash (c ∷ cs) =
    if is_lower_or_digit c
    then name_tail false cs
    else ((c == b'-') && not after_dash) && name_tail true cs

-- `DECLARED_NAME`
unfoldable pub is_declared_name : String → Bool
unfolding name_tail
is_declared_name t = elim (codes t) [ [] ↦ false | c ∷ cs ↦ is_lower c && name_tail false cs ]

-- `exactKeys` of an object.
unfoldable pub exact_keys : Json → List String → Result GrammarError Unit
unfolding texts_equal sort_texts field_names
exact_keys (obj fs) names =
    ensure (texts_equal (sort_texts (field_names fs)) (sort_texts names)) wrong_keys
exact_keys _ names = err not_an_object

-- The branch of `normalizeTypeExpression` for a name.
unfoldable pub normalize_name : List String → String → Result GrammarError TypeExpr
unfolding is_primitive_type has_angle is_declared_name member
normalize_name declared t =
    if is_primitive_type t
    then ok (named t)
    else if has_angle (codes t)
    then err string_expression
    else if not (is_declared_name t)
    then err invalid_name
    else if not (member t declared)
    then err undeclared
    else ok (named t)

-- `requiredText(type.kind)` must be 'list'.
unfoldable pub list_kind : Fields → Result GrammarError Unit
unfolding get_field
list_kind fs = elim (get_field "kind" fs) [
  | some (str k) ↦
      if str_eq k ""
      then err bad_kind
      else if str_eq k "list"
      then ok tt
      else err unsupported_constructor
  | _ ↦ err bad_kind
]

-- `normalizeTypeExpression`, on the depth that is left: `MAX_TYPE_DEPTH + 1 - depth`.
unfoldable pub normalize_at : ℕ → List String → Json → Result GrammarError TypeExpr
unfolding normalize_name list_kind exact_keys get_field
normalize_at zero declared type = err too_deep
normalize_at (suc d) declared (str t) = normalize_name declared t
normalize_at (suc d) declared (obj fs) = elim (list_kind fs) [
  | err e ↦ err e
  | ok _ ↦ elim (exact_keys (obj fs) ("kind" ∷ "element" ∷ [])) [
    | err e ↦ err e
    | ok _ ↦ elim (get_field "element" fs) [
      | none ↦ err not_an_object
      | some element ↦ elim (normalize_at d declared element) [ err e ↦ err e | ok t ↦ ok (list t) ]
    ]
  ]
]
normalize_at (suc d) declared _ = err not_an_object

unfoldable pub normalize_type_expression : List String → Json → Result GrammarError TypeExpr
unfolding normalize_at
normalize_type_expression declared type = normalize_at (suc max_type_depth) declared type

-- `requiredText(field.name)` and its test.
unfoldable pub field_name : Fields → Result GrammarError String
unfolding get_field is_declared_name
field_name fs = elim (get_field "name" fs) [
  | some (str t) ↦ if is_declared_name t then ok t else err invalid_name
  | _ ↦ err invalid_name
]

-- One field of a declaration.
unfoldable pub normalize_field :
    List String → List String → Json → Result GrammarError (String × TypeExpr)
unfolding exact_keys field_name normalize_type_expression member get_field
normalize_field declared seen (obj fs) = elim (exact_keys (obj fs) ("name" ∷ "type" ∷ [])) [
  | err e ↦ err e
  | ok _ ↦ elim (field_name fs) [
    | err e ↦ err e
    | ok name ↦ elim (member name seen) [
      | true ↦ err duplicate_field
      | false ↦ elim (get_field "type" fs) [
        | none ↦ err not_an_object
        | some type ↦ elim (normalize_type_expression declared type) [
          | err e ↦ err e
          | ok t ↦ ok (name, t)
        ]
      ]
    ]
  ]
]
normalize_field declared seen _ = err not_an_object

-- The loop over the fields, with the names seen before.
unfoldable pub normalize_fields :
    List String → List String → Items → Result GrammarError RecordFields
unfolding normalize_field
normalize_fields declared seen nil = ok []
normalize_fields declared seen (cons f fs) = elim (normalize_field declared seen f) [
  | err e ↦ err e
  | ok first ↦ elim (normalize_fields declared (first.0 ∷ seen) fs) [
    | err e ↦ err e
    | ok rest ↦ ok (first ∷ rest)
  ]
]

-- `declaration.kind !== 'record'`
unfoldable pub record_kind : Fields → Result GrammarError Unit
unfolding get_field
record_kind fs = elim (get_field "kind" fs) [
  | some (str k) ↦ ensure (str_eq k "record") bad_kind
  | _ ↦ err bad_kind
]

-- The tests of a declaration's fields, and the loop over them.
unfoldable pub declared_fields : List String → Option Json → Result GrammarError RecordFields
unfolding list_of normalize_fields
declared_fields declared (some (arr fs)) =
    if length (list_of fs) == 0
    then err no_fields
    else if ltb max_record_fields (length (list_of fs))
    then err too_many_fields
    else normalize_fields declared [] fs
declared_fields declared _ = err bad_fields

-- `normalizeRecordDeclaration`
unfoldable pub normalize_declaration : List String → Json → Result GrammarError RecordFields
unfolding exact_keys record_kind get_field declared_fields
normalize_declaration declared (obj d) = elim (exact_keys (obj d) ("kind" ∷ "fields" ∷ [])) [
  | err e ↦ err e
  | ok _ ↦ elim (record_kind d) [
    | err e ↦ err e
    | ok _ ↦ declared_fields declared (get_field "fields" d)
  ]
]
normalize_declaration declared _ = err not_an_object
