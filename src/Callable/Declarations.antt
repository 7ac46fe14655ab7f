-- ===== src/Callable/Declarations.antt =====
-- src/callable/type-grammar.js: the declarations of an interface as a whole, what a type reaches of
-- them, and the text that its fingerprint is the hash of.
pub mod Normal
pub mod Acyclic
mod Reaching
pub mod Visiting
use lagrange_images.Base.{
  ℕ, zero, suc, ◌+◌, String, Bool, true, false, not, ◌&&◌, ◌||◌, Option, none, some, List, [], ◌∷◌,
  ◌++◌, length, map, str_eq, if◌then◌else◌, ltb, ◌==◌, codes,
}
use lagrange_images.Base.Dict.{Dict, get, put, has}
use lagrange_images.Base.Json.{
  Json, Items, Fields, str, arr, obj, nil, cons, end, field, get_field, field_names,
}
use lagrange_images.Base.Decimal.{to_decimal}
use lagrange_images.Base.Result.{Result, ok, err, ensure}
use lagrange_images.Base.TextOrder.{text_leb, sort_texts}
use lagrange_images.Support.PortableBytes.{Bytes, Text}
use lagrange_images.Support.Utf8.{Utf8}
use lagrange_images.Callable.TypeGrammar.{
  TypeExpr, named, list, RecordFields, Declarations, GrammarError, not_an_object, invalid_name,
  too_many_declarations, shadows_primitive, cyclic, not_declared, out_of_fuel, max_declarations,
  is_primitive_type, is_declared_name, normalize_declaration,
}

-- The tests of every declared name.
unfoldable pub check_names : List String → Result GrammarError Unit
unfolding is_declared_name is_primitive_type
check_names [] = ok tt
check_names (name ∷ names) =
    let rest = check_names names in
    if not (is_declared_name name)
    then err invalid_name
    else if is_primitive_type name
    then err shadows_primitive
    else rest

-- `normalized[name] = normalizeRecordDeclaration(input[name], name, declaredNames)` for every name.
unfoldable pub normalize_all :
    List String → Fields → List String → Declarations → Result GrammarError Declarations
unfolding get_field normalize_declaration put
normalize_all declared input [] normalized = ok normalized
normalize_all declared input (name ∷ names) normalized = elim (get_field name input) [
  | none ↦ err not_an_object
  | some declaration ↦ elim (normalize_declaration declared declaration) [
    | err e ↦ err e
    | ok fields ↦ normalize_all declared input names (put name fields normalized)
  ]
]

-- `referencedNames`: the one name that a type ends in, if it is declared.
unfoldable pub referenced_names : TypeExpr → List String
unfolding is_primitive_type
referenced_names (named name) = if is_primitive_type name then [] else name ∷ []
referenced_names (list t) = referenced_names t

unfoldable pub references_of : RecordFields → List String
unfolding referenced_names
references_of [] = []
references_of ((name, t) ∷ fields) = referenced_names t ++ references_of fields

pub data Status : Type 0 where
  visiting done : Status

-- A visit of each name, with the state that the visits before it left.
unfoldable pub visit_each :
    (String → Dict Status → Result GrammarError (Dict Status))
    → List String
    → Dict Status
    → Result GrammarError (Dict Status)
visit_each visit_one [] state = ok state
visit_each visit_one (name ∷ names) state = elim (visit_one name state) [
  | err e ↦ err e
  | ok next ↦ visit_each visit_one names next
]

-- `visit`. The fuel bounds the depth of the recursion.
unfoldable pub visit : Declarations → ℕ → String → Dict Status → Result GrammarError (Dict Status)
unfolding get put visit_each references_of
visit types zero name state = err out_of_fuel
visit types (suc fuel) name state = elim (get name state) [
  | some done ↦ ok state
  | some visiting ↦ err cyclic
  | none ↦ elim (get name types) [
    | none ↦ err not_declared
    | some fields ↦
        elim (visit_each (visit types fuel) (references_of fields) (put name visiting state)) [
          | err e ↦ err e
          | ok next ↦ ok (put name done next)
        ]
  ]
]

-- `assertAcyclicDeclarations`
unfoldable pub assert_acyclic : Declarations → Result GrammarError (Dict Status)
unfolding visit visit_each
assert_acyclic types =
    visit_each (visit types (suc (length types))) (map (λ (e : String × RecordFields). e.0) types)
      []

-- `normalizeTypeDeclarations`
unfoldable pub normalize_type_declarations : Option Json → Result GrammarError Declarations
unfolding check_names normalize_all sort_texts field_names assert_acyclic
normalize_type_declarations none = ok []
normalize_type_declarations (some (obj input)) =
    elim (ensure (not (ltb max_declarations (length (field_names input)))) too_many_declarations) [
      | err e ↦ err e
      | ok _ ↦ elim (check_names (field_names input)) [
        | err e ↦ err e
        | ok _ ↦
            elim (normalize_all (field_names input) input (sort_texts (field_names input)) []) [
              | err e ↦ err e
              | ok normalized ↦ elim (assert_acyclic normalized) [
                | err e ↦ err e
                | ok _ ↦ ok normalized
              ]
            ]
      ]
    ]
normalize_type_declarations (some _) = err not_an_object

-- `reachable` is an object literal. Of the names that a declaration can have, `constructor` is the one
-- that such an object inherits.
abbrev pub is_inherited : String → Bool
is_inherited name = str_eq name "constructor"

-- Each name pushed.
unfoldable pub onto : List String → List String → List String
onto [] pending = pending
onto (name ∷ names) pending = onto names (name ∷ pending)

-- `pending.pop()` takes the last name, so the list is kept with its last name first. The fuel bounds
-- the number of rounds.
unfoldable pub reach :
    Declarations → ℕ → List String → Declarations → Result GrammarError Declarations
unfolding get put references_of onto
reach types fuel [] reachable = ok reachable
reach types zero (name ∷ pending) reachable = err out_of_fuel
reach types (suc fuel) (name ∷ pending) reachable = elim (has name reachable || is_inherited name) [
  | true ↦ reach types fuel pending reachable
  | false ↦ elim (get name types) [
    | none ↦ err not_declared
    | some fields ↦
        reach types fuel (onto (references_of fields) pending) (put name fields reachable)
  ]
]

-- The names that the declarations refer to, counted.
unfoldable pub count_references : Declarations → ℕ
unfolding references_of
count_references [] = 0
count_references ((name, fields) ∷ types) = length (references_of fields) + count_references types

-- The dictionary with its keys sorted.
unfoldable pub sorted_by : List String → Declarations → Declarations
unfolding get
sorted_by [] types = []
sorted_by (name ∷ names) types =
    let rest = sorted_by names types in
    elim (get name types) [ none ↦ rest | some fields ↦ (name, fields) ∷ rest ]

-- `reachableDeclarations`
unfoldable pub reachable_declarations : TypeExpr → Declarations → Result GrammarError Declarations
unfolding reach referenced_names count_references sorted_by sort_texts
reachable_declarations type types =
    elim (reach types (suc (count_references types)) (referenced_names type) []) [
      | err e ↦ err e
      | ok reachable ↦
          ok (sorted_by (sort_texts (map (λ (e : String × RecordFields). e.0) reachable)) reachable)
    ]
