-- ===== src/Callable/Declarations/Normal.antt =====
-- What `normalizeTypeDeclarations` of src/callable/type-grammar.js makes sure of in each declaration.
use lagrange_images.Base.{
  ◌≡◌, refl, subst, String, true, false, Option, none, some, List, [], ◌∷◌, map, eq_iff, eq_refl,
  arith, Option-cases, inl, inr,
}
use lagrange_images.Base.Dict.{Dict, get, put, All-put}
use lagrange_images.Base.Json.{Json, Items, Fields, arr, obj, nil, cons, get_field, field_names}
use lagrange_images.Base.Result.{ok, ◌>>=◌, Result-cases, eq_of_ok, bind-eq-ok}
use lagrange_images.Base.TextOrder.{member, sort_texts}
use lagrange_images.Callable.TypeGrammar.{
  TypeExpr, RecordFields, Declarations, is_declared_name, exact_keys, field_name, normalize_field,
  normalize_fields, record_kind, normalize_declaration, declared_fields,
}
use lagrange_images.Callable.Declarations.{
  Status, visit_each, normalize_all, assert_acyclic, normalize_type_declarations,
}
use lagrange_images.Callable.Declarations.Acyclic.{IsFounded, assert_acyclic-IsFounded}
use lagrange_images.Callable.Typed.{IsNormalFields, IsNormal}

field_name-is_declared_name :
    (fs : Fields) (name : String) → field_name fs ≡ ok name → is_declared_name name ≡ true
unfolding field_name
field_name-is_declared_name fs name h = ground arith

normalize_field_lem :
    (declared seen : List String) (f : Json) (first : String × TypeExpr)
    → normalize_field declared seen f ≡ ok first
    → (is_declared_name first.0 ≡ true) × (member first.0 seen ≡ false)
unfolding normalize_field
normalize_field_lem declared seen (obj fs) first h = ground (arith, field_name-is_declared_name fs)
normalize_field_lem declared seen _ first h = absurd (cc h)

normalize_fields_lem :
    (declared seen : List String) (fs : Items) (fields : RecordFields)
    → normalize_fields declared seen fs ≡ ok fields
    → IsNormalFields fields × ((n : String) → member n seen ≡ true → get n fields ≡ none)
unfolding normalize_fields get member
normalize_fields_lem declared seen nil fields h =
    subst
      (λ (r : RecordFields).
        IsNormalFields r × ((n : String) → member n seen ≡ true → get n r ≡ none))
      (eq_of_ok h) ((tt, tt), λ n _. refl)
normalize_fields_lem declared seen (cons f fs) fields h =
    elim (Result-cases (normalize_field declared seen f)) [
      | inr (e, p) ↦ absurd (cc (rw (normalize_fields, p) at h))
      | inl (first, p) ↦ elim (Result-cases (normalize_fields declared (first.0 ∷ seen) fs)) [
        | inr (e, q) ↦ absurd (cc (rw (normalize_fields, p, q) at h))
        | inl (rest, q) ↦
            let ((distinct, valid), fresh) =
              normalize_fields_lem declared (first.0 ∷ seen) fs rest q in
            let (name, new) = normalize_field_lem declared seen f first p in
            subst
              (λ (r : RecordFields).
                IsNormalFields r × ((n : String) → member n seen ≡ true → get n r ≡ none))
              (eq_of_ok (rw (normalize_fields, p, q) at h))
              (
                ((fresh first.0 (ground (arith, eq_refl first.0)), distinct), (name, valid)),
                λ n k. ground (arith, fresh n, eq_iff first.0 n, k, new),
              )
      ]
    ]

declared_fields-IsNormalFields :
    (declared : List String) (input : Option Json) (fields : RecordFields)
    → declared_fields declared input ≡ ok fields
    → IsNormalFields fields
unfolding declared_fields
declared_fields-IsNormalFields declared (some (arr fs)) fields h =
    (normalize_fields_lem declared [] fs fields (ground arith)).0
declared_fields-IsNormalFields declared _ fields h = absurd (cc h)

normalize_declaration-IsNormalFields :
    (declared : List String) (d : Json) (fields : RecordFields)
    → normalize_declaration declared d ≡ ok fields
    → IsNormalFields fields
unfolding normalize_declaration
normalize_declaration-IsNormalFields declared (obj d) fields h =
    let fits = exact_keys (obj d) ("kind" ∷ "fields" ∷ []) in
    declared_fields-IsNormalFields declared (get_field "fields" d) fields (
      ((bind-eq-ok (record_kind d) (λ _. declared_fields declared (get_field "fields" d))
        ((bind-eq-ok fits
          (λ _. record_kind d >>= λ _. declared_fields declared (get_field "fields" d)) h).2)).2))
normalize_declaration-IsNormalFields declared _ fields h = absurd (cc h)

-- What holds at first and each declaration keeps holds of the result.
normalize_all_keeps :
    (P : RecordFields → Type 0) (Q : Declarations → Type 0) (declared : List String)
    (input : Fields)
    → ((d : Json) (fields : RecordFields) → normalize_declaration declared d ≡ ok fields → P fields)
    → ((name : String) (fields : RecordFields) (types : Declarations)
        → P fields
        → Q types
        → Q (put name fields types))
    → (names : List String) (types result : Declarations) → Q types
    → normalize_all declared input names types ≡ ok result
    → Q result
unfolding normalize_all
normalize_all_keeps P Q declared input each keep [] types result n h = subst Q (eq_of_ok h) n
normalize_all_keeps P Q declared input each keep (name ∷ names) types result n h =
    elim (Option-cases (get_field name input)) [
      | inl e ↦ absurd (cc (rw (normalize_all, e) at h))
      | inr (d, e) ↦ elim (Result-cases (normalize_declaration declared d)) [
        | inr (er, k) ↦ absurd (cc (rw (normalize_all, e, k) at h))
        | inl (fields, k) ↦
            normalize_all_keeps P Q declared input each keep names (put name fields types) result
              (keep name fields types (each d fields k) n) (rw (normalize_all, e, k) at h)
      ]
    ]

-- What holds of no declarations and each declaration keeps holds of normalized ones, which the visit
-- accepted.
normalize_keeps :
    (P : RecordFields → Type 0) (Q : Declarations → Type 0) (input : Option Json)
    → ((declared : List String) (d : Json) (fields : RecordFields)
        → normalize_declaration declared d ≡ ok fields
        → P fields)
    → ((name : String) (fields : RecordFields) (types : Declarations)
        → P fields
        → Q types
        → Q (put name fields types))
    → (types : Declarations) → Q []
    → normalize_type_declarations input ≡ ok types
    → Q types
unfolding normalize_type_declarations
normalize_keeps P Q none each keep types start h = subst Q (eq_of_ok h) start
normalize_keeps P Q (some (obj input)) each keep types start h =
    let names = field_names input in
    elim (Result-cases (normalize_all names input (sort_texts names) [])) [
      | inl (r, k) ↦
          subst Q (ground (arith, k))
            (normalize_all_keeps P Q names input (each names) keep (sort_texts names) [] r start k)
      | inr (e, k) ↦ absurd (ground (arith, k))
    ]
normalize_keeps P Q (some _) each keep types start h = absurd (cc h)

-- Normalized declarations: the fields of each have names of the declared form, and no name twice.
pub normalize_type_declarations-IsNormal :
    (input : Option Json) (types : Declarations)
    → normalize_type_declarations input ≡ ok types
    → IsNormal types
normalize_type_declarations-IsNormal input types h =
    normalize_keeps IsNormalFields IsNormal input normalize_declaration-IsNormalFields
      (λ name fields ts p q. All-put IsNormalFields name fields ts p q) types tt h

normalize_is_acyclic :
    (input : Option Json) (types : Declarations)
    → normalize_type_declarations input ≡ ok types
    → (state : Dict Status) × (assert_acyclic types ≡ ok state)
unfolding normalize_type_declarations
normalize_is_acyclic none types h = (
  [],
  subst (λ t. assert_acyclic t ≡ ok []) (eq_of_ok h) (unfold assert_acyclic visit_each in refl),
)
normalize_is_acyclic (some (obj input)) types h =
    let names = field_names input in
    elim (Result-cases (normalize_all names input (sort_texts names) [])) [
      | inr (e, k) ↦ absurd (ground (arith, k))
      | inl (r, k) ↦ elim (Result-cases (assert_acyclic r)) [
        | inr (e, a) ↦ absurd (ground (arith, k, a))
        | inl (state, a) ↦
            let same : r ≡ types = ground (arith, k, a) in
            (state, subst (λ t. assert_acyclic t ≡ ok state) same a)
      ]
    ]
normalize_is_acyclic (some _) types h = absurd (cc h)

-- Normalized declarations: the fields of each have names of the declared form and no name twice, and
-- every declared name is well founded, so that no declaration reaches itself.
pub normalize_type_declarations_lem :
    (input : Option Json) (types : Declarations)
    → normalize_type_declarations input ≡ ok types
    → IsNormal types
      × ((name : String)
          → member name (map (λ (e : String × RecordFields). e.0) types) ≡ true
          → IsFounded types name)
normalize_type_declarations_lem input types h =
    let (state, a) = normalize_is_acyclic input types h in
    (
      normalize_type_declarations-IsNormal input types h,
      λ name m. assert_acyclic-IsFounded types state name a m,
    )
