-- ===== src/Callable/Declarations/Reaching.antt =====
-- `reachableDeclarations` of src/callable/type-grammar.js: the fuel that it is given is enough.
use lagrange_images.Base.{
  ℕ, zero, suc, ◌+◌, ◌≤◌, ◌≡◌, ◌≢◌, refl, ap, ◌∙◌, String, true, false, ◌||◌, some, List, [], ◌∷◌,
  length, str_eq, eq_iff, eq_refl, if◌then◌else◌, arith, Bool-cases, Option-cases, inl, inr,
  eq_of_some,
}
use lagrange_images.Base.Dict.{get, put, has, get-put}
use lagrange_images.Base.Result.{err, Result-cases}
use lagrange_images.Callable.TypeGrammar.{
  RecordFields, Declarations, TypeExpr, out_of_fuel, named, list,
}
use lagrange_images.Callable.Declarations.{
  references_of, referenced_names, is_inherited, onto, reach, count_references,
  reachable_declarations,
}

-- The references of the declarations that are not reached yet.
unfoldable left_of : Declarations → Declarations → ℕ
unfolding references_of get
left_of [] reached = 0
left_of ((name, fields) ∷ types) reached =
    (if has name reached then 0 else length (references_of fields)) + left_of types reached

left_of-put :
    (types reached : Declarations) (name : String) (fields : RecordFields)
    → left_of types (put name fields reached) ≤ left_of types reached
unfolding left_of
left_of-put [] reached name fields = omega arith
left_of-put ((k, fs) ∷ types) reached name fields =
    ground (arith, left_of-put types reached name fields, get-put name k fields reached)

pub apart : (k n : String) → str_eq k n ≡ false → str_eq n k ≡ false
apart k n h = ground (arith, eq_iff k n, eq_iff n k)

-- A declaration that is reached takes its references off.
left_of-put_new :
    (types reached : Declarations) (name : String) (fields : RecordFields)
    → get name types ≡ some fields
    → has name reached ≡ false
    → left_of types (put name fields reached) + length (references_of fields)
      ≤ left_of types reached
unfolding left_of get
left_of-put_new [] reached name fields h a = absurd (cc h)
left_of-put_new ((k, fs) ∷ types) reached name fields h a = elim (Bool-cases (str_eq k name)) [
  | inl same ↦
      let counted =
        ap (λ (f : RecordFields). length (references_of f)) (eq_of_some (rw (get, same) at h)) in
      let gone : has k (put name fields reached) ≡ true =
        rw (get-put name k fields reached, (eq_iff k name).0 same, eq_refl) refl in
      let before_it : has k reached ≡ false = rw ((eq_iff k name).0 same) a in
      rw (gone, before_it) (omega (arith, counted, left_of-put types reached name fields))
  | inr other ↦
      let kept : has k (put name fields reached) ≡ has k reached =
        rw (get-put name k fields reached, apart k name other) refl in
      rw kept (omega (arith, left_of-put_new types reached name fields (rw (get, other) at h) a))
]

length-onto :
    (names pending : List String) → length (onto names pending) ≡ length names + length pending
unfolding onto
length-onto [] pending = omega arith
length-onto (n ∷ names) pending = omega (arith, length-onto names (n ∷ pending))

reach-ne-out_of_fuel :
    (types : Declarations) (fuel : ℕ) (pending : List String) (reached : Declarations)
    → length pending + left_of types reached ≤ fuel
    → reach types fuel pending reached ≢ err out_of_fuel
unfolding reach
reach-ne-out_of_fuel types zero [] reached h e = cc
reach-ne-out_of_fuel types (suc fuel) [] reached h e = cc
reach-ne-out_of_fuel types zero (n ∷ pending) reached h e = absurd (omega arith)
reach-ne-out_of_fuel types (suc fuel) (n ∷ pending) reached h e =
    elim (Bool-cases (has n reached || is_inherited n)) [
      | inl old ↦
          reach-ne-out_of_fuel types fuel pending reached (omega arith) (rw (reach, old) at e)
      | inr new ↦ elim (Option-cases (get n types)) [
        | inl g ↦ cc (rw (reach, new, g) at e)
        | inr (fields, g) ↦
            reach-ne-out_of_fuel types fuel (onto (references_of fields) pending)
              (put n fields reached)
              (omega (
                arith,
                length-onto (references_of fields) pending,
                left_of-put_new types reached n fields g (ground arith),
              ))
              (rw (reach, new, g) at e)
      ]
    ]

left_of_none : (types : Declarations) → left_of types [] ≤ count_references types
unfolding left_of count_references get
left_of_none [] = omega arith
left_of_none ((k, fs) ∷ types) = omega (arith, left_of_none types)

length-referenced_names : (t : TypeExpr) → length (referenced_names t) ≤ 1
unfolding referenced_names
length-referenced_names (named name) = ground arith
length-referenced_names (list t) = length-referenced_names t

-- The walk over the declarations that a type reaches ends within one round for each reference and one
-- more.
pub reachable_declarations-ne-out_of_fuel :
    (t : TypeExpr) (types : Declarations) → reachable_declarations t types ≢ err out_of_fuel
unfolding reachable_declarations
reachable_declarations-ne-out_of_fuel t types e =
    elim (Result-cases (reach types (suc (count_references types)) (referenced_names t) [])) [
      | inl (r, k) ↦ cc (rw (reachable_declarations, k) at e)
      | inr (er, k) ↦
          reach-ne-out_of_fuel types (suc (count_references types)) (referenced_names t) []
            (omega (arith, left_of_none types, length-referenced_names t))
            (k ∙ rw (reachable_declarations, k) at e)
    ]
