-- ===== src/Callable/Declarations/Visiting.antt =====
-- `assertAcyclicDeclarations` of src/callable/type-grammar.js: the fuel that it is given is enough.
use lagrange_images.Base.{
  ℕ, zero, suc, ◌+◌, ◌≤◌, ◌≡◌, ◌≢◌, refl, sym, ◌∙◌, String, true, false, some, List, [], ◌∷◌,
  length, map, str_eq, eq_iff, eq_refl, if◌then◌else◌, arith, Bool-cases, Option-cases, inl, inr,
}
use lagrange_images.Base.Dict.{Dict, get, put, has, get-put}
use lagrange_images.Base.Result.{Result, ok, err, Result-cases, eq_of_ok}
use lagrange_images.Callable.TypeGrammar.{
  TypeExpr, RecordFields, Declarations, GrammarError, out_of_fuel,
}
use lagrange_images.Callable.Declarations.{
  reachable_declarations, Status, visiting, done, visit_each, visit, references_of, assert_acyclic,
}
use lagrange_images.Callable.Declarations.Reaching.{apart, reachable_declarations-ne-out_of_fuel}

-- The names that a visit has still to mark.
unfoldable unmarked : Declarations → Dict Status → ℕ
unfolding get
unmarked [] state = 0
unmarked ((name, fields) ∷ types) state = (if has name state then 0 else 1) + unmarked types state

-- A visit leaves a mark where one was.
abbrev Marks : Dict Status → Dict Status → Type 0
Marks state next = (n : String) → has n state ≡ true → has n next ≡ true

unmarked_mono :
    (types : Declarations) (state next : Dict Status)
    → Marks state next
    → unmarked types next ≤ unmarked types state
unfolding unmarked
unmarked_mono [] state next h = omega arith
unmarked_mono ((k, fs) ∷ types) state next h = ground (arith, unmarked_mono types state next h, h k)

put-Marks : (k : String) (s : Status) (state : Dict Status) → Marks state (put k s state)
put-Marks k s state n h = ground (arith, get-put k n s state, h)

unmarked-put_new :
    (types : Declarations) (state : Dict Status) (name : String) (fields : RecordFields)
    → get name types ≡ some fields
    → has name state ≡ false
    → unmarked types (put name visiting state) + 1 ≤ unmarked types state
unfolding unmarked get
unmarked-put_new [] state name fields h a = absurd (cc h)
unmarked-put_new ((k, fs) ∷ types) state name fields h a = elim (Bool-cases (str_eq k name)) [
  | inl same ↦
      let gone : has k (put name visiting state) ≡ true =
        rw (get-put name k visiting state, (eq_iff k name).0 same, eq_refl) refl in
      let before_it : has k state ≡ false = rw ((eq_iff k name).0 same) a in
      rw (gone, before_it)
        (omega (
          arith,
          unmarked_mono types state (put name visiting state) (put-Marks name visiting state),
        ))
  | inr other ↦
      let kept : has k (put name visiting state) ≡ has k state =
        rw (get-put name k visiting state, apart k name other) refl in
      rw kept (omega (arith, unmarked-put_new types state name fields (rw (get, other) at h) a))
]

-- Visits that mark and that end within a bound on the unmarked names do so one after another.
each_ends :
    (types : Declarations) (visit_one : String → Dict Status → Result GrammarError (Dict Status))
    (bound : ℕ)
    → ((n : String) (state : Dict Status)
        → unmarked types state ≤ bound
        → (visit_one n state ≢ err out_of_fuel)
          × ((next : Dict Status) → visit_one n state ≡ ok next → Marks state next))
    → (names : List String) (state : Dict Status) → unmarked types state ≤ bound
    → (visit_each visit_one names state ≢ err out_of_fuel)
      × ((next : Dict Status) → visit_each visit_one names state ≡ ok next → Marks state next)
unfolding visit_each
each_ends types visit_one bound one [] state h = (λ e. cc e, λ next e n m. rw (sym (eq_of_ok e)) m)
each_ends types visit_one bound one (name ∷ names) state h =
    elim (Result-cases (visit_one name state)) [
      | inr (e, k) ↦ (
        λ r. (one name state h).0 (k ∙ rw (visit_each, k) at r),
        λ next r. absurd (cc (rw (visit_each, k) at r)),
      )
      | inl (mid, k) ↦
          let marks = (one name state h).1 mid k in
          let (ends, marks') =
            each_ends types visit_one bound one names mid
              (omega (arith, h, unmarked_mono types state mid marks)) in
          (
            λ r. ends (rw (visit_each, k) at r),
            λ next r n m. marks' next (rw (visit_each, k) at r) n (marks n m),
          )
    ]

-- A call ends, and leaves the marks of the state.
abbrev Ends : Dict Status → Result GrammarError (Dict Status) → Type 0
Ends state r = (r ≢ err out_of_fuel) × ((next : Dict Status) → r ≡ ok next → Marks state next)

visit_step :
    (types : Declarations) (fuel : ℕ) (name : String) (state : Dict Status)
    → ((fields : RecordFields)
        → get name types ≡ some fields
        → has name state ≡ false
        → Ends
            (put name visiting state)
            (visit_each (visit types fuel) (references_of fields) (put name visiting state)))
    → Ends state (visit types (suc fuel) name state)
unfolding visit
visit_step types fuel name state inner = elim (Option-cases (get name state)) [
  | inr (done, s) ↦ rw (visit, s) (λ e. cc e, λ next e n m. rw (sym (eq_of_ok e)) m)
  | inr (visiting, s) ↦ rw (visit, s) (λ e. cc e, λ next e. absurd (cc e))
  | inl s ↦ elim (Option-cases (get name types)) [
    | inl g ↦ rw (visit, s, g) (λ e. cc e, λ next e. absurd (cc e))
    | inr (fields, g) ↦
        let (ends, marks) = inner fields g (rw s refl) in
        elim (Result-cases
          (visit_each (visit types fuel) (references_of fields) (put name visiting state))) [
            | inr (er, k) ↦ rw (visit, s, g, k) (λ e. ends (k ∙ e), λ next e. absurd (cc e))
            | inl (mid, k) ↦
                rw (visit, s, g, k)
                  (
                    λ e. cc e,
                    λ next e n m. rw (sym (eq_of_ok e)) (
                        put-Marks name done mid n
                          (marks mid k n (put-Marks name visiting state n m))),
                  )
          ]
  ]
]

visit-Ends :
    (types : Declarations) (fuel : ℕ) (name : String) (state : Dict Status)
    → unmarked types state ≤ fuel
    → Ends state (visit types (suc fuel) name state)
visit-Ends types zero name state h =
    visit_step types zero name state
      (λ fields g new. absurd (omega (arith, unmarked-put_new types state name fields g new)))
visit-Ends types (suc fuel) name state h = visit_step types (suc fuel) name state (λ fields g new.
    each_ends types (visit types (suc fuel)) fuel (visit-Ends types fuel) (references_of fields)
      (put name visiting state) (omega (arith, unmarked-put_new types state name fields g new)))

unmarked_none : (types : Declarations) → unmarked types [] ≤ length types
unfolding unmarked get
unmarked_none [] = omega arith
unmarked_none ((k, fs) ∷ types) = omega (arith, unmarked_none types)

-- The visits of the declarations end: their depth is at most one more than the number of
-- declarations.
pub assert_acyclic-ne-out_of_fuel : (types : Declarations) → assert_acyclic types ≢ err out_of_fuel
unfolding assert_acyclic
assert_acyclic-ne-out_of_fuel types =
    (each_ends types (visit types (suc (length types))) (length types)
      (visit-Ends types (length types)) (map (λ (e : String × RecordFields). e.0) types) []
      (unmarked_none types)).0

-- The visit of the declarations and the walk over those that a type reaches end within their fuel, for
-- all declarations, cyclic ones included.
pub walks-ne-out_of_fuel :
    (t : TypeExpr) (types : Declarations)
    → (assert_acyclic types ≢ err out_of_fuel) × (reachable_declarations t types ≢ err out_of_fuel)
walks-ne-out_of_fuel t types =
    (assert_acyclic-ne-out_of_fuel types, reachable_declarations-ne-out_of_fuel t types)
