-- ===== src/Callable/Declarations/Acyclic.antt =====
-- `assertAcyclicDeclarations` of src/callable/type-grammar.js: what it lets pass is well founded.
use lagrange_images.Base.{
  ℕ, zero, suc, ◌≡◌, sym, ap, subst, ◌∙◌, String, true, none, some, List, [], ◌∷◌, length, map,
  str_eq, eq_iff, arith, Bool-cases, Option-cases, inl, inr, eq_of_some,
}
use lagrange_images.Base.Dict.{Dict, get, put, get-put, get-put_self}
use lagrange_images.Base.Result.{Result, ok, Result-cases, eq_of_ok}
use lagrange_images.Base.TextOrder.{member}
use lagrange_images.Callable.TypeGrammar.{RecordFields, Declarations, GrammarError}
use lagrange_images.Callable.Declarations.{
  Status, visiting, done, visit_each, visit, references_of, assert_acyclic,
}
use mathlib.Core.WellFounded.{Acc}

-- The declaration of the one name refers to the other.
abbrev pub RefersTo : Declarations → String → String → Type 0
RefersTo types m n =
    (fields : RecordFields) × (get n types ≡ some fields) × (member m (references_of fields) ≡ true)

-- There is no endless chain of references from the name.
abbrev pub IsFounded : Declarations → String → Type 0
IsFounded types n = Acc (RefersTo types) n

abbrev DoneFounded : Declarations → Dict Status → Type 0
DoneFounded types state = (n : String) → get n state ≡ some done → IsFounded types n

-- A visit keeps what is done, and does its name.
abbrev Keeps : Dict Status → Dict Status → Type 0
Keeps before_it after = (n : String) → get n before_it ≡ some done → get n after ≡ some done

each_founded :
    (types : Declarations) (visit_one : String → Dict Status → Result GrammarError (Dict Status))
    → ((n : String) (state next : Dict Status)
        → DoneFounded types state
        → visit_one n state ≡ ok next
        → DoneFounded types next × Keeps state next × (get n next ≡ some done))
    → (names : List String) (state next : Dict Status) → DoneFounded types state
    → visit_each visit_one names state ≡ ok next
    → DoneFounded types next
      × Keeps state next
      × ((n : String) → member n names ≡ true → get n next ≡ some done)
unfolding visit_each member
each_founded types visit_one one [] state next founded h =
    subst
      (λ t.
        DoneFounded types t
        × Keeps state t
        × ((n : String) → member n [] ≡ true → get n t ≡ some done))
      (eq_of_ok h) (founded, λ n d. d, λ n m. absurd (cc m))
each_founded types visit_one one (name ∷ names) state next founded h =
    elim (Result-cases (visit_one name state)) [
      | inr (e, k) ↦ absurd (cc (rw (visit_each, k) at h))
      | inl (mid, k) ↦
          let (founded', kept, mine) = one name state mid founded k in
          let (founded'', kept', theirs) =
            each_founded types visit_one one names mid next founded' (rw (visit_each, k) at h) in
          (
            founded'',
            λ n d. kept' n (kept n d),
            λ n m. elim (Bool-cases (str_eq name n)) [
              | inl same ↦ rw (sym ((eq_iff name n).0 same)) (kept' name mine)
              | inr other ↦ theirs n (rw (member, other) at m)
            ],
          )
    ]

visiting_founded :
    (types : Declarations) (name : String) (state : Dict Status)
    → DoneFounded types state
    → DoneFounded types (put name visiting state)
visiting_founded types name state founded n d =
    founded n (ground (arith, get-put name n visiting state, d))

done_founded :
    (types : Declarations) (name : String) (state : Dict Status)
    → IsFounded types name
    → DoneFounded types state
    → DoneFounded types (put name done state)
done_founded types name state mine founded n d = elim (Bool-cases (str_eq name n)) [
  | inl same ↦ subst (IsFounded types) ((eq_iff name n).0 same) mine
  | inr other ↦ founded n (ground (arith, get-put name n done state, d, other))
]

-- What was done stays so through a visit that marks its name.
done_kept :
    (name n : String) (state mid : Dict Status)
    → get name state ≡ none
    → get n state ≡ some done
    → (get n (put name visiting state) ≡ some done → get n mid ≡ some done)
    → get n (put name done mid) ≡ some done
done_kept name n state mid s d kept = elim (Bool-cases (str_eq name n)) [
  | inl same ↦ absurd (cc (s, d, ap (λ (k : String). get k state) ((eq_iff name n).0 same)))
  | inr other ↦ ground (
    arith,
    get-put name n visiting state,
    get-put name n done mid,
    kept (ground (arith, get-put name n visiting state, d, other)),
    other,
  )
]

visit_founded :
    (types : Declarations) (fuel : ℕ) (name : String) (state next : Dict Status)
    → DoneFounded types state
    → visit types fuel name state ≡ ok next
    → DoneFounded types next × Keeps state next × (get name next ≡ some done)
unfolding visit
visit_founded types zero name state next founded h = absurd (cc h)
visit_founded types (suc fuel) name state next founded h = elim (Option-cases (get name state)) [
  | inr (done, s) ↦
      subst (λ t. DoneFounded types t × Keeps state t × (get name t ≡ some done))
        (eq_of_ok (rw (visit, s) at h)) (founded, λ n d. d, s)
  | inr (visiting, s) ↦ absurd (cc (rw (visit, s) at h))
  | inl s ↦ elim (Option-cases (get name types)) [
    | inl g ↦ absurd (cc (rw (visit, s, g) at h))
    | inr (fields, g) ↦
        elim (Result-cases
          (visit_each (visit types fuel) (references_of fields) (put name visiting state))) [
            | inr (e, k) ↦ absurd (cc (rw (visit, s, g, k) at h))
            | inl (mid, k) ↦
                let (founded', kept, theirs) =
                  each_founded types (visit types fuel) (visit_founded types fuel)
                    (references_of fields) (put name visiting state) mid
                    (visiting_founded types name state founded) k in
                let mine : IsFounded types name = Acc.intro name (λ m (fs, e, r).
                  founded' m (theirs m (rw (sym (eq_of_some (sym g ∙ e))) at r))) in
                subst (λ t. DoneFounded types t × Keeps state t × (get name t ≡ some done))
                  (eq_of_ok (rw (visit, s, g, k) at h))
                  (
                    done_founded types name mid mine founded',
                    λ n d. done_kept name n state mid s d (kept n),
                    get-put_self name done mid,
                  )
          ]
  ]
]

-- Where the visits of all declarations return, no chain of references from a declared name is endless:
-- no declaration reaches itself.
pub assert_acyclic-IsFounded :
    (types : Declarations) (state : Dict Status) (name : String)
    → assert_acyclic types ≡ ok state
    → member name (map (λ (e : String × RecordFields). e.0) types) ≡ true
    → IsFounded types name
unfolding assert_acyclic get
assert_acyclic-IsFounded types state name h m =
    let (founded, _, all) =
      each_founded types (visit types (suc (length types)))
        (visit_founded types (suc (length types))) (map (λ (e : String × RecordFields). e.0) types)
        [] state (λ n e. absurd (cc e)) h in
    founded name (all name m)
