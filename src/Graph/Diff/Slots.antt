-- ===== src/Graph/Diff/Slots.antt =====
-- What the difference of two objects' slots in src/graph/diff.js lists.
use lagrange_images.Base.{
  String, ◌≡◌, refl, ap, ◌∙◌, false, Option, none, some, List, [], ◌∷◌, if◌then◌else◌, is_some,
  arith, Bool-cases, Option-cases, inl, inr,
}
use lagrange_images.Base.Dict.{get}
use lagrange_images.Base.Json.{Json, Fields, end, field, get_field, field_names}
use lagrange_images.Base.TextOrder.{member, sort_texts, member-sort_texts}
use lagrange_images.Graph.Rounds.{before, before_member, listed}
use lagrange_images.Graph.Canonical.{canonical_clone, same}
use lagrange_images.Graph.Diff.{only_in, differing, compute_slot_changes}

-- The canonical form of the second value, if the first is missing.
abbrev pub new_value : Option Json → Option Json → Option Json
new_value (some b) a = none
new_value none none = none
new_value none (some a) = some (canonical_clone a)

-- The canonical forms of two values that are not the same.
abbrev pub new_pair : Option Json → Option Json → Option (Json × Json)
new_pair none a = none
new_pair (some b) none = none
new_pair (some b) (some a) = if same b a then none else some (canonical_clone b, canonical_clone a)

pub member-field_names :
    (k : String) (fs : Fields) → member k (field_names fs) ≡ is_some (get_field k fs)
unfolding member field_names get_field
member-field_names k end = refl
member-field_names k (field j v fs) = ground (arith, member-field_names k fs)

only_in_round :
    (id k : String) (ids : List String) (without within : Fields)
    → get k (only_in (id ∷ ids) without within)
      ≡ before id
          (new_value (get_field id without) (get_field id within))
          k
          (get k (only_in ids without within))
unfolding only_in get
only_in_round id k ids without within = elim (Option-cases (get_field id without)) [
  | inr (b, e) ↦ rw (e, only_in) refl
  | inl e ↦ elim (Option-cases (get_field id within)) [
    | inl e' ↦ rw (e, e', only_in) refl
    | inr (a, e') ↦ rw (e, e', only_in) refl
  ]
]

get-only_in :
    (k : String) (ids : List String) (without within : Fields)
    → get k (only_in ids without within)
      ≡ (if member k ids then new_value (get_field k without) (get_field k within) else none)
unfolding member only_in get
get-only_in k [] without within = refl
get-only_in k (id ∷ ids) without within =
    only_in_round id k ids without within
    ∙ ap (before id (new_value (get_field id without) (get_field id within)) k)
        (get-only_in k ids without within)
    ∙ before_member (λ x. new_value (get_field x without) (get_field x within)) id k (member k ids)

differing_round :
    (id k : String) (ids : List String) (b a : Fields)
    → get k (differing (id ∷ ids) b a)
      ≡ before id (new_pair (get_field id b) (get_field id a)) k (get k (differing ids b a))
unfolding differing get
differing_round id k ids b a = elim (Option-cases (get_field id b)) [
  | inl e ↦ rw (e, differing) refl
  | inr (v, e) ↦ elim (Option-cases (get_field id a)) [
    | inl e' ↦ rw (e, e', differing) refl
    | inr (w, e') ↦ elim (Bool-cases (same v w)) [
      | inl h ↦ rw (e, e', h, differing) refl
      | inr h ↦ rw (e, e', h, differing) refl
    ]
  ]
]

get-differing :
    (k : String) (ids : List String) (b a : Fields)
    → get k (differing ids b a)
      ≡ (if member k ids then new_pair (get_field k b) (get_field k a) else none)
unfolding member differing get
get-differing k [] b a = refl
get-differing k (id ∷ ids) b a =
    differing_round id k ids b a
    ∙ ap (before id (new_pair (get_field id b) (get_field id a)) k) (get-differing k ids b a)
    ∙ before_member (λ x. new_pair (get_field x b) (get_field x a)) id k (member k ids)

new_value_absent : (b a : Option Json) → is_some a ≡ false → new_value b a ≡ none
new_value_absent (some b) a h = refl
new_value_absent none none h = refl
new_value_absent none (some a) h = cc

new_pair_absent : (b a : Option Json) → is_some b ≡ false → new_pair b a ≡ none
new_pair_absent none a h = refl
new_pair_absent (some b) a h = cc

-- For each slot, the changes list as added and as removed the canonical form of the value that only
-- one side has, and as modified those of two values that are not the same; and nothing else.
pub compute_slot_changes_lem :
    (b a : Fields) (k : String)
    → (get k (compute_slot_changes b a).added ≡ new_value (get_field k b) (get_field k a))
      × (get k (compute_slot_changes b a).removed ≡ new_value (get_field k a) (get_field k b))
      × (get k (compute_slot_changes b a).modified ≡ new_pair (get_field k b) (get_field k a))
unfolding compute_slot_changes
compute_slot_changes_lem b a k =
    let named = λ (fs : Fields). member-sort_texts k (field_names fs) ∙ member-field_names k fs in
    (
      get-only_in k (sort_texts (field_names a)) b a
          ∙ listed (is_some (get_field k a)) _ (named a)
              (new_value_absent (get_field k b) (get_field k a)),
      get-only_in k (sort_texts (field_names b)) a b
          ∙ listed (is_some (get_field k b)) _ (named b)
              (new_value_absent (get_field k a) (get_field k b)),
      get-differing k (sort_texts (field_names b)) b a
          ∙ listed (is_some (get_field k b)) _ (named b)
              (new_pair_absent (get_field k b) (get_field k a)),
    )
