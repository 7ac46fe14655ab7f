-- ===== src/Graph/Merge/Values/Laws.antt =====
-- The three-way rule of src/graph/merge.js, for a field and for the fields of a map: no change is lost.
use lagrange_images.Base.{
  String, ◌≡◌, ◌≢◌, refl, sym, ap, ◌∙◌, Bool, true, false, ◌||◌, Option, none, some, List, [], ◌∷◌,
  ◌++◌, if◌then◌else◌, is_some, Bool-cases, inl, inr, ◌↔◌, eq_of_some,
}
use lagrange_images.Base.Dict.{Dict, get}
use lagrange_images.Base.Json.{Json, Fields, get_field, field_names}
use lagrange_images.Base.TextOrder.{
  member, sort_texts, distinct, member-sort_texts, member-distinct,
}
use lagrange_images.Graph.Rounds.{before, before_member, listed, member-append}
use lagrange_images.Graph.Canonical.{same_option, clone_option}
use lagrange_images.Graph.Canonical.Laws.{same_option_iff, canonical_clone-idempotent}
use lagrange_images.Graph.Diff.Slots.{member-field_names}
use lagrange_images.Graph.Merge.Values.{
  choose, Conflict, Merged, clones, settle, merge_scalar, add_value, add_conflict, merge_keys,
  merge_key_values,
}

-- What a merged value and its conflict have to do with the three values that were merged.
pub record IsThreeWay (b l r m : Option Json) (c : Option Conflict) : Type 0 where
  -- Without a conflict the result has each side's change.
  pub keeps_left : c ≡ none → same_option l b ≡ false → same_option m l ≡ true
  pub keeps_right : c ≡ none → same_option r b ≡ false → same_option m r ≡ true
  -- What no side changed is as it was.
  pub keeps_base : same_option l b ≡ true → same_option r b ≡ true → same_option m b ≡ true
  -- There is a conflict exactly if both sides changed the value, and differently.
  pub conflict_iff :
      (c ≢ none)
      ↔ ((same_option l b ≡ false) × (same_option r b ≡ false) × (same_option l r ≡ false))
  -- A conflict shows the three values, and the result is the base's.
  pub conflict_shows : (x : Conflict) → c ≡ some x → (x ≡ clones b l r) × (m ≡ clone_option b)

clone_option-idempotent : (a : Option Json) → clone_option (clone_option a) ≡ clone_option a
unfolding clone_option
clone_option-idempotent none = refl
clone_option-idempotent (some a) = ap some (canonical_clone-idempotent a)

-- The canonical form of a value is the same as what the value is the same as.
same_as : (v w : Option Json) → same_option v w ≡ true → same_option (clone_option v) w ≡ true
same_as v w h =
    (same_option_iff (clone_option v) w).1 (clone_option-idempotent v ∙ (same_option_iff v w).0 h)

same_option_self : (v : Option Json) → same_option v v ≡ true
same_option_self v = (same_option_iff v v).1 refl

true-false : {x : Bool} → x ≡ true → x ≡ false → ⊥
true-false p q = cc

contradiction {ℓ} : {A : Type ℓ} {x : Bool} → x ≡ true → x ≡ false → A
contradiction p q = absurd (true-false p q)

-- A value was taken because a test says so.
taken :
    (b l r v : Option Json)
    → (same_option l b ≡ false → same_option v l ≡ true)
    → (same_option r b ≡ false → same_option v r ≡ true)
    → (same_option l b ≡ true → same_option r b ≡ true → same_option v b ≡ true)
    → ¬ ((same_option l b ≡ false) × (same_option r b ≡ false) × (same_option l r ≡ false))
    → IsThreeWay b l r (clone_option v) none
taken b l r v left right base apart = record {
  keeps_left = λ _ h. same_as v l (left h);
  keeps_right = λ _ h. same_as v r (right h);
  keeps_base = λ h h'. same_as v b (base h h');
  conflict_iff = (λ h. absurd (h refl), λ h. absurd (apart h));
  conflict_shows = λ x h. cc;
}

pub merge_scalar-IsThreeWay :
    (b l r : Option Json)
    → IsThreeWay b l r (merge_scalar b l r).merged (merge_scalar b l r).conflict
unfolding merge_scalar settle choose
merge_scalar-IsThreeWay b l r = elim (Bool-cases (same_option l b)) [
  | inl lb ↦
      rw (lb, merge_scalar, choose, settle)
        (taken b l r r (λ h. contradiction lb h) (λ _. same_option_self r) (λ _ h. h)
          (λ (h, _, _). true-false lb h))
  | inr lb ↦ elim (Bool-cases (same_option r b)) [
    | inl rb ↦
        rw (lb, rb, merge_scalar, choose, settle)
          (taken b l r l (λ _. same_option_self l) (λ h. contradiction rb h)
            (λ h _. contradiction h lb) (λ (_, h, _). true-false rb h))
    | inr rb ↦ elim (Bool-cases (same_option l r)) [
      | inl lr ↦
          rw (lb, rb, lr, merge_scalar, choose, settle)
            (taken b l r l (λ _. same_option_self l) (λ _. lr) (λ h _. contradiction h lb)
              (λ (_, _, h). true-false lr h))
      | inr lr ↦
          rw (lb, rb, lr, merge_scalar, choose, settle)
            (record {
              keeps_left = λ h _. cc;
              keeps_right = λ h _. cc;
              keeps_base = λ h _. contradiction h lb;
              conflict_iff = (λ _. (lb, rb, lr), λ _ h. cc);
              conflict_shows = λ x h. (sym (eq_of_some h), refl);
            })
    ]
  ]
]

get_field-add_value :
    (id k : String) (o : Option Json) (fs : Fields)
    → get_field k (add_value id o fs) ≡ before id o k (get_field k fs)
unfolding get_field add_value
get_field-add_value id k none fs = refl
get_field-add_value id k (some v) fs = refl

pub get-add_conflict {ℓ} :
    {A : Type ℓ} (id k : String) (o : Option A) (cs : Dict A)
    → get k (add_conflict id o cs) ≡ before id o k (get k cs)
unfolding get add_conflict
get-add_conflict id k none cs = refl
get-add_conflict id k (some c) cs = refl

module _ (b l r : Fields) where
  abbrev scalar_at : String → Merged
  scalar_at k = merge_scalar (get_field k b) (get_field k l) (get_field k r)

  merged-merge_keys :
      (k : String) (ids : List String)
      → get_field k (merge_keys ids b l r).merged
        ≡ (if member k ids then (scalar_at k).merged else none)
  unfolding merge_keys member get_field
  merged-merge_keys k [] = refl
  merged-merge_keys k (id ∷ ids) =
      get_field-add_value id k (scalar_at id).merged (merge_keys ids b l r).merged
      ∙ ap (before id (scalar_at id).merged k) (merged-merge_keys k ids)
      ∙ before_member (λ x. (scalar_at x).merged) id k (member k ids)

  conflicts-merge_keys :
      (k : String) (ids : List String)
      → get k (merge_keys ids b l r).conflicts
        ≡ (if member k ids then (scalar_at k).conflict else none)
  unfolding merge_keys member get
  conflicts-merge_keys k [] = refl
  conflicts-merge_keys k (id ∷ ids) =
      get-add_conflict id k (scalar_at id).conflict (merge_keys ids b l r).conflicts
      ∙ ap (before id (scalar_at id).conflict k) (conflicts-merge_keys k ids)
      ∙ before_member (λ x. (scalar_at x).conflict) id k (member k ids)

  member-all_names :
      (k : String)
      → member k (sort_texts (distinct (field_names b ++ (field_names l ++ field_names r))))
        ≡ (is_some (get_field k b) || (is_some (get_field k l) || is_some (get_field k r)))
  member-all_names k =
      rw
        (
          member-sort_texts k (distinct (field_names b ++ (field_names l ++ field_names r))),
          member-distinct k (field_names b ++ (field_names l ++ field_names r)),
          member-append k (field_names b) (field_names l ++ field_names r),
          member-append k (field_names l) (field_names r),
          member-field_names k b,
          member-field_names k l,
          member-field_names k r,
        )
        refl

absent_merge :
    (b l r : Option Json)
    → (is_some b || (is_some l || is_some r)) ≡ false
    → ((merge_scalar b l r).merged ≡ none) × ((merge_scalar b l r).conflict ≡ none)
unfolding merge_scalar choose settle same_option clone_option
absent_merge none none none h = (refl, refl)
absent_merge none none (some r) h = cc
absent_merge none (some l) r h = cc
absent_merge (some b) l r h = cc

module _ (b l r : Fields) (k : String) where
  -- At every key, the merge of three maps has the merge of the three values there, if any.
  get_field-merge_key_values :
      get_field k (merge_key_values b l r).merged ≡ (scalar_at b l r k).merged
  unfolding merge_key_values
  get_field-merge_key_values =
      merged-merge_keys b l r k _
      ∙ listed _ (scalar_at b l r k).merged (member-all_names b l r k)
          (λ h. (absent_merge (get_field k b) (get_field k l) (get_field k r) h).0)

  get-merge_key_values : get k (merge_key_values b l r).conflicts ≡ (scalar_at b l r k).conflict
  unfolding merge_key_values
  get-merge_key_values =
      conflicts-merge_keys b l r k _
      ∙ listed _ (scalar_at b l r k).conflict (member-all_names b l r k)
          (λ h. (absent_merge (get_field k b) (get_field k l) (get_field k r) h).1)

  -- The merge of three maps, such as slots, bindings or metadata, follows the three-way rule at every
  -- key: without a conflict there, the result has the change of each side that made one, missing keys
  -- included; what no side changed is as in the base; and a key is in conflict exactly if both sides
  -- changed it, and differently. A conflict shows the three values, and the result then has the base's.
  pub merge_key_values-IsThreeWay :
      IsThreeWay
        (get_field k b)
        (get_field k l)
        (get_field k r)
        (get_field k (merge_key_values b l r).merged)
        (get k (merge_key_values b l r).conflicts)
  merge_key_values-IsThreeWay =
      rw (get_field-merge_key_values, get-merge_key_values)
        (merge_scalar-IsThreeWay (get_field k b) (get_field k l) (get_field k r))
