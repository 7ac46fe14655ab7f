-- ===== src/Graph/Merge/Objects/Laws.antt =====
-- src/graph/merge.js: two changed versions of an object are merged slot by slot.
use lagrange_images.Base.{
  String, ◌≡◌, refl, sym, ap, ◌∙◌, true, false, ◌&&◌, Option, none, some, [], ◌∷◌, if◌then◌else◌,
  str_eq, eq_iff, arith, Bool-cases, inl, inr, both_true,
}
use lagrange_images.Base.Dict.{Dict, get}
use lagrange_images.Base.Json.{
  Json, Fields, obj, end, field, get_field, set_field, drop_field, set_option,
}
use lagrange_images.Graph.Canonical.{
  canonical_clone, clone_fields, same, same_option, clone_option, Record,
}
use lagrange_images.Graph.Canonical.Laws.{canonical_clone-idempotent, get_field-clone_fields}
use lagrange_images.Graph.Diff.{fields_at}
use lagrange_images.Graph.Merge.Values.{Conflict, merge_key_values, IndexedConflict}
use lagrange_images.Graph.Merge.Values.Laws.{IsThreeWay, merge_key_values-IsThreeWay}
use lagrange_images.Graph.Merge.Objects.{
  ConflictDetail, object_conflict, environment_conflict, is_none, is_empty, keep_indexed,
  merge_object_records, merge_environment_records,
}

get_field-set_field :
    (j k : String) (v : Json) (fs : Fields)
    → get_field j (set_field k v fs) ≡ (if str_eq k j then some v else get_field j fs)
unfolding get_field set_field
get_field-set_field j k v end = refl
get_field-set_field j k v (field i w fs) =
    ground (arith, get_field-set_field j k v fs, eq_iff k j, eq_iff i j, eq_iff i k)

get_field-drop_field :
    (j k : String) (fs : Fields)
    → get_field j (drop_field k fs) ≡ (if str_eq k j then none else get_field j fs)
unfolding get_field drop_field
get_field-drop_field j k end = ground arith
get_field-drop_field j k (field i w fs) =
    ground (arith, get_field-drop_field j k fs, eq_iff k j, eq_iff i j, eq_iff i k)

get_field-set_option :
    (j k : String) (o : Option Json) (fs : Fields)
    → get_field j (set_option k o fs) ≡ (if str_eq k j then o else get_field j fs)
unfolding set_option
get_field-set_option j k none fs = get_field-drop_field j k fs
get_field-set_option j k (some v) fs = get_field-set_field j k v fs

get_field-keep_indexed :
    (j : String) (o : Option Json) (fs : Fields)
    → str_eq "indexed" j ≡ false
    → get_field j (keep_indexed o fs) ≡ get_field j fs
get_field-keep_indexed j none fs h = refl
get_field-keep_indexed j (some v) fs h = get_field-set_option j "indexed" (some v) fs ∙ rw h refl

same_option-clone_option : (m a : Option Json) → same_option (clone_option m) a ≡ same_option m a
unfolding same_option clone_option same
same_option-clone_option none none = refl
same_option-clone_option none (some a) = refl
same_option-clone_option (some m) none = refl
same_option-clone_option (some m) (some a) = rw (canonical_clone-idempotent m) refl

clone_option_twice : (a : Option Json) → clone_option (clone_option a) ≡ clone_option a
unfolding clone_option
clone_option_twice none = refl
clone_option_twice (some a) = ap some (canonical_clone-idempotent a)

-- The three-way rule is about what the result holds, not about its layout.
clone-IsThreeWay :
    {b l r m : Option Json} {c : Option Conflict}
    → IsThreeWay b l r m c
    → IsThreeWay b l r (clone_option m) c
clone-IsThreeWay {b} {l} {r} {m} {c} h = record {
  keeps_left = λ n d. same_option-clone_option m l ∙ h.keeps_left n d;
  keeps_right = λ n d. same_option-clone_option m r ∙ h.keeps_right n d;
  keeps_base = λ p q. same_option-clone_option m b ∙ h.keeps_base p q;
  conflict_iff = h.conflict_iff;
  conflict_shows = λ x e.
      let (shown, held) = h.conflict_shows x e in
      (shown, ap clone_option held ∙ clone_option_twice b);
}

-- The fields that a merge of maps puts under a name, after the last clone.
map_at :
    (k : String) (fs gs : Fields)
    → get_field k fs ≡ some (obj gs)
    → fields_at k (clone_fields fs) ≡ clone_fields gs
unfolding clone_option canonical_clone fields_at
map_at k fs gs h = rw (get_field-clone_fields k fs ∙ ap clone_option h, fields_at) refl

map-IsThreeWay :
    (b l r : Fields) (name k : String) (fs : Fields) (c : Option Conflict)
    → get_field name fs ≡ some (obj (merge_key_values b l r).merged)
    → c ≡ get k (merge_key_values b l r).conflicts
    → IsThreeWay
        (get_field k b)
        (get_field k l)
        (get_field k r)
        (get_field k (fields_at name (clone_fields fs)))
        c
map-IsThreeWay b l r name k fs c at is =
    rw
      (
        map_at name fs (merge_key_values b l r).merged at,
        get_field-clone_fields k (merge_key_values b l r).merged,
        is,
      )
      (clone-IsThreeWay (merge_key_values-IsThreeWay b l r k))

none_at : {A : Type 0} (k : String) (m : Dict A) → is_empty m ≡ true → get k m ≡ none
unfolding get
none_at k [] h = refl
none_at k (x ∷ m) h = cc

-- What a conflict of two objects says of a slot.
abbrev pub slot_conflict : String → Option ConflictDetail → Option Conflict
slot_conflict k (some (object_conflict s b slots i m)) = get k slots
slot_conflict k _ = none

abbrev pub binding_conflict : String → Option ConflictDetail → Option Conflict
binding_conflict k (some (environment_conflict p bindings m)) = get k bindings
binding_conflict k _ = none

slot_listed :
    (k : String) (s h : Option Conflict) (slots : Dict Conflict) (i : Option IndexedConflict)
    (m : Dict Conflict)
    → slot_conflict k (
        if is_none s && (is_none h && (is_empty slots && (is_none i && is_empty m)))
        then none
        else some (object_conflict s h slots i m))
      ≡ get k slots
slot_listed k s h slots i m =
    elim (Bool-cases (is_none s && (is_none h && (is_empty slots && (is_none i && is_empty m))))) [
      | inl clear ↦ rw clear (
          sym (
            none_at k slots
              (both_true (is_empty slots) _
                (both_true (is_none h) _ (both_true (is_none s) _ clear).1).1).0))
      | inr e ↦ rw e refl
    ]

binding_listed :
    (k : String) (p : Option Conflict) (bindings m : Dict Conflict)
    → binding_conflict k (
        if is_none p && (is_empty bindings && is_empty m)
        then none
        else some (environment_conflict p bindings m))
      ≡ get k bindings
binding_listed k p bindings m = elim (Bool-cases (is_none p && (is_empty bindings && is_empty m))) [
  | inl clear ↦ rw clear (
      sym
        (none_at k bindings (both_true (is_empty bindings) _ (both_true (is_none p) _ clear).1).0))
  | inr e ↦ rw e refl
]

module _ (b l r : Record) (k : String) where
  -- The merge of two changed versions of an object follows the three-way rule at every slot, where the
  -- slot's conflict is the one that the object's conflict lists.
  pub merge_object_records-slots :
      IsThreeWay
        (get_field k (fields_at "slots" b.fields))
        (get_field k (fields_at "slots" l.fields))
        (get_field k (fields_at "slots" r.fields))
        (get_field k (fields_at "slots" (merge_object_records b l r).merged.fields))
        (slot_conflict k (merge_object_records b l r).conflict)
  unfolding merge_object_records
  merge_object_records-slots =
      map-IsThreeWay _ _ _ "slots" k _ _
        (get_field-set_option "slots" "metadata" _ _
          ∙ get_field-keep_indexed "slots" _ _ refl
          ∙ get_field-set_option "slots" "slots" _ _)
        (slot_listed k _ _ _ _ _)

  -- The merge of two changed versions of an environment follows the three-way rule at every binding.
  pub merge_environment_records-bindings :
      IsThreeWay
        (get_field k (fields_at "bindings" b.fields))
        (get_field k (fields_at "bindings" l.fields))
        (get_field k (fields_at "bindings" r.fields))
        (get_field k (fields_at "bindings" (merge_environment_records b l r).merged.fields))
        (binding_conflict k (merge_environment_records b l r).conflict)
  unfolding merge_environment_records
  merge_environment_records-bindings =
      map-IsThreeWay _ _ _ "bindings" k _ _
        (get_field-set_option "bindings" "metadata" _ _
          ∙ get_field-set_option "bindings" "bindings" _ _)
        (binding_listed k _ _ _)
