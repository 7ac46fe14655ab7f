-- ===== src/Graph/Merge/Apply.antt =====
-- src/graph/merge.js: the writes that carry a merge plan out.
pub mod Order
pub mod Idle
use lagrange_images.Base.{
  ℕ, String, ◌+◌, Bool, true, false, not, ◌&&◌, ◌||◌, Option, none, some, is_some, List, [], ◌∷◌,
  ◌++◌, if◌then◌else◌, str_eq, ltb, length,
}
use lagrange_images.Base.Dict.{Dict}
use lagrange_images.Base.Json.{
  Json, Fields, obj, arr, nil, null, end, field, get_field, property, or_null,
}
use lagrange_images.Base.TextOrder.{text_leb}
use lagrange_images.Base.Result.{Result, ok, err, ◌>>=◌, ◌>>◌, ensure}
use lagrange_images.Graph.Canonical.{
  GraphError, bad_id, unresolved_conflicts, unsupported_kind, Record, same_record, json_of,
  normalize_record,
}
use lagrange_images.Graph.Diff.Replay.{name_of}
use lagrange_images.Graph.References.{is_inherited_name}
use lagrange_images.Graph.Merge.Rehome.{rehome_record}
use lagrange_images.Graph.Merge.Records.{AppliedChange}
use lagrange_images.Graph.Merge.Plan.{MergePlan, is_clean}

-- `KIND_APPLY_ORDER[kind] ?? 99`. It is no number where the literal inherits a member of the name.
unfoldable pub apply_order : String → Option ℕ
apply_order kind =
    if str_eq kind "shape"
    then some 1
    else if str_eq kind "code-artifact"
    then some 2
    else if str_eq kind "lexical-environment"
    then some 3
    else if str_eq kind "block"
    then some 4
    else if str_eq kind "object"
    then some 5
    else if is_inherited_name kind
    then none
    else some 99

-- The comparison of the sort, `<= 0`; a sort takes NaN for 0.
unfoldable pub goes_first : Record → Record → Bool
goes_first a b = elim (apply_order a.kind) [
  | none ↦ true
  | some m ↦ elim (apply_order b.kind) [
    | none ↦ true
    | some n ↦ if ltb m n then true else if ltb n m then false else text_leb a.id b.id
  ]
]

unfoldable pub insert_record : Record → List Record → List Record
insert_record r [] = r ∷ []
insert_record r (x ∷ xs) =
    let rest = insert_record r xs in if goes_first r x then r ∷ x ∷ xs else x ∷ rest

unfoldable pub sort_records : List Record → List Record
sort_records [] = []
sort_records (r ∷ rs) = insert_record r (sort_records rs)

unfoldable pub has_inherited_kind : List Record → Bool
has_inherited_kind [] = false
has_inherited_kind (r ∷ rs) = not (is_some (apply_order r.kind)) || has_inherited_kind rs

-- The sort of the writes. Where a comparison gives NaN the order is the host's own.
unfoldable pub ordered_writes : (List Record → List Record) → List Record → List Record
ordered_writes host_sort rs = if has_inherited_kind rs then host_sort rs else sort_records rs

unfoldable pub written_records : Dict AppliedChange → List Record
written_records [] = []
written_records ((id, c) ∷ cs) =
    let rest = written_records cs in elim c.written [ none ↦ rest | some r ↦ r ∷ rest ]

-- `record.field ?? default`, where null counts as missing.
unfoldable pub or_default : Json → Option Json → Json
or_default d none = d
or_default d (some null) = d
or_default d (some v) = v

-- A field that is passed on with a default, as it is, or only if it is there.
abbrev pub with_default : String → Json → Fields → Fields → Fields
with_default k d from rest = field k (or_default d (get_field k from)) rest

abbrev pub with_field : String → Fields → Fields → Fields
with_field k from rest = elim (get_field k from) [ none ↦ rest | some v ↦ field k v rest ]

-- What the put of each kind is given; any other kind is an error.
unfoldable pub put_fields : Record → Option Fields
put_fields r =
    let fs = r.fields in
    let id = λ (rest : Fields). with_field "id" fs rest in
    let metadata = with_default "metadata" (obj end) fs end in
    if str_eq r.kind "shape"
    then some (id (with_field "slots" fs (with_field "indexed" fs metadata)))
    else if str_eq r.kind "code-artifact"
    then some (
        id (
          with_default "languageId" null fs (
            with_field "representation" fs (
              with_field "content" fs (
                with_default "logicalPath" null fs (
                  with_default "dependencies" (arr nil) fs
                    (with_default "derivedFrom" (arr nil) fs metadata)))))))
    else if str_eq r.kind "lexical-environment"
    then some (id (with_default "parent" null fs (with_default "bindings" (obj end) fs metadata)))
    else if str_eq r.kind "block"
    then some (id (with_field "code" fs (with_default "environment" null fs metadata)))
    else if str_eq r.kind "object"
    then some (
        id (
          with_field "shape" fs (
            with_default "behavior" null fs
              (with_default "slots" (obj end) fs (with_field "indexed" fs metadata)))))
    else none

-- The image service: getShape and its like by kind, image and identity, and putShape and its like.
pub record ImageService (S : Type 0) : Type 0 where
  pub find : S → String → String → String → Option Json
  pub store : S → String → String → Fields → Result GraphError (Json × S)

module _ {S : Type 0} (images : ImageService S) (host_sort : List Record → List Record)
    (target : String) where
  -- The stored record is what is to be written.
  unfoldable pub is_stored : Option Json → Record → Result GraphError Bool
  is_stored none r = ok false
  is_stored (some raw) r = elim (normalize_record raw) [
    | ok found ↦ ok (same_record found r)
    | err e ↦ err e
  ]

  unfoldable pub write_record : S → Record → Fields → Result GraphError (Json × S)
  write_record s r fs =
      let existing = images.find s r.kind target r.id in
      elim (is_stored existing r) [
        | err e ↦ err e
        | ok true ↦ ok (elim existing [ none ↦ null | some raw ↦ raw ], s)
        | ok false ↦ images.store s r.kind target fs
      ]

  -- `applySingleMergedRecord`
  unfoldable pub apply_single_merged_record : S → Record → Result GraphError (Json × S)
  apply_single_merged_record s change =
      elim (rehome_record (json_of change) (name_of (get_field "imageId" change.fields))
        (some target)) [
          | err e ↦ err e
          | ok r ↦ elim (put_fields r) [
            | none ↦ err unsupported_kind
            | some fs ↦ write_record s r fs
          ]
        ]

  unfoldable pub apply_records : S → List Record → Result GraphError (List Json × S)
  apply_records s [] = ok ([], s)
  apply_records s (r ∷ rs) = elim (apply_single_merged_record s r) [
    | err e ↦ err e
    | ok (saved, next) ↦ elim (apply_records next rs) [
      | err e ↦ err e
      | ok (rest, last) ↦ ok (saved ∷ rest, last)
    ]
  ]

  -- `applyImageMerge`: the saved records, in the order of the writes.
  unfoldable pub apply_image_merge : S → MergePlan → Bool → Result GraphError (List Json × S)
  apply_image_merge s plan allow_conflicts = do
    ensure (not (str_eq target "")) bad_id
    ensure (is_clean plan || allow_conflicts) unresolved_conflicts
    apply_records s (ordered_writes host_sort (written_records plan.applied_changes))
