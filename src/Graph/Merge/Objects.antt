-- ===== src/Graph/Merge/Objects.antt =====
-- src/graph/merge.js: the field-by-field merge of two changed objects, or of two changed environments.
pub mod Laws
use lagrange_images.Base.{
  String, Bool, true, false, not, ◌&&◌, Option, none, some, List, [], ◌∷◌, if◌then◌else◌, str_eq,
  is_some,
}
use Prim.Native.String.{◌++◌ as ◌<>◌}
use lagrange_images.Base.Dict.{Dict}
use lagrange_images.Base.Json.{Json, Fields, obj, get_field, set_option, or_null}
use lagrange_images.Graph.Canonical.{clone_fields, Record}
use lagrange_images.Graph.Diff.{fields_at}
use lagrange_images.Graph.Merge.Values.{
  Conflict, merge_scalar, merge_key_values, IndexedConflict, merge_indexed, is_object_ref,
  object_id_of,
}

-- What a conflict of two records says beside the records.
pub data ConflictDetail : Type 0 where
  add_add kind_conflict : ConflictDetail
  deleted_left deleted_right : ConflictDetail
  object_conflict :
      Option Conflict
      → Option Conflict
      → Dict Conflict
      → Option IndexedConflict
      → Dict Conflict
      → ConflictDetail
  environment_conflict : Option Conflict → Dict Conflict → Dict Conflict → ConflictDetail
  record_conflict : List String → ConflictDetail

pub record RecordConflict : Type 0 where
  pub id : String
  pub kind : String
  pub detail : ConflictDetail
  pub base : Option Record
  pub left : Option Record
  pub right : Option Record

pub record MergedRecord : Type 0 where
  pub merged : Record
  pub conflict : Option ConflictDetail

abbrev pub is_none {ℓ} : {A : Type ℓ} → Option A → Bool
is_none o = not (is_some o)

abbrev pub is_empty {ℓ} : {A : Type ℓ} → List A → Bool
is_empty [] = true
is_empty (x ∷ xs) = false

-- `record.behavior ?? null`
abbrev pub or_null_at : String → Record → Option Json
or_null_at k r = some (or_null (get_field k r.fields))

-- The links of a project are a set of references.
unfoldable pub is_linkage_set : Option Json → Bool
is_linkage_set none = false
is_linkage_set (some shape) =
    is_object_ref shape && str_eq (object_id_of shape) "lagrange-project/project/v1"

-- An indexed part that the merge leaves out stays as the base's.
abbrev pub keep_indexed : Option Json → Fields → Fields
keep_indexed none fs = fs
keep_indexed (some v) fs = set_option "indexed" (some v) fs

unfoldable pub merge_object_records : Record → Record → Record → MergedRecord
merge_object_records b l r =
    let at = λ (k : String).
      merge_scalar (get_field k b.fields) (get_field k l.fields) (get_field k r.fields) in
    let maps = λ (k : String).
      merge_key_values (fields_at k b.fields) (fields_at k l.fields) (fields_at k r.fields) in
    let shape = at "shape" in
    let behavior =
      merge_scalar (or_null_at "behavior" b) (or_null_at "behavior" l) (or_null_at "behavior" r) in
    let slots = maps "slots" in
    let indexed =
      merge_indexed (is_linkage_set (get_field "shape" b.fields)) (get_field "indexed" b.fields)
        (get_field "indexed" l.fields) (get_field "indexed" r.fields) in
    let metadata = maps "metadata" in
    record {
      merged = record b {
        fields = clone_fields (
            set_option "metadata" (some (obj metadata.merged)) (
              keep_indexed indexed.merged (
                set_option "slots" (some (obj slots.merged)) (
                  set_option "behavior" behavior.merged
                    (set_option "shape" shape.merged b.fields)))));
      };
      conflict =
          if is_none shape.conflict
            && (is_none behavior.conflict
                && (is_empty slots.conflicts
                    && (is_none indexed.conflict && is_empty metadata.conflicts)))
          then none
          else some (
              object_conflict shape.conflict behavior.conflict slots.conflicts indexed.conflict
                metadata.conflicts);
    }

unfoldable pub merge_environment_records : Record → Record → Record → MergedRecord
merge_environment_records b l r =
    let maps = λ (k : String).
      merge_key_values (fields_at k b.fields) (fields_at k l.fields) (fields_at k r.fields) in
    let parent =
      merge_scalar (or_null_at "parent" b) (or_null_at "parent" l) (or_null_at "parent" r) in
    let bindings = maps "bindings" in
    let metadata = maps "metadata" in
    record {
      merged = record b {
        fields = clone_fields (
            set_option "metadata" (some (obj metadata.merged)) (
              set_option "bindings" (some (obj bindings.merged))
                (set_option "parent" parent.merged b.fields)));
      };
      conflict =
          if is_none parent.conflict && (is_empty bindings.conflicts && is_empty metadata.conflicts)
          then none
          else some (environment_conflict parent.conflict bindings.conflicts metadata.conflicts);
    }
