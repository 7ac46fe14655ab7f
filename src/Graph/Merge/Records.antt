-- ===== src/Graph/Merge/Records.antt =====
-- src/graph/merge.js: the outcome of the three-way merge for one identity.
use lagrange_images.Base.{
  String, Bool, true, false, not, ◌&&◌, ◌||◌, Option, none, some, List, [], ◌∷◌, ◌++◌,
  if◌then◌else◌, str_eq,
}
use Prim.Native.String.{◌++◌ as ◌<>◌}
use lagrange_images.Base.Json.{Json, Fields, get_field, property, field_names}
use lagrange_images.Base.TextOrder.{sort_texts, distinct}
use lagrange_images.Base.Result.{Result, ok, err}
use lagrange_images.Graph.Canonical.{
  clone_fields, same_option, GraphError, bad_resolution, Record, same_record,
}
use lagrange_images.Graph.Diff.Replay.{name_of}
use lagrange_images.Graph.Merge.Rehome.{rehome_record}
use lagrange_images.Graph.Merge.Objects.{
  ConflictDetail, RecordConflict, MergedRecord, merge_object_records, merge_environment_records,
  add_add, kind_conflict, deleted_left, deleted_right, record_conflict,
}

pub data Resolution : Type 0 where
  use_left use_right use_base : Resolution
  use_record : Json → Resolution
  other_resolution : Resolution

-- `record ? canonicalClone(record) : null`
unfoldable pub clone_record : Option Record → Option Record
clone_record none = none
clone_record (some r) = some record r { fields = clone_fields r.fields }

-- `applyConflictResolution`
unfoldable pub apply_conflict_resolution :
    RecordConflict → Resolution → Option String → Result GraphError (Option Record)
apply_conflict_resolution c use_left target = ok (clone_record c.left)
apply_conflict_resolution c use_right target = ok (clone_record c.right)
apply_conflict_resolution c use_base target = ok (clone_record c.base)
apply_conflict_resolution c (use_record raw) target =
    elim (rehome_record raw (name_of (property "imageId" raw)) target) [
      | ok r ↦ ok (some r)
      | err e ↦ err e
    ]
apply_conflict_resolution c other_resolution target = err (bad_resolution c.id)

pub data Action : Type 0 where
  added_left added_right added_both : Action
  removed_left removed_right removed_both : Action
  modified_left modified_right modified_both_identical : Action
  merged_object merged_environment : Action
  resolved_conflict : Action

pub record AppliedChange : Type 0 where
  pub kind : String
  pub action : Action
  pub written : Option Record

-- What one round of the loop over the identities pushes.
pub record Round : Type 0 where
  pub merged : Option Record
  pub applied : Option AppliedChange
  pub removed : Bool
  pub conflict : Option RecordConflict
  pub unchanged : Bool

abbrev pub nothing : Round
nothing = record {
  merged = none;
  applied = none;
  removed = false;
  conflict = none;
  unchanged = false;
}

unfoldable pub writes : Action → Record → Round
writes action r = record nothing {
  merged = some r;
  applied = some record { kind = r.kind; action = action; written = some r };
}

unfoldable pub removes : Action → Record → Round
removes action b = record nothing {
  removed = true;
  applied = some record { kind = b.kind; action = action; written = none };
}

-- What a resolution pushes that leaves no record: for an addition on both sides, a deletion, or else.
pub data WhenGone : Type 0 where
  remove_only remove_and_note keep_quiet : WhenGone

unfoldable pub gone : WhenGone → String → Round
gone remove_only kind = record nothing { removed = true }
gone remove_and_note kind = record nothing {
  removed = true;
  applied = some record { kind = kind; action = resolved_conflict; written = none };
}
gone keep_quiet kind = nothing

unfoldable pub resolved : WhenGone → String → Option Record → Round
resolved when kind (some r) = writes resolved_conflict r
resolved when kind none = gone when kind

-- A conflict is resolved as its identity's resolution says, or is listed with a stand-in.
unfoldable pub conflicts_with :
    RecordConflict
    → Option Record
    → WhenGone
    → Option Resolution
    → Option String
    → Result GraphError Round
conflicts_with c stand_in when none target =
    ok record nothing { merged = stand_in; conflict = some c }
conflicts_with c stand_in when (some res) target = elim (apply_conflict_resolution c res target) [
  | ok r ↦ ok (resolved when c.kind r)
  | err e ↦ err e
]

-- Both sides changed the record, and differently.
unfoldable pub merged_or_conflict :
    Action
    → MergedRecord
    → Record
    → Record
    → Record
    → Option Resolution
    → Option String
    → Result GraphError Round
merged_or_conflict action m b l r res target = elim m.conflict [
  | none ↦ ok (writes action m.merged)
  | some detail ↦
      conflicts_with
        record {
          id = b.id;
          kind = b.kind;
          detail = detail;
          base = some b;
          left = some l;
          right = some r;
        }
        (some m.merged) keep_quiet res target
]

unfoldable pub conflicting_fields : List String → Fields → Fields → List String
conflicting_fields [] l r = []
conflicting_fields (k ∷ ks) l r =
    let rest = conflicting_fields ks l r in
    if str_eq k "id" || (str_eq k "imageId" || str_eq k "kind")
    then rest
    else if same_option (get_field k l) (get_field k r)
    then rest
    else k ∷ rest

abbrev pub all_fields : Record → Record → Record → List String
all_fields b l r =
    sort_texts (distinct (field_names b.fields ++ (field_names l.fields ++ field_names r.fields)))

unfoldable pub merge_diverged :
    Record → Record → Record → Option Resolution → Option String → Result GraphError Round
merge_diverged b l r res target =
    if not (str_eq l.kind r.kind) || not (str_eq l.kind b.kind)
    then conflicts_with
        record {
          id = b.id;
          kind = l.kind <> "|" <> r.kind;
          detail = kind_conflict;
          base = some b;
          left = some l;
          right = some r;
        }
        (some b) keep_quiet res target
    else if str_eq b.kind "object"
    then merged_or_conflict merged_object (merge_object_records b l r) b l r res target
    else if str_eq b.kind "lexical-environment"
    then merged_or_conflict merged_environment (merge_environment_records b l r) b l r res target
    else conflicts_with
        record {
          id = b.id;
          kind = b.kind;
          detail = record_conflict (conflicting_fields (all_fields b l r) l.fields r.fields);
          base = some b;
          left = some l;
          right = some r;
        }
        (some b) keep_quiet res target

unfoldable pub merge_present :
    Record → Record → Record → Option Resolution → Option String → Result GraphError Round
merge_present b l r res target =
    if same_record l b && same_record r b
    then ok record nothing { merged = some b; unchanged = true }
    else if same_record l b
    then ok (writes modified_right r)
    else if same_record r b
    then ok (writes modified_left l)
    else if same_record l r
    then ok (writes modified_both_identical l)
    else merge_diverged b l r res target

-- One side added, or both did.
unfoldable pub merge_added :
    Record → Record → Option Resolution → Option String → Result GraphError Round
merge_added l r res target =
    if same_record l r
    then ok (writes added_both l)
    else conflicts_with
        record {
          id = l.id;
          kind = if str_eq l.kind r.kind then l.kind else l.kind <> "|" <> r.kind;
          detail = add_add;
          base = none;
          left = some l;
          right = some r;
        }
        none remove_only res target

unfoldable pub merge_deleted :
    Action
    → ConflictDetail
    → Record
    → Record
    → Option Record
    → Option Record
    → Option Resolution
    → Option String
    → Result GraphError Round
merge_deleted action detail b kept l r res target =
    if same_record kept b
    then ok (removes action b)
    else conflicts_with
        record { id = b.id; kind = b.kind; detail = detail; base = some b; left = l; right = r }
        (some b) remove_and_note res target

-- The loop's round for an identity.
unfoldable pub merge_one :
    Option Record
    → Option Record
    → Option Record
    → Option Resolution
    → Option String
    → Result GraphError Round
merge_one none none none res target = ok nothing
merge_one none (some l) none res target = ok (writes added_left l)
merge_one none none (some r) res target = ok (writes added_right r)
merge_one none (some l) (some r) res target = merge_added l r res target
merge_one (some b) none none res target = ok (removes removed_both b)
merge_one (some b) none (some r) res target =
    merge_deleted removed_left deleted_left b r none (some r) res target
merge_one (some b) (some l) none res target =
    merge_deleted removed_right deleted_right b l (some l) none res target
merge_one (some b) (some l) (some r) res target = merge_present b l r res target
