-- ===== src/Graph/Diff.antt =====
-- src/graph/diff.js: the records of an image at a revision, and the difference of two sets of records.
pub mod Slots
pub mod Records
pub mod Replay
use lagrange_images.Base.{
  ℕ, String, ◌+◌, Bool, true, false, not, ◌&&◌, Option, none, some, List, [], ◌∷◌, ◌++◌, map,
  if◌then◌else◌, str_eq, is_some, ltb, or_else, length, leb, ◌==◌,
}
use lagrange_images.Base.Dict.{Dict, get, put, remove, has}
use lagrange_images.Base.Json.{
  Json, Fields, obj, end, field, get_field, property, field_names, drop_field,
}
use lagrange_images.Base.TextOrder.{member, sort_texts, distinct}
use lagrange_images.Base.Result.{Result, ok, err, ◌>>=◌, ◌>>◌, ensure}
use lagrange_images.Graph.Canonical.{
  canonical_clone, same, same_option, GraphError, duplicate_id, bad_frontier, beyond_frontier,
  Record, normalize_record, is_tombstone, json_of,
}

-- `record.slots` and the like where it is an object; another value counts as no fields.
unfoldable pub fields_at : String → Fields → Fields
fields_at k fs = elim (get_field k fs) [ some (obj inner) ↦ inner | _ ↦ end ]

pub record SlotChanges : Type 0 where
  pub added : Dict Json
  pub removed : Dict Json
  pub modified : Dict (Json × Json)

-- The slots of these names that stand in the second fields and not in the first.
unfoldable pub only_in : List String → Fields → Fields → Dict Json
only_in [] without within = []
only_in (k ∷ ks) without within =
    let rest = only_in ks without within in
    elim (get_field k without) [
      | some _ ↦ rest
      | none ↦ elim (get_field k within) [ some v ↦ (k, canonical_clone v) ∷ rest | none ↦ rest ]
    ]

unfoldable pub differing : List String → Fields → Fields → Dict (Json × Json)
differing [] before after = []
differing (k ∷ ks) before after =
    let rest = differing ks before after in
    elim (get_field k before) [
      | none ↦ rest
      | some b ↦ elim (get_field k after) [
        | none ↦ rest
        | some a ↦ if same b a then rest else (k, (canonical_clone b, canonical_clone a)) ∷ rest
      ]
    ]

unfoldable pub compute_slot_changes : Fields → Fields → SlotChanges
compute_slot_changes before after =
    let before_keys = sort_texts (field_names before) in
    let after_keys = sort_texts (field_names after) in
    record {
      added = only_in after_keys before after;
      removed = only_in before_keys after before;
      modified = differing before_keys before after;
    }

-- The records by identity; tombstones are left out, and a second record of an identity is an error.
unfoldable pub index_record : Dict Record → Record → Result GraphError (Dict Record)
index_record m r = if has r.id m then err (duplicate_id r.id) else ok (put r.id r m)

unfoldable pub index_one : Dict Record → Json → Result GraphError (Dict Record)
index_one m raw = if is_tombstone raw then ok m else normalize_record raw >>= index_record m

unfoldable pub index_from : Dict Record → List Json → Result GraphError (Dict Record)
index_from m [] = ok m
index_from m (raw ∷ raws) = elim (index_one m raw) [
  | ok next ↦ index_from next raws
  | err e ↦ err e
]

-- Records of two images are compared without the image's identity.
unfoldable pub comparable : Bool → Record → Fields
comparable across r = if across then drop_field "imageId" r.fields else r.fields

unfoldable pub changed_fields : List String → Fields → Fields → List String
changed_fields [] before after = []
changed_fields (k ∷ ks) before after =
    let rest = changed_fields ks before after in
    if str_eq k "id"
    then rest
    else if str_eq k "imageId"
    then rest
    else if same_option (get_field k before) (get_field k after)
    then rest
    else k ∷ rest

pub record Modified : Type 0 where
  pub before : Record
  pub after : Record
  pub changed : List String
  pub slot_changes : Option SlotChanges

unfoldable pub modification : Bool → Record → Record → Modified
modification across before after =
    let b = comparable across before in
    let a = comparable across after in
    record {
      before = before;
      after = after;
      changed = changed_fields (sort_texts (distinct (field_names b ++ field_names a))) b a;
      slot_changes =
          if str_eq before.kind "object" && str_eq after.kind "object"
          then some (
              compute_slot_changes (fields_at "slots" before.fields)
                (fields_at "slots" after.fields))
          else none;
    }

pub record RecordChanges : Type 0 where
  pub added : Dict Record
  pub removed : Dict Record
  pub modified : Dict Modified
  pub unchanged_count : ℕ

-- One round of the loop over the identities, before the later rounds.
unfoldable pub diff_one :
    Bool → String → Option Record → Option Record → RecordChanges → RecordChanges
diff_one across id none none rest = rest
diff_one across id none (some after) rest = record rest { added = (id, after) ∷ rest.added }
diff_one across id (some before) none rest = record rest { removed = (id, before) ∷ rest.removed }
diff_one across id (some before) (some after) rest =
    if same (obj (comparable across before)) (obj (comparable across after))
    then record rest { unchanged_count = rest.unchanged_count + 1 }
    else record rest { modified = (id, modification across before after) ∷ rest.modified }

unfoldable pub diff_ids : Bool → List String → Dict Record → Dict Record → RecordChanges
diff_ids across [] from to = record { added = []; removed = []; modified = []; unchanged_count = 0 }
diff_ids across (id ∷ ids) from to =
    diff_one across id (get id from) (get id to) (diff_ids across ids from to)

unfoldable pub keys : Dict Record → List String
keys [] = []
keys ((k, r) ∷ m) = k ∷ keys m

unfoldable pub diff_maps : Bool → Dict Record → Dict Record → RecordChanges
diff_maps across from to = diff_ids across (sort_texts (distinct (keys from ++ keys to))) from to

-- `fromImageId && toImageId && fromImageId !== toImageId`
unfoldable pub across_images : Option String → Option String → Bool
across_images (some a) (some b) = not (str_eq a "") && (not (str_eq b "") && not (str_eq a b))
across_images _ _ = false

unfoldable pub diff_image_records :
    List Json → List Json → Option String → Option String → Result GraphError RecordChanges
diff_image_records from_records to_records from_image to_image = do
  from ← index_from [] from_records
  to ← index_from [] to_records
  ok (diff_maps (across_images from_image to_image) from to)

unfoldable pub identical : RecordChanges → Bool
identical d = length d.added == 0 && (length d.removed == 0 && length d.modified == 0)
