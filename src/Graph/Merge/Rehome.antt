-- ===== src/Graph/Merge/Rehome.antt =====
-- src/graph/merge.js: records taken from one image to another, and the records of a side by identity.
use lagrange_images.Base.{
  String, Bool, true, false, ◌||◌, Option, none, some, List, [], ◌∷◌, if◌then◌else◌, str_eq,
}
use lagrange_images.Base.Dict.{Dict}
use lagrange_images.Base.Json.{
  Json, Items, Fields, null, bool, num, other_num, str, arr, obj, nil, cons, end, field, get_field,
  set_field,
}
use lagrange_images.Base.Result.{Result, ok, err, ◌>>=◌}
use lagrange_images.Graph.Canonical.{
  insert_field, clone_fields, GraphError, Record, normalize_record, is_tombstone,
}
use lagrange_images.Graph.Diff.{index_record}
use lagrange_images.Graph.Merge.Values.{is_object_ref}

abbrev pub text_is : String → Option Json → Bool
text_is t (some (str s)) = str_eq s t
text_is t _ = false

-- `objectRef(targetImageId, value.objectId)`
unfoldable pub rehome_ref : String → String → Fields → Json
rehome_ref from target fs =
    if text_is from (get_field "imageId" fs)
    then obj (
        field "kind" (str "ref") (
          field "imageId" (str target)
            (elim (get_field "objectId" fs) [ some id ↦ field "objectId" id end | none ↦ end ])))
    else obj (clone_fields fs)

module _ (from target : String) where
  unfoldable mutual
    pub rehome_value : Json → Json
    rehome_value (arr xs) = arr (rehome_items xs)
    rehome_value (obj fs) =
        let rest = rehome_fields fs in
        if is_object_ref (obj fs) then rehome_ref from target fs else obj rest
    rehome_value null = null
    rehome_value (bool b) = bool b
    rehome_value (num n) = num n
    rehome_value (other_num t) = other_num t
    rehome_value (str t) = str t

    pub rehome_items : Items → Items
    rehome_items nil = nil
    rehome_items (cons x xs) = cons (rehome_value x) (rehome_items xs)

    pub rehome_fields : Fields → Fields
    rehome_fields end = end
    rehome_fields (field k v fs) = insert_field k (rehome_value v) (rehome_fields fs)

-- `!fromImageId || !targetImageId || fromImageId === targetImageId`
unfoldable pub stays : Option String → Option String → Bool
stays (some a) (some b) = str_eq a "" || (str_eq b "" || str_eq a b)
stays _ _ = true

-- An image's identity in the record is the target's then.
unfoldable pub rehome_image : String → Fields → Fields
rehome_image target fs = elim (get_field "imageId" fs) [
  | some (str t) ↦ clone_fields (set_field "imageId" (str target) fs)
  | _ ↦ fs
]

abbrev pub name_or_empty : Option String → String
name_or_empty none = ""
name_or_empty (some t) = t

-- The fields of a record that is no reference itself.
unfoldable pub rehome_normalized : Option String → Option String → Record → Record
rehome_normalized from target r = if stays from target then r else record r {
  fields =
      rehome_image (name_or_empty target)
        (rehome_fields (name_or_empty from) (name_or_empty target) r.fields);
}

-- `rehomeRecordToImage`
unfoldable pub rehome_record : Json → Option String → Option String → Result GraphError Record
rehome_record raw from target = elim (normalize_record raw) [
  | err e ↦ err e
  | ok r ↦ ok (rehome_normalized from target r)
]

-- `indexRecordsById`
unfoldable pub index_rehomed :
    Dict Record → List Json → Option String → Option String → Result GraphError (Dict Record)
index_rehomed m [] from target = ok m
index_rehomed m (raw ∷ raws) from target =
    elim (if is_tombstone raw then ok m else rehome_record raw from target >>= index_record m) [
      | ok next ↦ index_rehomed next raws from target
      | err e ↦ err e
    ]
