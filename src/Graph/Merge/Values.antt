-- ===== src/Graph/Merge/Values.antt =====
-- src/graph/merge.js: the three-way rule for a field, and for what fields hold.
pub mod Laws
use lagrange_images.Base.{
  ℕ, String, suc, ◌+◌, Bool, true, false, not, ◌&&◌, ◌||◌, Option, none, some, List, [], ◌∷◌, ◌++◌,
  if◌then◌else◌, str_eq, or_else, length, ◌==◌, is_some,
}
use lagrange_images.Base.Dict.{Dict, get, put}
use lagrange_images.Base.Json.{
  Json, Items, Fields, arr, obj, str, nil, cons, end, field, get_field, property, field_names,
  truthy,
}
use lagrange_images.Base.TextOrder.{sort_texts, distinct}
use lagrange_images.Graph.Canonical.{canonical_clone, same_option, clone_option}

pub data Choice : Type 0 where
  took : Option Json → Choice
  clash : Choice

-- A side that is as the base gives way to the other; two sides that agree are taken. Values have no
-- `undefined`, so that a missing key is a missing value.
unfoldable pub choose : Option Json → Option Json → Option Json → Choice
choose b l r =
    if same_option l b
    then took r
    else if same_option r b
    then took l
    else if same_option l r
    then took l
    else clash

pub record Conflict : Type 0 where
  pub base : Option Json
  pub left : Option Json
  pub right : Option Json

pub record Merged : Type 0 where
  pub merged : Option Json
  pub conflict : Option Conflict

unfoldable pub clones : Option Json → Option Json → Option Json → Conflict
clones b l r = record { base = clone_option b; left = clone_option l; right = clone_option r }

unfoldable pub settle : Choice → Option Json → Option Json → Option Json → Merged
settle (took v) b l r = record { merged = clone_option v; conflict = none }
settle clash b l r = record { merged = clone_option b; conflict = some (clones b l r) }

-- `mergeScalarFieldThreeWay`, and the round of `mergeKeyValueMapThreeWay` for a key.
unfoldable pub merge_scalar : Option Json → Option Json → Option Json → Merged
merge_scalar b l r = settle (choose b l r) b l r

pub record MergedMap : Type 0 where
  pub merged : Fields
  pub conflicts : Dict Conflict

unfoldable pub add_value : String → Option Json → Fields → Fields
add_value k none fs = fs
add_value k (some v) fs = field k v fs

unfoldable pub add_conflict {ℓ} : {A : Type ℓ} → String → Option A → Dict A → Dict A
add_conflict k none cs = cs
add_conflict k (some c) cs = (k, c) ∷ cs

unfoldable pub merge_keys : List String → Fields → Fields → Fields → MergedMap
merge_keys [] b l r = record { merged = end; conflicts = [] }
merge_keys (k ∷ ks) b l r =
    let rest = merge_keys ks b l r in
    let m = merge_scalar (get_field k b) (get_field k l) (get_field k r) in
    record {
      merged = add_value k m.merged rest.merged;
      conflicts = add_conflict k m.conflict rest.conflicts;
    }

unfoldable pub merge_key_values : Fields → Fields → Fields → MergedMap
merge_key_values b l r =
    merge_keys (sort_texts (distinct (field_names b ++ (field_names l ++ field_names r)))) b l r

-- `isObjectRef`: a value of kind ref with two names and nothing else.
abbrev pub is_name : Option Json → Bool
is_name (some (str t)) = not (str_eq t "")
is_name _ = false

unfoldable pub is_object_ref : Json → Bool
is_object_ref (obj fs) =
    length (field_names fs) == 3
    && (elim (get_field "kind" fs) [ some (str t) ↦ str_eq t "ref" | _ ↦ false ]
        && (is_name (get_field "imageId" fs) && is_name (get_field "objectId" fs)))
is_object_ref _ = false

unfoldable pub all_refs : Items → Bool
all_refs nil = true
all_refs (cons x xs) = is_object_ref x && all_refs xs

unfoldable pub object_id_of : Json → String
object_id_of x = elim (property "objectId" x) [ some (str t) ↦ t | _ ↦ "" ]

-- `new Map(arr.map((ref) => [ref.objectId, ref]))`
unfoldable pub refs_by_id : Dict Json → Items → Dict Json
refs_by_id m nil = m
refs_by_id m (cons x xs) = refs_by_id (put (object_id_of x) x m) xs

unfoldable pub ids_of : Dict Json → List String
ids_of [] = []
ids_of ((k, v) ∷ m) = k ∷ ids_of m

-- A reference stays if both sides kept it, and comes if a side added it.
unfoldable pub merge_ref : Option Json → Option Json → Option Json → Option Json
merge_ref none none r = r
merge_ref none (some l) r = some l
merge_ref (some b) (some l) (some r) = some l
merge_ref (some b) none r = none
merge_ref (some b) (some l) none = none

unfoldable pub add_item : Option Json → Items → Items
add_item none xs = xs
add_item (some x) xs = cons (canonical_clone x) xs

unfoldable pub merge_refs : List String → Dict Json → Dict Json → Dict Json → Items
merge_refs [] b l r = nil
merge_refs (id ∷ ids) b l r =
    add_item (merge_ref (get id b) (get id l) (get id r)) (merge_refs ids b l r)

unfoldable pub merge_ref_set : Items → Items → Items → Items
merge_ref_set b l r =
    let bs = refs_by_id [] b in
    let ls = refs_by_id [] l in
    let rs = refs_by_id [] r in
    merge_refs (sort_texts (distinct (ids_of bs ++ (ids_of ls ++ ids_of rs)))) bs ls rs

unfoldable pub count_items : Items → ℕ
count_items nil = 0
count_items (cons x xs) = suc (count_items xs)

pub record MergedItems : Type 0 where
  pub merged : Items
  pub conflicts : List (ℕ × Conflict)

unfoldable pub merge_elements : ℕ → Items → Items → Items → MergedItems
merge_elements i (cons b bs) (cons l ls) (cons r rs) =
    let rest = merge_elements (suc i) bs ls rs in
    let m = merge_scalar (some b) (some l) (some r) in
    record {
      merged = cons (or_else m.merged b) rest.merged;
      conflicts = elim m.conflict [ none ↦ rest.conflicts | some c ↦ (i, c) ∷ rest.conflicts ];
    }
merge_elements i _ _ _ = record { merged = nil; conflicts = [] }

pub record IndexedConflict : Type 0 where
  pub whole : Conflict
  pub elements : List (ℕ × Conflict)

pub record MergedIndexed : Type 0 where
  pub merged : Option Json
  pub conflict : Option IndexedConflict

-- `value ? canonicalClone(value) : undefined`
unfoldable pub clone_truthy : Option Json → Option Json
clone_truthy none = none
clone_truthy (some v) = if truthy v then some (canonical_clone v) else none

unfoldable pub indexed_clash : Option Json → Option Json → Option Json → MergedIndexed
indexed_clash b l r = record {
  merged = clone_truthy b;
  conflict = some record {
    whole = record { base = clone_truthy b; left = clone_truthy l; right = clone_truthy r };
    elements = [];
  };
}

-- Three arrays that differ.
unfoldable pub merge_arrays : Bool → Items → Items → Items → MergedIndexed
merge_arrays as_ref_set b l r =
    if as_ref_set && (all_refs b && (all_refs l && all_refs r))
    then record { merged = some (arr (merge_ref_set b l r)); conflict = none }
    else if count_items b == count_items l && count_items b == count_items r
    then (let m = merge_elements 0 b l r in
        record {
          merged = some (arr m.merged);
          conflict = elim m.conflicts [
            | [] ↦ none
            | c ∷ cs ↦ some record {
              whole = clones (some (arr b)) (some (arr l)) (some (arr r));
              elements = c ∷ cs;
            }
          ];
        })
    else indexed_clash (some (arr b)) (some (arr l)) (some (arr r))

unfoldable pub merge_differing : Bool → Option Json → Option Json → Option Json → MergedIndexed
merge_differing as_ref_set (some (arr b)) (some (arr l)) (some (arr r)) =
    merge_arrays as_ref_set b l r
merge_differing as_ref_set b l r = indexed_clash b l r

-- `mergeIndexedArrayThreeWay`
unfoldable pub merge_indexed : Bool → Option Json → Option Json → Option Json → MergedIndexed
merge_indexed as_ref_set b l r = elim (choose b l r) [
  | took v ↦ record { merged = clone_truthy v; conflict = none }
  | clash ↦ merge_differing as_ref_set b l r
]
