-- ===== src/Graph/References.antt =====
-- src/graph/reachability.js: references as dedupeSortedObjectRefs gives them, and the object literals that
-- the index keeps its lists in. Such a literal inherits members, so a name that it lacks may have a value
-- there, which is no list.
pub mod Kept
use lagrange_images.Base.{
  ℕ, String, Bool, true, false, not, ◌&&◌, none, some, List, [], ◌∷◌, ◌++◌, if◌then◌else◌, str_eq,
  ◌==◌, codes,
}
use lagrange_images.Base.Dict.{Dict, get}
use lagrange_images.Base.TextOrder.{member, text_leb}

-- A reference, whose kind is `ref` or, for a pinned one, another.
pub record Ref : Type 0 where
  pub kind : String
  pub image_id : String
  pub object_id : String

-- `isObjectRef`, of references.
unfoldable pub is_unpinned_ref : Ref → Bool
is_unpinned_ref ref = str_eq ref.kind "ref"

-- `${ref.imageId}\0${ref.objectId}`
unfoldable pub ref_key : Ref → List ℕ
ref_key ref = codes ref.image_id ++ (0 ∷ codes ref.object_id)

unfoldable pub same_key : List ℕ → List ℕ → Bool
same_key [] [] = true
same_key (a ∷ rest) (b ∷ bs) = a == b && same_key rest bs
same_key _ _ = false

unfoldable pub has_key : List ℕ → List (List ℕ) → Bool
has_key key [] = false
has_key key (k ∷ ks) = if same_key k key then true else has_key key ks

-- The first reference for each key, pinned ones left out.
unfoldable pub first_refs : List (List ℕ) → List Ref → List Ref
first_refs keys [] = []
first_refs keys (ref ∷ refs) = elim (is_unpinned_ref ref && not (has_key (ref_key ref) keys)) [
  | true ↦ ref ∷ first_refs (ref_key ref ∷ keys) refs
  | false ↦ first_refs keys refs
]

-- `compareObjectRef(a, b) <= 0`
unfoldable pub ref_leb : Ref → Ref → Bool
ref_leb a b =
    if str_eq a.image_id b.image_id
    then text_leb a.object_id b.object_id
    else text_leb a.image_id b.image_id

unfoldable pub insert_ref : Ref → List Ref → List Ref
insert_ref ref [] = ref ∷ []
insert_ref ref (r ∷ rs) =
    let rest = insert_ref ref rs in if ref_leb ref r then ref ∷ r ∷ rs else r ∷ rest

unfoldable pub sort_refs : List Ref → List Ref
sort_refs [] = []
sort_refs (r ∷ rs) = insert_ref r (sort_refs rs)

-- `dedupeSortedObjectRefs`
unfoldable pub dedupe_sorted_object_refs : List Ref → List Ref
dedupe_sorted_object_refs refs = sort_refs (first_refs [] refs)

-- The objects that the references of `derivedFrom` name, pinned ones left out.
unfoldable pub source_ids : List Ref → List String
source_ids [] = []
source_ids (ref ∷ refs) =
    let rest = source_ids refs in if is_unpinned_ref ref then ref.object_id ∷ rest else rest

-- What every object literal inherits. None of it can be iterated.
abbrev inherited_names : List String
inherited_names =
    "constructor" ∷ "hasOwnProperty" ∷ "isPrototypeOf" ∷ "propertyIsEnumerable" ∷ "toLocaleString"
    ∷ "toString" ∷ "valueOf" ∷ "__defineGetter__" ∷ "__defineSetter__" ∷ "__lookupGetter__"
    ∷ "__lookupSetter__" ∷ "__proto__" ∷ []

unfoldable pub is_inherited_name : String → Bool
is_inherited_name name = member name inherited_names

-- What a read of a literal gives: a list of its own, nothing, or what it inherits under the name.
pub data Member : Type 0 where
  own_list : List String → Member
  missing : Member
  inherited : String → Member

unfoldable pub literal_at : String → Dict (List String) → Member
literal_at k d = elim (get k d) [
  | some ids ↦ own_list ids
  | none ↦ if is_inherited_name k then inherited k else missing
]
