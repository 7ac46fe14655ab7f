-- ===== src/Graph/Canonical.antt =====
-- src/graph/diff.js and src/graph/merge.js: the canonical form in which records are compared, and the
-- records as they are compared.
pub mod Laws
use lagrange_images.Base.{
  String, Bool, true, false, not, ◌&&◌, ◌||◌, Option, none, some, if◌then◌else◌, str_eq,
}
use lagrange_images.Base.Json.{
  Json, Items, Fields, null, bool, num, other_num, str, arr, obj, nil, cons, end, field, json_eq,
  get_field, property,
}
use lagrange_images.Base.TextOrder.{text_leb}
use lagrange_images.Base.Result.{Result, ok, err, ◌>>=◌}

-- Keys are sorted: one more goes before the first that is not below it.
unfoldable pub insert_field : String → Json → Fields → Fields
insert_field k v end = field k v end
insert_field k v (field j w fs) =
    let rest = insert_field k v fs in
    if text_leb k j then field k v (field j w fs) else field j w rest

-- Values here hold no `undefined`, which the code leaves out.
unfoldable mutual
  pub canonical_clone : Json → Json
  canonical_clone (arr xs) = arr (clone_items xs)
  canonical_clone (obj fs) = obj (clone_fields fs)
  canonical_clone null = null
  canonical_clone (bool b) = bool b
  canonical_clone (num n) = num n
  canonical_clone (other_num t) = other_num t
  canonical_clone (str t) = str t

  pub clone_items : Items → Items
  clone_items nil = nil
  clone_items (cons x xs) = cons (canonical_clone x) (clone_items xs)

  pub clone_fields : Fields → Fields
  clone_fields end = end
  clone_fields (field k v fs) = insert_field k (canonical_clone v) (clone_fields fs)

-- `canonicalJson(a) === canonicalJson(b)`: the JSON texts of two canonical values are the same where
-- the values are.
unfoldable pub same : Json → Json → Bool
same a b = json_eq (canonical_clone a) (canonical_clone b)

-- The same of values that may be `undefined`.
unfoldable pub same_option : Option Json → Option Json → Bool
same_option none none = true
same_option (some a) (some b) = same a b
same_option none (some b) = false
same_option (some a) none = false

unfoldable pub clone_option : Option Json → Option Json
clone_option none = none
clone_option (some a) = some (canonical_clone a)

pub data GraphError : Type 0 where
  not_record bad_id bad_kind bad_frontier beyond_frontier : GraphError
  duplicate_id : String → GraphError
  bad_resolution : String → GraphError
  unresolved_conflicts unsupported_kind : GraphError

-- `typeof value !== 'string' || value.length === 0`
unfoldable pub required_string : GraphError → Option Json → Result GraphError String
required_string e (some (str t)) = if str_eq t "" then err e else ok t
required_string e _ = err e

abbrev pub is_transient : String → Bool
is_transient k = str_eq k "_version" || (str_eq k "createdAt" || str_eq k "updatedAt")

unfoldable pub strip_transient : Fields → Fields
strip_transient end = end
strip_transient (field k v fs) =
    let rest = strip_transient fs in if is_transient k then rest else field k v rest

-- A record as it is compared. Its identity and kind are fields of it too.
pub record Record : Type 0 where
  pub id : String
  pub kind : String
  pub fields : Fields

abbrev pub json_of : Record → Json
json_of r = obj r.fields

unfoldable pub normalize_fields : Fields → Result GraphError Record
normalize_fields fs = do
  id ← required_string bad_id (get_field "id" fs)
  kind ← required_string bad_kind (get_field "kind" fs)
  ok record { id = id; kind = kind; fields = clone_fields (strip_transient fs) }

-- `normalizeRecordForDiff`
unfoldable pub normalize_record : Json → Result GraphError Record
normalize_record (obj fs) = normalize_fields fs
normalize_record _ = err not_record

-- `canonicalJson` of two records, which may be missing.
unfoldable pub same_record : Record → Record → Bool
same_record a b = same (json_of a) (json_of b)

-- `raw?.kind === RELOCATED_RECORD_KIND || raw?.kind === SWEPT_RECORD_KIND`
unfoldable pub is_tombstone : Json → Bool
is_tombstone raw = elim (property "kind" raw) [
  | some (str k) ↦ str_eq k "relocated" || str_eq k "swept"
  | _ ↦ false
]
