-- ===== src/Callable/Fingerprint.antt =====
-- src/callable/type-grammar.js: the fingerprint of a type. What the host gives is a parameter: SHA-256,
-- which gives 32 bytes, and `JSON.stringify` of a text.
pub mod Inherited
use lagrange_images.Base.{
  ℕ, ◌≡◌, String, Bool, true, false, List, [], ◌∷◌, ◌++◌, length, codes, if◌then◌else◌, All, str_eq,
}
use lagrange_images.Base.Decimal.{to_decimal}
use lagrange_images.Base.Json.{
  Json, Items, Fields, null, bool, num, other_num, str, arr, obj, nil, cons, end, field,
}
use lagrange_images.Base.Result.{Result, ok, err}
use lagrange_images.Base.TextOrder.{text_leb}
use lagrange_images.Support.PortableBytes.{Bytes, Text}
use lagrange_images.Support.PortableBytes.Base64.{IsByte}
use lagrange_images.Support.Utf8.{Utf8}
use lagrange_images.Value.Host.{HostNumbers}
use lagrange_images.Callable.TypeGrammar.{
  TypeExpr, named, list, RecordFields, Declarations, GrammarError,
}
use lagrange_images.Callable.Declarations.{reachable_declarations}

pub record Platform : Type 0 where
  pub numbers : HostNumbers
  pub utf8 : Utf8
  pub quote : String → Text
  pub sha256 : Bytes → Bytes
  pub length-sha256 : (bs : Bytes) → length (sha256 bs) ≡ 32
  pub sha256-IsByte : (bs : Bytes) → All IsByte (sha256 bs)

-- `Object.keys(value).sort()`, of entries that are printed already.
unfoldable pub insert_entry : String → Text → List (String × Text) → List (String × Text)
insert_entry k t [] = (k, t) ∷ []
insert_entry k t ((j, u) ∷ entries) =
    let rest = insert_entry k t entries in
    if text_leb k j then (k, t) ∷ (j, u) ∷ entries else (j, u) ∷ rest

-- `.join(',')`
unfoldable pub join : List Text → Text
join [] = []
join (t ∷ []) = t
join (t ∷ u ∷ ts) = t ++ b',' ∷ join (u ∷ ts)

unfoldable pub entry_texts : (String → Text) → List (String × Text) → List Text
entry_texts quote [] = []
entry_texts quote ((k, t) ∷ entries) = (quote k ++ b':' ∷ t) ∷ entry_texts quote entries

-- `canonicalTypeJson`
unfoldable mutual
  pub canonical_type_json : (String → Text) → Json → Text
  canonical_type_json quote null = codes "null"
  canonical_type_json quote (bool b) = if b then codes "true" else codes "false"
  canonical_type_json quote (num n) = to_decimal n
  canonical_type_json quote (other_num t) = codes t
  canonical_type_json quote (str t) = quote t
  canonical_type_json quote (arr xs) = b'[' ∷ (join (item_texts quote xs) ++ b']' ∷ [])
  canonical_type_json quote (obj fs) =
      b'{' ∷ (join (entry_texts quote (sorted_entries quote fs)) ++ b'}' ∷ [])

  pub item_texts : (String → Text) → Items → List Text
  item_texts quote nil = []
  item_texts quote (cons x xs) = canonical_type_json quote x ∷ item_texts quote xs

  pub sorted_entries : (String → Text) → Fields → List (String × Text)
  sorted_entries quote end = []
  sorted_entries quote (field k v fs) =
      insert_entry k (canonical_type_json quote v) (sorted_entries quote fs)

-- A normalized type and normalized declarations, as the objects that they are.
unfoldable pub json_of_type : TypeExpr → Json
json_of_type (named name) = str name
json_of_type (list t) = obj (field "kind" (str "list") (field "element" (json_of_type t) end))

unfoldable pub items_of_fields : RecordFields → Items
unfolding json_of_type
items_of_fields [] = nil
items_of_fields ((name, t) ∷ fields) =
    cons (obj (field "name" (str name) (field "type" (json_of_type t) end)))
      (items_of_fields fields)

unfoldable pub fields_of_declarations : Declarations → Fields
unfolding items_of_fields
fields_of_declarations [] = end
fields_of_declarations ((name, fields) ∷ types) =
    field name
      (obj (field "kind" (str "record") (field "fields" (arr (items_of_fields fields)) end)))
      (fields_of_declarations types)

-- The hash of the schema, whose parts are the type and the declarations that it reaches.
unfoldable pub schema_hash : Platform → TypeExpr → Declarations → Bytes
unfolding canonical_type_json json_of_type fields_of_declarations
schema_hash platform type reachable =
    let schema = obj (
      field "type" (json_of_type type)
        (field "types" (obj (fields_of_declarations reachable)) end)) in
    platform.sha256 (platform.utf8.encode (canonical_type_json platform.quote schema))

-- `typeFingerprint`
unfoldable pub type_fingerprint : Platform → TypeExpr → Declarations → Result GrammarError Bytes
unfolding reachable_declarations schema_hash
type_fingerprint platform type types = elim (reachable_declarations type types) [
  | err e ↦ err e
  | ok reachable ↦ ok (schema_hash platform type reachable)
]
