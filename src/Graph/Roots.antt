-- ===== src/Graph/Roots.antt =====
-- src/graph/reachability.js: which records are roots by what they are, isIntrinsicRootRecord.
use lagrange_images.Base.{
  ℕ, String, Bool, true, false, not, ◌&&◌, ◌||◌, Option, none, some, List, [], ◌∷◌, if◌then◌else◌,
  str_eq, ◌==◌, leb, codes,
}
use lagrange_images.Base.Json.{
  Json, Items, Fields, str, obj, arr, nil, cons, end, field, get_field, property,
}
use lagrange_images.Graph.Reachability.{Node}

unfoldable pub is_prefix : List ℕ → List ℕ → Bool
is_prefix [] cs = true
is_prefix (p ∷ ps) [] = false
is_prefix (p ∷ ps) (c ∷ cs) = p == c && is_prefix ps cs

unfoldable pub same_codes : List ℕ → List ℕ → Bool
same_codes [] [] = true
same_codes (a ∷ rest) (b ∷ bs) = a == b && same_codes rest bs
same_codes _ _ = false

unfoldable pub is_suffix : List ℕ → List ℕ → Bool
is_suffix s [] = same_codes s []
is_suffix s (c ∷ cs) = same_codes s (c ∷ cs) || is_suffix s cs

-- `text.startsWith(prefix)` and `text.endsWith(suffix)`
abbrev pub starts_with : String → String → Bool
starts_with prefix text = is_prefix (codes prefix) (codes text)

abbrev pub ends_with : String → String → Bool
ends_with suffix text = is_suffix (codes suffix) (codes text)

unfoldable pub has_slash : List ℕ → Bool
has_slash [] = false
has_slash (c ∷ cs) = c == 47 || has_slash cs

unfoldable pub only_digits : List ℕ → Bool
only_digits [] = true
only_digits (c ∷ cs) = (leb 48 c && leb c 57) && only_digits cs

unfoldable pub is_version : List ℕ → Bool
is_version (slash ∷ v ∷ digit ∷ digits) = slash == 47 && (v == 118 && only_digits (digit ∷ digits))
is_version _ = false

-- `/\/v\d+$/.test(id)`
unfoldable pub ends_with_version : List ℕ → Bool
ends_with_version [] = false
ends_with_version (c ∷ cs) = is_version (c ∷ cs) || ends_with_version cs

unfoldable pub is_one_of : String → List String → Bool
is_one_of t [] = false
is_one_of t (s ∷ ss) = str_eq t s || is_one_of t ss

-- `record[outer]?.[inner]`, if it is one of some texts.
unfoldable pub inner_is : String → String → List String → Fields → Bool
inner_is outer inner texts fs = elim (get_field outer fs) [
  | none ↦ false
  | some v ↦ elim (property inner v) [ some (str t) ↦ is_one_of t texts | _ ↦ false ]
]

unfoldable pub is_mark : Json → Bool
is_mark (str t) = str_eq t "sentinel" || str_eq t "defsystem"
is_mark _ = false

unfoldable pub some_field_marks : Fields → Bool
some_field_marks end = false
some_field_marks (field k v fs) = is_mark v || some_field_marks fs

unfoldable pub some_item_marks : Items → Bool
some_item_marks nil = false
some_item_marks (cons v vs) = is_mark v || some_item_marks vs

-- `Object.values(record.metadata).some(…)`
unfoldable pub metadata_marks : Fields → Bool
metadata_marks fs = elim (get_field "metadata" fs) [
  | some (obj inner) ↦ some_field_marks inner
  | some (arr items) ↦ some_item_marks items
  | _ ↦ false
]

unfoldable pub is_system_shape : Node → Bool
is_system_shape r =
    str_eq r.kind "shape"
    && (starts_with "smalltalk/" r.id
        || (starts_with "lagrange-project/" r.id
            || (starts_with "lagrange-project-installation/" r.id
                || (has_slash (codes r.id) && ends_with_version (codes r.id)))))

unfoldable pub is_kernel_id : String → Bool
is_kernel_id id =
    is_one_of id (
      "smalltalk-kernel/v1" ∷ "smalltalk/kernel" ∷ "smalltalk-global-namespace/v1"
      ∷ "smalltalk/globals" ∷ "smalltalk-block-protocol/v1" ∷ "smalltalk/block-protocol"
      ∷ "smalltalk-block-unwind/v1" ∷ "smalltalk/block-unwind" ∷ "smalltalk/symbol-table"
      ∷ "smalltalk/subclasses" ∷ [])
    || (starts_with "smalltalk/symbol/" id
        || (starts_with "smalltalk/char/" id || ends_with "/namespace/v1" id))

unfoldable pub is_kernel_record : Fields → Bool
is_kernel_record fs =
    inner_is "metadata" "smalltalk"
      ("behavior" ∷ "singleton" ∷ "class-state" ∷ "subclass-registry" ∷ "kernel-primitive" ∷ []) fs
    || inner_is "metadata" "protocol"
        ("smalltalk-kernel/v1" ∷ "smalltalk-kernel-protocol/v1" ∷ "smalltalk-global-namespace/v1"
          ∷ "smalltalk-block-protocol/v1" ∷ "smalltalk-block-unwind/v1"
          ∷ "smalltalk-block-unwind-protocol/v1" ∷ [])
        fs

unfoldable pub is_namespace_or_mark : Node → Bool
is_namespace_or_mark r =
    (str_eq r.kind "object"
      && inner_is "shape" "objectId"
          ("smalltalk/global-namespace-shape/v2" ∷ "smalltalk/global-namespace-shape/v1" ∷ [])
          r.content)
    || metadata_marks r.content

-- Roots of projects, installations and branches.
unfoldable pub is_project_root : Node → Bool
is_project_root r =
    str_eq r.id "lagrange-project/none/v1"
    || (starts_with "lagrange-branch/head/" r.id
        || ((starts_with "lagrange-project-installation/" r.id && ends_with "/head" r.id)
            || (str_eq r.kind "object"
                && (inner_is "shape" "objectId"
                      ("lagrange-project/project/v1" ∷ "lagrange-project-installation/head-shape/v1"
                        ∷ "lagrange-branch/head-shape/v1" ∷ [])
                      r.content
                    || (inner_is "metadata" "project" ("working-state" ∷ []) r.content
                        || inner_is "metadata" "branch" ("head" ∷ []) r.content)))))

-- `imageRootObjectId && id === imageRootObjectId`
unfoldable pub is_image_root : Option String → String → Bool
is_image_root none id = false
is_image_root (some root) id = not (str_eq root "") && str_eq id root

unfoldable pub is_intrinsic_root_record : Option String → Bool → Node → Bool
is_intrinsic_root_record root preserve r =
    if str_eq r.id ""
    then false
    else is_image_root root r.id
      || ((preserve && is_system_shape r)
          || (is_kernel_id r.id
              || (is_kernel_record r.content || (is_namespace_or_mark r || is_project_root r))))
