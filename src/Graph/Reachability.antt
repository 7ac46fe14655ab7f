-- ===== src/Graph/Reachability.antt =====
-- src/graph/reachability.js: the index of an image's records, the walk along it, and what a collection
-- keeps.
pub mod Walk
pub mod Fuel
pub mod Known
pub mod Followed
pub mod Exact
use lagrange_images.Base.{
  ℕ, String, zero, suc, ◌+◌, Bool, true, false, not, ◌&&◌, ◌||◌, Option, none, some, is_some,
  or_else, List, [], ◌∷◌, ◌++◌, if◌then◌else◌, str_eq, length,
}
use lagrange_images.Base.Dict.{Dict, get, put, has}
use lagrange_images.Graph.References.{
  Ref, dedupe_sorted_object_refs, source_ids, Member, own_list, missing, inherited, literal_at,
}
use lagrange_images.Base.Json.{Fields}
use lagrange_images.Base.TextOrder.{member, sort_texts, distinct}
use lagrange_images.Base.Result.{Result, ok, err, ◌>>=◌}

-- A record: its fields, the references that referencesOfRecord gives for it, and the objects references
-- that derivedFrom holds.
pub record Node : Type 0 where
  pub id : String
  pub kind : String
  pub image_id : Option String
  pub references : List Ref
  pub derived_from : List Ref
  pub content : Fields

pub data IndexError : Type 0 where
  bad_id unknown_kind endless not_iterable prototype_key : IndexError
  duplicate_id : String → IndexError

-- `dedupeSortedStrings`
unfoldable pub dedupe_sorted : List String → List String
dedupe_sorted xs = sort_texts (distinct xs)

unfoldable pub is_durable_kind : String → Bool
is_durable_kind k =
    str_eq k "shape"
    || (str_eq k "object"
        || (str_eq k "code-artifact" || (str_eq k "lexical-environment" || str_eq k "block")))

unfoldable pub is_tombstone_kind : String → Bool
is_tombstone_kind k = str_eq k "relocated" || str_eq k "swept"

unfoldable pub live_records : List Node → List Node
live_records [] = []
live_records (r ∷ rs) =
    let rest = live_records rs in if is_tombstone_kind r.kind then rest else r ∷ rest

unfoldable pub index_node : Dict Node → Node → Result IndexError (Dict Node)
index_node m r =
    if str_eq r.id ""
    then err bad_id
    else if has r.id m
    then err (duplicate_id r.id)
    else if is_durable_kind r.kind
    then ok (put r.id r m)
    else err unknown_kind

unfoldable pub index_nodes : Dict Node → List Node → Result IndexError (Dict Node)
index_nodes m [] = ok m
index_nodes m (r ∷ rs) = elim (index_node m r) [ err e ↦ err e | ok next ↦ index_nodes next rs ]

unfoldable pub ids_of : Dict Node → List String
ids_of [] = []
ids_of ((k, r) ∷ m) = k ∷ ids_of m

-- `resolvedImageId === null || ref.imageId === resolvedImageId || ref.imageId === record.imageId`
unfoldable pub is_same_image : Option String → Node → Ref → Bool
is_same_image none r ref = true
is_same_image (some image) r ref =
    str_eq ref.image_id image
    || elim r.image_id [ none ↦ false | some own ↦ str_eq ref.image_id own ]

unfoldable pub local_targets : Option String → Dict Node → Node → List Ref → List String
local_targets image m r [] = []
local_targets image m r (ref ∷ refs) =
    let rest = local_targets image m r refs in
    if is_same_image image r ref && has ref.object_id m then ref.object_id ∷ rest else rest

unfoldable pub outgoing_entries : Option String → Dict Node → List String → Dict (List String)
outgoing_entries image m [] = []
outgoing_entries image m (id ∷ ids) =
    let rest = outgoing_entries image m ids in
    elim (get id m) [
      | none ↦ rest
      | some r ↦
          (id, dedupe_sorted (local_targets image m r (dedupe_sorted_object_refs r.references)))
          ∷ rest
    ]

-- `dependentsOfSourceSets.get(source).add(id)`
unfoldable pub add_dependents : String → List String → Dict (List String) → Dict (List String)
add_dependents id [] d = d
add_dependents id (source ∷ sources) d =
    let known = or_else (get source d) [] in
    add_dependents id sources (put source (if member id known then known else known ++ (id ∷ [])) d)

unfoldable pub dependent_entries : Dict Node → List String → Dict (List String) → Dict (List String)
dependent_entries m [] d = d
dependent_entries m (id ∷ ids) d = elim (get id m) [
  | none ↦ dependent_entries m ids d
  | some r ↦
      dependent_entries m ids (
        if str_eq r.kind "code-artifact"
        then add_dependents id (source_ids r.derived_from) d
        else d)
]

pub record Index : Type 0 where
  pub image : Option String
  pub records : Dict Node
  pub record_ids : List String
  pub outgoing_local_ids : Dict (List String)
  pub dependents_of_source : Dict (List String)

unfoldable pub first_image : List Node → Option String
first_image [] = none
first_image (r ∷ rs) =
    let rest = first_image rs in elim r.image_id [ some i ↦ some i | none ↦ rest ]

unfoldable pub index_of : Option String → Dict Node → Index
index_of image m =
    let ids = sort_texts (ids_of m) in
    record {
      image = image;
      records = m;
      record_ids = ids;
      outgoing_local_ids = outgoing_entries image m ids;
      dependents_of_source = dependent_entries m ids [];
    }

-- A record or a source is named `__proto__`. Its list would become the prototype of the literal that it
-- is stored in, with effects that are not modelled: the index is refused here.
unfoldable pub names_prototype : Index → Bool
names_prototype index = has "__proto__" index.records || has "__proto__" index.dependents_of_source

unfoldable pub checked_index : Index → Result IndexError Index
checked_index index = if names_prototype index then err prototype_key else ok index

-- `buildImageGraphIndex`
unfoldable pub build_image_graph_index : List Node → Option String → Result IndexError Index
build_image_graph_index records image =
    let live = live_records records in
    do
      m ← index_nodes [] live
      checked_index (index_of (elim image [ some i ↦ some i | none ↦ first_image live ]) m)

-- What has been seen, and of it what is still to be visited.
pub record Progress : Type 0 where
  pub queue : List String
  pub seen : List String

unfoldable pub visit : List String → List String → List String → Progress
visit [] queue seen = record { queue = queue; seen = seen }
visit (t ∷ ts) queue seen = elim (member t seen) [
  | true ↦ visit ts queue seen
  | false ↦ visit ts (queue ++ (t ∷ [])) (seen ++ (t ∷ []))
]

-- The loop over the queue, with fuel. It throws if what is next cannot be iterated.
unfoldable pub walk :
    ℕ
    → (String → Result IndexError (List String))
    → List String
    → List String
    → Result IndexError (List String)
walk zero next [] seen = ok seen
walk zero next (x ∷ queue) seen = err endless
walk (suc n) next [] seen = ok seen
walk (suc n) next (x ∷ queue) seen = elim (next x) [
  | err e ↦ err e
  | ok ts ↦ let p = visit ts queue seen in walk n next p.queue p.seen
]

-- `for (const x of literal[id] ?? [])`
unfoldable pub iterate : Member → Result IndexError (List String)
iterate (own_list ids) = ok ids
iterate missing = ok []
iterate (inherited name) = err not_iterable

-- What the closure follows from a record: its local references, and what derives from it if asked for.
unfoldable pub known_only : Dict Node → List String → List String
known_only m [] = []
known_only m (k ∷ ks) = let rest = known_only m ks in if has k m then k ∷ rest else rest

unfoldable pub followed : Index → Bool → String → Result IndexError (List String)
followed index derived id = elim (iterate (literal_at id index.outgoing_local_ids)) [
  | err e ↦ err e
  | ok local ↦ elim derived [
    | false ↦ ok local
    | true ↦ elim (iterate (literal_at id index.dependents_of_source)) [
      | err e ↦ err e
      | ok sources ↦ ok (local ++ known_only index.records sources)
    ]
  ]
]

-- Enough for any walk in the index from the given roots.
abbrev pub enough : Index → List String → ℕ
enough index roots = length roots + length index.record_ids

unfoldable pub reach : Index → Bool → List String → Result IndexError (List String)
reach index derived roots = walk (enough index roots) (followed index derived) roots roots

unfoldable pub leave_out : List String → List String → List String
leave_out seen [] = []
leave_out seen (k ∷ ks) = let rest = leave_out seen ks in if member k seen then rest else k ∷ rest

pub record ReachableClosure : Type 0 where
  pub root_ids : List String
  pub reachable_ids : List String
  pub unreachable_ids : List String

-- `computeReachableImageClosure`, from the default, the explicit and the pinned roots.
unfoldable pub compute_closure :
    Index → Bool → List String → List String → List String → Result IndexError ReachableClosure
compute_closure index derived defaults explicit pinned =
    let roots =
      dedupe_sorted
        (defaults ++ (known_only index.records explicit ++ known_only index.records pinned)) in
    elim (reach index derived roots) [
      | err e ↦ err e
      | ok seen ↦ ok record {
        root_ids = roots;
        reachable_ids = dedupe_sorted seen;
        unreachable_ids = dedupe_sorted (leave_out seen index.record_ids);
      }
    ]
