-- ===== src/Graph/Collection.antt =====
-- src/graph/reachability.js: what a collection of an image keeps and what it sweeps.
pub mod Safety
pub mod Kept
pub mod Ends
pub mod References
mod Tests
use lagrange_images.Base.{
  String, Bool, true, false, Option, none, some, List, [], ◌∷◌, ◌++◌, if◌then◌else◌, length, ◌==◌,
  not, ◌&&◌,
}
use lagrange_images.Base.Dict.{Dict, get}
use lagrange_images.Base.Result.{Result, ok, err, ◌>>=◌}
use lagrange_images.Graph.Roots.{is_intrinsic_root_record}
use lagrange_images.Graph.Reachability.{
  Node, IndexError, dedupe_sorted, Index, build_image_graph_index, known_only, ReachableClosure,
  compute_closure,
}

-- How a collection is asked for: the image and its root object, the roots that it names, and whether
-- the default roots, the shapes of the system and the derived artifacts count.
pub record Request : Type 0 where
  pub image_id : String
  pub root_object_id : Option String
  pub preserve_system_shapes : Bool
  pub roots : List String
  pub include_default_roots : Bool
  pub include_derived_artifacts : Bool

unfoldable pub intrinsic_ids : (Node → Bool) → Dict Node → List String → List String
intrinsic_ids test m [] = []
intrinsic_ids test m (id ∷ ids) =
    let rest = intrinsic_ids test m ids in
    elim (get id m) [ none ↦ rest | some r ↦ if test r then id ∷ rest else rest ]

-- `discoverDefaultImageRoots`
unfoldable pub default_roots : Request → Index → List String
default_roots q index =
    if q.include_default_roots
    then dedupe_sorted (
        intrinsic_ids (is_intrinsic_root_record q.root_object_id q.preserve_system_shapes)
          index.records index.record_ids)
    else []

-- `computeReachableImageClosure`
unfoldable pub close_index : Request → Index → List String → Result IndexError ReachableClosure
close_index q index pinned =
    compute_closure index q.include_derived_artifacts (default_roots q index) q.roots pinned

unfoldable pub close_records : Request → List Node → Result IndexError ReachableClosure
close_records q records = elim (build_image_graph_index records (some q.image_id)) [
  | err e ↦ err e
  | ok index ↦ close_index q index []
]

-- What is reached in the image as it was, at each pinned frontier, and is still there.
unfoldable pub pinned_by_frontiers :
    Request → Index → List (List Node) → Result IndexError (List String)
pinned_by_frontiers q current [] = ok []
pinned_by_frontiers q current (snapshot ∷ snapshots) = elim (close_records q snapshot) [
  | err e ↦ err e
  | ok c ↦ elim (pinned_by_frontiers q current snapshots) [
    | err e ↦ err e
    | ok rest ↦ ok (known_only current.records c.reachable_ids ++ rest)
  ]
]

pub record GcPlan : Type 0 where
  pub root_ids : List String
  pub pinned_by_frontier_ids : List String
  pub retained_ids : List String
  pub swept_ids : List String

unfoldable pub plan_index : Request → Index → List (List Node) → Result IndexError GcPlan
plan_index q index snapshots = elim (pinned_by_frontiers q index snapshots) [
  | err e ↦ err e
  | ok found ↦ elim (close_index q index (dedupe_sorted found)) [
    | err e ↦ err e
    | ok c ↦ ok record {
      root_ids = c.root_ids;
      pinned_by_frontier_ids = dedupe_sorted found;
      retained_ids = c.reachable_ids;
      swept_ids = c.unreachable_ids;
    }
  ]
]

-- `planImageGarbageCollection`, from the records of the image and those at the pinned frontiers.
unfoldable pub plan_image_garbage_collection :
    Request → List Node → List (List Node) → Result IndexError GcPlan
plan_image_garbage_collection q records snapshots =
    elim (build_image_graph_index records (some q.image_id)) [
      | err e ↦ err e
      | ok index ↦ plan_index q index snapshots
    ]

-- `collectUnreachableImageRecords`: the image service sweeps what the plan says, if there is anything.
unfoldable pub collect_unreachable_image_records :
    {S : Type 0}
    → (S → String → List String → Result IndexError S)
    → S
    → Request
    → List Node
    → List (List Node)
    → Bool
    → Result IndexError (GcPlan × S)
collect_unreachable_image_records sweep s q records snapshots dry_run =
    elim (plan_image_garbage_collection q records snapshots) [
      | err e ↦ err e
      | ok plan ↦
          if not dry_run && not (length plan.swept_ids == 0)
          then elim (sweep s q.image_id plan.swept_ids) [
            | err e ↦ err e
            | ok next ↦ ok (plan, next)
          ]
          else ok (plan, s)
    ]
