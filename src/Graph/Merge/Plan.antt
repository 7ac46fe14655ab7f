-- ===== src/Graph/Merge/Plan.antt =====
-- src/graph/merge.js: the merge of all records, and the writes that carry it out.
pub mod Rounds
pub mod Sides
pub mod Resolved
use lagrange_images.Base.{
  ℕ, String, ◌+◌, Bool, true, false, not, ◌&&◌, ◌||◌, Option, none, some, List, [], ◌∷◌, ◌++◌,
  if◌then◌else◌, str_eq, ltb, ◌==◌, length,
}
use lagrange_images.Base.Dict.{Dict, get, put}
use lagrange_images.Base.Json.{Json, Fields, obj, null, end, field, get_field, set_option, or_null}
use lagrange_images.Base.TextOrder.{text_leb, sort_texts, distinct}
use lagrange_images.Base.Result.{Result, ok, err, ◌>>=◌, ◌>>◌, ensure}
use lagrange_images.Graph.Canonical.{
  GraphError, bad_id, unresolved_conflicts, unsupported_kind, Record, same, json_of,
  normalize_record,
}
use lagrange_images.Graph.Diff.{keys}
use lagrange_images.Graph.Diff.Replay.{
  HistoryService, FrontierInput, reconstruct_image_records_at_frontier, name_of,
}
use lagrange_images.Graph.Merge.Values.{add_conflict}
use lagrange_images.Graph.Merge.Rehome.{index_rehomed, rehome_record}
use lagrange_images.Graph.Merge.Objects.{RecordConflict}
use lagrange_images.Graph.Merge.Records.{Resolution, AppliedChange, Round, merge_one}

pub record MergePlan : Type 0 where
  pub merged_records : Dict Record
  pub applied_changes : Dict AppliedChange
  pub removed_ids : List String
  pub conflicts : Dict RecordConflict
  pub unchanged_count : ℕ

abbrev pub empty_plan : MergePlan
empty_plan = record {
  merged_records = [];
  applied_changes = [];
  removed_ids = [];
  conflicts = [];
  unchanged_count = 0;
}

-- A round's pushes stand before those of the later rounds.
unfoldable pub push_round : String → Round → MergePlan → MergePlan
push_round id round rest = record {
  merged_records = add_conflict id round.merged rest.merged_records;
  applied_changes = add_conflict id round.applied rest.applied_changes;
  removed_ids = if round.removed then id ∷ rest.removed_ids else rest.removed_ids;
  conflicts = add_conflict id round.conflict rest.conflicts;
  unchanged_count = (if round.unchanged then 1 else 0) + rest.unchanged_count;
}

module _ (b l r : Dict Record) (resolutions : Dict Resolution) (target : Option String) where
  unfoldable pub round_of : String → Result GraphError Round
  round_of id = merge_one (get id b) (get id l) (get id r) (get id resolutions) target

  unfoldable pub plan_ids : List String → Result GraphError MergePlan
  plan_ids [] = ok empty_plan
  plan_ids (id ∷ ids) = elim (round_of id) [
    | err e ↦ err e
    | ok round ↦ elim (plan_ids ids) [ err e ↦ err e | ok rest ↦ ok (push_round id round rest) ]
  ]

  unfoldable pub merge_maps : Result GraphError MergePlan
  merge_maps = plan_ids (sort_texts (distinct (keys b ++ (keys l ++ keys r))))

-- The records of a side, with the image that they come from.
abbrev pub Side : Type 0
Side = List Json × Option String

-- `mergeImageRecords`
unfoldable pub merge_image_records :
    Side → Side → Side → Option String → Dict Resolution → Result GraphError MergePlan
merge_image_records base left right target resolutions = do
  b ← index_rehomed [] base.0 base.1 target
  l ← index_rehomed [] left.0 left.1 target
  r ← index_rehomed [] right.0 right.1 target
  merge_maps b l r resolutions target

-- `clean`
unfoldable pub is_clean : MergePlan → Bool
is_clean plan = length plan.conflicts == 0

-- `mergeImageFrontiers`
unfoldable pub merge_image_frontiers :
    HistoryService
    → String
    → FrontierInput
    → FrontierInput
    → FrontierInput
    → Dict Resolution
    → Result GraphError MergePlan
merge_image_frontiers images image_id base left right resolutions = do
  b ← reconstruct_image_records_at_frontier images image_id base
  l ← reconstruct_image_records_at_frontier images image_id left
  r ← reconstruct_image_records_at_frontier images image_id right
  merge_image_records (b, some image_id) (l, some image_id) (r, some image_id) (some image_id)
      resolutions
