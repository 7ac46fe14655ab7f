-- ===== src/Graph/Diff/Replay.antt =====
-- src/graph/diff.js: the records of an image at a revision, replayed from its history.
pub mod Latest
use lagrange_images.Base.{
  ℕ, String, ◌-◌, ◌^◌, Bool, true, false, Option, none, some, List, [], ◌∷◌, map, if◌then◌else◌,
  str_eq, ltb, leb, or_else, codes,
}
use lagrange_images.Base.Dict.{Dict, put, remove}
use lagrange_images.Base.Decimal.{of_decimal, all_digits}
use lagrange_images.Base.Json.{Json, str, property}
use lagrange_images.Base.TextOrder.{text_leb}
use lagrange_images.Base.Result.{Result, ok, err, ◌>>=◌, ◌>>◌, ensure}
use lagrange_images.Graph.Canonical.{GraphError, bad_frontier, beyond_frontier, bad_id}
use lagrange_images.Graph.Diff.{RecordChanges, diff_image_records}

-- What an event did: the five kinds of put, which are treated alike, a relocation of an object or a
-- record, a sweep, and anything else.
pub data Change : Type 0 where
  stored : Json → Change
  relocated : Option String → Option String → Change
  swept : Option String → Change
  other_change : Change

pub record HistoryEvent : Type 0 where
  pub revision : Option ℕ
  pub under_revision : Option ℕ
  pub change : Change

-- `event?.revision ?? event?._revision ?? 0`
abbrev pub revision_of : HistoryEvent → ℕ
revision_of e = or_else e.revision (or_else e.under_revision 0)

-- A text that is not empty, as `if (text)` has it.
unfoldable pub name_of : Option Json → Option String
name_of (some (str t)) = if str_eq t "" then none else some t
name_of _ = none

unfoldable pub remove_named : Option String → Dict Json → Dict Json
remove_named none m = m
remove_named (some k) m = if str_eq k "" then m else remove k m

unfoldable pub put_named : Option String → Json → Dict Json → Dict Json
put_named none r m = m
put_named (some k) r m = put k r m

unfoldable pub apply_change : Change → Dict Json → Dict Json
apply_change (stored r) m = put_named (name_of (property "id" r)) r m
apply_change (relocated object_id record_id) m = remove_named record_id (remove_named object_id m)
apply_change (swept record_id) m = remove_named record_id m
apply_change other_change m = m

-- The loop ends at the first event above the frontier.
unfoldable pub replay_from : Dict Json → List HistoryEvent → ℕ → Dict Json
replay_from m [] frontier = m
replay_from m (e ∷ es) frontier =
    let rest = replay_from (apply_change e.change m) es frontier in
    if ltb frontier (revision_of e) then m else rest

unfoldable pub insert_entry : String → Json → Dict Json → Dict Json
insert_entry k v [] = (k, v) ∷ []
insert_entry k v ((j, w) ∷ m) =
    let rest = insert_entry k v m in if text_leb k j then (k, v) ∷ (j, w) ∷ m else (j, w) ∷ rest

unfoldable pub sort_entries : Dict Json → Dict Json
sort_entries [] = []
sort_entries ((k, v) ∷ m) = insert_entry k v (sort_entries m)

-- The records with their identities, sorted by them.
unfoldable pub replay : List HistoryEvent → ℕ → Dict Json
replay events frontier = sort_entries (replay_from [] events frontier)

unfoldable pub records_in : Dict Json → List Json
records_in [] = []
records_in ((k, v) ∷ m) = v ∷ records_in m

pub data FrontierInput : Type 0 where
  number : ℕ → FrontierInput
  digits : String → FrontierInput
  other_input : FrontierInput

abbrev pub max_safe : ℕ
max_safe = 2 ^ 53 - 1

unfoldable pub frontier_within : ℕ → ℕ → Result GraphError ℕ
frontier_within n current = do
  ensure (leb n max_safe) bad_frontier
  ensure (leb n current) beyond_frontier
  ok n

unfoldable pub assert_frontier_number : FrontierInput → ℕ → Result GraphError ℕ
assert_frontier_number (number n) current = frontier_within n current
assert_frontier_number (digits t) current =
    if str_eq t ""
    then err bad_frontier
    else if all_digits (codes t)
    then frontier_within (of_decimal (codes t)) current
    else err bad_frontier
assert_frontier_number other_input current = err bad_frontier

-- What is used of the image service: the committed frontier and the history of an image.
pub record HistoryService : Type 0 where
  pub frontier : String → ℕ
  pub history : String → List HistoryEvent

module _ (images : HistoryService) where
  unfoldable pub reconstruct_image_records_at_frontier :
      String → FrontierInput → Result GraphError (List Json)
  reconstruct_image_records_at_frontier image_id frontier =
      if str_eq image_id "" then err bad_id else (do
        target ← assert_frontier_number frontier (images.frontier image_id)
        ok (records_in (replay (images.history image_id) target)))

  unfoldable pub diff_image_frontiers :
      String → FrontierInput → FrontierInput → Result GraphError RecordChanges
  diff_image_frontiers image_id from to = if str_eq image_id "" then err bad_id else (do
    resolved_from ← assert_frontier_number from (images.frontier image_id)
    resolved_to ← assert_frontier_number to (images.frontier image_id)
    diff_image_records (records_in (replay (images.history image_id) resolved_from))
        (records_in (replay (images.history image_id) resolved_to)) (some image_id) (some image_id))
