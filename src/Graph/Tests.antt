-- ===== src/Graph/Tests.antt =====
-- Merges, differences and replays of src/graph on small images.
use lagrange_images.Base.{
  ℕ, String, ◌≡◌, refl, ap, ◌∙◌, true, false, Option, none, some, is_some, List, [], ◌∷◌,
  if◌then◌else◌, str_eq, arith, Bool-cases, inl, inr,
}
use lagrange_images.Base.Dict.{Dict, get}
use lagrange_images.Base.Json.{Fields, num, str, obj, end, field, get_field, json_eq}
use lagrange_images.Base.TextOrder.{member, text_leb, units_leb, code_units}
use lagrange_images.Base.Result.{ok}
use lagrange_images.Graph.Canonical.{
  Record, json_of, same_record, same, canonical_clone, insert_field,
}
use lagrange_images.Graph.Canonical.Laws.{same_self}
use lagrange_images.Graph.Diff.{fields_at, diff_maps}
use lagrange_images.Graph.Diff.Records.{diff_maps_lem}
use lagrange_images.Graph.Diff.Replay.{Change, stored, swept, HistoryEvent, replay}
use lagrange_images.Graph.Diff.Replay.Latest.{latest, get-replay}
use lagrange_images.Graph.Merge.Values.Laws.{IsThreeWay}
use lagrange_images.Graph.Merge.Objects.{merge_object_records}
use lagrange_images.Graph.Merge.Objects.Laws.{slot_conflict, merge_object_records-slots}
use lagrange_images.Graph.Merge.Records.{Resolution, use_left, clone_record, merge_one}
use lagrange_images.Graph.Merge.Plan.{MergePlan, round_of, merge_maps, is_clean}
use lagrange_images.Graph.Merge.Plan.Rounds.{merge_maps-IsPlanned, round_at}
use lagrange_images.Graph.Merge.Plan.Sides.{same_at, merge_maps-keeps_sides, merge_maps-takes_right}
use lagrange_images.Graph.Merge.Plan.Resolved.{picks, picked, merge_maps-total, merge_maps-resolves}
use lagrange_images.Graph.Merge.Apply.{ordered_writes}
use lagrange_images.Graph.References.{is_inherited_name}
use lagrange_images.Graph.Merge.Apply.Order.{AreOrdinary, IsOrdered, count_of, ordered_writes_lem}

abbrev slots_of : ℕ → ℕ → Fields
slots_of x y = field "x" (num x) (field "y" (num y) end)

abbrev point : ℕ → ℕ → Record
point x y = record {
  id = "p";
  kind = "object";
  fields =
      field "id" (str "p") (field "kind" (str "object") (field "slots" (obj (slots_of x y)) end));
}

abbrev image_with : Record → Dict Record
image_with r = ("p", r) ∷ []

same_at_self : (o : Option Record) → same_at o o ≡ true
unfolding same_record
same_at_self none = refl
same_at_self (some r) = same_self (json_of r)

diff_maps_lem_example :
    (get "p" (diff_maps false [] (image_with (point 1 2))).added ≡ some (point 1 2))
    × (get "p" (diff_maps false [] (image_with (point 1 2))).removed ≡ none)
    × (get "p" (diff_maps false [] (image_with (point 1 2))).modified ≡ none)
unfolding get
diff_maps_lem_example = diff_maps_lem false [] (image_with (point 1 2)) "p"

abbrev happened : ℕ → Change → HistoryEvent
happened n c = record { revision = some n; under_revision = none; change = c }

abbrev history_of_p : List HistoryEvent
history_of_p =
    happened 1 (stored (json_of (point 1 2)))
    ∷ happened 2 (stored (json_of (point 3 2)))
    ∷ happened 3 (swept (some "p"))
    ∷ []

get-replay_example :
    get "p" (replay history_of_p 2) ≡ elim (latest history_of_p 2 "p") [ none ↦ none | some r ↦ r ]
get-replay_example = get-replay history_of_p 2 "p" (omega arith, (omega arith, (omega arith, tt)))

merge_object_records-slots_example :
    IsThreeWay
      (some (num 1))
      (some (num 3))
      (some (num 1))
      (get_field "x" (
        fields_at "slots" (merge_object_records (point 1 2) (point 3 2) (point 1 4)).merged.fields))
      (slot_conflict "x" (merge_object_records (point 1 2) (point 3 2) (point 1 4)).conflict)
unfolding get_field fields_at
merge_object_records-slots_example =
    merge_object_records-slots (point 1 2) (point 3 2) (point 1 4) "x"

abbrev before_all : Dict Record
before_all = image_with (point 1 2)

abbrev after_left : Dict Record
after_left = image_with (point 3 2)

abbrev after_right : Dict Record
after_right = image_with (point 4 2)

merge_maps-takes_right_example :
    (plan : MergePlan) × (merge_maps before_all before_all after_right [] none ≡ ok plan)
    × (is_clean plan ≡ true)
    × ((k : String) → same_at (get k plan.merged_records) (get k after_right) ≡ true)
merge_maps-takes_right_example =
    merge_maps-takes_right before_all before_all after_right [] none
      (λ k. same_at_self (get k before_all))

abbrev left_and_right :
    (plan : MergePlan) × (merge_maps before_all after_left after_right [] none ≡ ok plan)
left_and_right = merge_maps-total before_all after_left after_right none

abbrev pick_left : Dict Resolution
pick_left = ("p", use_left) ∷ []

nothing_elsewhere :
    (k : String)
    → str_eq "p" k ≡ false
    → (round_at before_all after_left after_right [] none k).conflict ≡ none
unfolding get round_of merge_one
nothing_elsewhere k e = rw e refl

all_picked :
    (k : String)
    → is_some (get k left_and_right.0.conflicts) ≡ true
    → picks (get k pick_left) ≡ true
unfolding get
all_picked k h = elim (Bool-cases (str_eq "p" k)) [
  | inl e ↦ rw e refl
  | inr e ↦
      let at =
        merge_maps-IsPlanned before_all after_left after_right [] none left_and_right.0
          left_and_right.1 k in
      absurd (ground (arith, h, ap is_some (at.conflict_lem ∙ nothing_elsewhere k e)))
]

merge_maps-resolves_example :
    (next : MergePlan) × (merge_maps before_all after_left after_right pick_left none ≡ ok next)
    × (is_clean next ≡ true)
    × ((k : String)
        → get k next.merged_records ≡ (
            if is_some (get k left_and_right.0.conflicts)
            then clone_record
                (picked (get k pick_left) (get k before_all) (get k after_left) (get k after_right))
            else get k left_and_right.0.merged_records))
merge_maps-resolves_example =
    merge_maps-resolves before_all after_left after_right none pick_left left_and_right.0
      left_and_right.1 all_picked

merge_maps-keeps_sides_example :
    (same_at
        (get "p" (merge_maps-total before_all before_all after_right none).0.merged_records)
        (some (point 4 2))
      ≡ true)
    × (get "p" (merge_maps-total before_all before_all after_right none).0.conflicts ≡ none)
unfolding get same_record same json_eq canonical_clone insert_field text_leb units_leb code_units
merge_maps-keeps_sides_example =
    merge_maps-keeps_sides before_all before_all after_right [] none
      (merge_maps-total before_all before_all after_right none).0
      (merge_maps-total before_all before_all after_right none).1 "p" refl

abbrev to_write : List Record
to_write = point 1 2 ∷ record (point 3 4) { kind = "shape" } ∷ []

to_write-AreOrdinary : AreOrdinary to_write
unfolding is_inherited_name member
to_write-AreOrdinary = (refl, (refl, tt))

ordered_writes_lem_example :
    IsOrdered (ordered_writes (λ rs. rs) to_write)
    × (count_of (λ r. str_eq r.kind "shape") (ordered_writes (λ rs. rs) to_write) ≡ 1)
ordered_writes_lem_example =
    ordered_writes_lem (λ rs. rs) (λ r. str_eq r.kind "shape") to_write to_write-AreOrdinary
