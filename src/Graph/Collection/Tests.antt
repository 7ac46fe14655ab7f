-- ===== src/Graph/Collection/Tests.antt =====
-- A collection of src/graph/reachability.js in an image of three objects, one of which was still reached
-- at a pinned frontier.
use lagrange_images.Base.{String, ◌≡◌, refl, true, false, some, List, [], ◌∷◌}
use lagrange_images.Base.Dict.{Dict, get, put, has}
use lagrange_images.Base.Json.{end}
use lagrange_images.Base.TextOrder.{
  member, sort_texts, distinct, insert_text, text_leb, units_leb, code_units,
}
use lagrange_images.Base.Result.{ok, err}
use lagrange_images.Graph.References.{
  Ref, is_unpinned_ref, ref_key, same_key, has_key, first_refs, ref_leb, insert_ref, sort_refs,
  dedupe_sorted_object_refs, is_inherited_name, literal_at,
}
use lagrange_images.Graph.Reachability.{
  is_same_image, dedupe_sorted, ids_of, outgoing_entries, local_targets, Node, is_durable_kind,
  not_iterable, is_tombstone_kind, live_records, index_node, index_nodes, index_of,
  build_image_graph_index, dependent_entries, checked_index, names_prototype, iterate, walk, reach,
  visit, known_only, leave_out, followed, ReachableClosure, compute_closure,
}
use lagrange_images.Graph.Roots.{is_intrinsic_root_record, is_image_root}
use lagrange_images.Graph.Collection.{Request, GcPlan, plan_image_garbage_collection, plan_index}
use lagrange_images.Graph.Collection.Kept.{intrinsic_root_is_kept}
use lagrange_images.Graph.References.Kept.{mentions}
use lagrange_images.Graph.Collection.References.{is_local, kept_references_are_kept}
use lagrange_images.Graph.Collection.Ends.{IsIndexable, plan_image_garbage_collection-ok}

abbrev object_with : String → List String → Node
object_with id targets = record {
  id = id;
  kind = "object";
  image_id = some "i";
  references = refs_to targets;
  derived_from = [];
  content = end;
}
  where
    refs_to : List String → List Ref
    refs_to [] = []
    refs_to (t ∷ ts) = record { kind = "ref"; image_id = "i"; object_id = t } ∷ refs_to ts

abbrev now : List Node
now = object_with "root" ("a" ∷ []) ∷ object_with "a" [] ∷ object_with "b" [] ∷ []

abbrev earlier : List Node
earlier = object_with "root" ("b" ∷ []) ∷ object_with "b" [] ∷ []

abbrev indexed : List Node → Dict Node
indexed [] = []
indexed (r ∷ rs) = (r.id, r) ∷ indexed rs

abbrev request : Request
request = record {
  image_id = "i";
  root_object_id = some "root";
  preserve_system_shapes = true;
  roots = [];
  include_default_roots = true;
  include_derived_artifacts = false;
}

built_now : build_image_graph_index now (some "i") ≡ ok (index_of (some "i") (indexed now))
unfolding build_image_graph_index checked_index names_prototype index_nodes index_node live_records
    is_tombstone_kind is_durable_kind get put index_of dependent_entries ids_of sort_texts
    insert_text text_leb units_leb code_units
built_now = refl

abbrev now-IsIndexable : IsIndexable request now
now-IsIndexable = record {
  index = index_of (some "i") (indexed now);
  built = built_now;
  clear_lem = λ k h. refl;
}

built_earlier :
    build_image_graph_index earlier (some "i") ≡ ok (index_of (some "i") (indexed earlier))
unfolding build_image_graph_index checked_index names_prototype index_nodes index_node live_records
    is_tombstone_kind is_durable_kind get put index_of dependent_entries ids_of sort_texts
    insert_text text_leb units_leb code_units
built_earlier = refl

abbrev earlier-IsIndexable : IsIndexable request earlier
earlier-IsIndexable = record {
  index = index_of (some "i") (indexed earlier);
  built = built_earlier;
  clear_lem = λ k h. refl;
}

abbrev planned :
    (plan : GcPlan) × (plan_image_garbage_collection request now (earlier ∷ []) ≡ ok plan)
planned =
    plan_image_garbage_collection-ok request now (earlier ∷ []) now-IsIndexable
      (earlier-IsIndexable, tt)

a_planned : plan_index request (index_of (some "i") (indexed now)) (earlier ∷ []) ≡ ok planned.0
unfolding plan_image_garbage_collection
a_planned = (rw (built_now, plan_image_garbage_collection) at planned.1)

root_is_intrinsic :
    is_intrinsic_root_record (some "root") true (object_with "root" ("a" ∷ [])) ≡ true
unfolding is_intrinsic_root_record is_image_root
root_is_intrinsic = refl

root_is_present : get "root" (indexed now) ≡ some (object_with "root" ("a" ∷ []))
unfolding get
root_is_present = refl

intrinsic_root_is_kept_example :
    (member "root" planned.0.retained_ids ≡ true) × (member "root" planned.0.swept_ids ≡ false)
intrinsic_root_is_kept_example =
    intrinsic_root_is_kept request (indexed now) (earlier ∷ []) planned.0 "root"
      (object_with "root" ("a" ∷ [])) a_planned refl root_is_present root_is_intrinsic

root_is_kept : member "root" planned.0.retained_ids ≡ true
root_is_kept =
    (intrinsic_root_is_kept request (indexed now) (earlier ∷ []) planned.0 "root"
      (object_with "root" ("a" ∷ [])) a_planned refl root_is_present root_is_intrinsic).0

-- A pinned reference is not followed, and a second reference with the same key is left out.
abbrev with_pinned : List Ref
with_pinned =
    record { kind = "pinned-ref"; image_id = "i"; object_id = "c" }
    ∷ record { kind = "ref"; image_id = "i"; object_id = "b" }
    ∷ record { kind = "ref"; image_id = "i"; object_id = "a" }
    ∷ record { kind = "ref"; image_id = "i"; object_id = "b" }
    ∷ []

pinned_is_left_out : dedupe_sorted_object_refs with_pinned ≡ (
    record { kind = "ref"; image_id = "i"; object_id = "a" }
    ∷ record { kind = "ref"; image_id = "i"; object_id = "b" }
    ∷ [])
unfolding dedupe_sorted_object_refs first_refs sort_refs insert_ref ref_leb is_unpinned_ref ref_key
    has_key same_key text_leb units_leb code_units
pinned_is_left_out = refl

-- With derived artifacts, a record that is named like an inherited member stops the walk.
abbrev inherited_name : List Node
inherited_name = object_with "constructor" [] ∷ []

inherited_name_stops :
    compute_closure (index_of (some "i") (indexed inherited_name)) true ("constructor" ∷ []) [] []
    ≡ err not_iterable
unfolding compute_closure reach walk followed iterate literal_at is_inherited_name index_of
    outgoing_entries local_targets dependent_entries dedupe_sorted_object_refs first_refs sort_refs
    dedupe_sorted known_only member sort_texts distinct insert_text ids_of get
inherited_name_stops = refl

inherited_name_is_fine :
    (c : ReachableClosure) × (compute_closure
        (index_of (some "i") (indexed inherited_name))
        false
        ("constructor" ∷ [])
        []
        []
      ≡ ok c)
unfolding compute_closure reach walk followed iterate literal_at is_inherited_name index_of
    outgoing_entries local_targets dependent_entries dedupe_sorted_object_refs first_refs sort_refs
    dedupe_sorted known_only leave_out visit member sort_texts distinct insert_text ids_of get
inherited_name_is_fine = (
  record {
    root_ids = "constructor" ∷ [];
    reachable_ids = "constructor" ∷ [];
    unreachable_ids = [];
  },
  refl,
)

root_is_indexed :
    get "root" (index_of (some "i") (indexed now)).records ≡ some (object_with "root" ("a" ∷ []))
unfolding index_of get
root_is_indexed = refl

a_is_indexed : has "a" (index_of (some "i") (indexed now)).records ≡ true
unfolding index_of get
a_is_indexed = refl

root_is_local :
    is_local (index_of (some "i") (indexed now)).image (object_with "root" ("a" ∷ [])) "i" "a"
    ≡ true
unfolding index_of is_same_image
root_is_local = refl

root_mentions : mentions "i" "a" (object_with "root" ("a" ∷ [])).references ≡ true
unfolding is_unpinned_ref
root_mentions = refl

kept_references_are_kept_example :
    (member "a" planned.0.retained_ids ≡ true) × (member "a" planned.0.swept_ids ≡ false)
kept_references_are_kept_example =
    kept_references_are_kept request now (index_of (some "i") (indexed now)) (earlier ∷ [])
      planned.0 "root" "i" "a" (object_with "root" ("a" ∷ [])) built_now a_planned root_is_indexed
      (refl, tt) refl root_is_kept root_mentions root_is_local a_is_indexed
