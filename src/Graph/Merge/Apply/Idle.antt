-- ===== src/Graph/Merge/Apply/Idle.antt =====
-- src/graph/merge.js: a merge that the image already holds.
use lagrange_images.Base.{
  String, ◌≡◌, refl, Bool, true, false, some, List, [], ◌∷◌, ◌||◌, str_eq, All,
}
use lagrange_images.Base.Json.{Json, Fields, get_field}
use lagrange_images.Base.Result.{ok}
use lagrange_images.Graph.Canonical.{Record, json_of, same_record, normalize_record}
use lagrange_images.Graph.Diff.Replay.{name_of}
use lagrange_images.Graph.Merge.Rehome.{rehome_record}
use lagrange_images.Graph.Merge.Plan.{MergePlan, is_clean}
use lagrange_images.Graph.Merge.Apply.{
  ordered_writes, written_records, ImageService, apply_records, apply_image_merge,
  apply_single_merged_record, is_stored, write_record, put_fields,
}

module _ {S : Type 0} (images : ImageService S) (host_sort : List Record → List Record)
    (target : String) (s : S) where
  -- What the image would be given for a record, and that it already holds it.
  pub record IsHeld (r : Record) : Type 0 where
    pub rehomed : Record
    pub passed : Fields
    pub raw : Json
    pub found : Record
    pub rehomed_lem :
        rehome_record (json_of r) (name_of (get_field "imageId" r.fields)) (some target)
        ≡ ok rehomed
    pub passed_lem : put_fields rehomed ≡ some passed
    pub find_lem : images.find s rehomed.kind target rehomed.id ≡ some raw
    pub found_lem : normalize_record raw ≡ ok found
    pub same_lem : same_record found rehomed ≡ true

  held_single :
      (r : Record)
      → (h : IsHeld r) → apply_single_merged_record images host_sort target s r ≡ ok (h.raw, s)
  unfolding apply_single_merged_record write_record is_stored
  held_single r h =
      rw
        (
          h.rehomed_lem, h.passed_lem, h.find_lem, h.found_lem, h.same_lem,
          apply_single_merged_record, write_record, is_stored,
        )
        (rw h.find_lem refl)

  held_records :
      (rs : List Record)
      → All IsHeld rs
      → (saved : List Json) × (apply_records images host_sort target s rs ≡ ok (saved, s))
  unfolding apply_records
  held_records [] h = ([], refl)
  held_records (r ∷ rs) h =
      let (saved, e) = held_records rs h.1 in
      (h.0.raw ∷ saved, rw (held_single r h.0, e, apply_records) refl)

  -- A plan that may be applied, and whose writes the image already holds, is applied without a change
  -- to the image.
  pub apply_image_merge-idle :
      (plan : MergePlan) (allow_conflicts : Bool)
      → str_eq target "" ≡ false
      → (is_clean plan || allow_conflicts) ≡ true
      → All IsHeld (ordered_writes host_sort (written_records plan.applied_changes))
      → (saved : List Json) × (apply_image_merge images host_sort target s plan allow_conflicts
          ≡ ok (saved, s))
  unfolding apply_image_merge
  apply_image_merge-idle plan allow_conflicts named allowed held =
      let (saved, e) =
        held_records (ordered_writes host_sort (written_records plan.applied_changes)) held in
      (saved, rw (named, allowed) e)
