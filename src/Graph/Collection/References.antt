-- ===== src/Graph/Collection/References.antt =====
-- src/graph/reachability.js: a collection leaves no reference dangling.
use lagrange_images.Base.{
  String, ◌≡◌, refl, sym, ap, ◌∙◌, subst, Bool, true, false, ◌&&◌, Option, none, some, is_some,
  List, [], ◌∷◌, eq_iff, arith, Bool-cases, inl, inr, All,
}
use lagrange_images.Base.Dict.{Dict, get, has}
use lagrange_images.Base.TextOrder.{member, sort_texts, member-sort_texts}
use lagrange_images.Base.Result.{ok, bind-eq-ok, eq_of_ok}
use lagrange_images.Graph.Rounds.{member-append}
use lagrange_images.Graph.References.{Ref, dedupe_sorted_object_refs, is_inherited_name, literal_at}
use lagrange_images.Graph.References.Kept.{
  IsNulFree, names, mentions, mentions-dedupe_sorted_object_refs,
}
use lagrange_images.Graph.Reachability.{
  Node, Index, index_of, ids_of, build_image_graph_index, is_same_image, local_targets, followed,
  iterate, known_only, dedupe_sorted,
}
use lagrange_images.Graph.Reachability.Walk.{steps}
use lagrange_images.Graph.Reachability.Known.{member-dedupe_sorted, member-ids_of}
use lagrange_images.Graph.Reachability.Followed.{followed_ok, iterated, built_lem}
use lagrange_images.Graph.Queries.Inverse.{at_key, member-outgoing_entries}
use lagrange_images.Graph.Collection.{Request, GcPlan, plan_index}
use lagrange_images.Graph.Collection.Safety.{swept_is_not_followed}

-- The image of a reference is the index's own, or the record's.
abbrev pub is_local : Option String → Node → String → String → Bool
is_local image r from target =
    is_same_image image r (record { kind = "ref"; image_id = from; object_id = target })

same_image-at :
    (image : Option String) (r : Node) (ref : Ref) (from target : String)
    → ref.image_id ≡ from
    → is_same_image image r ref ≡ is_local image r from target
unfolding is_same_image
same_image-at none r ref from target e = refl
same_image-at (some i) r ref from target e = ap (λ f. is_local (some i) r f target) e

mentioned_is_local :
    (image : Option String) (m : Dict Node) (r : Node) (from target : String) (refs : List Ref)
    → is_local image r from target ≡ true
    → has target m ≡ true
    → mentions from target refs ≡ true
    → member target (local_targets image m r refs) ≡ true
unfolding local_targets member
mentioned_is_local image m r from target [] same present h = cc
mentioned_is_local image m r from target (ref ∷ refs) same present h =
    elim (Bool-cases (names from target ref)) [
      | inl here ↦
          let at = (eq_iff ref.image_id from).0 (ground (arith, here)) in
          let to : ref.object_id ≡ target =
            (eq_iff ref.object_id target).0 (ground (arith, here)) in
          let taken : (is_same_image image r ref && has ref.object_id m) ≡ true =
            rw (same_image-at image r ref from target at, same, to, present) refl in
          rw (taken, local_targets) (ground (arith, (eq_iff ref.object_id target).1 to))
      | inr other ↦
          let rest =
            mentioned_is_local image m r from target refs same present (ground (arith, h, other)) in
          elim (Bool-cases (is_same_image image r ref && has ref.object_id m)) [
            | inl taken ↦ rw (taken, local_targets) (ground (arith, rest))
            | inr left ↦ rw (left, local_targets) rest
          ]
    ]

local_is_followed :
    (index : Index) (derived : Bool) (x target : String) (ids : List String)
    → followed index derived x ≡ ok ids
    → member target (at_key x index.outgoing_local_ids) ≡ true
    → member target ids ≡ true
unfolding followed
local_is_followed index derived x target ids h here =
    let (local, e, h1) = bind-eq-ok (iterate (literal_at x index.outgoing_local_ids)) _ h in
    let same = ap (member target) (iterated x index.outgoing_local_ids local e) in
    elim (Bool-cases derived) [
      | inl there ↦
          let (sources, e1, h2) =
            bind-eq-ok (iterate (literal_at x index.dependents_of_source)) _ (rw there at h1) in
          ground (
            arith,
            same,
            here,
            sym (ap (member target) (eq_of_ok h2)),
            member-append target local (known_only index.records sources),
          )
      | inr none_asked ↦
          ground (arith, same, here, ap (member target) (eq_of_ok (rw none_asked at h1)))
    ]

mentioned_is_outgoing :
    (image : Option String) (m : Dict Node) (x from target : String) (r : Node)
    → get x m ≡ some r
    → All IsNulFree r.references
    → mentions from target r.references ≡ true
    → is_local image r from target ≡ true
    → has target m ≡ true
    → member target (at_key x (index_of image m).outgoing_local_ids) ≡ true
unfolding index_of
mentioned_is_outgoing image m x from target r g free h same present =
    let refs = dedupe_sorted_object_refs r.references in
    let listed : member x (sort_texts (ids_of m)) ≡ true =
      member-sort_texts x (ids_of m) ∙ member-ids_of x m ∙ ap is_some g in
    let here : member target (dedupe_sorted (local_targets image m r refs)) ≡ true =
      member-dedupe_sorted target (local_targets image m r refs)
      ∙ mentioned_is_local image m r from target refs same present
          (mentions-dedupe_sorted_object_refs from target r.references free h) in
    member-outgoing_entries image m x target (sort_texts (ids_of m)) ∙ (rw (listed, g) here)

-- No record that a collection keeps has a reference to one that it sweeps: if a record is kept, and
-- has an unpinned reference to an object of the image that the index has, then that is kept too. No
-- image among the record's references is named with a NUL, and if derived artifacts are asked for, the
-- record bears no name that object literals inherit.
pub kept_references_are_kept :
    (q : Request) (records : List Node) (index : Index) (snapshots : List (List Node))
    (plan : GcPlan) (x from target : String) (r : Node)
    → build_image_graph_index records (some q.image_id) ≡ ok index
    → plan_index q index snapshots ≡ ok plan
    → get x index.records ≡ some r
    → All IsNulFree r.references
    → (q.include_derived_artifacts && is_inherited_name x) ≡ false
    → member x plan.retained_ids ≡ true
    → mentions from target r.references ≡ true
    → is_local index.image r from target ≡ true
    → has target index.records ≡ true
    → (member target plan.retained_ids ≡ true) × (member target plan.swept_ids ≡ false)
kept_references_are_kept q records index snapshots plan x from target r built planned g free clear
      kept h same present =
    let (image, m, e) = built_lem records (some q.image_id) index built in
    let outgoing : member target (at_key x index.outgoing_local_ids) ≡ true =
      subst
        (λ (i : Index).
          get x i.records ≡ some r
          → is_local i.image r from target ≡ true
          → has target i.records ≡ true
          → member target (at_key x i.outgoing_local_ids) ≡ true)
        (sym e)
        (unfold index_of in
          λ g1 s1 p1. mentioned_is_outgoing image m x from target r g1 free h s1 p1)
        g same present in
    let derived = q.include_derived_artifacts in
    let (ids, e1) =
      followed_ok records (some q.image_id) index built derived x (ap is_some g) clear in
    swept_is_not_followed q index snapshots plan x target planned kept
      (rw (e1, steps) (local_is_followed index derived x target ids e1 outgoing))
