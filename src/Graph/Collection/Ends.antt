-- ===== src/Graph/Collection/Ends.antt =====
-- src/graph/reachability.js: the plan of a collection is found.
use lagrange_images.Base.{
  String, ◌≡◌, refl, sym, ap, ◌∙◌, true, false, ◌&&◌, some, List, [], ◌∷◌, ◌++◌, All, str_eq,
  eq_iff, arith, Bool, Bool-cases, Option-cases, inl, inr, is_some,
}
use lagrange_images.Base.Dict.{Dict, get, has}
use lagrange_images.Base.Result.{ok}
use lagrange_images.Base.TextOrder.{member}
use lagrange_images.Graph.References.{is_inherited_name}
use lagrange_images.Graph.Reachability.{
  Node, build_image_graph_index, dedupe_sorted, Index, known_only, ReachableClosure,
}
use lagrange_images.Graph.Roots.{is_intrinsic_root_record}
use lagrange_images.Graph.Reachability.Known.{member-dedupe_sorted}
use lagrange_images.Graph.Reachability.Exact.{compute_closure-IsExact}
use lagrange_images.Graph.Collection.{
  intrinsic_ids, Request, default_roots, close_index, close_records, pinned_by_frontiers, GcPlan,
  plan_index, plan_image_garbage_collection,
}

-- The records can be indexed: none lacks an identity, stands twice, is of an unknown kind or is named
-- `__proto__`. If derived artifacts are asked for, none bears a name that object literals inherit.
pub record IsIndexable (q : Request) (records : List Node) : Type 0 where
  pub index : Index
  pub built : build_image_graph_index records (some q.image_id) ≡ ok index
  pub clear_lem :
      (k : String)
      → has k index.records ≡ true
      → (q.include_derived_artifacts && is_inherited_name k) ≡ false

has-intrinsic_ids :
    (test : Node → Bool) (m : Dict Node) (k : String) (ids : List String)
    → member k (intrinsic_ids test m ids) ≡ true
    → has k m ≡ true
unfolding intrinsic_ids member
has-intrinsic_ids test m k [] h = cc
has-intrinsic_ids test m k (id ∷ ids) h = elim (Option-cases (get id m)) [
  | inl e ↦ has-intrinsic_ids test m k ids (rw (e, intrinsic_ids) at h)
  | inr (r, e) ↦ elim (Bool-cases (test r)) [
    | inl root ↦ elim (Bool-cases (str_eq id k)) [
      | inl same ↦ ap is_some (ap (λ i. get i m) (sym ((eq_iff id k).0 same)) ∙ e)
      | inr apart ↦ has-intrinsic_ids test m k ids (rw (e, intrinsic_ids, root, member, apart) at h)
    ]
    | inr other ↦ has-intrinsic_ids test m k ids (rw (e, intrinsic_ids, other) at h)
  ]
]

module _ (q : Request) where
  has-default_roots :
      (index : Index) (k : String)
      → member k (default_roots q index) ≡ true
      → has k index.records ≡ true
  unfolding default_roots member
  has-default_roots index k h =
      let test = is_intrinsic_root_record q.root_object_id q.preserve_system_shapes in
      let found = intrinsic_ids test index.records index.record_ids in
      elim (Bool-cases q.include_default_roots) [
        | inl counts ↦
            has-intrinsic_ids test index.records k index.record_ids
              (sym (member-dedupe_sorted k found) ∙ (rw (counts, default_roots) at h))
        | inr without ↦ absurd (ground (arith, rw (without, default_roots, member) at h))
      ]

  closes :
      (records : List Node) (r : IsIndexable q records) (pinned : List String)
      → (c : ReachableClosure) × (close_index q r.index pinned ≡ ok c)
  unfolding close_index
  closes records r pinned =
      let (c, e, exact) =
        compute_closure-IsExact r.index q.include_derived_artifacts (default_roots q r.index)
          q.roots pinned records (some q.image_id) r.built (has-default_roots r.index)
          r.clear_lem in
      (c, e)

  closes_records :
      (records : List Node)
      → IsIndexable q records
      → (c : ReachableClosure) × (close_records q records ≡ ok c)
  unfolding close_records
  closes_records records r = let (c, e) = closes records r [] in (c, rw (r.built, close_records) e)

  pins :
      (current : Index) (snapshots : List (List Node))
      → All (IsIndexable q) snapshots
      → (found : List String) × (pinned_by_frontiers q current snapshots ≡ ok found)
  unfolding pinned_by_frontiers
  pins current [] h = ([], refl)
  pins current (snapshot ∷ snapshots) h =
      let (c, e) = closes_records snapshot h.0 in
      let (rest, e1) = pins current snapshots h.1 in
      (known_only current.records c.reachable_ids ++ rest, rw (e, e1, pinned_by_frontiers) refl)

  -- The search of a collection ends: there is a plan whenever the records of the image and those at
  -- the pinned frontiers can be indexed, and, if derived artifacts are asked for, none of them bears a
  -- name that object literals inherit.
  pub plan_image_garbage_collection-ok :
      (records : List Node) (snapshots : List (List Node))
      → IsIndexable q records
      → All (IsIndexable q) snapshots
      → (plan : GcPlan) × (plan_image_garbage_collection q records snapshots ≡ ok plan)
  unfolding plan_image_garbage_collection plan_index
  plan_image_garbage_collection-ok records snapshots r h =
      let (found, e1) = pins r.index snapshots h in
      let (c, e2) = closes records r (dedupe_sorted found) in
      (
        record {
          root_ids = c.root_ids;
          pinned_by_frontier_ids = dedupe_sorted found;
          retained_ids = c.reachable_ids;
          swept_ids = c.unreachable_ids;
        },
        rw (r.built, e1, e2, plan_image_garbage_collection, plan_index) refl,
      )
