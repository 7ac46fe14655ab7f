-- ===== src/Graph/Collection/Kept.antt =====
-- src/graph/reachability.js: a collection keeps the intrinsic roots.
use lagrange_images.Base.{
  str_eq, eq_iff, is_some, Option-cases, Bool-cases, Bool, inl, inr, String, ◌≡◌, refl, ap, ◌∙◌,
  true, false, some, List, [], ◌∷◌, arith,
}
use lagrange_images.Base.Dict.{Dict, get}
use lagrange_images.Base.TextOrder.{member, sort_texts, member-sort_texts}
use lagrange_images.Base.Result.{ok}
use lagrange_images.Graph.Reachability.{ids_of, Node, index_of}
use lagrange_images.Graph.Reachability.Walk.{start}
use lagrange_images.Graph.Reachability.Known.{member-ids_of, member-dedupe_sorted}
use lagrange_images.Graph.Roots.{is_intrinsic_root_record}
use lagrange_images.Graph.Collection.{intrinsic_ids, Request, default_roots, GcPlan, plan_index}
use lagrange_images.Graph.Collection.Safety.{plan_index-IsSafe}

member-intrinsic_ids :
    (test : Node → Bool) (m : Dict Node) (k : String) (r : Node) (ids : List String)
    → get k m ≡ some r
    → test r ≡ true
    → member k ids ≡ true
    → member k (intrinsic_ids test m ids) ≡ true
unfolding intrinsic_ids member
member-intrinsic_ids test m k r [] g t h = cc
member-intrinsic_ids test m k r (id ∷ ids) g t h = elim (Bool-cases (str_eq id k)) [
  | inl same ↦
      rw (ap (λ i. get i m) ((eq_iff id k).0 same) ∙ g, t, intrinsic_ids, member, same) refl
  | inr apart ↦
      let rest = member-intrinsic_ids test m k r ids g t (ground (arith, h, apart)) in
      elim (Option-cases (get id m)) [
        | inl e ↦ rw (e, intrinsic_ids) rest
        | inr (s, e) ↦ elim (Bool-cases (test s)) [
          | inl yes_root ↦ rw (e, yes_root, intrinsic_ids, member, apart) rest
          | inr not_root ↦ rw (e, not_root, intrinsic_ids) rest
        ]
      ]
]

member-default_roots :
    (q : Request) (m : Dict Node) (k : String) (r : Node)
    → q.include_default_roots ≡ true
    → get k m ≡ some r
    → is_intrinsic_root_record q.root_object_id q.preserve_system_shapes r ≡ true
    → member k (default_roots q (index_of (some q.image_id) m)) ≡ true
unfolding default_roots index_of
member-default_roots q m k r counts present root =
    let test = is_intrinsic_root_record q.root_object_id q.preserve_system_shapes in
    let ids = sort_texts (ids_of m) in
    let listed = member-sort_texts k (ids_of m) ∙ member-ids_of k m ∙ ap is_some present in
    rw (counts, default_roots)
      (member-dedupe_sorted k (intrinsic_ids test m ids)
        ∙ member-intrinsic_ids test m k r ids present root listed)

-- If the default roots count, then no collection sweeps a record that is an intrinsic root, such as the
-- image's root object, a shape of the system, a class, or the head of a branch.
pub intrinsic_root_is_kept :
    (q : Request) (m : Dict Node) (snapshots : List (List Node)) (plan : GcPlan) (k : String)
    (r : Node)
    → plan_index q (index_of (some q.image_id) m) snapshots ≡ ok plan
    → q.include_default_roots ≡ true
    → get k m ≡ some r
    → is_intrinsic_root_record q.root_object_id q.preserve_system_shapes r ≡ true
    → (member k plan.retained_ids ≡ true) × (member k plan.swept_ids ≡ false)
intrinsic_root_is_kept q m snapshots plan k r h counts present root =
    let safe = plan_index-IsSafe q (index_of (some q.image_id) m) snapshots plan h in
    let kept = (safe.retained_iff k).1 (
      start k
        (ground (arith, safe.roots_lem k, member-default_roots q m k r counts present root))) in
    (kept, ground (arith, kept, safe.swept_lem k))
