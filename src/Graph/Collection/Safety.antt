-- ===== src/Graph/Collection/Safety.antt =====
-- src/graph/reachability.js: a collection sweeps nothing that is reached.
use lagrange_images.Base.{
  String, ◌≡◌, sym, ap, ◌∙◌, subst, true, false, not, ◌&&◌, ◌||◌, List, [], ◌∷◌, arith, All, ◌↔◌,
}
use lagrange_images.Base.Dict.{has}
use lagrange_images.Base.TextOrder.{member}
use lagrange_images.Base.Result.{ok, bind-eq-ok, eq_of_ok}
use lagrange_images.Graph.Rounds.{member-append}
use lagrange_images.Graph.Reachability.{
  Node, dedupe_sorted, Index, known_only, followed, ReachableClosure,
}
use lagrange_images.Graph.Reachability.Walk.{Reaches, step, start, steps}
use lagrange_images.Graph.Reachability.Known.{member-dedupe_sorted, member-known_only}
use lagrange_images.Graph.Reachability.Exact.{closed-IsExact}
use lagrange_images.Graph.Collection.{
  Request, default_roots, close_index, close_records, pinned_by_frontiers, GcPlan, plan_index,
}

-- A plan for the records of an index, as a collection must keep them.
pub record IsSafe (q : Request) (index : Index) (snapshots : List (List Node)) (plan : GcPlan)
    : Type 0 where
  -- Every record is either kept or swept, and nothing else is swept.
  pub swept_lem :
      (k : String)
      → member k plan.swept_ids ≡ (member k index.record_ids && not (member k plan.retained_ids))
  -- What is kept is exactly what is reached from the roots.
  pub retained_iff :
      (k : String)
      → (member k plan.retained_ids ≡ true)
        ↔ Reaches (steps (followed index q.include_derived_artifacts)) plan.root_ids k
  -- The roots are the default ones, those asked for, and the pinned ones.
  pub roots_lem :
      (k : String)
      → member k plan.root_ids ≡ (
          member k (default_roots q index)
          || (member k q.roots && has k index.records
              || member k plan.pinned_by_frontier_ids && has k index.records))
  -- What is reached at a pinned frontier is kept, if it is still there.
  pub keeps_snapshots :
      All
        (λ snapshot.
          (c : ReachableClosure)
          → close_records q snapshot ≡ ok c
          → (k : String) → member k c.reachable_ids ≡ true
          → has k index.records ≡ true
          → member k plan.retained_ids ≡ true)
        snapshots

module _ (q : Request) (here : Index) where
  -- What is pinned, of every snapshot.
  pinned_by_frontiers_lem :
      (keep : List String) (snapshots : List (List Node)) (found : List String)
      → pinned_by_frontiers q here snapshots ≡ ok found
      → ((k : String) → member k found ≡ true → has k here.records ≡ true → member k keep ≡ true)
      → All
          (λ snapshot.
            (c : ReachableClosure)
            → close_records q snapshot ≡ ok c
            → (k : String) → member k c.reachable_ids ≡ true
            → has k here.records ≡ true
            → member k keep ≡ true)
          snapshots
  unfolding pinned_by_frontiers
  pinned_by_frontiers_lem keep [] found h into = tt
  pinned_by_frontiers_lem keep (snapshot ∷ snapshots) found h into =
      let (c, e, h1) = bind-eq-ok (close_records q snapshot) _ h in
      let (rest, e1, h2) = bind-eq-ok (pinned_by_frontiers q here snapshots) _ h1 in
      let at = λ (k : String).
        sym (ap (member k) (eq_of_ok h2))
        ∙ member-append k (known_only here.records c.reachable_ids) rest in
      (
        λ d e2 k r present.
            let same = ap (λ x. member k x.reachable_ids) (eq_of_ok (sym e2 ∙ e)) in
            into k
              (ground
                (arith, at k, member-known_only k here.records c.reachable_ids, same, r, present))
              present,
        pinned_by_frontiers_lem keep snapshots rest e1
            (λ k r present. into k (ground (arith, at k, r)) present),
      )

  pub plan_index-IsSafe :
      (snapshots : List (List Node)) (plan : GcPlan)
      → plan_index q here snapshots ≡ ok plan
      → IsSafe q here snapshots plan
  unfolding plan_index close_index
  plan_index-IsSafe snapshots plan h =
      let (found, e, h1) = bind-eq-ok (pinned_by_frontiers q here snapshots) _ h in
      let (c, e1, h2) = bind-eq-ok (close_index q here (dedupe_sorted found)) _ h1 in
      let exact =
        closed-IsExact here q.include_derived_artifacts (default_roots q here) q.roots
          (dedupe_sorted found) c e1 in
      subst (IsSafe q here snapshots) (eq_of_ok h2) record {
        swept_lem = exact.unreachable_lem;
        retained_iff = exact.reachable_iff;
        roots_lem = exact.roots_lem;
        keeps_snapshots = pinned_by_frontiers_lem c.reachable_ids snapshots found e (λ k f present.
            (exact.reachable_iff k).1 (
              start k
                (ground (arith, exact.roots_lem k, member-dedupe_sorted k found, f, present))));
      }

-- No record that a collection keeps refers to one that it sweeps, nor is one that derives from it
-- swept if derived artifacts count.
pub swept_is_not_followed :
    (q : Request) (index : Index) (snapshots : List (List Node)) (plan : GcPlan) (x k : String)
    → plan_index q index snapshots ≡ ok plan
    → member x plan.retained_ids ≡ true
    → member k (steps (followed index q.include_derived_artifacts) x) ≡ true
    → (member k plan.retained_ids ≡ true) × (member k plan.swept_ids ≡ false)
swept_is_not_followed q index snapshots plan x k h kept along =
    let safe = plan_index-IsSafe q index snapshots plan h in
    let stays = (safe.retained_iff k).1 (step x k ((safe.retained_iff x).0 kept) along) in
    (stays, ground (arith, stays, safe.swept_lem k))
