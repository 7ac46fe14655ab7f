-- ===== src/Graph/Reachability/Exact.antt =====
-- The closure of src/graph/reachability.js: it is what is reached from its roots.
use lagrange_images.Base.{
  String, ◌+◌, ◌≡◌, ◌↔◌, refl, sym, subst, ◌∙◌, Bool, true, false, not, ◌&&◌, ◌||◌, Option, List,
  ◌++◌, arith, Bool-cases, inl, inr, length,
}
use lagrange_images.Base.Dict.{has}
use lagrange_images.Base.TextOrder.{member}
use lagrange_images.Graph.Rounds.{member-append}
use lagrange_images.Base.Result.{ok, eq_of_ok, bind-eq-ok}
use lagrange_images.Graph.References.{is_inherited_name}
use lagrange_images.Graph.Reachability.{
  Node, dedupe_sorted, Index, known_only, followed, reach, leave_out, ReachableClosure,
  compute_closure, walk, build_image_graph_index,
}
use lagrange_images.Graph.Reachability.Walk.{Reaches, walk_iff, steps, walk_total, walk_iterable}
use lagrange_images.Graph.Reachability.Known.{
  member-dedupe_sorted, member-known_only, member-leave_out,
}
use lagrange_images.Graph.Reachability.Followed.{member-record_ids, followed_known, followed_ok}
use lagrange_images.Graph.Reachability.Fuel.{walk-ends, unseen-length}

module _ (index : Index) (derived : Bool) (defaults explicit pinned : List String) where
  -- What a closure says of its roots: what is reached, and what of the index is not.
  pub record IsExact (c : ReachableClosure) : Type 0 where
    pub roots_lem :
        (k : String)
        → member k c.root_ids ≡ (
            member k defaults
            || (member k explicit && has k index.records || member k pinned && has k index.records))
    pub reachable_iff :
        (k : String)
        → (member k c.reachable_ids ≡ true) ↔ Reaches (steps (followed index derived)) c.root_ids k
    pub unreachable_lem :
        (k : String)
        → member k c.unreachable_ids ≡ (member k index.record_ids && not (member k c.reachable_ids))

  abbrev given_roots : List String
  given_roots = defaults ++ (known_only index.records explicit ++ known_only index.records pinned)

  member-given_roots :
      (k : String)
      → member k (dedupe_sorted given_roots) ≡ (
          member k defaults
          || (member k explicit && has k index.records || member k pinned && has k index.records))
  member-given_roots k =
      let m = index.records in
      member-dedupe_sorted k given_roots
      ∙ (rw
          (
            member-append k defaults (known_only m explicit ++ known_only m pinned),
            member-append k (known_only m explicit) (known_only m pinned),
            member-known_only k m explicit,
            member-known_only k m pinned,
          )
          refl)

  -- A closure that is found is exact.
  pub closed-IsExact :
      (c : ReachableClosure)
      → compute_closure index derived defaults explicit pinned ≡ ok c
      → IsExact c
  unfolding compute_closure reach
  closed-IsExact c h =
      let roots = dedupe_sorted given_roots in
      let n = length roots + length index.record_ids in
      let next = followed index derived in
      let (seen, e, h1) = bind-eq-ok (walk n next roots roots) _ h in
      let found = walk_iff (steps next) n roots seen (walk_total next n roots roots seen e) in
      let same = λ (k : String). member-dedupe_sorted k seen in
      subst IsExact (eq_of_ok h1) record {
        roots_lem = member-given_roots;
        reachable_iff = λ k. (λ q. (found k).0 (sym (same k) ∙ q), λ r. same k ∙ (found k).1 r);
        unreachable_lem = λ k.
            member-dedupe_sorted k (leave_out seen index.record_ids)
            ∙ (rw (member-leave_out k seen index.record_ids, same k) refl);
      }

  pub compute_closure-IsExact :
      (records : List Node) (image : Option String)
      → build_image_graph_index records image ≡ ok index
      → ((k : String) → member k defaults ≡ true → has k index.records ≡ true)
      → ((k : String) → has k index.records ≡ true → (derived && is_inherited_name k) ≡ false)
      → (c : ReachableClosure) × (compute_closure index derived defaults explicit pinned ≡ ok c)
        × IsExact c
  unfolding compute_closure reach
  compute_closure-IsExact records image built known clear =
      let roots = dedupe_sorted given_roots in
      let n = length roots + length index.record_ids in
      let next = followed index derived in
      let follows = followed_known records image index built derived in
      let (seen, e) =
        walk-ends n (steps next) index.record_ids roots roots
          (λ x k h. member-record_ids records image index built k ∙ follows x k h)
          (ground (arith, unseen-length index.record_ids roots)) in
      let e1 =
        walk_iterable next (λ x. has x index.records ≡ true)
          (λ x h. followed_ok records image index built derived x h (clear x h))
          (λ x k h. follows x k) n roots roots seen
          (λ x h. elim (Bool-cases (member x defaults)) [
            | inl default ↦ known x default
            | inr apart ↦ ground (arith, apart, h, member-given_roots x)
          ])
          e in
      let c : ReachableClosure = record {
        root_ids = roots;
        reachable_ids = dedupe_sorted seen;
        unreachable_ids = dedupe_sorted (leave_out seen index.record_ids);
      } in
      let found : compute_closure index derived defaults explicit pinned ≡ ok c =
        rw (e1, compute_closure, reach) refl in
      (c, found, closed-IsExact c found)
