-- ===== src/Graph/Merge/Plan/Rounds.antt =====
-- The loop of mergeImageRecords in src/graph/merge.js: the plan has the rounds' outcomes, and no other.
use lagrange_images.Base.{
  String, ◌≡◌, refl, sym, ap, ◌∙◌, Bool, true, false, ◌||◌, Option, none, some, List, [], ◌∷◌, ◌++◌,
  if◌then◌else◌, is_some, arith, Bool-cases, eq_iff,
}
use lagrange_images.Base.Dict.{Dict, get}
use lagrange_images.Base.Result.{Result, ok, err, bind-eq-ok, eq_of_ok}
use lagrange_images.Base.TextOrder.{
  member, sort_texts, distinct, member-sort_texts, member-distinct,
}
use lagrange_images.Graph.Rounds.{before, before_member, listed, member-append}
use lagrange_images.Graph.Canonical.{GraphError, Record}
use lagrange_images.Graph.Diff.{keys}
use lagrange_images.Graph.Diff.Records.{member-keys}
use lagrange_images.Graph.Merge.Values.Laws.{get-add_conflict}
use lagrange_images.Graph.Merge.Records.{Resolution, Round, nothing, merge_one}
use lagrange_images.Graph.Merge.Plan.{
  MergePlan, empty_plan, push_round, round_of, plan_ids, merge_maps,
}

abbrev pub outcome : Result GraphError Round → Round
outcome (err e) = nothing
outcome (ok round) = round

-- What the plan says of an identity is what a round pushed.
pub record IsPlanned (plan : MergePlan) (k : String) (round : Round) : Type 0 where
  pub merged_lem : get k plan.merged_records ≡ round.merged
  pub applied_lem : get k plan.applied_changes ≡ round.applied
  pub removed_lem : member k plan.removed_ids ≡ round.removed
  pub conflict_lem : get k plan.conflicts ≡ round.conflict

module _ (out : String → Round) where
  abbrev plan_of : List String → MergePlan
  plan_of [] = empty_plan
  plan_of (id ∷ ids) = push_round id (out id) (plan_of ids)

  merged-plan_of :
      (k : String) (ids : List String)
      → get k (plan_of ids).merged_records ≡ (if member k ids then (out k).merged else none)
  unfolding push_round member get
  merged-plan_of k [] = refl
  merged-plan_of k (id ∷ ids) =
      get-add_conflict id k (out id).merged (plan_of ids).merged_records
      ∙ ap (before id (out id).merged k) (merged-plan_of k ids)
      ∙ before_member (λ x. (out x).merged) id k (member k ids)

  applied-plan_of :
      (k : String) (ids : List String)
      → get k (plan_of ids).applied_changes ≡ (if member k ids then (out k).applied else none)
  unfolding push_round member get
  applied-plan_of k [] = refl
  applied-plan_of k (id ∷ ids) =
      get-add_conflict id k (out id).applied (plan_of ids).applied_changes
      ∙ ap (before id (out id).applied k) (applied-plan_of k ids)
      ∙ before_member (λ x. (out x).applied) id k (member k ids)

  conflicts-plan_of :
      (k : String) (ids : List String)
      → get k (plan_of ids).conflicts ≡ (if member k ids then (out k).conflict else none)
  unfolding push_round member get
  conflicts-plan_of k [] = refl
  conflicts-plan_of k (id ∷ ids) =
      get-add_conflict id k (out id).conflict (plan_of ids).conflicts
      ∙ ap (before id (out id).conflict k) (conflicts-plan_of k ids)
      ∙ before_member (λ x. (out x).conflict) id k (member k ids)

  removed-plan_of :
      (k : String) (ids : List String)
      → member k (plan_of ids).removed_ids ≡ (if member k ids then (out k).removed else false)
  unfolding push_round member
  removed-plan_of k [] = refl
  removed-plan_of k (id ∷ ids) =
      ground (arith, removed-plan_of k ids, eq_iff id k, Bool-cases (out id).removed)

nowhere :
    (b l r : Option Record) (res : Option Resolution) (target : Option String)
    → (is_some b || (is_some l || is_some r)) ≡ false
    → outcome (merge_one b l r res target) ≡ nothing
unfolding merge_one
nowhere none none none res target h = refl
nowhere none none (some r) res target h = cc
nowhere none (some l) r res target h = cc
nowhere (some b) l r res target h = cc

pub listed_bool :
    {ids : Bool} (b r : Bool) → ids ≡ b → (b ≡ false → r ≡ false) → (if ids then r else false) ≡ r
listed_bool true r e h = rw e refl
listed_bool false r e h = rw e (sym (h refl))

module _ (b l r : Dict Record) (resolutions : Dict Resolution) (target : Option String) where
  abbrev pub round_at : String → Round
  round_at k = outcome (round_of b l r resolutions target k)

  plan_ids-plan_of :
      (ids : List String) (plan : MergePlan)
      → plan_ids b l r resolutions target ids ≡ ok plan
      → plan ≡ plan_of round_at ids
  unfolding plan_ids
  plan_ids-plan_of [] plan h = sym (eq_of_ok h)
  plan_ids-plan_of (id ∷ ids) plan h =
      let (round, e, h1) = bind-eq-ok (round_of b l r resolutions target id) _ h in
      let (rest, e1, h2) = bind-eq-ok (plan_ids b l r resolutions target ids) _ h1 in
      let p = ap outcome (sym e) in
      let q = plan_ids-plan_of ids rest e1 in sym (eq_of_ok h2) ∙ (λ i. push_round id (p i) (q i))

  plan_ids-ok :
      (ids : List String)
      → ((k : String) → (round : Round) × (round_of b l r resolutions target k ≡ ok round))
      → (plan : MergePlan) × (plan_ids b l r resolutions target ids ≡ ok plan)
  unfolding plan_ids
  plan_ids-ok [] h = (empty_plan, refl)
  plan_ids-ok (id ∷ ids) h =
      let (round, e) = h id in
      let (rest, e1) = plan_ids-ok ids h in (push_round id round rest, rw (e, e1, plan_ids) refl)

  member-plan_ids :
      (k : String)
      → member k (sort_texts (distinct (keys b ++ (keys l ++ keys r))))
        ≡ (is_some (get k b) || (is_some (get k l) || is_some (get k r)))
  member-plan_ids k =
      rw
        (
          member-sort_texts k (distinct (keys b ++ (keys l ++ keys r))),
          member-distinct k (keys b ++ (keys l ++ keys r)),
          member-append k (keys b) (keys l ++ keys r),
          member-append k (keys l) (keys r),
          member-keys k b,
          member-keys k l,
          member-keys k r,
        )
        refl

  -- A plan has, at every identity, what the round of that identity pushed.
  pub merge_maps-IsPlanned :
      (plan : MergePlan)
      → merge_maps b l r resolutions target ≡ ok plan
      → (k : String) → IsPlanned plan k (round_at k)
  unfolding merge_maps round_of
  merge_maps-IsPlanned plan h k =
      let ids = sort_texts (distinct (keys b ++ (keys l ++ keys r))) in
      let e = plan_ids-plan_of ids plan h in
      let all = member-plan_ids k in
      let any = is_some (get k b) || (is_some (get k l) || is_some (get k r)) in
      let away = nowhere (get k b) (get k l) (get k r) (get k resolutions) target in
      record {
        merged_lem =
            ap (λ p. get k p.merged_records) e
            ∙ merged-plan_of round_at k ids
            ∙ listed any (round_at k).merged all (λ h. ap (λ o. o.merged) (away h));
        applied_lem =
            ap (λ p. get k p.applied_changes) e
            ∙ applied-plan_of round_at k ids
            ∙ listed any (round_at k).applied all (λ h. ap (λ o. o.applied) (away h));
        removed_lem =
            ap (λ p. member k p.removed_ids) e
            ∙ removed-plan_of round_at k ids
            ∙ listed_bool any (round_at k).removed all (λ h. ap (λ o. o.removed) (away h));
        conflict_lem =
            ap (λ p. get k p.conflicts) e
            ∙ conflicts-plan_of round_at k ids
            ∙ listed any (round_at k).conflict all (λ h. ap (λ o. o.conflict) (away h));
      }

  -- There is a plan if no round fails.
  pub merge_maps-ok :
      ((k : String) → (round : Round) × (round_of b l r resolutions target k ≡ ok round))
      → (plan : MergePlan) × (merge_maps b l r resolutions target ≡ ok plan)
  unfolding merge_maps
  merge_maps-ok h = plan_ids-ok (sort_texts (distinct (keys b ++ (keys l ++ keys r)))) h
