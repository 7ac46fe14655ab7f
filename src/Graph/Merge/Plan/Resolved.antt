-- ===== src/Graph/Merge/Plan/Resolved.antt =====
-- src/graph/merge.js: conflicts that the first merge lists, and the merge after a side is picked for each.
use lagrange_images.Base.{
  String, ◌≡◌, ◌⊎◌, [], refl, ap, ◌∙◌, Bool, true, false, not, ◌&&◌, ◌||◌, Option, none, some,
  if◌then◌else◌, str_eq, is_some, Option-cases, inl, inr,
}
use lagrange_images.Base.Dict.{Dict, get}
use lagrange_images.Base.Result.{Result, ok}
use lagrange_images.Graph.Rounds.{no_entries}
use lagrange_images.Graph.Canonical.{GraphError, Record, same_record}
use lagrange_images.Graph.Merge.Objects.{
  MergedRecord, RecordConflict, merge_object_records, merge_environment_records,
}
use lagrange_images.Graph.Merge.Records.{
  added_left, added_right, added_both, removed_left, removed_right, removed_both, modified_left,
  modified_right, modified_both_identical, merged_object, merged_environment, Resolution, use_left,
  use_right, use_base, use_record, other_resolution, apply_conflict_resolution, clone_record,
  Action, Round, nothing, writes, removes, WhenGone, remove_only, remove_and_note, keep_quiet, gone,
  resolved, conflicts_with, merged_or_conflict, merge_diverged, merge_present, merge_added,
  merge_deleted, merge_one,
}
use lagrange_images.Graph.Merge.Plan.{MergePlan, round_of, merge_maps, is_clean}
use lagrange_images.Graph.Merge.Plan.Rounds.{outcome, merge_maps-IsPlanned, merge_maps-ok}

-- The side that a resolution picks.
abbrev pub picks : Option Resolution → Bool
picks (some use_left) = true
picks (some use_right) = true
picks (some use_base) = true
picks _ = false

abbrev pub picked :
    Option Resolution → Option Record → Option Record → Option Record → Option Record
picked (some use_left) b l r = l
picked (some use_right) b l r = r
picked _ b l r = b

module _ (b l r : Option Record) (target : Option String)
    (f : Option Resolution → Result GraphError Round) where
  -- The outcome needs no resolution.
  abbrev IsSettled : Type 0
  IsSettled =
      (round : Round) × (round.conflict ≡ none) × ((res : Option Resolution) → f res ≡ ok round)

  -- The outcome is a conflict that shows the three records.
  abbrev IsAsking : Type 0
  IsAsking =
      (c : RecordConflict) × (stand_in : Option Record) × (when : WhenGone) × (c.base ≡ b)
      × (c.left ≡ l)
      × (c.right ≡ r)
      × ((res : Option Resolution) → f res ≡ conflicts_with c stand_in when res target)

  abbrev IsEither : Type 0
  IsEither = IsSettled ⊎ IsAsking

module _ (target : Option String) where
  settled :
      {b l r : Option Record} (round : Round)
      → round.conflict ≡ none
      → IsEither b l r target (λ res. ok round)
  settled round h = inl (round, h, λ res. refl)

  -- A guard chooses between outcomes of this form.
  guarded :
      {b l r : Option Record} (test : Bool) {f g : Option Resolution → Result GraphError Round}
      → IsEither b l r target f
      → IsEither b l r target g
      → IsEither b l r target (λ res. if test then f res else g res)
  guarded true hf hg = hf
  guarded false hf hg = hg

  asks :
      (c : RecordConflict) (stand_in : Option Record) (when : WhenGone)
      → IsEither c.base c.left c.right target (λ res. conflicts_with c stand_in when res target)
  asks c stand_in when = inr (c, stand_in, when, refl, refl, refl, λ res. refl)

  merged_or_conflict-IsEither :
      (action : Action) (m : MergedRecord) (b l r : Record)
      → IsEither
          (some b)
          (some l)
          (some r)
          target
          (λ res. merged_or_conflict action m b l r res target)
  unfolding merged_or_conflict writes
  merged_or_conflict-IsEither action m b l r = elim (Option-cases m.conflict) [
    | inl e ↦ rw e (settled (writes action m.merged) refl)
    | inr (detail, e) ↦ rw e (asks _ _ _)
  ]

  merge_diverged-IsEither :
      (b l r : Record)
      → IsEither (some b) (some l) (some r) target (λ res. merge_diverged b l r res target)
  unfolding merge_diverged
  merge_diverged-IsEither b l r =
      guarded (not (str_eq l.kind r.kind) || not (str_eq l.kind b.kind)) (asks _ _ _) (
        guarded (str_eq b.kind "object")
          (merged_or_conflict-IsEither merged_object (merge_object_records b l r) b l r)
          (guarded (str_eq b.kind "lexical-environment")
            (merged_or_conflict-IsEither merged_environment (merge_environment_records b l r) b l r)
            (asks _ _ _)))

  merge_one-IsEither :
      (b l r : Option Record) → IsEither b l r target (λ res. merge_one b l r res target)
  unfolding merge_one merge_added merge_deleted merge_present writes removes
  merge_one-IsEither none none none = settled nothing refl
  merge_one-IsEither none (some l) none = settled (writes added_left l) refl
  merge_one-IsEither none none (some r) = settled (writes added_right r) refl
  merge_one-IsEither none (some l) (some r) =
      guarded (same_record l r) (settled (writes added_both l) refl) (asks _ _ _)
  merge_one-IsEither (some b) none none = settled (removes removed_both b) refl
  merge_one-IsEither (some b) none (some r) =
      guarded (same_record r b) (settled (removes removed_left b) refl) (asks _ _ _)
  merge_one-IsEither (some b) (some l) none =
      guarded (same_record l b) (settled (removes removed_right b) refl) (asks _ _ _)
  merge_one-IsEither (some b) (some l) (some r) =
      guarded (same_record l b && same_record r b)
        (settled record nothing { merged = some b; unchanged = true } refl)
        (guarded (same_record l b) (settled (writes modified_right r) refl) (
          guarded (same_record r b) (settled (writes modified_left l) refl) (
            guarded (same_record l r) (settled (writes modified_both_identical l) refl)
              (merge_diverged-IsEither b l r))))

-- The round of a resolution that picks a side.
pick_round :
    (b l r : Option Record) (res : Option Resolution) (target : Option String) (c : RecordConflict)
    (stand_in : Option Record) (when : WhenGone)
    → c.base ≡ b
    → c.left ≡ l
    → c.right ≡ r
    → picks res ≡ true
    → conflicts_with c stand_in when res target
      ≡ ok (resolved when c.kind (clone_record (picked res b l r)))
unfolding conflicts_with apply_conflict_resolution
pick_round b l r (some use_left) target c stand_in when p q s h =
    ap (λ o. ok (resolved when c.kind (clone_record o))) q
pick_round b l r (some use_right) target c stand_in when p q s h =
    ap (λ o. ok (resolved when c.kind (clone_record o))) s
pick_round b l r (some use_base) target c stand_in when p q s h =
    ap (λ o. ok (resolved when c.kind (clone_record o))) p
pick_round b l r (some (use_record raw)) target c stand_in when p q s h = cc
pick_round b l r (some other_resolution) target c stand_in when p q s h = cc
pick_round b l r none target c stand_in when p q s h = cc

merged-resolved :
    (when : WhenGone) (kind : String) (o : Option Record)
    → ((resolved when kind o).merged ≡ o) × ((resolved when kind o).conflict ≡ none)
unfolding resolved gone writes
merged-resolved when kind (some r) = (refl, refl)
merged-resolved remove_only kind none = (refl, refl)
merged-resolved remove_and_note kind none = (refl, refl)
merged-resolved keep_quiet kind none = (refl, refl)

module _ (b l r : Option Record) (target : Option String) where
  -- The first outcome, without a resolution.
  first_round : (round : Round) × (merge_one b l r none target ≡ ok round)
  unfolding conflicts_with
  first_round = elim (merge_one-IsEither target b l r) [
    | inl (round, c, e) ↦ (round, e none)
    | inr (c, stand_in, when, eb, el, er, e) ↦ (_, e none)
  ]

  -- With a resolution that picks a side, if the first outcome is a conflict.
  second_round :
      (res : Option Resolution)
      → (is_some (outcome (merge_one b l r none target)).conflict ≡ true → picks res ≡ true)
      → (round : Round) × (merge_one b l r res target ≡ ok round)
        × (round.conflict ≡ none)
        × (round.merged ≡ (
            if is_some (outcome (merge_one b l r none target)).conflict
            then clone_record (picked res b l r)
            else (outcome (merge_one b l r none target)).merged))
  unfolding conflicts_with
  second_round res h = elim (merge_one-IsEither target b l r) [
    | inl (round, c, e) ↦ (round, e res, c, rw (e none, c) refl)
    | inr (c, stand_in, when, eb, el, er, e) ↦
        let m = merged-resolved when c.kind (clone_record (picked res b l r)) in
        let p =
          pick_round b l r res target c stand_in when eb el er
            (h (ap (λ o. is_some (outcome o).conflict) (e none))) in
        (resolved when c.kind (clone_record (picked res b l r)), e res ∙ p, m.1, rw (e none) m.0)
  ]

module _ (b l r : Dict Record) (target : Option String) where
  -- Without resolutions, there is always a plan.
  pub merge_maps-total : (plan : MergePlan) × (merge_maps b l r [] target ≡ ok plan)
  unfolding round_of get
  merge_maps-total =
      merge_maps-ok b l r [] target (λ k. first_round (get k b) (get k l) (get k r) target)

  module _ (resolutions : Dict Resolution) (plan : MergePlan)
      (planned : merge_maps b l r [] target ≡ ok plan)
      (all_picked : (k : String)
        → is_some (get k plan.conflicts) ≡ true
        → picks (get k resolutions) ≡ true) where
    first_at : String → Round
    first_at k = outcome (merge_one (get k b) (get k l) (get k r) none target)

    second_at :
        (k : String)
        → (round : Round) × (round_of b l r resolutions target k ≡ ok round)
          × (round.conflict ≡ none)
          × (round.merged ≡ (
              if is_some (get k plan.conflicts)
              then clone_record (picked (get k resolutions) (get k b) (get k l) (get k r))
              else get k plan.merged_records))
    unfolding round_of get first_at
    second_at k =
        let at = merge_maps-IsPlanned b l r [] target plan planned k in
        let (round, e, c, m) =
          second_round (get k b) (get k l) (get k r) target (get k resolutions)
            (λ h. all_picked k (ap is_some at.conflict_lem ∙ h)) in
        (round, e, c, rw (at.conflict_lem, at.merged_lem) m)

    -- A merge whose resolutions pick a side for every conflict that the merge without resolutions
    -- lists, succeeds without a conflict; at those identities it has the canonical form of what the picked
    -- side has, a missing record included, and at all others what the merge without resolutions has.
    pub merge_maps-resolves :
        (next : MergePlan) × (merge_maps b l r resolutions target ≡ ok next)
        × (is_clean next ≡ true)
        × ((k : String)
            → get k next.merged_records ≡ (
                if is_some (get k plan.conflicts)
                then clone_record (picked (get k resolutions) (get k b) (get k l) (get k r))
                else get k plan.merged_records))
    unfolding is_clean
    merge_maps-resolves =
        let (next, e) =
          merge_maps-ok b l r resolutions target (λ k. ((second_at k).0, (second_at k).1)) in
        let at = merge_maps-IsPlanned b l r resolutions target next e in
        let round = λ (k : String). ap outcome (second_at k).1 in
        (
          next,
          e,
          rw
              (no_entries next.conflicts
                (λ k. (at k).conflict_lem ∙ ap (λ o. o.conflict) (round k) ∙ (second_at k).2))
              refl,
          λ k. (at k).merged_lem ∙ ap (λ o. o.merged) (round k) ∙ (second_at k).3,
        )
