-- ===== src/Graph/Merge/Plan/Sides.antt =====
-- src/graph/merge.js: the merge of whole records keeps what one side did, and needs no resolution for it.
use lagrange_images.Base.{
  String, ◌≡◌, refl, ap, ◌∙◌, Bool, true, false, ◌||◌, Option, none, some, if◌then◌else◌, arith,
  Bool-cases, inl, inr,
}
use lagrange_images.Base.Dict.{Dict, get}
use lagrange_images.Base.Result.{Result, ok}
use lagrange_images.Graph.Rounds.{no_entries}
use lagrange_images.Graph.Canonical.{GraphError, Record, json_of, same_record}
use lagrange_images.Graph.Canonical.Laws.{same_self, same_sym}
use lagrange_images.Graph.Merge.Records.{
  added_left, added_right, added_both, removed_left, removed_right, removed_both, modified_left,
  modified_right, modified_both_identical, Resolution, Round, nothing, writes, removes, merge_one,
  merge_added, merge_deleted, merge_present,
}
use lagrange_images.Graph.Merge.Plan.{MergePlan, round_of, merge_maps, is_clean}
use lagrange_images.Graph.Merge.Plan.Rounds.{outcome, merge_maps-IsPlanned, merge_maps-ok}

-- Both are missing, or both are there and the same.
abbrev pub same_at : Option Record → Option Record → Bool
same_at none none = true
same_at none (some b) = false
same_at (some a) none = false
same_at (some a) (some b) = same_record a b

record_sym : (a b : Record) → same_record a b ≡ same_record b a
unfolding same_record
record_sym a b = same_sym (json_of a) (json_of b)

record_self : (a : Record) → same_record a a ≡ true
unfolding same_record
record_self a = same_self (json_of a)

-- The round leaves the record, and lists no conflict.
abbrev pub Leaves : Result GraphError Round → Option Record → Type 0
Leaves result r =
    (round : Round) × (result ≡ ok round)
    × (same_at round.merged r ≡ true)
    × (round.conflict ≡ none)

abbrev as_it_was : Record → Round
as_it_was b = record nothing { merged = some b; unchanged = true }

module _ (res : Option Resolution) (target : Option String) where
  pub left_same-Leaves :
      (b l r : Option Record) → same_at l b ≡ true → Leaves (merge_one b l r res target) r
  unfolding merge_one merge_deleted merge_present writes removes
  left_same-Leaves none none none h = (nothing, refl, refl, refl)
  left_same-Leaves none none (some r) h = (writes added_right r, refl, record_self r, refl)
  left_same-Leaves none (some l) r h = cc
  left_same-Leaves (some b) none r h = cc
  left_same-Leaves (some b) (some l) none h = (removes removed_right b, rw h refl, refl, refl)
  left_same-Leaves (some b) (some l) (some r) h = elim (Bool-cases (same_record r b)) [
    | inl s ↦ (as_it_was b, rw (h, s) refl, record_sym b r ∙ s, refl)
    | inr d ↦ (writes modified_right r, rw (h, d) refl, record_self r, refl)
  ]

  pub right_same-Leaves :
      (b l r : Option Record) → same_at r b ≡ true → Leaves (merge_one b l r res target) l
  unfolding merge_one merge_deleted merge_present writes removes
  right_same-Leaves none none none h = (nothing, refl, refl, refl)
  right_same-Leaves none (some l) none h = (writes added_left l, refl, record_self l, refl)
  right_same-Leaves none l (some r) h = cc
  right_same-Leaves (some b) l none h = cc
  right_same-Leaves (some b) none (some r) h = (removes removed_left b, rw h refl, refl, refl)
  right_same-Leaves (some b) (some l) (some r) h = elim (Bool-cases (same_record l b)) [
    | inl s ↦ (as_it_was b, rw (h, s) refl, record_sym b l ∙ s, refl)
    | inr d ↦ (writes modified_left l, rw (h, d) refl, record_self l, refl)
  ]

  pub both_same-Leaves :
      (b l r : Option Record) → same_at l r ≡ true → Leaves (merge_one b l r res target) l
  unfolding merge_one merge_added merge_present writes removes
  both_same-Leaves none none none h = (nothing, refl, refl, refl)
  both_same-Leaves (some b) none none h = (removes removed_both b, refl, refl, refl)
  both_same-Leaves b none (some r) h = cc
  both_same-Leaves b (some l) none h = cc
  both_same-Leaves none (some l) (some r) h = (writes added_both l, rw h refl, record_self l, refl)
  both_same-Leaves (some b) (some l) (some r) h = elim (Bool-cases (same_record l b)) [
    | inl s ↦ elim (Bool-cases (same_record r b)) [
      | inl t ↦ (as_it_was b, rw (s, t) refl, record_sym b l ∙ s, refl)
      | inr t ↦ (writes modified_right r, rw (s, t) refl, record_sym r l ∙ h, refl)
    ]
    | inr s ↦ elim (Bool-cases (same_record r b)) [
      | inl t ↦ (writes modified_left l, rw (s, t) refl, record_self l, refl)
      | inr t ↦ (writes modified_both_identical l, rw (s, t, h) refl, record_self l, refl)
    ]
  ]

module _ (b l r : Dict Record) (resolutions : Dict Resolution) (target : Option String)
    (plan : MergePlan) (planned : merge_maps b l r resolutions target ≡ ok plan) (k : String) where
  abbrev LeavesAt : Option Record → Type 0
  LeavesAt o = (same_at (get k plan.merged_records) o ≡ true) × (get k plan.conflicts ≡ none)

  left_at : (o : Option Record) → Leaves (round_of b l r resolutions target k) o → LeavesAt o
  left_at o (round, e, m, c) =
      let at = merge_maps-IsPlanned b l r resolutions target plan planned k in
      let p = ap outcome e in
      (
        ap (λ x. same_at x o) (at.merged_lem ∙ ap (λ x. x.merged) p) ∙ m,
        at.conflict_lem ∙ ap (λ x. x.conflict) p ∙ c,
      )

  -- In a plan, an identity that the left side left as in the base has what the right side has, a
  -- missing record included; one that the right side left so, or on which the sides agree, has what
  -- the left side has; and neither is in conflict, whatever resolutions are given.
  pub merge_maps-keeps_sides :
      (same_at (get k l) (get k b) || (same_at (get k r) (get k b) || same_at (get k l) (get k r)))
        ≡ true
      → LeavesAt (if same_at (get k l) (get k b) then get k r else get k l)
  unfolding round_of
  merge_maps-keeps_sides h =
      let res = get k resolutions in
      elim (Bool-cases (same_at (get k l) (get k b))) [
        | inl same_left ↦ rw same_left (
            left_at (get k r) (left_same-Leaves res target (get k b) (get k l) (get k r) same_left))
        | inr d ↦ elim (Bool-cases (same_at (get k r) (get k b))) [
          | inl same_right ↦ rw d (
              left_at (get k l)
                (right_same-Leaves res target (get k b) (get k l) (get k r) same_right))
          | inr e ↦ rw d (
              left_at (get k l) (
                both_same-Leaves res target (get k b) (get k l) (get k r)
                  (ground (arith, h, d, e))))
        ]
      ]

module _ (b l r : Dict Record) (resolutions : Dict Resolution) (target : Option String) where
  -- The plan exists, is clean, and has the records of a side.
  abbrev Yields : Dict Record → Type 0
  Yields side =
      (plan : MergePlan) × (merge_maps b l r resolutions target ≡ ok plan)
      × (is_clean plan ≡ true)
      × ((k : String) → same_at (get k plan.merged_records) (get k side) ≡ true)

  round_of-Yields :
      (side : Dict Record)
      → ((k : String) → Leaves (round_of b l r resolutions target k) (get k side))
      → Yields side
  unfolding is_clean
  round_of-Yields side h =
      let (plan, e) = merge_maps-ok b l r resolutions target (λ k. ((h k).0, (h k).1)) in
      let at = λ (k : String). left_at b l r resolutions target plan e k (get k side) (h k) in
      (plan, e, rw (no_entries plan.conflicts (λ k. (at k).1)) refl, λ k. (at k).0)

  -- If the left side made no change, then the merge succeeds without a conflict, and the merged
  -- records are the same as those of the right side.
  pub merge_maps-takes_right : ((k : String) → same_at (get k l) (get k b) ≡ true) → Yields r
  unfolding round_of
  merge_maps-takes_right h =
      round_of-Yields r
        (λ k. left_same-Leaves (get k resolutions) target (get k b) (get k l) (get k r) (h k))

  -- If the right side made no change, then the merge succeeds without a conflict, and the merged
  -- records are the same as those of the left side.
  pub merge_maps-takes_left : ((k : String) → same_at (get k r) (get k b) ≡ true) → Yields l
  unfolding round_of
  merge_maps-takes_left h =
      round_of-Yields l
        (λ k. right_same-Leaves (get k resolutions) target (get k b) (get k l) (get k r) (h k))
