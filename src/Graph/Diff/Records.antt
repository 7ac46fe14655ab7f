-- ===== src/Graph/Diff/Records.antt =====
-- What the difference of two sets of records in src/graph/diff.js lists.
use lagrange_images.Base.{
  String, ◌≡◌, refl, sym, ap, ◌∙◌, Bool, true, false, ◌||◌, Option, none, some, List, [], ◌∷◌, ◌++◌,
  if◌then◌else◌, is_some, arith, length, ◌==◌, Bool-cases, inl, inr, ◌↔◌, both_true,
}
use lagrange_images.Base.Dict.{Dict, get}
use lagrange_images.Base.Json.{obj}
use lagrange_images.Base.TextOrder.{
  member, sort_texts, distinct, member-sort_texts, member-distinct,
}
use lagrange_images.Graph.Rounds.{
  before, before_member, listed, no_entries, no_length, member-append,
}
use lagrange_images.Graph.Canonical.{same, Record}
use lagrange_images.Graph.Diff.{
  RecordChanges, Modified, modification, comparable, diff_one, diff_ids, diff_maps, keys, identical,
}

-- The second record, if the first is missing.
abbrev pub only : Option Record → Option Record → Option Record
only (some f) t = none
only none t = t

-- What is listed as modified: the change of two records that differ.
abbrev pub changed_between : Bool → Option Record → Option Record → Option Modified
changed_between across none t = none
changed_between across (some f) none = none
changed_between across (some f) (some t) =
    if same (obj (comparable across f)) (obj (comparable across t))
    then none
    else some (modification across f t)

module _ (across : Bool) (id k : String) (rest : RecordChanges) where
  added-diff_one :
      (f t : Option Record)
      → get k (diff_one across id f t rest).added ≡ before id (only f t) k (get k rest.added)
  unfolding diff_one get
  added-diff_one none none = refl
  added-diff_one none (some t) = refl
  added-diff_one (some f) none = refl
  added-diff_one (some f) (some t) =
      elim (Bool-cases (same (obj (comparable across f)) (obj (comparable across t)))) [
        | inl h ↦ rw h refl
        | inr h ↦ rw h refl
      ]

  removed-diff_one :
      (f t : Option Record)
      → get k (diff_one across id f t rest).removed ≡ before id (only t f) k (get k rest.removed)
  unfolding diff_one get
  removed-diff_one none none = refl
  removed-diff_one none (some t) = refl
  removed-diff_one (some f) none = refl
  removed-diff_one (some f) (some t) =
      elim (Bool-cases (same (obj (comparable across f)) (obj (comparable across t)))) [
        | inl h ↦ rw h refl
        | inr h ↦ rw h refl
      ]

  modified-diff_one :
      (f t : Option Record)
      → get k (diff_one across id f t rest).modified
        ≡ before id (changed_between across f t) k (get k rest.modified)
  unfolding diff_one get
  modified-diff_one none none = refl
  modified-diff_one none (some t) = refl
  modified-diff_one (some f) none = refl
  modified-diff_one (some f) (some t) =
      elim (Bool-cases (same (obj (comparable across f)) (obj (comparable across t)))) [
        | inl h ↦ rw h refl
        | inr h ↦ rw h refl
      ]

module _ (across : Bool) (from to : Dict Record) where
  added-diff_ids :
      (k : String) (ids : List String)
      → get k (diff_ids across ids from to).added
        ≡ (if member k ids then only (get k from) (get k to) else none)
  unfolding diff_ids get member
  added-diff_ids k [] = refl
  added-diff_ids k (id ∷ ids) =
      added-diff_one across id k (diff_ids across ids from to) (get id from) (get id to)
      ∙ ap (before id (only (get id from) (get id to)) k) (added-diff_ids k ids)
      ∙ before_member (λ x. only (get x from) (get x to)) id k (member k ids)

  removed-diff_ids :
      (k : String) (ids : List String)
      → get k (diff_ids across ids from to).removed
        ≡ (if member k ids then only (get k to) (get k from) else none)
  unfolding diff_ids get member
  removed-diff_ids k [] = refl
  removed-diff_ids k (id ∷ ids) =
      removed-diff_one across id k (diff_ids across ids from to) (get id from) (get id to)
      ∙ ap (before id (only (get id to) (get id from)) k) (removed-diff_ids k ids)
      ∙ before_member (λ x. only (get x to) (get x from)) id k (member k ids)

  modified-diff_ids :
      (k : String) (ids : List String)
      → get k (diff_ids across ids from to).modified
        ≡ (if member k ids then changed_between across (get k from) (get k to) else none)
  unfolding diff_ids get member
  modified-diff_ids k [] = refl
  modified-diff_ids k (id ∷ ids) =
      modified-diff_one across id k (diff_ids across ids from to) (get id from) (get id to)
      ∙ ap (before id (changed_between across (get id from) (get id to)) k)
          (modified-diff_ids k ids)
      ∙ before_member (λ x. changed_between across (get x from) (get x to)) id k (member k ids)

pub member-keys : (k : String) (m : Dict Record) → member k (keys m) ≡ is_some (get k m)
unfolding member keys get
member-keys k [] = refl
member-keys k ((j, r) ∷ m) = ground (arith, member-keys k m)

-- The identities that the loops go through are those of both sides.
pub member-all_ids :
    (k : String) (from to : Dict Record)
    → member k (sort_texts (distinct (keys from ++ keys to)))
      ≡ (is_some (get k from) || is_some (get k to))
member-all_ids k from to =
    rw
      (
        member-sort_texts k (distinct (keys from ++ keys to)),
        member-distinct k (keys from ++ keys to),
        member-append k (keys from) (keys to),
        member-keys k from,
        member-keys k to,
      )
      refl

only-none : (f t : Option Record) → (is_some f || is_some t) ≡ false → only f t ≡ none
only-none none none h = refl
only-none none (some t) h = cc
only-none (some f) t h = cc

only-none_back : (f t : Option Record) → (is_some f || is_some t) ≡ false → only t f ≡ none
only-none_back none none h = refl
only-none_back none (some t) h = cc
only-none_back (some f) t h = cc

changed_none :
    (across : Bool) (f t : Option Record)
    → (is_some f || is_some t) ≡ false
    → changed_between across f t ≡ none
changed_none across none t h = refl
changed_none across (some f) t h = cc

module _ (across : Bool) (from to : Dict Record) (k : String) where
  -- For each identity, the difference lists as added the record that only the second side has, as
  -- removed the one that only the first has, and as modified the pair of records that are not the
  -- same; and nothing else.
  pub diff_maps_lem :
      (get k (diff_maps across from to).added ≡ only (get k from) (get k to))
      × (get k (diff_maps across from to).removed ≡ only (get k to) (get k from))
      × (get k (diff_maps across from to).modified ≡ changed_between across (get k from) (get k to))
  unfolding diff_maps
  diff_maps_lem =
      let ids = sort_texts (distinct (keys from ++ keys to)) in
      let all = member-all_ids k from to in
      let any = is_some (get k from) || is_some (get k to) in
      (
        added-diff_ids across from to k ids
            ∙ listed any (only (get k from) (get k to)) all (only-none (get k from) (get k to)),
        removed-diff_ids across from to k ids
            ∙ listed any (only (get k to) (get k from)) all
                (only-none_back (get k from) (get k to)),
        modified-diff_ids across from to k ids
            ∙ listed any (changed_between across (get k from) (get k to)) all
                (changed_none across (get k from) (get k to)),
      )

-- Neither side has a record of the identity, or both have one and they are the same.
abbrev pub IsSameAt : Bool → Option Record → Option Record → Type 0
IsSameAt across none none = Unit
IsSameAt across none (some t) = ⊥
IsSameAt across (some f) none = ⊥
IsSameAt across (some f) (some t) =
    same (obj (comparable across f)) (obj (comparable across t)) ≡ true

same_at :
    (across : Bool) (f t : Option Record)
    → only f t ≡ none
    → only t f ≡ none
    → changed_between across f t ≡ none
    → IsSameAt across f t
same_at across none none a r m = tt
same_at across none (some t) a r m = cc
same_at across (some f) none a r m = cc
same_at across (some f) (some t) a r m =
    elim (Bool-cases (same (obj (comparable across f)) (obj (comparable across t)))) [
      | inl h ↦ h
      | inr h ↦ absurd (ground (arith, m, h))
    ]

nothing_at :
    (across : Bool) (f t : Option Record)
    → IsSameAt across f t
    → (only f t ≡ none) × (only t f ≡ none) × (changed_between across f t ≡ none)
nothing_at across none none h = (refl, refl, refl)
nothing_at across none (some t) h = elim h [ ]
nothing_at across (some f) none h = elim h [ ]
nothing_at across (some f) (some t) h = (refl, refl, rw h refl)

module _ (across : Bool) (from to : Dict Record) where
  -- A difference is called identical exactly if at every identity neither side has a record, or both
  -- have one and they are the same.
  pub identical_iff :
      (identical (diff_maps across from to) ≡ true)
      ↔ ((k : String) → IsSameAt across (get k from) (get k to))
  unfolding identical get
  identical_iff = (
    λ h k.
        let d = diff_maps across from to in
        let (a, r, m) = diff_maps_lem across from to k in
        let (na, rest) = both_true (length d.added == 0) _ h in
        let (nr, nm) = both_true (length d.removed == 0) _ rest in
        same_at across (get k from) (get k to) (sym a ∙ ap (get k) (no_length d.added na))
          (sym r ∙ ap (get k) (no_length d.removed nr))
          (sym m ∙ ap (get k) (no_length d.modified nm)),
    λ h.
        let d = diff_maps across from to in
        let a = no_entries d.added (λ k.
          (diff_maps_lem across from to k).0
          ∙ (nothing_at across (get k from) (get k to) (h k)).0) in
        let r = no_entries d.removed (λ k.
          (diff_maps_lem across from to k).1
          ∙ (nothing_at across (get k from) (get k to) (h k)).1) in
        let m = no_entries d.modified (λ k.
          (diff_maps_lem across from to k).2
          ∙ (nothing_at across (get k from) (get k to) (h k)).2) in
        rw (a, r, m) refl,
  )
