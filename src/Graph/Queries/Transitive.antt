-- ===== src/Graph/Queries/Transitive.antt =====
-- src/graph/reachability.js: the searches along references end, and backwards they find what they find
-- forwards.
use lagrange_images.Base.{
  String, suc, ◌≡◌, ◌↔◌, refl, sym, ap, ◌∙◌, Bool, true, false, not, ◌||◌, Option, List, [], ◌∷◌,
  str_eq, eq_iff, arith, length, Bool-cases, Option-cases, inl, inr,
}
use lagrange_images.Base.Dict.{Dict, get, has}
use lagrange_images.Base.TextOrder.{member}
use lagrange_images.Base.Result.{ok}
use lagrange_images.Graph.References.{is_inherited_name, literal_at}
use lagrange_images.Graph.Reachability.{
  Node, Index, build_image_graph_index, dedupe_sorted, iterate,
}
use lagrange_images.Graph.Reachability.Walk.{
  Reaches, start, step, steps, walk_steps_iff, walk_iterable,
}
use lagrange_images.Graph.Reachability.Fuel.{walk-ends, unseen-length}
use lagrange_images.Graph.Reachability.Known.{member-dedupe_sorted}
use lagrange_images.Graph.Reachability.Followed.{
  member-record_ids, outgoing_listed, has-outgoing, iterate-clear, iterate-present,
}
use lagrange_images.Graph.Queries.{
  incoming_entries, incoming_local_ids, listed, read_direct, neighbors, traverse_adjacency,
  find_references, find_outgoing_references, find_incoming_references,
}
use lagrange_images.Graph.Queries.Inverse.{
  at_key, member-incoming, has-incoming_lists, source_known,
}

module _ (next back : String → List String) where
  from_before :
      (j t s : String)
      → Reaches back (back j) s
      → member j (back t) ≡ true
      → Reaches back (back t) s
  from_before j t s (start _ m) h = step j s (start j h) m
  from_before j t s (step i _ r m) h = step i s (from_before j t i r h) m

  -- A path backwards.
  Reaches-back :
      ((j k : String) → member k (next j) ≡ true → member j (back k) ≡ true)
      → (s t : String) → Reaches next (next s) t
      → Reaches back (back t) s
  Reaches-back inverse s t (start _ m) = start s (inverse s t m)
  Reaches-back inverse s t (step j _ r m) =
      from_before j t s (Reaches-back inverse s j r) (inverse j t m)

-- A record of the index, or a name that no object literal inherits.
abbrev pub is_readable : Index → String → Bool
is_readable index x = has x index.records || not (is_inherited_name x)

member-steps :
    (d : Dict (List String)) (x k : String)
    → member k (steps (neighbors d) x) ≡ member k (at_key x d)
unfolding neighbors literal_at iterate
member-steps d x k = elim (Option-cases (get x d)) [
  | inl e ↦ elim (Bool-cases (is_inherited_name x)) [
    | inl there ↦ rw (e, there, steps, neighbors, literal_at, iterate) refl
    | inr clear ↦ rw (e, clear, steps, neighbors, literal_at, iterate) refl
  ]
  | inr (own, e) ↦ rw (e, steps, neighbors, literal_at, iterate) refl
]

direct_lem :
    (d : Dict (List String)) (x : String)
    → (ids : List String) × (neighbors d x ≡ ok ids)
    → read_direct d x ≡ listed (at_key x d)
unfolding neighbors read_direct literal_at iterate
direct_lem d x (ids, e) = elim (Option-cases (get x d)) [
  | inl e1 ↦ elim (Bool-cases (is_inherited_name x)) [
    | inl there ↦ absurd (ground (arith, rw (e1, literal_at, there, iterate) at e))
    | inr clear ↦ rw (e1, read_direct, literal_at, clear) refl
  ]
  | inr (own, e1) ↦ rw (e1, read_direct, literal_at) refl
]

module _ (records : List Node) (image : Option String) (index : Index)
    (built : build_image_graph_index records image ≡ ok index) where
  -- A literal with a list for every record, and only records in its lists.
  abbrev IsComplete : Dict (List String) → Type 0
  IsComplete d =
      ((x : String) → has x index.records ≡ true → has x d ≡ true)
      × ((x k : String) → member k (at_key x d) ≡ true → has k index.records ≡ true)

  outgoing-IsComplete : IsComplete index.outgoing_local_ids
  outgoing-IsComplete =
      (has-outgoing records image index built, outgoing_listed records image index built)

  incoming-IsComplete : IsComplete (incoming_local_ids index)
  unfolding incoming_local_ids
  incoming-IsComplete = (
    λ x h.
        has-incoming_lists x (incoming_entries index.outgoing_local_ids []) index.record_ids
          (member-record_ids records image index built x ∙ h),
    λ x k h.
        source_known records image index built k x
          (sym (member-incoming records image index k x built) ∙ h),
  )

  readable :
      (d : Dict (List String))
      → IsComplete d
      → (x : String) → is_readable index x ≡ true
      → (ids : List String) × (neighbors d x ≡ ok ids)
  unfolding neighbors
  readable d complete x h = elim (Bool-cases (has x index.records)) [
    | inl there ↦ iterate-present x d (complete.0 x there)
    | inr apart ↦ iterate-clear x d (ground (arith, h, apart))
  ]

  -- A search finds what one or more steps lead to.
  traverse-ends :
      (d : Dict (List String)) (x : String)
      → IsComplete d
      → is_readable index x ≡ true
      → (found : List String) × (traverse_adjacency
            (suc (length index.record_ids))
            (neighbors d)
            (x ∷ [])
          ≡ ok found)
        × ((k : String)
            → (member k found ≡ true) ↔ Reaches (steps (neighbors d)) (steps (neighbors d) x) k)
  unfolding traverse_adjacency member
  traverse-ends d x complete clear =
      let n = suc (length index.record_ids) in
      let next = neighbors d in
      let known = λ (y k : String) (h : member k (steps next y) ≡ true).
        complete.1 y k (sym (member-steps d y k) ∙ h) in
      let (seen, e) =
        walk-ends n (steps next) index.record_ids (x ∷ []) []
          (λ y k h. member-record_ids records image index built k ∙ known y k h)
          (ground (arith, unseen-length index.record_ids [])) in
      let e1 =
        walk_iterable next (λ y. is_readable index y ≡ true) (readable d complete)
          (λ y k r h. ground (arith, known y k h)) n (x ∷ []) [] seen
          (λ y h. ap (is_readable index) (sym ((eq_iff x y).0 (ground (arith, h)))) ∙ clear) e in
      let found = walk_steps_iff (steps next) n x seen e in
      let same = λ (k : String). member-dedupe_sorted k seen in
      (
        dedupe_sorted seen,
        rw (e1, traverse_adjacency) refl,
        λ k. (λ q. (found k).0 (sym (same k) ∙ q), λ r. same k ∙ (found k).1 r),
      )

  -- In an index that was built, the searches for incoming and for outgoing references both end with a
  -- list, direct or transitive, and one record is found among the incoming references of another exactly
  -- if the other is found among its outgoing ones. Either name is one of the index or one that object
  -- literals do not inherit.
  pub find_references_inverse :
      (s t : String) (transitive : Bool)
      → str_eq s "" ≡ false
      → str_eq t "" ≡ false
      → is_readable index s ≡ true
      → is_readable index t ≡ true
      → (froms tos : List String) × (find_incoming_references index t transitive
          ≡ ok (listed froms))
        × (find_outgoing_references index s transitive ≡ ok (listed tos))
        × ((member s froms ≡ true) ↔ (member t tos ≡ true))
  unfolding find_incoming_references find_outgoing_references find_references
  find_references_inverse s t false hs ht rs rt =
      let into = incoming_local_ids index in
      let out = index.outgoing_local_ids in
      let same = member-incoming records image index s t built in
      (
        at_key t into,
        at_key s out,
        rw ht (ap ok (direct_lem into t (readable into incoming-IsComplete t rt))),
        rw hs (ap ok (direct_lem out s (readable out outgoing-IsComplete s rs))),
        (λ h. sym same ∙ h, λ h. same ∙ h),
      )
  find_references_inverse s t true hs ht rs rt =
      let into = incoming_local_ids index in
      let out = index.outgoing_local_ids in
      let same = λ (j k : String).
        member-steps into k j
        ∙ member-incoming records image index j k built
        ∙ sym (member-steps out j k) in
      let (froms, e, f) = traverse-ends into t incoming-IsComplete rt in
      let (tos, e1, g) = traverse-ends out s outgoing-IsComplete rs in
      (
        froms,
        tos,
        rw (ht, e) refl,
        rw (hs, e1) refl,
        (
          λ h. (g t).1 (
              Reaches-back (steps (neighbors into)) (steps (neighbors out))
                (λ j k q. sym (same k j) ∙ q) t s ((f s).0 h)),
          λ h. (f s).1 (
              Reaches-back (steps (neighbors out)) (steps (neighbors into)) (λ j k q. same j k ∙ q)
                s t ((g t).0 h)),
        ),
      )
