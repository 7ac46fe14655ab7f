-- ===== src/Graph/Reachability/Followed.antt =====
-- src/graph/reachability.js: what the closure follows from a record of an index that was built.
use lagrange_images.Base.{
  String, ◌≡◌, refl, sym, ap, subst, is_some, none, ◌∙◌, Bool, true, false, ◌&&◌, ◌||◌, Option,
  some, or_else, List, [], ◌∷◌, ◌++◌, str_eq, eq_iff, arith, Bool-cases, Option-cases, inl, inr,
}
use lagrange_images.Base.Dict.{Dict, get, has}
use lagrange_images.Base.TextOrder.{member, sort_texts, member-sort_texts}
use lagrange_images.Graph.Rounds.{member-append}
use lagrange_images.Base.Result.{ok, eq_of_ok, Result-cases, bind-eq-ok}
use lagrange_images.Graph.References.{literal_at, is_inherited_name}
use lagrange_images.Graph.Reachability.{
  Node, outgoing_entries, ids_of, Index, index_of, known_only, followed, iterate,
  build_image_graph_index, checked_index, live_records, first_image, index_nodes, names_prototype,
}
use lagrange_images.Graph.Reachability.Walk.{steps}
use lagrange_images.Graph.Reachability.Known.{member-known_only, member-ids_of, outgoing-known}

-- What is iterated is the list that is stored, or nothing.
pub iterated :
    (x : String) (d : Dict (List String)) (ids : List String)
    → iterate (literal_at x d) ≡ ok ids
    → or_else (get x d) [] ≡ ids
unfolding iterate literal_at
iterated x d ids h = elim (Option-cases (get x d)) [
  | inl e ↦ elim (Bool-cases (is_inherited_name x)) [
    | inl there ↦ absurd (ground (arith, rw (e, literal_at, there, iterate) at h))
    | inr clear ↦ rw e (eq_of_ok (rw (e, literal_at, clear, iterate) at h))
  ]
  | inr (own, e) ↦ rw e (eq_of_ok (rw (e, literal_at, iterate) at h))
]

pub iterate-clear :
    (x : String) (d : Dict (List String))
    → is_inherited_name x ≡ false
    → (ids : List String) × (iterate (literal_at x d) ≡ ok ids)
unfolding iterate literal_at
iterate-clear x d h = elim (Option-cases (get x d)) [
  | inl e ↦ ([], rw (e, literal_at, h, iterate) refl)
  | inr (own, e) ↦ (own, rw (e, literal_at, iterate) refl)
]

pub iterate-present :
    (x : String) (d : Dict (List String))
    → has x d ≡ true
    → (ids : List String) × (iterate (literal_at x d) ≡ ok ids)
unfolding iterate literal_at
iterate-present x d h = elim (Option-cases (get x d)) [
  | inl e ↦ absurd (ground (arith, h, e))
  | inr (own, e) ↦ (own, rw (e, literal_at, iterate) refl)
]

-- The literal of the outgoing references has every record of the index.
pub has-outgoing_entries :
    (image : Option String) (m : Dict Node) (x : String) (ids : List String)
    → member x ids ≡ true
    → has x m ≡ true
    → has x (outgoing_entries image m ids) ≡ true
unfolding outgoing_entries get member
has-outgoing_entries image m x [] h present = cc
has-outgoing_entries image m x (id ∷ ids) h present = elim (Bool-cases (str_eq id x)) [
  | inl same ↦ elim (Option-cases (get id m)) [
    | inl e ↦
        absurd
          (ground (arith, present, ap is_some (ap (λ i. get i m) (sym ((eq_iff id x).0 same)) ∙ e)))
    | inr (r, e) ↦ rw (e, outgoing_entries, same) refl
  ]
  | inr apart ↦
      let rest = has-outgoing_entries image m x ids (ground (arith, h, apart)) present in
      elim (Option-cases (get id m)) [
        | inl e ↦ rw (e, outgoing_entries) rest
        | inr (r, e) ↦ rw (e, outgoing_entries, apart) rest
      ]
]

-- What is followed from a name, if it can be iterated.
followed_ids :
    (index : Index) (derived : Bool) (x : String) (ids : List String)
    → followed index derived x ≡ ok ids
    → (k : String) → member k ids ≡ true
    → (member k (or_else (get x index.outgoing_local_ids) []) || has k index.records) ≡ true
unfolding followed
followed_ids index derived x ids h k m =
    let (local, e, h1) = bind-eq-ok (iterate (literal_at x index.outgoing_local_ids)) _ h in
    let same = ap (member k) (iterated x index.outgoing_local_ids local e) in
    elim (Bool-cases derived) [
      | inl there ↦
          let (sources, e1, h2) =
            bind-eq-ok (iterate (literal_at x index.dependents_of_source)) _ (rw there at h1) in
          ground (
            arith,
            same,
            ap (member k) (eq_of_ok h2) ∙ m,
            member-append k local (known_only index.records sources),
            member-known_only k index.records sources,
          )
      | inr none_asked ↦ ground (arith, same, ap (member k) (eq_of_ok (rw none_asked at h1)) ∙ m)
    ]

module _ (records : List Node) (given : Option String) (index : Index)
    (built : build_image_graph_index records given ≡ ok index) where
  -- What was built is the index of some records.
  pub built_lem : (image : Option String) × (m : Dict Node) × (index ≡ index_of image m)
  unfolding build_image_graph_index checked_index
  built_lem =
      let live = live_records records in
      let image : Option String = elim given [ some i ↦ some i | none ↦ first_image live ] in
      let (m, e, h) = bind-eq-ok (index_nodes [] live) _ built in
      (
        image,
        m,
        elim (Bool-cases (names_prototype (index_of image m))) [
          | inl bad ↦ absurd (ground (arith, rw bad at h))
          | inr fine ↦ sym (eq_of_ok (rw fine at h))
        ],
      )

  pub member-record_ids : (k : String) → member k index.record_ids ≡ has k index.records
  unfolding index_of
  member-record_ids k =
      let (image, m, e) = built_lem in
      subst (λ (i : Index). member k i.record_ids ≡ has k i.records) (sym e)
        (member-sort_texts k (ids_of m) ∙ member-ids_of k m)

  pub outgoing_listed :
      (x k : String)
      → member k (or_else (get x index.outgoing_local_ids) []) ≡ true
      → has k index.records ≡ true
  unfolding index_of
  outgoing_listed x k =
      let (image, m, e) = built_lem in
      subst
        (λ (i : Index).
          member k (or_else (get x i.outgoing_local_ids) []) ≡ true → has k i.records ≡ true)
        (sym e) (λ h. outgoing-known image m k x (sort_texts (ids_of m)) h)

  pub has-outgoing :
      (x : String) → has x index.records ≡ true → has x index.outgoing_local_ids ≡ true
  unfolding index_of
  has-outgoing x =
      let (image, m, e) = built_lem in
      subst (λ (i : Index). has x i.records ≡ true → has x i.outgoing_local_ids ≡ true) (sym e)
        (λ h.
          has-outgoing_entries image m x (sort_texts (ids_of m))
            (member-sort_texts x (ids_of m) ∙ member-ids_of x m ∙ h) h)

  -- What is followed stands in the index.
  pub followed_known :
      (derived : Bool) (x k : String)
      → member k (steps (followed index derived) x) ≡ true
      → has k index.records ≡ true
  unfolding member
  followed_known derived x k h = elim (Result-cases (followed index derived x)) [
    | inl (ids, e) ↦
        let m = followed_ids index derived x ids e k (rw (e, steps) at h) in
        elim (Bool-cases (member k (or_else (get x index.outgoing_local_ids) []))) [
          | inl here ↦ outgoing_listed x k here
          | inr apart ↦ ground (arith, m, apart)
        ]
    | inr (f, e) ↦ absurd (ground (arith, rw (e, steps, member) at h))
  ]

  pub followed_ok :
      (derived : Bool) (x : String)
      → has x index.records ≡ true
      → (derived && is_inherited_name x) ≡ false
      → (ids : List String) × (followed index derived x ≡ ok ids)
  unfolding followed
  followed_ok false x h clear =
      let (local, e) = iterate-present x index.outgoing_local_ids (has-outgoing x h) in
      (local, rw (e, followed) refl)
  followed_ok true x h clear =
      let (local, e) = iterate-present x index.outgoing_local_ids (has-outgoing x h) in
      let (sources, e1) = iterate-clear x index.dependents_of_source clear in
      (local ++ known_only index.records sources, rw (e, e1, followed) refl)
