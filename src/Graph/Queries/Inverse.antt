-- ===== src/Graph/Queries/Inverse.antt =====
-- src/graph/reachability.js: a record is among those that refer to another exactly if it refers to it.
use lagrange_images.Base.{
  String, ◌≡◌, refl, sym, ap, subst, ◌∙◌, Bool, true, false, ◌&&◌, ◌||◌, Option, none, some,
  or_else, List, [], ◌∷◌, ◌++◌, if◌then◌else◌, str_eq, eq_iff, arith, Bool-cases, Option-cases, inl,
  inr,
}
use lagrange_images.Base.Dict.{Dict, get, put, get-put, has}
use lagrange_images.Base.TextOrder.{member, sort_texts, member-sort_texts}
use lagrange_images.Graph.Rounds.{member-append}
use lagrange_images.Graph.Reachability.{
  Index, build_image_graph_index, Node, index_of, ids_of, local_targets, outgoing_entries,
  add_dependents, dedupe_sorted,
}
use lagrange_images.Graph.Reachability.Known.{member-dedupe_sorted, member-ids_of, outgoing-known}
use lagrange_images.Graph.Reachability.Followed.{built_lem}
use lagrange_images.Graph.References.{dedupe_sorted_object_refs}
use lagrange_images.Base.Result.{ok}
use lagrange_images.Graph.Queries.{incoming_entries, incoming_lists, incoming_local_ids}

abbrev pub at_key : String → Dict (List String) → List String
at_key k d = or_else (get k d) []

member-with :
    (s id : String) (known : List String)
    → member s (if member id known then known else known ++ (id ∷ []))
      ≡ (member s known || str_eq id s)
unfolding member
member-with s id known = elim (Bool-cases (member id known)) [
  | inl here ↦ rw here (ground (arith, here, eq_iff id s))
  | inr apart ↦ rw apart (ground (arith, member-append s known (id ∷ [])))
]

member-add_dependents :
    (s t id : String) (ts : List String) (d : Dict (List String))
    → member s (at_key t (add_dependents id ts d))
      ≡ (member s (at_key t d) || (str_eq id s && member t ts))
unfolding add_dependents member
member-add_dependents s t id [] d = ground arith
member-add_dependents s t id (u ∷ ts) d =
    let known = or_else (get u d) [] in
    let more = if member id known then known else known ++ (id ∷ []) in
    member-add_dependents s t id ts (put u more d) ∙ elim (Bool-cases (str_eq u t)) [
      | inl same ↦
          rw (get-put u t more d, same)
            (ground (
              arith,
              same,
              member-with s id known,
              ap (λ x. member s (or_else (get x d) [])) ((eq_iff u t).0 same),
            ))
      | inr apart ↦ rw (get-put u t more d, apart) (ground arith)
    ]

-- A record of the entries lists the target.
abbrev links : String → String → Dict (List String) → Bool
links s t [] = false
links s t ((id, ts) ∷ out) = (str_eq id s && member t ts) || links s t out

member-incoming_entries :
    (s t : String) (out d : Dict (List String))
    → member s (at_key t (incoming_entries out d)) ≡ (member s (at_key t d) || links s t out)
unfolding incoming_entries
member-incoming_entries s t [] d = ground arith
member-incoming_entries s t ((id, ts) ∷ out) d = ground (
  arith,
  member-incoming_entries s t out (add_dependents id ts d),
  member-add_dependents s t id ts d,
)

module _ (image : Option String) (m : Dict Node) (s t : String) where
  -- What a record says by itself.
  abbrev pub targets : Node → List String
  targets r = dedupe_sorted (local_targets image m r (dedupe_sorted_object_refs r.references))

  abbrev pub refers : Option Node → Bool
  refers none = false
  refers (some r) = member t (targets r)

  links-outgoing_entries :
      (ids : List String)
      → links s t (outgoing_entries image m ids) ≡ (member s ids && refers (get s m))
  unfolding outgoing_entries member
  links-outgoing_entries [] = refl
  links-outgoing_entries (id ∷ ids) = elim (Option-cases (get id m)) [
    | inl e ↦
        rw (e, outgoing_entries)
          (elim (Bool-cases (str_eq id s)) [
            | inl same ↦ ground (
              arith,
              same,
              links-outgoing_entries ids,
              ap (λ x. refers (get x m)) (sym ((eq_iff id s).0 same)) ∙ ap refers e,
            )
            | inr apart ↦ ground (arith, apart, links-outgoing_entries ids)
          ])
    | inr (r, e) ↦
        rw (e, outgoing_entries)
          (elim (Bool-cases (str_eq id s)) [
            | inl same ↦ ground (
              arith,
              same,
              links-outgoing_entries ids,
              ap (λ x. refers (get x m)) (sym ((eq_iff id s).0 same)) ∙ ap refers e,
            )
            | inr apart ↦ ground (arith, apart, links-outgoing_entries ids)
          ])
  ]

  pub member-outgoing_entries :
      (ids : List String)
      → member t (at_key s (outgoing_entries image m ids)) ≡ (member s ids && refers (get s m))
  unfolding outgoing_entries member get
  member-outgoing_entries [] = refl
  member-outgoing_entries (id ∷ ids) = elim (Option-cases (get id m)) [
    | inl e ↦
        rw (e, outgoing_entries)
          (elim (Bool-cases (str_eq id s)) [
            | inl same ↦ ground (
              arith,
              same,
              member-outgoing_entries ids,
              ap (λ x. refers (get x m)) (sym ((eq_iff id s).0 same)) ∙ ap refers e,
            )
            | inr apart ↦ ground (arith, apart, member-outgoing_entries ids)
          ])
    | inr (r, e) ↦ elim (Bool-cases (str_eq id s)) [
      | inl same ↦
          rw (e, outgoing_entries, same)
            (sym (ap (λ x. refers (get x m)) (sym ((eq_iff id s).0 same)) ∙ ap refers e))
      | inr apart ↦ rw (e, outgoing_entries, apart) (member-outgoing_entries ids)
    ]
  ]

member-incoming_lists :
    (s t : String) (sets : Dict (List String)) (ids : List String)
    → member s (at_key t (incoming_lists sets ids)) ≡ (member t ids && member s (at_key t sets))
unfolding incoming_lists member get
member-incoming_lists s t sets [] = refl
member-incoming_lists s t sets (id ∷ ids) = elim (Bool-cases (str_eq id t)) [
  | inl same ↦ rw same (
      member-dedupe_sorted s (at_key id sets)
      ∙ ap (λ i. member s (at_key i sets)) ((eq_iff id t).0 same))
  | inr apart ↦ rw apart (member-incoming_lists s t sets ids)
]

pub has-incoming_lists :
    (t : String) (sets : Dict (List String)) (ids : List String)
    → member t ids ≡ true
    → has t (incoming_lists sets ids) ≡ true
unfolding incoming_lists member get
has-incoming_lists t sets [] h = cc
has-incoming_lists t sets (id ∷ ids) h = elim (Bool-cases (str_eq id t)) [
  | inl same ↦ rw same refl
  | inr apart ↦ rw apart (has-incoming_lists t sets ids (ground (arith, h, apart)))
]

-- A record is among the incoming references of another exactly if the other is among its outgoing
-- references.
pub member-incoming :
    (records : List Node) (given : Option String) (index : Index) (s t : String)
    → build_image_graph_index records given ≡ ok index
    → member s (at_key t (incoming_local_ids index)) ≡ member t (at_key s index.outgoing_local_ids)
unfolding incoming_local_ids index_of get member
member-incoming records given index s t built =
    let (image, m, e) = built_lem records given index built in
    let ids = sort_texts (ids_of m) in
    let out = outgoing_entries image m ids in
    let sets = incoming_entries out [] in
    let back : member s (at_key t sets) ≡ member t (at_key s out) =
      member-incoming_entries s t out []
      ∙ links-outgoing_entries image m s t ids
      ∙ sym (member-outgoing_entries image m s t ids) in
    subst
      (λ (i : Index).
        member s (at_key t (incoming_local_ids i)) ≡ member t (at_key s i.outgoing_local_ids))
      (sym e)
      (elim (Bool-cases (member t (at_key s out))) [
        | inl refers ↦
            let known =
              member-sort_texts t (ids_of m)
              ∙ member-ids_of t m
              ∙ outgoing-known image m t s ids refers in
            ground (arith, member-incoming_lists s t sets ids, back, known)
        | inr apart ↦ ground (arith, member-incoming_lists s t sets ids, back, apart)
      ])

-- Only records of the index refer to anything.
pub source_known :
    (records : List Node) (given : Option String) (index : Index)
    → build_image_graph_index records given ≡ ok index
    → (s t : String) → member t (at_key s index.outgoing_local_ids) ≡ true
    → has s index.records ≡ true
unfolding index_of get member
source_known records given index built s t =
    let (image, m, e) = built_lem records given index built in
    let ids = sort_texts (ids_of m) in
    subst (λ (i : Index). member t (at_key s i.outgoing_local_ids) ≡ true → has s i.records ≡ true)
      (sym e)
      (λ h. ground (
        arith,
        sym (member-outgoing_entries image m s t ids) ∙ h,
        member-sort_texts s (ids_of m) ∙ member-ids_of s m,
      ))
