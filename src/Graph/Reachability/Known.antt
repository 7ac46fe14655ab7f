-- ===== src/Graph/Reachability/Known.antt =====
-- src/graph/reachability.js: the names that the lists of the index hold.
use lagrange_images.Base.{
  String, ◌≡◌, refl, sym, ◌∙◌, true, not, ◌&&◌, Option, or_else, List, [], ◌∷◌, str_eq, eq_iff,
  arith, Bool-cases, Option-cases, inl, inr,
}
use lagrange_images.Base.Dict.{Dict, get, has}
use lagrange_images.Base.TextOrder.{member, distinct, member-sort_texts, member-distinct}
use lagrange_images.Graph.References.{Ref, dedupe_sorted_object_refs}
use lagrange_images.Graph.Reachability.{
  Node, dedupe_sorted, is_same_image, local_targets, outgoing_entries, ids_of, known_only,
  leave_out,
}

pub member-dedupe_sorted :
    (k : String) (xs : List String) → member k (dedupe_sorted xs) ≡ member k xs
unfolding dedupe_sorted
member-dedupe_sorted k xs = member-sort_texts k (distinct xs) ∙ member-distinct k xs

pub member-known_only :
    (k : String) (m : Dict Node) (ks : List String)
    → member k (known_only m ks) ≡ (member k ks && has k m)
unfolding known_only member
member-known_only k m [] = refl
member-known_only k m (j ∷ ks) = ground (arith, member-known_only k m ks, eq_iff j k)

pub member-leave_out :
    (k : String) (seen ks : List String)
    → member k (leave_out seen ks) ≡ (member k ks && not (member k seen))
unfolding leave_out member
member-leave_out k seen [] = refl
member-leave_out k seen (j ∷ ks) = ground (arith, member-leave_out k seen ks, eq_iff j k)

pub member-ids_of : (k : String) (m : Dict Node) → member k (ids_of m) ≡ has k m
unfolding ids_of member get
member-ids_of k [] = refl
member-ids_of k ((j, r) ∷ m) = ground (arith, member-ids_of k m)

module _ (image : Option String) (m : Dict Node) (k : String) where
  has-local_targets :
      (r : Node) (refs : List Ref) → member k (local_targets image m r refs) ≡ true → has k m ≡ true
  unfolding local_targets member
  has-local_targets r [] h = cc
  has-local_targets r (ref ∷ refs) h =
      elim (Bool-cases (is_same_image image r ref && has ref.object_id m)) [
        | inl e ↦ elim (Bool-cases (str_eq ref.object_id k)) [
          | inl here ↦ ground (arith, e, here, eq_iff ref.object_id k)
          | inr apart ↦ has-local_targets r refs (ground (arith, h, e, apart))
        ]
        | inr e ↦ has-local_targets r refs (ground (arith, h, e))
      ]

  pub outgoing-known :
      (x : String) (ids : List String)
      → member k (or_else (get x (outgoing_entries image m ids)) []) ≡ true
      → has k m ≡ true
  unfolding outgoing_entries get member
  outgoing-known x [] h = cc
  outgoing-known x (id ∷ ids) h = elim (Option-cases (get id m)) [
    | inl e ↦ outgoing-known x ids (rw (e, outgoing_entries) at h)
    | inr (r, e) ↦ elim (Bool-cases (str_eq id x)) [
      | inl here ↦ has-local_targets r (dedupe_sorted_object_refs r.references) (
          sym (
            member-dedupe_sorted k
              (local_targets image m r (dedupe_sorted_object_refs r.references)))
          ∙ (rw (e, outgoing_entries, here) at h))
      | inr apart ↦ outgoing-known x ids (rw (e, outgoing_entries, apart) at h)
    ]
  ]
