-- ===== src/Graph/Merge/Apply/Order.antt =====
-- src/graph/merge.js: the order of the writes of a merge.
use lagrange_images.Base.{
  ℕ, String, ◌≡◌, ◌≤◌, ◌<◌, ◌⊎◌, suc, ltb, refl, sym, ap, ◌∙◌, ◌+◌, Bool, true, false, some, List,
  [], ◌∷◌, str_eq, if◌then◌else◌, arith, Bool-cases, inl, inr, All,
}
use lagrange_images.Base.TextOrder.{text_leb, text_leb_total}
use lagrange_images.Graph.References.{is_inherited_name}
use lagrange_images.Graph.Canonical.{Record}
use lagrange_images.Graph.Merge.Apply.{
  has_inherited_kind, ordered_writes, apply_order, goes_first, insert_record, sort_records,
}

-- The kinds in the order of their writes: what a record refers to by its kind is there before it.
abbrev kind_order : List String
kind_order = "shape" ∷ "code-artifact" ∷ "lexical-environment" ∷ "block" ∷ "object" ∷ []

-- The place of a name in a list, which is the length for a name that is not there.
abbrev place_in : List String → String → ℕ
place_in [] k = 0
place_in (x ∷ xs) k = if str_eq k x then 0 else suc (place_in xs k)

-- An earlier kind comes before, and among records of one kind the earlier identity.
abbrev pub Precedes : Record → Record → Type 0
Precedes a b =
    (place_in kind_order a.kind < place_in kind_order b.kind)
    ⊎ ((place_in kind_order a.kind ≡ place_in kind_order b.kind) × (text_leb a.id b.id ≡ true))

abbrev pub IsOrderedAfter : Record → List Record → Type 0
IsOrderedAfter a [] = Unit
IsOrderedAfter a (r ∷ rs) = Precedes a r × IsOrderedAfter r rs

abbrev pub IsOrdered : List Record → Type 0
IsOrdered [] = Unit
IsOrdered (r ∷ rs) = IsOrderedAfter r rs

abbrev pub count_of : (Record → Bool) → List Record → ℕ
count_of p [] = 0
count_of p (r ∷ rs) = (if p r then 1 else 0) + count_of p rs

abbrev order_at : ℕ → ℕ
order_at rank = if ltb rank 5 then rank + 1 else 99

apply_order_lem :
    (kind : String)
    → is_inherited_name kind ≡ false
    → apply_order kind ≡ some (order_at (place_in kind_order kind))
unfolding apply_order
apply_order_lem kind h = ground (arith, h)

place_le : (kind : String) → place_in kind_order kind ≤ 5
place_le kind = ground arith

-- Two orders of kinds, and what the identities say where they are the same.
abbrev compared : ℕ → ℕ → Bool → Bool
compared m n ids = if ltb m n then true else if ltb n m then false else ids

compared_first :
    (m n : ℕ) (ids : Bool)
    → m ≤ 5
    → n ≤ 5
    → compared (order_at m) (order_at n) ids ≡ true
    → (m < n) ⊎ ((m ≡ n) × (ids ≡ true))
compared_first m n ids hm hn h = elim (Bool-cases (ltb m n)) [
  | inl less ↦ inl (ground (arith, less))
  | inr more ↦ inr (ground (arith, h, more, hm, hn), ground (arith, h, more, hm, hn))
]

compared_later :
    (m n : ℕ) (ids : Bool)
    → m ≤ 5
    → n ≤ 5
    → compared (order_at m) (order_at n) ids ≡ false
    → (n < m) ⊎ ((n ≡ m) × (ids ≡ false))
compared_later m n ids hm hn h = elim (Bool-cases (ltb n m)) [
  | inl less ↦ inl (ground (arith, less))
  | inr more ↦ inr (ground (arith, h, more, hm, hn), ground (arith, h, more, hm, hn))
]

module _ (a b : Record) (ha : is_inherited_name a.kind ≡ false)
    (hb : is_inherited_name b.kind ≡ false) where
  abbrev rank : Record → ℕ
  rank r = place_in kind_order r.kind

  goes_first_lem :
      goes_first a b ≡ compared (order_at (rank a)) (order_at (rank b)) (text_leb a.id b.id)
  unfolding goes_first
  goes_first_lem = rw (apply_order_lem a.kind ha, apply_order_lem b.kind hb, goes_first) refl

  first-Precedes : goes_first a b ≡ true → Precedes a b
  first-Precedes h =
      compared_first (rank a) (rank b) (text_leb a.id b.id) (place_le a.kind) (place_le b.kind)
        (sym goes_first_lem ∙ h)

  later-Precedes : goes_first a b ≡ false → Precedes b a
  later-Precedes h =
      elim (compared_later (rank a) (rank b) (text_leb a.id b.id) (place_le a.kind)
        (place_le b.kind) (sym goes_first_lem ∙ h)) [
          | inl less ↦ inl less
          | inr (same, ids) ↦ inr (same, text_leb_total a.id b.id ids)
        ]

abbrev pub AreOrdinary : List Record → Type 0
AreOrdinary = All (λ (r : Record). is_inherited_name r.kind ≡ false)

insert_record-IsOrderedAfter :
    (a r : Record) (rs : List Record)
    → is_inherited_name r.kind ≡ false
    → AreOrdinary rs
    → Precedes a r
    → IsOrderedAfter a rs
    → IsOrderedAfter a (insert_record r rs)
unfolding insert_record
insert_record-IsOrderedAfter a r [] hr hs p s = (p, tt)
insert_record-IsOrderedAfter a r (x ∷ xs) hr hs p s = elim (Bool-cases (goes_first r x)) [
  | inl first ↦ rw first (p, (first-Precedes r x hr hs.0 first, s.1))
  | inr later ↦
      rw later
        (s.0, insert_record-IsOrderedAfter x r xs hr hs.1 (later-Precedes r x hr hs.0 later) s.1)
]

insert_record-IsOrdered :
    (r : Record) (rs : List Record)
    → is_inherited_name r.kind ≡ false
    → AreOrdinary rs
    → IsOrdered rs
    → IsOrdered (insert_record r rs)
unfolding insert_record
insert_record-IsOrdered r [] hr hs s = tt
insert_record-IsOrdered r (x ∷ xs) hr hs s = elim (Bool-cases (goes_first r x)) [
  | inl first ↦ rw first (first-Precedes r x hr hs.0 first, s)
  | inr later ↦
      rw later (insert_record-IsOrderedAfter x r xs hr hs.1 (later-Precedes r x hr hs.0 later) s)
]

insert_record-AreOrdinary :
    (r : Record) (rs : List Record)
    → is_inherited_name r.kind ≡ false
    → AreOrdinary rs
    → AreOrdinary (insert_record r rs)
unfolding insert_record
insert_record-AreOrdinary r [] hr hs = (hr, tt)
insert_record-AreOrdinary r (x ∷ xs) hr hs = elim (Bool-cases (goes_first r x)) [
  | inl first ↦ rw first (hr, hs)
  | inr later ↦ rw later (hs.0, insert_record-AreOrdinary r xs hr hs.1)
]

sort_records-IsOrdered :
    (rs : List Record)
    → AreOrdinary rs
    → AreOrdinary (sort_records rs) × IsOrdered (sort_records rs)
unfolding sort_records
sort_records-IsOrdered [] h = (tt, tt)
sort_records-IsOrdered (r ∷ rs) h =
    let (ordinary, s) = sort_records-IsOrdered rs h.1 in
    (
      insert_record-AreOrdinary r (sort_records rs) h.0 ordinary,
      insert_record-IsOrdered r (sort_records rs) h.0 ordinary s,
    )

no_inherited_kind : (rs : List Record) → AreOrdinary rs → has_inherited_kind rs ≡ false
unfolding has_inherited_kind
no_inherited_kind [] h = refl
no_inherited_kind (r ∷ rs) h =
    rw (apply_order_lem r.kind h.0, has_inherited_kind) (no_inherited_kind rs h.1)

count-insert_record :
    (p : Record → Bool) (r : Record) (rs : List Record)
    → count_of p (insert_record r rs) ≡ (if p r then 1 else 0) + count_of p rs
unfolding insert_record
count-insert_record p r [] = refl
count-insert_record p r (x ∷ xs) = elim (Bool-cases (goes_first r x)) [
  | inl first ↦ rw first refl
  | inr later ↦ rw later (ground (arith, count-insert_record p r xs))
]

count-sort_records :
    (p : Record → Bool) (rs : List Record) → count_of p (sort_records rs) ≡ count_of p rs
unfolding sort_records
count-sort_records p [] = refl
count-sort_records p (r ∷ rs) =
    count-insert_record p r (sort_records rs)
    ∙ ap (λ n. (if p r then 1 else 0) + n) (count-sort_records p rs)

-- Where no kind bears a name that object literals inherit, the writes of a merge are put in order:
-- shapes, code artifacts, lexical environments, blocks, objects, and then all others together, each of
-- these six groups by the identities. Exactly the records that were there are there, each as often as
-- before.
pub ordered_writes_lem :
    (host_sort : List Record → List Record) (p : Record → Bool) (rs : List Record)
    → AreOrdinary rs
    → IsOrdered (ordered_writes host_sort rs)
      × (count_of p (ordered_writes host_sort rs) ≡ count_of p rs)
unfolding ordered_writes
ordered_writes_lem host_sort p rs h =
    rw (no_inherited_kind rs h) ((sort_records-IsOrdered rs h).1, count-sort_records p rs)
