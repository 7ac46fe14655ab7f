-- ===== src/Graph/References/Kept.antt =====
-- src/graph/reachability.js: dedupeSortedObjectRefs loses no reference where no image is named with a NUL,
-- which separates the two names in its keys.
use lagrange_images.Base.{
  ℕ, String, ◌≡◌, refl, ap, ◌∙◌, subst, Bool, true, false, not, ◌&&◌, ◌||◌, List, [], ◌∷◌, ◌++◌,
  str_eq, eq_iff, ◌==◌, arith, codes, Bool-cases, inl, inr, All,
}
use Prim.Native.Char.{code}
use text.Mathlib.TextEquality.{Char-path}
use lagrange_images.Graph.References.{
  Ref, is_unpinned_ref, ref_key, same_key, has_key, first_refs, insert_ref, sort_refs, ref_leb,
  dedupe_sorted_object_refs,
}

abbrev has_nul : List ℕ → Bool
has_nul [] = false
has_nul (c ∷ cs) = c == 0 || has_nul cs

-- The image of a reference is named without a NUL.
abbrev pub IsNulFree : Ref → Type 0
IsNulFree ref = has_nul (codes ref.image_id) ≡ false

-- An unpinned reference to an object of an image, by their names.
abbrev pub names : String → String → Ref → Bool
names image target ref =
    is_unpinned_ref ref && (str_eq ref.image_id image && str_eq ref.object_id target)

abbrev pub mentions : String → String → List Ref → Bool
mentions image target [] = false
mentions image target (ref ∷ refs) = names image target ref || mentions image target refs

same_key_refl : (xs : List ℕ) → same_key xs xs ≡ true
unfolding same_key
same_key_refl [] = refl
same_key_refl (x ∷ xs) = ground (arith, same_key_refl xs)

same_key_eq : (xs ys : List ℕ) → same_key xs ys ≡ true → xs ≡ ys
unfolding same_key
same_key_eq [] [] h = refl
same_key_eq [] (y ∷ ys) h = cc
same_key_eq (x ∷ xs) [] h = cc
same_key_eq (x ∷ xs) (y ∷ ys) h =
    let rest = same_key_eq xs ys (ground (arith, h)) in
    let head : x ≡ y = ground (arith, h) in rw (head, rest) refl

-- The two parts of a key.
key_parts :
    (xs ys us vs : List ℕ)
    → has_nul xs ≡ false
    → has_nul ys ≡ false
    → same_key (xs ++ (0 ∷ us)) (ys ++ (0 ∷ vs)) ≡ true
    → (xs ≡ ys) × (us ≡ vs)
unfolding same_key
key_parts [] [] us vs hx hy h = (refl, same_key_eq us vs (ground (arith, h)))
key_parts [] (y ∷ ys) us vs hx hy h = absurd (ground (arith, h, hy))
key_parts (x ∷ xs) [] us vs hx hy h = absurd (ground (arith, h, hx))
key_parts (x ∷ xs) (y ∷ ys) us vs hx hy h =
    let (p, q) =
      key_parts xs ys us vs (ground (arith, hx)) (ground (arith, hy)) (ground (arith, h)) in
    let head : x ≡ y = ground (arith, h) in (rw (head, p) refl, q)

codes_injective : (a b : String) → codes a ≡ codes b → a ≡ b
codes_injective String.[] String.[] h = refl
codes_injective String.[] (String.◌∷◌ d b) h = cc
codes_injective (String.◌∷◌ c a) String.[] h = cc
codes_injective (String.◌∷◌ c a) (String.◌∷◌ d b) h =
    let first : code c ≡ code d = cc in
    let rest : codes a ≡ codes b = cc in rw (Char-path c d first, codes_injective a b rest) refl

-- Of references without a NUL in the image, those with one key name the same.
names-key :
    (image target : String) (ref : Ref)
    → is_unpinned_ref ref ≡ true
    → IsNulFree ref
    → has_nul (codes image) ≡ false
    → same_key (ref_key ref) (codes image ++ (0 ∷ codes target)) ≡ true
    → names image target ref ≡ true
unfolding ref_key
names-key image target ref plain free clean h =
    let (p, q) =
      key_parts (codes ref.image_id) (codes image) (codes ref.object_id) (codes target) free clean
        h in
    let same_image = (eq_iff ref.image_id image).1 (codes_injective ref.image_id image p) in
    let same_target = (eq_iff ref.object_id target).1 (codes_injective ref.object_id target q) in
    rw (plain, same_image, same_target) refl

key_of_named :
    (image target : String) (ref : Ref)
    → names image target ref ≡ true
    → ref_key ref ≡ codes image ++ (0 ∷ codes target)
unfolding ref_key
key_of_named image target ref h =
    let same_image : ref.image_id ≡ image = (eq_iff ref.image_id image).0 (ground (arith, h)) in
    let same_target : ref.object_id ≡ target =
      (eq_iff ref.object_id target).0 (ground (arith, h)) in
    rw (same_image, same_target) refl

module _ (image target : String) (clean : has_nul (codes image) ≡ false) where
  abbrev key : List ℕ
  key = codes image ++ (0 ∷ codes target)

  mentions-first_refs :
      (keys : List (List ℕ)) (refs : List Ref)
      → All IsNulFree refs
      → has_key key keys ≡ false
      → mentions image target refs ≡ true
      → mentions image target (first_refs keys refs) ≡ true
  unfolding first_refs has_key
  mentions-first_refs keys [] free new h = cc
  mentions-first_refs keys (ref ∷ refs) free new h = elim (Bool-cases (names image target ref)) [
    | inl here ↦
        let k = key_of_named image target ref here in
        let kept : (is_unpinned_ref ref && not (has_key (ref_key ref) keys)) ≡ true =
          rw (k, new) (ground (arith, here)) in
        rw (kept, first_refs, here) refl
    | inr other ↦
        let later : mentions image target refs ≡ true = ground (arith, h, other) in
        elim (Bool-cases (is_unpinned_ref ref && not (has_key (ref_key ref) keys))) [
          | inl kept ↦
              let fresh : same_key (ref_key ref) key ≡ false =
                elim (Bool-cases (same_key (ref_key ref) key)) [
                  | inl same ↦ absurd (
                      ground (
                        arith,
                        other,
                        names-key image target ref (ground (arith, kept)) free.0 clean same,
                      ))
                  | inr apart ↦ apart
                ] in
              rw (kept, first_refs)
                (ground (
                  arith,
                  mentions-first_refs (ref_key ref ∷ keys) refs free.1 (rw (fresh, has_key) new)
                      later,
                ))
          | inr dropped ↦ rw (dropped, first_refs) (mentions-first_refs keys refs free.1 new later)
        ]
  ]

mentions-insert_ref :
    (image target : String) (ref : Ref) (refs : List Ref)
    → mentions image target (insert_ref ref refs)
      ≡ (names image target ref || mentions image target refs)
unfolding insert_ref
mentions-insert_ref image target ref [] = refl
mentions-insert_ref image target ref (r ∷ refs) = elim (Bool-cases (ref_leb ref r)) [
  | inl first ↦ rw first refl
  | inr later ↦ rw later (ground (arith, mentions-insert_ref image target ref refs))
]

mentions-sort_refs :
    (image target : String) (refs : List Ref)
    → mentions image target (sort_refs refs) ≡ mentions image target refs
unfolding sort_refs
mentions-sort_refs image target [] = refl
mentions-sort_refs image target (ref ∷ refs) =
    mentions-insert_ref image target ref (sort_refs refs)
    ∙ ap (λ b. names image target ref || b) (mentions-sort_refs image target refs)

named_image :
    (image target : String) (refs : List Ref)
    → All IsNulFree refs
    → mentions image target refs ≡ true
    → has_nul (codes image) ≡ false
named_image image target [] free h = cc
named_image image target (ref ∷ refs) free h = elim (Bool-cases (names image target ref)) [
  | inl here ↦
      subst (λ i. has_nul (codes i) ≡ false) ((eq_iff ref.image_id image).0 (ground (arith, here)))
        free.0
  | inr other ↦ named_image image target refs free.1 (ground (arith, h, other))
]

-- What unpinned references mention is mentioned after duplicates are gone.
pub mentions-dedupe_sorted_object_refs :
    (image target : String) (refs : List Ref)
    → All IsNulFree refs
    → mentions image target refs ≡ true
    → mentions image target (dedupe_sorted_object_refs refs) ≡ true
unfolding dedupe_sorted_object_refs has_key
mentions-dedupe_sorted_object_refs image target refs free h =
    mentions-sort_refs image target (first_refs [] refs)
    ∙ mentions-first_refs image target (named_image image target refs free h) [] refs free refl h
