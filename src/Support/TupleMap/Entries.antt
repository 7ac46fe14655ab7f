-- ===== src/Support/TupleMap/Entries.antt =====
-- Iteration over a tuple map: what the nested walk yields is the map.
use lagrange_images.Base.{
  ℕ, zero, suc, String, ◌≡◌, refl, sym, ◌∙◌, Option, none, some, List, [], ◌∷◌, ◌++◌, arith, str_eq,
  eq_iff, if◌then◌else◌, length,
}
use lagrange_images.Base.Dict.{Dict, get}
use lagrange_images.Support.TupleMap.Sizes.{IsPruned, IsValid, length-entries}
use lagrange_images.Support.TupleMap.{
  Key, Level, level_get, TupleMap, lookup, entries, prefixed, walk_with, key_eq,
}

module _ {ℓ} (V : Type ℓ) where
  -- The first entry of a key in a list of entries.
  unfoldable pub find : (n : ℕ) → Key n → List (Key n × V) → Option V
  find n k [] = none
  find n k ((l, v) ∷ es) = if key_eq n l k then some v else find n k es

  find-append :
      (n : ℕ) (k : Key n) (xs ys : List (Key n × V))
      → find n k (xs ++ ys) ≡ elim (find n k xs) [ none ↦ find n k ys | some v ↦ some v ]
  unfolding find
  find-append n k [] ys = refl
  find-append n k ((l, v) ∷ xs) ys = ground (arith, find-append n k xs ys)

  find-prefixed :
      (n : ℕ) (p q : String) (k : Key n) (es : List (Key n × V))
      → find (suc n) (q, k) (prefixed V n p es) ≡ (if str_eq p q then find n k es else none)
  unfolding find prefixed key_eq
  find-prefixed n p q k [] = ground arith
  find-prefixed n p q k ((l, v) ∷ es) = ground (arith, find-prefixed n p q k es, eq_iff p q)

  find-walk_with :
      (n : ℕ) (walk : Level n V → List (Key n × V)) (q : String) (k : Key n) (m : Dict (Level n V))
      → ((l : Level n V) → IsPruned V n l → find n k (walk l) ≡ level_get V n k l)
      → IsPruned V (suc n) m
      → find (suc n) (q, k) (walk_with V n walk m) ≡ level_get V (suc n) (q, k) m
  unfolding walk_with level_get get find
  find-walk_with n walk q k [] h d = refl
  find-walk_with n walk q k ((p, l) ∷ m) h d = ground (
    arith,
    find-append (suc n) (q, k) (prefixed V n p (walk l)) (walk_with V n walk m),
    find-prefixed n p q k (walk l),
    find-walk_with n walk q k m h (d.0.1, d.1.1),
    h l d.1.0.0,
    eq_iff p q,
  )

  find-get : (k : String) (m : Dict V) → find zero k m ≡ get k m
  unfolding find get key_eq
  find-get k [] = refl
  find-get k ((j, v) ∷ m) = ground (arith, find-get k m)

  find-entries :
      (n : ℕ) (k : Key n) (m : Level n V)
      → IsPruned V n m
      → find n k (entries V n m) ≡ level_get V n k m
  unfolding entries level_get
  find-entries zero k m d = find-get k m
  find-entries (suc n) (q, k) m d = find-walk_with n (entries V n) q k m (find-entries n k) d

  -- The entries of a well-formed map are as many as its `size` says, and a key finds among them what
  -- it finds in the map.
  pub entries_lem :
      (n : ℕ) (k : Key n) (t : TupleMap n V)
      → IsValid V n t
      → (find n k (entries V n t.root) ≡ lookup V n k t) × (length (entries V n t.root) ≡ t.size)
  unfolding lookup
  entries_lem n k t h =
      (find-entries n k t.root h.pruned, length-entries V n t.root ∙ sym h.counted)
