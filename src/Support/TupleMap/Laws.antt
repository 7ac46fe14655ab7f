-- ===== src/Support/TupleMap/Laws.antt =====
-- Lookup after `set` and `delete`: a tuple map is a finite map from tuples, with no two keys joined.
use lagrange_images.Base.{
  ℕ, zero, suc, String, ◌≡◌, ◌↔◌, refl, true, none, some, ◌∷◌, [], arith, is_some, str_eq, eq_iff,
  inl, inr, Option-cases, if◌then◌else◌, or_else,
}
use lagrange_images.Base.Dict.{get, get-put, get-remove}
use lagrange_images.Support.TupleMap.{
  Key, Level, level_get, level_set, level_delete, level_size, prune, no_entries, key_eq, TupleMap,
  lookup, contains, set, delete,
}

pub key_eq_iff : (n : ℕ) (k l : Key n) → (key_eq n k l ≡ true) ↔ (k ≡ l)
unfolding key_eq
key_eq_iff zero k l = eq_iff k l
key_eq_iff (suc n) (p, k) (q, l) = ground (arith, eq_iff p q, key_eq_iff n k l)

module _ {ℓ} (V : Type ℓ) where
  pub level_get-no_entries : (n : ℕ) (k : Key n) → level_get V n k (no_entries V n) ≡ none
  unfolding level_get get
  level_get-no_entries zero k = refl
  level_get-no_entries (suc n) (p, k) = refl

  pub level_get-set :
      (n : ℕ) (k l : Key n) (v : V) (m : Level n V)
      → level_get V n l (level_set V n k v m) ≡ (if key_eq n k l then some v else level_get V n l m)
  unfolding level_get level_set key_eq
  level_get-set zero k l v m = get-put k l v m
  level_get-set (suc n) (p, k) (q, l) v m = ground (
    arith,
    get-put p q (level_set V n k v (or_else (get p m) (no_entries V n))) m,
    level_get-set n k l v (or_else (get p m) (no_entries V n)),
    level_get-no_entries n l,
    eq_iff p q,
  )

  pub level_size_zero : (n : ℕ) (m : Level n V) → level_size V n m ≡ 0 → m ≡ no_entries V n
  level_size_zero zero [] h = refl
  level_size_zero zero (e ∷ m) h = absurd (omega arith)
  level_size_zero (suc n) [] h = refl
  level_size_zero (suc n) (e ∷ m) h = absurd (omega arith)

  get-prune :
      (n : ℕ) (p q : String) (next : Level n V) (m : Level (suc n) V) (l : Key n)
      → level_get V (suc n) (q, l) (prune V n p next m)
        ≡ (if str_eq p q then level_get V n l next else level_get V (suc n) (q, l) m)
  unfolding prune level_get
  get-prune n p q next m l = ground (
    arith,
    get-put p q next m,
    get-remove p q m,
    level_size_zero n next,
    level_get-no_entries n l,
  )

  -- The parts of a deletion that found its key.
  pub level_delete_inv :
      (n : ℕ) (p : String) (k : Key n) (m m' : Level (suc n) V)
      → level_delete V (suc n) (p, k) m ≡ some m'
      → (next next' : Level n V) × (get p m ≡ some next)
        × (level_delete V n k next ≡ some next')
        × (m' ≡ prune V n p next' m)
  unfolding level_delete
  level_delete_inv n p k m m' h = ground arith

  pub level_get-delete :
      (n : ℕ) (k l : Key n) (m m' : Level n V)
      → level_delete V n k m ≡ some m'
      → level_get V n l m' ≡ (if key_eq n k l then none else level_get V n l m)
  unfolding level_get level_delete key_eq
  level_get-delete zero k l m m' h = ground (arith, get-remove k l m)
  level_get-delete (suc n) (p, k) (q, l) m m' h =
      let (next, next', e, d, r) = level_delete_inv n p k m m' h in
      rw r
        (ground (arith, get-prune n p q next' m l, level_get-delete n k l next next' d, eq_iff p q))

  -- `delete` answers whether the key was there.
  pub level_delete_none :
      (n : ℕ) (k : Key n) (m : Level n V)
      → is_some (level_delete V n k m) ≡ is_some (level_get V n k m)
  unfolding level_get level_delete
  level_delete_none zero k m = ground arith
  level_delete_none (suc n) (p, k) m = elim (Option-cases (get p m)) [
    | inl e ↦ rw (e, is_some, level_delete, level_get)
    | inr (next, e) ↦ ground (arith, level_delete_none n k next)
  ]

  -- After `set`, the key of the same parts finds the new value and every other key finds what it
  -- found before.
  pub lookup-set :
      (n : ℕ) (k l : Key n) (v : V) (t : TupleMap n V)
      → lookup V n l (set V n k v t) ≡ (if key_eq n k l then some v else lookup V n l t)
  unfolding lookup set
  lookup-set n k l v t = level_get-set n k l v t.root

  -- `delete` takes out the key of these parts and no other, and answers whether it was there.
  pub lookup-delete :
      (n : ℕ) (k l : Key n) (t : TupleMap n V)
      → (lookup V n l (delete V n k t).0 ≡ (if key_eq n k l then none else lookup V n l t))
        × ((delete V n k t).1 ≡ contains V n k t)
  unfolding lookup delete contains
  lookup-delete n k l t = elim (Option-cases (level_delete V n k t.root)) [
    | inl e ↦ ground (arith, level_delete_none n k t.root, key_eq_iff n k l)
    | inr (m, e) ↦ ground (arith, level_delete_none n k t.root, level_get-delete n k l t.root m e)
  ]
