-- ===== src/Support/TupleMap/Sizes.antt =====
-- The size that a tuple map keeps, and the levels that it prunes.
use lagrange_images.Base.{
  ℕ, zero, suc, ◌+◌, ◌<◌, String, ◌≡◌, refl, sym, ap, ℕ-cases, length-append, some, List, [], ◌∷◌,
  arith, is_some, or_else, Option-cases, inl, inr, if◌then◌else◌, All, length,
}
use lagrange_images.Base.Dict.{
  Dict, IsDistinct, get, put, put-IsDistinct, remove-IsDistinct, length-put, length-remove, All-get,
  sum_values, sum_values-put, sum_values-remove, All-put, All-remove,
}
use lagrange_images.Support.TupleMap.Laws.{level_get-no_entries, level_size_zero, level_delete_inv}
use lagrange_images.Support.TupleMap.{
  Key, Level, level_get, level_set, level_delete, level_size, prune, no_entries, TupleMap, set,
  delete, entries, empty, prefixed, walk_with,
}

length-put_pos {ℓ} : {V : Type ℓ} (k : String) (v : V) (m : Dict V) → 0 < length (put k v m)
unfolding put
length-put_pos k v [] = omega arith
length-put_pos k v ((i, w) ∷ m) = ground arith

module _ {ℓ} (V : Type ℓ) where
  -- The number of keys below a level.
  unfoldable pub count : (n : ℕ) → Level n V → ℕ
  count zero m = length m
  count (suc n) m = sum_values (count n) m

  -- The parts of one level differ, and no sublevel is empty.
  abbrev pub IsPruned : (n : ℕ) → Level n V → Type ℓ
  IsPruned zero m = IsDistinct m
  IsPruned (suc n) m =
      IsDistinct m × All (λ (e : String × Level n V). IsPruned n e.1 × (0 < level_size V n e.1)) m

  no_entries-IsPruned : (n : ℕ) → IsPruned n (no_entries V n)
  no_entries-IsPruned zero = tt
  no_entries-IsPruned (suc n) = (tt, tt)

  level_size-set :
      (n : ℕ) (k : Key n) (v : V) (m : Level n V) → 0 < level_size V n (level_set V n k v m)
  unfolding level_set
  level_size-set zero k v m = length-put_pos k v m
  level_size-set (suc n) (p, k) v m =
      length-put_pos p (level_set V n k v (or_else (get p m) (no_entries V n))) m

  count-no_entries : (n : ℕ) → count n (no_entries V n) ≡ 0
  unfolding count sum_values
  count-no_entries zero = refl
  count-no_entries (suc n) = refl

  pub count-set :
      (n : ℕ) (k : Key n) (v : V) (m : Level n V)
      → count n (level_set V n k v m)
        ≡ (if is_some (level_get V n k m) then count n m else count n m + 1)
  unfolding count level_set level_get
  count-set zero k v m = length-put k v m
  count-set (suc n) (p, k) v m = ground (
    arith,
    sum_values-put (count n) p (level_set V n k v (or_else (get p m) (no_entries V n))) m,
    count-set n k v (or_else (get p m) (no_entries V n)),
    level_get-no_entries V n k,
    count-no_entries n,
  )

  sublevel-IsPruned :
      (n : ℕ) (p : String) (m : Level (suc n) V)
      → IsPruned (suc n) m
      → IsPruned n (or_else (get p m) (no_entries V n))
  sublevel-IsPruned n p m h = elim (Option-cases (get p m)) [
    | inl e ↦ rw e (no_entries-IsPruned n)
    | inr (next, e) ↦
        rw e (All-get (λ next. IsPruned n next × (0 < level_size V n next)) p m next h.1 e).0
  ]

  pub set-IsPruned :
      (n : ℕ) (k : Key n) (v : V) (m : Level n V) → IsPruned n m → IsPruned n (level_set V n k v m)
  unfolding level_set
  set-IsPruned zero k v m h = put-IsDistinct k v m h
  set-IsPruned (suc n) (p, k) v m h = (
    put-IsDistinct p (level_set V n k v (or_else (get p m) (no_entries V n))) m h.0,
    All-put (λ next. IsPruned n next × (0 < level_size V n next)) p
        (level_set V n k v (or_else (get p m) (no_entries V n))) m
        (
          set-IsPruned n k v (or_else (get p m) (no_entries V n)) (sublevel-IsPruned n p m h),
          level_size-set n k v (or_else (get p m) (no_entries V n)),
        )
        h.1,
  )

  count-prune :
      (n : ℕ) (p : String) (next next' : Level n V) (m : Level (suc n) V)
      → IsDistinct m
      → get p m ≡ some next
      → count (suc n) (prune V n p next' m) + count n next ≡ count (suc n) m + count n next'
  unfolding count prune
  count-prune n p next next' m d e = elim (ℕ-cases (level_size V n next')) [
    | inl z ↦
        rw (z, prune)
          (omega (
            arith,
            sum_values-remove (count n) p next m d e,
            ap (count n) (level_size_zero V n next' z),
            count-no_entries n,
          ))
    | inr (s, z) ↦ rw (z, prune) (ground (arith, sum_values-put (count n) p next' m))
  ]

  prune-IsPruned :
      (n : ℕ) (p : String) (next : Level n V) (m : Level (suc n) V)
      → IsPruned n next
      → IsPruned (suc n) m
      → IsPruned (suc n) (prune V n p next m)
  unfolding prune
  prune-IsPruned n p next m h d = elim (ℕ-cases (level_size V n next)) [
    | inl e ↦
        rw (e, prune)
          (
            remove-IsDistinct p m d.0,
            All-remove (λ (l : Level n V). IsPruned n l × (0 < level_size V n l)) p m d.1,
          )
    | inr (s, e) ↦
        rw (e, prune)
          (
            put-IsDistinct p next m d.0,
            All-put (λ (l : Level n V). IsPruned n l × (0 < level_size V n l)) p next m
                (h, omega arith) d.1,
          )
  ]

  pub count-delete :
      (n : ℕ) (k : Key n) (m m' : Level n V)
      → IsPruned n m
      → level_delete V n k m ≡ some m'
      → count n m' + 1 ≡ count n m
  unfolding count level_delete
  count-delete zero k m m' h e = elim (Option-cases (get k m)) [
    | inl absent ↦ ground arith
    | inr (v, found) ↦ ground (arith, length-remove k v m)
  ]
  count-delete (suc n) (p, k) m m' h e =
      let (next, next', found, d, r) = level_delete_inv V n p k m m' e in
      let below =
        All-get (λ (l : Level n V). IsPruned n l × (0 < level_size V n l)) p m next h.1 found in
      rw r (
        omega
          (arith, count-prune n p next next' m h.0 found, count-delete n k next next' below.0 d))

  pub delete-IsPruned :
      (n : ℕ) (k : Key n) (m m' : Level n V)
      → IsPruned n m
      → level_delete V n k m ≡ some m'
      → IsPruned n m'
  unfolding level_delete
  delete-IsPruned zero k m m' h e = ground (arith, remove-IsDistinct k m)
  delete-IsPruned (suc n) (p, k) m m' h e =
      let (next, next', found, d, r) = level_delete_inv V n p k m m' e in
      let below =
        All-get (λ (l : Level n V). IsPruned n l × (0 < level_size V n l)) p m next h.1 found in
      rw r (prune-IsPruned n p next' m (delete-IsPruned n k next next' below.0 d) h)

  -- What every operation keeps: pruned levels of distinct parts, and `size` as the number of keys.
  pub record IsValid (n : ℕ) (t : TupleMap n V) : Type ℓ where
    pub pruned : IsPruned n t.root
    pub counted : t.size ≡ count n t.root

  pub empty-IsValid : (n : ℕ) → IsValid n (empty V n)
  empty-IsValid n = record { pruned = no_entries-IsPruned n; counted = sym (count-no_entries n) }

  -- `set` keeps the map well formed.
  pub set-IsValid :
      (n : ℕ) (k : Key n) (v : V) (t : TupleMap n V) → IsValid n t → IsValid n (set V n k v t)
  unfolding set
  set-IsValid n k v t h = record {
    pruned = set-IsPruned n k v t.root h.pruned;
    counted = ground (arith, count-set n k v t.root);
  }

  -- `delete` keeps the map well formed, whether it finds the key or not.
  pub delete-IsValid :
      (n : ℕ) (k : Key n) (t : TupleMap n V) → IsValid n t → IsValid n (delete V n k t).0
  unfolding delete
  delete-IsValid n k t h = elim (Option-cases (level_delete V n k t.root)) [
    | inl e ↦ rw (e, delete) h
    | inr (m, e) ↦
        rw (e, delete)
          (record {
            pruned = delete-IsPruned n k t.root m h.pruned e;
            counted = omega (arith, count-delete n k t.root m h.pruned e, h.counted);
          })
  ]

  length-prefixed :
      (n : ℕ) (p : String) (es : List (Key n × V)) → length (prefixed V n p es) ≡ length es
  unfolding prefixed
  length-prefixed n p [] = refl
  length-prefixed n p (e ∷ es) = ap suc (length-prefixed n p es)

  length-walk_with :
      (n : ℕ) (walk : Level n V → List (Key n × V)) (c : Level n V → ℕ)
      → ((l : Level n V) → length (walk l) ≡ c l)
      → (m : Dict (Level n V)) → length (walk_with V n walk m) ≡ sum_values c m
  unfolding walk_with sum_values
  length-walk_with n walk c h [] = refl
  length-walk_with n walk c h ((p, l) ∷ m) = omega (
    arith,
    length-append (prefixed V n p (walk l)) (walk_with V n walk m),
    length-prefixed n p (walk l),
    h l,
    length-walk_with n walk c h m,
  )

  pub length-entries : (n : ℕ) (m : Level n V) → length (entries V n m) ≡ count n m
  unfolding entries count
  length-entries zero m = refl
  length-entries (suc n) m = length-walk_with n (entries V n) (count n) (length-entries n) m
