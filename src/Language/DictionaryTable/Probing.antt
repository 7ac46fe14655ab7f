-- ===== src/Language/DictionaryTable/Probing.antt =====
-- Probe sequences of src/language/smalltalk-dictionary-table.js, and what they place.
use lagrange_images.Base.Integers.{ℤ, pos, negsuc}
use lagrange_images.Base.{
  ℕ, zero, suc, ◌+◌, ◌-◌, ◌%◌, ◌<◌, ◌≡◌, refl, sym, ap, ◌∙◌, subst, true, none, some, List, [], ◌∷◌,
  if◌then◌else◌, length, get_elem?, arith, ◌⊎◌, inl, inr, Bool-cases,
}
use native.Mathlib.Decide.{dec_le}
use native.Mathlib.Nat.{mod-lt, mod-eq_of_lt}
use lagrange_images.Base.Result.{ok, eq_of_ok}
use lagrange_images.Language.DictionaryTable.{
  probe_start, probe_from, probe_sequence, Entry, Buckets, tally_of, set_bucket, is_free, place,
}

-- The index stands in the list.
abbrev pub Has : ℕ → List ℕ → Type 0
Has i [] = ⊥
Has i (j ∷ js) = (i ≡ j) ⊎ Has i js

probe_from-Has :
    (start step n capacity j : ℕ)
    → j < n
    → Has ((start + (step + j)) % capacity) (probe_from start step n capacity)
unfolding probe_from
probe_from-Has start step zero capacity j h = absurd (omega arith)
probe_from-Has start step (suc n) capacity zero h =
    inl (ap (λ x. (start + x) % capacity) (omega arith))
probe_from-Has start step (suc n) capacity (suc j) h =
    let e : step + suc j ≡ step + 1 + j = omega arith in
    inr (
      subst (λ x. Has ((start + x) % capacity) (probe_from start (step + 1) n capacity)) (sym e)
        (probe_from-Has start (step + 1) n capacity j (omega arith)))

probe_start-lt : (hash : ℤ) (capacity : ℕ) → 0 < capacity → probe_start hash capacity < capacity
unfolding probe_start
probe_start-lt (pos n) capacity h = mod-lt _ h
probe_start-lt (negsuc n) capacity h = mod-lt _ h

-- The step at which a bucket is probed.
steps_to :
    (start i capacity : ℕ)
    → start < capacity
    → i < capacity
    → (j : ℕ) × (j < capacity) × ((start + (0 + j)) % capacity ≡ i)
steps_to start i capacity hs hi = elim (dec_le start i) [
  | yes le ↦ (
    i - start,
    omega arith,
    (let e : start + (0 + (i - start)) ≡ i = omega arith in rw e (mod-eq_of_lt hi)),
  )
  | no gt ↦ (
    i + capacity - start,
    omega arith,
    (let e : start + (0 + (i + capacity - start)) ≡ i + capacity = omega arith in
        rw e (grind arith)),
  )
]

-- Every bucket of a table stands in the probe sequence of every hash, a negative one included.
pub probe_sequence-Has :
    (hash : ℤ) (capacity i : ℕ) → i < capacity → Has i (probe_sequence hash capacity)
unfolding probe_sequence
probe_sequence-Has hash capacity i h =
    let start = probe_start hash capacity in
    let (j, lt, e) = steps_to start i capacity (probe_start-lt hash capacity (omega arith)) h in
    subst (λ x. Has x (probe_from start 0 capacity capacity)) e
      (probe_from-Has start 0 capacity capacity j lt)

module _ {Ref : Type 0} where
  pub place_free :
      (is : List ℕ) (e : Entry Ref) (bs : Buckets Ref) (i : ℕ)
      → Has i is
      → is_free Ref bs i ≡ true
      → (next : Buckets Ref) × (place Ref is e bs ≡ ok next)
  unfolding place
  place_free [] e bs i h free = elim h [ ]
  place_free (j ∷ is) e bs i h free = elim (Bool-cases (is_free Ref bs j)) [
    | inl here ↦ (set_bucket Ref j e bs, rw here refl)
    | inr there ↦ elim h [
      | inl same ↦ absurd (ground (arith, same, free, there))
      | inr later ↦ let (next, placed) = place_free is e bs i later free in (next, rw there placed)
    ]
  ]

  -- A bucket is free if not all are occupied.
  pub free_bucket :
      (bs : Buckets Ref)
      → tally_of Ref bs < length bs
      → (i : ℕ) × (i < length bs) × (is_free Ref bs i ≡ true)
  unfolding tally_of
  free_bucket [] h = absurd (omega arith)
  free_bucket (none ∷ bs) h = (0, omega arith, refl)
  free_bucket (some e ∷ bs) h =
      let (i, lt, free) = free_bucket bs (omega arith) in (suc i, omega arith, free)

  pub length-set_bucket :
      (i : ℕ) (e : Entry Ref) (bs : Buckets Ref) → length (set_bucket Ref i e bs) ≡ length bs
  unfolding set_bucket
  length-set_bucket i e [] = refl
  length-set_bucket zero e (b ∷ bs) = refl
  length-set_bucket (suc i) e (b ∷ bs) = ap (λ n. suc n) (length-set_bucket i e bs)

  tally_of-set_free :
      (i : ℕ) (e : Entry Ref) (bs : Buckets Ref)
      → is_free Ref bs i ≡ true
      → tally_of Ref (set_bucket Ref i e bs) ≡ tally_of Ref bs + 1
  unfolding set_bucket tally_of
  tally_of-set_free i e [] h = cc
  tally_of-set_free zero e (none ∷ bs) h = omega arith
  tally_of-set_free zero e (some x ∷ bs) h = cc
  tally_of-set_free (suc i) e (b ∷ bs) h = omega (arith, tally_of-set_free i e bs h)

  pub tally_of-set_occupied :
      (i : ℕ) (e x : Entry Ref) (bs : Buckets Ref)
      → get_elem? bs i ≡ some (some x)
      → tally_of Ref (set_bucket Ref i e bs) ≡ tally_of Ref bs
  unfolding set_bucket tally_of
  tally_of-set_occupied i e x [] h = cc
  tally_of-set_occupied zero e x (none ∷ bs) h = absurd (ground (arith, h))
  tally_of-set_occupied zero e x (some y ∷ bs) h = refl
  tally_of-set_occupied (suc i) e x (b ∷ bs) h = omega (arith, tally_of-set_occupied i e x bs h)

  -- An entry that is placed is one more.
  pub place-tally :
      (is : List ℕ) (e : Entry Ref) (bs next : Buckets Ref)
      → place Ref is e bs ≡ ok next
      → (length next ≡ length bs) × (tally_of Ref next ≡ tally_of Ref bs + 1)
  unfolding place
  place-tally [] e bs next h = cc
  place-tally (i ∷ is) e bs next h = elim (Bool-cases (is_free Ref bs i)) [
    | inl here ↦
        subst (λ b. (length b ≡ length bs) × (tally_of Ref b ≡ tally_of Ref bs + 1))
          (eq_of_ok
            (sym (ap (λ t. if t then ok (set_bucket Ref i e bs) else place Ref is e bs) here) ∙ h))
          (length-set_bucket i e bs, tally_of-set_free i e bs here)
    | inr there ↦
        place-tally is e bs next
          (sym (ap (λ t. if t then ok (set_bucket Ref i e bs) else place Ref is e bs) there) ∙ h)
  ]
