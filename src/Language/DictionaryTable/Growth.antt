-- ===== src/Language/DictionaryTable/Growth.antt =====
-- The load of a table of src/language/smalltalk-dictionary-table.js: what `at:put:` needs always fits.
use lagrange_images.Base.Integers.{ℤ}
use lagrange_images.Base.{
  ℕ, zero, suc, ◌+◌, ◌*◌, ◌<◌, ◌≤◌, ◌≡◌, refl, ap, ◌∙◌, subst, Bool, false, Option, none, some, [],
  ◌∷◌, length, get_elem?, arith, Bool-cases, Option-cases, inl, inr,
}
use lagrange_images.Base.Result.{Result, ok, ◌>>=◌}
use lagrange_images.Language.DictionaryTable.{
  probe_sequence, Entry, Value, Buckets, TableError, empty_buckets, tally_of, set_bucket, place,
  reinsert, reinsert_into, needs_growth, next_buckets, at_put, locate,
}
use lagrange_images.Language.DictionaryTable.Probing.{
  probe_sequence-Has, place_free, free_bucket, place-tally, length-set_bucket,
  tally_of-set_occupied,
}

needs_no_growth : (t c : ℕ) → needs_growth t c ≡ false → t * 4 ≤ c * 3
unfolding needs_growth
needs_no_growth t c h = ground arith

module _ (Ref : Type 0) where
  -- What an operation that cannot fail here gives: so many buckets, so many of them occupied.
  abbrev pub IsFilled : Result TableError (Buckets Ref) → ℕ → ℕ → Type 0
  IsFilled r capacity tally =
      (bs : Buckets Ref) × (r ≡ ok bs) × (length bs ≡ capacity) × (tally_of Ref bs ≡ tally)

  -- An entry finds a free bucket, if there is one.
  place-IsFilled :
      (e : Entry Ref) (h : ℤ) (bs : Buckets Ref)
      → tally_of Ref bs < length bs
      → IsFilled (place Ref (probe_sequence h (length bs)) e bs) (length bs) (tally_of Ref bs + 1)
  place-IsFilled e h bs room =
      let (i, lt, free) = free_bucket bs room in
      let (next, placed) =
        place_free (probe_sequence h (length bs)) e bs i (probe_sequence-Has h (length bs) i lt)
          free in
      let (len, tally) = place-tally (probe_sequence h (length bs)) e bs next placed in
      (next, placed, len, tally)

  reinsert_into-IsFilled :
      (bs grown : Buckets Ref) (capacity : ℕ)
      → length grown ≡ capacity
      → tally_of Ref grown + tally_of Ref bs ≤ capacity
      → IsFilled
          (reinsert_into Ref grown capacity bs)
          capacity
          (tally_of Ref grown + tally_of Ref bs)
  unfolding reinsert_into tally_of
  reinsert_into-IsFilled [] grown capacity len fits = (grown, refl, len, omega arith)
  reinsert_into-IsFilled (none ∷ bs) grown capacity len fits =
      let (all, done, len', tally) = reinsert_into-IsFilled bs grown capacity len (omega arith) in
      (all, done, len', omega arith)
  reinsert_into-IsFilled (some e ∷ bs) grown capacity len fits =
      let (next, placed, len', tally) = place-IsFilled e e.hash grown (omega arith) in
      let (all, done, len'', tally') =
        reinsert_into-IsFilled bs next capacity (len' ∙ len) (omega arith) in
      let fitted = subst (λ c. place Ref (probe_sequence e.hash c) e grown ≡ ok next) len placed in
      (all, rw (fitted, reinsert_into) done, len'', omega arith)

  pub tally_of-empty_buckets : (n : ℕ) → tally_of Ref (empty_buckets Ref n) ≡ 0
  unfolding tally_of empty_buckets
  tally_of-empty_buckets zero = refl
  tally_of-empty_buckets (suc n) = omega (arith, tally_of-empty_buckets n)

  pub length-empty_buckets : (n : ℕ) → length (empty_buckets Ref n) ≡ n
  unfolding empty_buckets
  length-empty_buckets zero = refl
  length-empty_buckets (suc n) = ap (λ m. suc m) (length-empty_buckets n)

  -- Reinsertion into at least as many buckets as there are entries never fails: it gives a table of
  -- that many buckets, as many of them occupied as before.
  pub reinsert-IsFilled :
      (bs : Buckets Ref) (capacity : ℕ)
      → tally_of Ref bs ≤ capacity
      → IsFilled (reinsert Ref bs capacity) capacity (tally_of Ref bs)
  unfolding reinsert
  reinsert-IsFilled bs capacity fits =
      let (next, done, len, tally) =
        reinsert_into-IsFilled bs (empty_buckets Ref capacity) capacity
          (length-empty_buckets capacity) (omega (arith, tally_of-empty_buckets capacity)) in
      (next, done, len, omega (arith, tally_of-empty_buckets capacity))

  -- The load that no table exceeds, three quarters.
  abbrev pub IsLoaded : Buckets Ref → Type 0
  IsLoaded bs = tally_of Ref bs * 4 ≤ length bs * 3

  -- The table after an operation: its buckets, and whether a new key was added.
  abbrev pub IsUpdated : Result TableError (Buckets Ref) → Buckets Ref → Type 0
  IsUpdated r bs =
      (next : Buckets Ref) × (r ≡ ok next)
      × IsLoaded next
      × (length bs ≤ length next)
      × (tally_of Ref bs ≤ tally_of Ref next)

  put_new :
      (hash : ℤ) (e : Entry Ref) (bs : Buckets Ref)
      → tally_of Ref bs < length bs
      → (tally_of Ref bs + 1) * 4 ≤ length bs * 3
      → IsUpdated (place Ref (probe_sequence hash (length bs)) e bs) bs
  put_new hash e bs room load =
      let (next, placed, len, tally) = place-IsFilled e hash bs room in
      (next, placed, omega arith, omega arith, omega arith)

  grow_and_put :
      (hash : ℤ) (e : Entry Ref) (bs : Buckets Ref)
      → 8 ≤ length bs
      → IsLoaded bs
      → IsUpdated
          (reinsert Ref bs (length bs * 2) >>= λ grown.
            place Ref (probe_sequence hash (length bs * 2)) e grown)
          bs
  grow_and_put hash e bs big load =
      let (grown, done, len, tally) = reinsert-IsFilled bs (length bs * 2) (omega arith) in
      let (next, placed, len', tally') = place-IsFilled e hash grown (omega arith) in
      let fitted = subst (λ c. place Ref (probe_sequence hash c) e grown ≡ ok next) len placed in
      (next, rw (done, fitted) refl, omega arith, omega arith, omega arith)

  next_buckets-IsUpdated :
      (found : Option ℕ) (hash : ℤ) (key value : Value Ref) (bs : Buckets Ref)
      → 8 ≤ length bs
      → IsLoaded bs
      → IsUpdated (next_buckets Ref found hash key value bs) bs
  unfolding next_buckets
  next_buckets-IsUpdated none hash key value bs big load =
      let e : Entry Ref = record { hash = hash; key = key; value = value } in
      elim (Bool-cases (needs_growth (tally_of Ref bs + 1) (length bs))) [
        | inl full ↦ rw full (grow_and_put hash e bs big load)
        | inr room ↦
            let fits = needs_no_growth (tally_of Ref bs + 1) (length bs) room in
            rw room (put_new hash e bs (omega arith) fits)
      ]
  next_buckets-IsUpdated (some i) hash key value bs big load =
      elim (Option-cases (get_elem? bs i)) [
        | inl h ↦ (bs, rw (h, next_buckets) refl, load, omega arith, omega arith)
        | inr (b, h) ↦ elim (Option-cases b) [
          | inl h' ↦
              (bs, rw (h ∙ ap (λ o. some o) h', next_buckets) refl, load, omega arith, omega arith)
          | inr (e, h') ↦
              let there = h ∙ ap (λ o. some o) h' in
              let new : Entry Ref = record e { value = value } in
              let len = length-set_bucket i new bs in
              let tally = tally_of-set_occupied i new e bs there in
              (
                set_bucket Ref i new bs,
                rw (there, next_buckets) refl,
                omega (arith, len, tally),
                omega (arith, len),
                omega (arith, tally),
              )
        ]
      ]

  -- `at:put:` never runs out of buckets: on a table of at least eight buckets, at most three
  -- quarters of them occupied, it returns a table of which that is true again, with at least as
  -- many buckets and no fewer occupied ones, whatever the hash and whatever = answers.
  pub at_put-IsUpdated :
      (equals : Value Ref → Value Ref → Bool) (hash : ℤ) (key value : Value Ref) (bs : Buckets Ref)
      → 8 ≤ length bs
      → IsLoaded bs
      → IsUpdated (at_put Ref equals hash key value bs) bs
  unfolding at_put
  at_put-IsUpdated equals hash key value bs =
      next_buckets-IsUpdated (locate Ref equals (probe_sequence hash (length bs)) hash key bs) hash
        key value bs
