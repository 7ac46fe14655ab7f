-- ===== src/Language/DictionaryTable/Lookup.antt =====
-- What a search of src/language/smalltalk-primitives-dictionary.js finds after `at:put:`.
use lagrange_images.Base.Integers.{ℤ}
use lagrange_images.Base.{
  ℕ, zero, suc, ◌<◌, ◌≡◌, ◌≢◌, refl, sym, ap, ◌∙◌, subst, Bool, true, false, none, some, List, [],
  ◌∷◌, if◌then◌else◌, length, get_elem?, arith, Bool-cases, Option-cases, inl, inr, eq_of_some,
}
use lagrange_images.Base.Result.{ok, Result-cases, eq_of_ok}
use lagrange_images.Language.DictionaryTable.{
  probe_sequence, Entry, Value, Buckets, empty_buckets, place, reinsert, reinsert_into, locate,
  lookup,
}
use lagrange_images.Language.DictionaryTable.Probing.{place-tally}
use lagrange_images.Language.DictionaryTable.Growth.{length-empty_buckets}
use lagrange_images.Language.DictionaryTable.Reach.{
  Holds, IsProbed, IsPlaced, placed_at, placed_cases, placing, place-IsProbed,
}
use lagrange_images.Language.DictionaryTable.Search.{
  fits, IsAbsent, locate_step, locate_only, lookup_at, same_stored_hash_self,
}

true_not_false : true ≢ false
true_not_false h = cc

module _ (Ref : Type 0) where
  empty_no_entry : (n i : ℕ) (e : Entry Ref) → ¬ Holds Ref (empty_buckets Ref n) i e
  unfolding empty_buckets
  empty_no_entry zero i e h = cc
  empty_no_entry (suc n) zero e h = ground (arith, h)
  empty_no_entry (suc n) (suc i) e h = empty_no_entry n i e h

  pub empty_buckets-IsProbed : (n : ℕ) → IsProbed Ref (empty_buckets Ref n)
  empty_buckets-IsProbed n i e held = absurd (empty_no_entry n i e held)

module _ (Ref : Type 0) (equals : Value Ref → Value Ref → Bool) (hash : ℤ) (key : Value Ref) where
  -- An entry of another key leaves the key absent.
  place-IsAbsent :
      (e : Entry Ref) (bs next : Buckets Ref)
      → IsAbsent Ref equals hash key bs
      → fits Ref equals hash key e ≡ false
      → IsPlaced Ref (probe_sequence e.hash (length bs)) e bs next
      → IsAbsent Ref equals hash key next
  place-IsAbsent e bs next absent other p i x h =
      elim (placed_cases Ref p.index e bs i x (subst (λ b. Holds Ref b i x) p.result h)) [
        | inl (_, mine) ↦ subst (λ (y : Entry Ref). fits Ref equals hash key y ≡ false) mine other
        | inr before ↦ absent i x before
      ]

  -- Growth leaves an absent key absent, and every entry where the probes find it.
  reinsert_into-IsProbed :
      (bs grown next : Buckets Ref) (capacity : ℕ)
      → 0 < capacity
      → length grown ≡ capacity
      → IsProbed Ref grown
      → IsAbsent Ref equals hash key grown
      → IsAbsent Ref equals hash key bs
      → reinsert_into Ref grown capacity bs ≡ ok next
      → IsProbed Ref next × IsAbsent Ref equals hash key next × (length next ≡ capacity)
  unfolding reinsert_into
  reinsert_into-IsProbed [] grown next capacity big len probed absent rest h =
      subst (λ b. IsProbed Ref b × IsAbsent Ref equals hash key b × (length b ≡ capacity))
        (eq_of_ok h) (probed, absent, len)
  reinsert_into-IsProbed (none ∷ bs) grown next capacity big len probed absent rest h =
      reinsert_into-IsProbed bs grown next capacity big len probed absent
        (λ i x held. rest (suc i) x held) h
  reinsert_into-IsProbed (some e ∷ bs) grown next capacity big len probed absent rest h =
      elim (Result-cases (place Ref (probe_sequence e.hash capacity) e grown)) [
        | inr (x, bad) ↦ absurd (ground (arith, bad, h))
        | inl (mid, done) ↦
            let at_length =
              subst (λ c. place Ref (probe_sequence e.hash c) e grown ≡ ok mid) (sym len) done in
            let p = placing Ref e grown mid (omega arith) at_length in
            reinsert_into-IsProbed bs mid next capacity big
              ((place-tally (probe_sequence e.hash capacity) e grown mid done).0 ∙ len)
              (place-IsProbed Ref e grown mid probed p)
              (place-IsAbsent e grown mid absent (rest 0 e refl) p)
              (λ i x held. rest (suc i) x held) (ground (arith, done, h))
      ]

  pub reinsert-IsProbed :
      (bs next : Buckets Ref) (capacity : ℕ)
      → 0 < capacity
      → IsAbsent Ref equals hash key bs
      → reinsert Ref bs capacity ≡ ok next
      → IsProbed Ref next × IsAbsent Ref equals hash key next × (length next ≡ capacity)
  unfolding reinsert
  reinsert-IsProbed bs next capacity big absent h =
      reinsert_into-IsProbed bs (empty_buckets Ref capacity) next capacity big
        (length-empty_buckets Ref capacity) (empty_buckets-IsProbed Ref capacity)
        (λ i e held. absurd (empty_no_entry Ref capacity i e held)) absent h

  only_placed :
      (e : Entry Ref) (bs next : Buckets Ref)
      → IsAbsent Ref equals hash key bs
      → (p : IsPlaced Ref (probe_sequence e.hash (length bs)) e bs next) (j : ℕ) (x : Entry Ref)
      → Holds Ref next j x
      → fits Ref equals hash key x ≡ true
      → j ≡ p.index
  only_placed e bs next absent p j x h f =
      elim (placed_cases Ref p.index e bs j x (subst (λ b. Holds Ref b j x) p.result h)) [
        | inl (at, _) ↦ sym at
        | inr before ↦ absurd (true_not_false (sym f ∙ absent j x before))
      ]

  -- A key that was absent is found where it is placed.
  pub lookup-place :
      (value : Value Ref) (bs next : Buckets Ref)
      → let e : Entry Ref = record { hash = hash; key = key; value = value } in
        equals key key ≡ true
        → 0 < length bs
        → IsProbed Ref bs
        → IsAbsent Ref equals hash key bs
        → place Ref (probe_sequence hash (length bs)) e bs ≡ ok next
        → (lookup Ref equals hash key next ≡ some value) × IsProbed Ref next
  lookup-place value bs next same big probed absent h =
      let e : Entry Ref = record { hash = hash; key = key; value = value } in
      let p = placing Ref e bs next big h in
      let probed' = place-IsProbed Ref e bs next probed p in
      let held =
        subst (λ b. Holds Ref b p.index e) (sym p.result) (placed_at Ref p.index e bs p.was_free) in
      (
        lookup_at Ref equals hash key next p.index e
            (locate_only Ref equals hash key (probe_sequence hash (length next)) next p.index e
              (probed' p.index e held) held (ground (arith, same, same_stored_hash_self hash))
              (only_placed e bs next absent p))
            held,
        probed',
      )

  -- The bucket that a search finds holds an entry with the key.
  pub locate_found :
      (js : List ℕ) (bs : Buckets Ref) (i : ℕ)
      → locate Ref equals js hash key bs ≡ some i
      → (e : Entry Ref) × Holds Ref bs i e
  unfolding locate
  locate_found [] bs i h = absurd (ground (arith, h))
  locate_found (j ∷ js) bs i h = elim (Option-cases (get_elem? bs j)) [
    | inl gone ↦ absurd (ground (arith, gone, h))
    | inr (b, got) ↦ elim (Option-cases b) [
      | inl free ↦ absurd (ground (arith, got ∙ ap (λ o. some o) free, h))
      | inr (e, mine) ↦
          let here = got ∙ ap (λ o. some o) mine in
          elim (Bool-cases (fits Ref equals hash key e)) [
            | inl yes_it ↦
                let at = eq_of_some (
                  sym (ap (λ t. if t then some j else locate Ref equals js hash key bs) yes_it)
                  ∙ sym (locate_step Ref equals hash key j js e bs here)
                  ∙ h) in
                (e, subst (λ n. Holds Ref bs n e) at here)
            | inr no_it ↦ locate_found js bs i (
                sym (ap (λ t. if t then some j else locate Ref equals js hash key bs) no_it)
                ∙ sym (locate_step Ref equals hash key j js e bs here)
                ∙ h)
          ]
    ]
  ]
