-- ===== src/Language/DictionaryTable/AtPut.antt =====
-- `at:put:` of src/language/smalltalk-primitives-dictionary.js, and the search after it.
use lagrange_images.Base.Integers.{ℤ}
use lagrange_images.Base.{
  ℕ, ◌+◌, ◌*◌, ◌<◌, ◌≤◌, ◌≡◌, refl, sym, ap, ◌∙◌, subst, Bool, true, false, ◌&&◌, Option, none,
  some, List, [], ◌∷◌, if◌then◌else◌, length, get_elem?, arith, Bool-cases, Option-cases, inl, inr,
  ◌==◌, ==_iff, eq_of_some, lt-length_of_get_elem?,
}
use lagrange_images.Base.Result.{ok, bind-eq-ok, eq_of_ok}
use lagrange_images.Language.DictionaryTable.{
  same_stored_hash, probe_sequence, Entry, Value, Buckets, tally_of, grown_capacity, set_bucket,
  place, reinsert, needs_growth, next_buckets, at_put, locate, lookup,
}
use lagrange_images.Language.DictionaryTable.Probing.{length-set_bucket}
use lagrange_images.Language.DictionaryTable.Reach.{
  Holds, IsReached, IsProbed, IsKept, kept-IsReached, get_elem?-set_bucket,
}
use lagrange_images.Language.DictionaryTable.Search.{fits, locate-IsAbsent, locate_step, lookup_at}
use lagrange_images.Language.DictionaryTable.Lookup.{lookup-place, reinsert-IsProbed, locate_found}

module _ (Ref : Type 0) (bs : Buckets Ref) (i : ℕ) (e : Entry Ref) (v : Value Ref)
    (held : Holds Ref bs i e) where
  abbrev pub overwritten : Buckets Ref
  overwritten = set_bucket Ref i (record e { value = v }) bs

  overwritten_here : (j : ℕ) → (i == j) ≡ true → Holds Ref overwritten j (record e { value = v })
  overwritten_here j at = ground (
    arith,
    get_elem?-set_bucket Ref i j (record e { value = v }) bs,
    lt-length_of_get_elem? bs i held,
    at,
  )

  overwritten_there : (j : ℕ) → (i == j) ≡ false → get_elem? overwritten j ≡ get_elem? bs j
  overwritten_there j apart =
      ground (arith, get_elem?-set_bucket Ref i j (record e { value = v }) bs, apart)

  here_before : (j : ℕ) → (i == j) ≡ true → Holds Ref bs j e
  here_before j at = subst (λ n. Holds Ref bs n e) ((==_iff i j).0 at) held

  overwritten-IsKept : IsKept Ref bs overwritten
  overwritten-IsKept j x h = elim (Bool-cases (i == j)) [
    | inl at ↦ (record e { value = v }, overwritten_here j at)
    | inr apart ↦ (x, overwritten_there j apart ∙ h)
  ]

  overwritten-IsProbed : IsProbed Ref bs → IsProbed Ref overwritten
  overwritten-IsProbed probed j x h =
      subst (λ n. IsReached Ref (probe_sequence x.hash n) overwritten j)
        (sym (length-set_bucket i (record e { value = v }) bs))
        (elim (Bool-cases (i == j)) [
          | inl at ↦
              subst (λ n. IsReached Ref (probe_sequence n (length bs)) overwritten j)
                (ap (λ (y : Entry Ref). y.hash)
                  (eq_of_some (eq_of_some (sym (overwritten_here j at) ∙ h))))
                (kept-IsReached Ref (probe_sequence e.hash (length bs)) bs overwritten j
                  overwritten-IsKept (probed j e (here_before j at)))
          | inr apart ↦
              kept-IsReached Ref (probe_sequence x.hash (length bs)) bs overwritten j
                overwritten-IsKept (probed j x (sym (overwritten_there j apart) ∙ h))
        ])

  module _ (equals : Value Ref → Value Ref → Bool) (hash : ℤ) (key : Value Ref) where
    abbrev probe : ℕ → Option (Option (Entry Ref)) → Option ℕ → Option ℕ
    probe j o rest = elim o [
      | some (some x) ↦ if same_stored_hash x.hash hash && equals x.key key then some j else rest
      | _ ↦ none
    ]

    -- A search does not look at values.
    locate-overwritten :
        (js : List ℕ) → locate Ref equals js hash key overwritten ≡ locate Ref equals js hash key bs
    unfolding locate
    locate-overwritten [] = refl
    locate-overwritten (j ∷ js) = elim (Bool-cases (i == j)) [
      | inl at ↦
          locate_step Ref equals hash key j js (record e { value = v }) overwritten
            (overwritten_here j at)
          ∙ ap (λ r. if fits Ref equals hash key e then some j else r) (locate-overwritten js)
          ∙ sym (locate_step Ref equals hash key j js e bs (here_before j at))
      | inr apart ↦ λ k. probe j (overwritten_there j apart k) (locate-overwritten js k)
    ]

    lookup-overwritten :
        locate Ref equals (probe_sequence hash (length bs)) hash key bs ≡ some i
        → lookup Ref equals hash key overwritten ≡ some v
    lookup-overwritten found =
        lookup_at Ref equals hash key overwritten i (record e { value = v })
          (ap (λ n. locate Ref equals (probe_sequence hash n) hash key overwritten)
              (length-set_bucket i (record e { value = v }) bs)
            ∙ locate-overwritten (probe_sequence hash (length bs))
            ∙ found)
          (overwritten_here i (ground arith))

module _ (Ref : Type 0) (equals : Value Ref → Value Ref → Bool) (hash : ℤ) (key value : Value Ref)
    (bs next : Buckets Ref) (big : 8 ≤ length bs) (same : equals key key ≡ true)
    (probed : IsProbed Ref bs) where
  new_key :
      locate Ref equals (probe_sequence hash (length bs)) hash key bs ≡ none
      → next_buckets Ref none hash key value bs ≡ ok next
      → (lookup Ref equals hash key next ≡ some value) × IsProbed Ref next
  unfolding next_buckets
  new_key gone h =
      let absent = locate-IsAbsent Ref equals hash key bs probed gone in
      let e : Entry Ref = record { hash = hash; key = key; value = value } in
      elim (Bool-cases (needs_growth (tally_of Ref bs + 1) (length bs))) [
        | inr room ↦
            lookup-place Ref equals hash key value bs next same (omega arith) probed absent
              (ground (arith, room, h))
        | inl full ↦
            let some_buckets : 0 < length bs * 2 = omega arith in
            let (grown, done, placed) =
              bind-eq-ok (reinsert Ref bs (grown_capacity (length bs)))
                (λ g. place Ref (probe_sequence hash (grown_capacity (length bs))) e g)
                (ground (arith, full, h)) in
            let (probed', absent', len) =
              reinsert-IsProbed Ref equals hash key bs grown (length bs * 2) some_buckets absent
                done in
            lookup-place Ref equals hash key value grown next same (omega arith) probed' absent'
              (subst (λ c. place Ref (probe_sequence hash c) e grown ≡ ok next) (sym len) placed)
      ]

  old_key :
      (i : ℕ)
      → locate Ref equals (probe_sequence hash (length bs)) hash key bs ≡ some i
      → next_buckets Ref (some i) hash key value bs ≡ ok next
      → (lookup Ref equals hash key next ≡ some value) × IsProbed Ref next
  unfolding next_buckets
  old_key i found h =
      let (e, held) =
        locate_found Ref equals hash key (probe_sequence hash (length bs)) bs i found in
      subst (λ b. (lookup Ref equals hash key b ≡ some value) × IsProbed Ref b)
        (eq_of_ok (sym (rw (held, next_buckets) refl) ∙ h))
        (
          lookup-overwritten Ref bs i e value held equals hash key found,
          overwritten-IsProbed Ref bs i e value held probed,
        )

  -- On a table of at least eight buckets in which no entry stands behind a free bucket of its
  -- probes, and for a key that = answers true for itself: when `at:put:` has returned, growth
  -- included, a search for the key finds the value put, and again no entry stands behind a free
  -- bucket of its probes.
  pub lookup-at_put :
      at_put Ref equals hash key value bs ≡ ok next
      → (lookup Ref equals hash key next ≡ some value) × IsProbed Ref next
  unfolding at_put
  lookup-at_put h =
      elim (Option-cases (locate Ref equals (probe_sequence hash (length bs)) hash key bs)) [
        | inl gone ↦ new_key gone (sym (ap (λ f. next_buckets Ref f hash key value bs) gone) ∙ h)
        | inr (i, found) ↦
            old_key i found (sym (ap (λ f. next_buckets Ref f hash key value bs) found) ∙ h)
      ]
