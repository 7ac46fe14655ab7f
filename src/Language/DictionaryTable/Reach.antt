-- ===== src/Language/DictionaryTable/Reach.antt =====
-- Where the keys of a table of src/language/smalltalk-dictionary-table.js are found: no entry stands
-- behind a free bucket of its probe sequence.
use lagrange_images.Base.{
  ℕ, zero, suc, ◌+◌, ◌<◌, ◌≡◌, refl, sym, ap, ◌∙◌, subst, true, false, ◌&&◌, none, some, List, [],
  ◌∷◌, if◌then◌else◌, length, get_elem?, ltb, arith, Bool-cases, inl, inr, ◌⊎◌, ◌==◌, ==_iff,
  eq_of_some,
}
use native.Mathlib.Nat.{mod-lt}
use lagrange_images.Base.Result.{ok, eq_of_ok}
use lagrange_images.Language.DictionaryTable.{
  probe_sequence, probe_from, Entry, Buckets, set_bucket, is_free, place,
}
use lagrange_images.Language.DictionaryTable.Probing.{length-set_bucket}

module _ (Ref : Type 0) where
  -- The bucket holds the entry.
  abbrev pub Holds : Buckets Ref → ℕ → Entry Ref → Type 0
  Holds bs i e = get_elem? bs i ≡ some (some e)

  -- The probes come to the bucket before any free one.
  abbrev pub IsReached : List ℕ → Buckets Ref → ℕ → Type 0
  IsReached [] bs i = ⊥
  IsReached (j ∷ js) bs i = (i ≡ j) ⊎ (((e : Entry Ref) × Holds bs j e) × IsReached js bs i)

  -- Every entry is reached by the probes for its hash.
  abbrev pub IsProbed : Buckets Ref → Type 0
  IsProbed bs =
      (i : ℕ) (e : Entry Ref) → Holds bs i e → IsReached (probe_sequence e.hash (length bs)) bs i

  -- Occupied buckets stay occupied.
  abbrev pub IsKept : Buckets Ref → Buckets Ref → Type 0
  IsKept bs next = (i : ℕ) (e : Entry Ref) → Holds bs i e → (e' : Entry Ref) × Holds next i e'

  pub kept-IsReached :
      (js : List ℕ) (bs next : Buckets Ref) (i : ℕ)
      → IsKept bs next
      → IsReached js bs i
      → IsReached js next i
  kept-IsReached [] bs next i kept h = h
  kept-IsReached (j ∷ js) bs next i kept (inl e) = inl e
  kept-IsReached (j ∷ js) bs next i kept (inr ((e, here), later)) =
      inr (kept j e here, kept-IsReached js bs next i kept later)

  pub get_elem?-set_bucket :
      (i j : ℕ) (e : Entry Ref) (bs : Buckets Ref)
      → get_elem? (set_bucket Ref i e bs) j
        ≡ (if i == j && ltb j (length bs) then some (some e) else get_elem? bs j)
  unfolding set_bucket
  get_elem?-set_bucket i j e [] = ground arith
  get_elem?-set_bucket zero zero e (b ∷ bs) = ground arith
  get_elem?-set_bucket zero (suc j) e (b ∷ bs) = ground arith
  get_elem?-set_bucket (suc i) zero e (b ∷ bs) = ground arith
  get_elem?-set_bucket (suc i) (suc j) e (b ∷ bs) = ground (arith, get_elem?-set_bucket i j e bs)

  free-lt : (bs : Buckets Ref) (i : ℕ) → is_free Ref bs i ≡ true → i < length bs
  free-lt [] i h = cc
  free-lt (b ∷ bs) zero h = omega arith
  free-lt (b ∷ bs) (suc i) h = omega (arith, free-lt bs i h)

  pub placed_at :
      (i : ℕ) (e : Entry Ref) (bs : Buckets Ref)
      → is_free Ref bs i ≡ true
      → Holds (set_bucket Ref i e bs) i e
  placed_at i e bs free = ground (arith, get_elem?-set_bucket i i e bs, free-lt bs i free)

  -- The bucket that an entry is placed in: it was free, and the probes come to it.
  pub record IsPlaced (js : List ℕ) (e : Entry Ref) (bs next : Buckets Ref) : Type 0 where
    pub index : ℕ
    pub was_free : is_free Ref bs index ≡ true
    pub result : next ≡ set_bucket Ref index e bs
    pub reached : IsReached js bs index

  occupied :
      (bs : Buckets Ref) (i : ℕ)
      → i < length bs
      → is_free Ref bs i ≡ false
      → (e : Entry Ref) × Holds bs i e
  occupied [] i lt h = absurd (omega arith)
  occupied (none ∷ bs) zero lt h = cc
  occupied (some e ∷ bs) zero lt h = (e, refl)
  occupied (b ∷ bs) (suc i) lt h = occupied bs i (omega arith) h

  -- All indices are those of buckets.
  abbrev pub AreIndices : ℕ → List ℕ → Type 0
  AreIndices n [] = Unit
  AreIndices n (j ∷ js) = (j < n) × AreIndices n js

  place-IsPlaced :
      (js : List ℕ) (e : Entry Ref) (bs next : Buckets Ref)
      → AreIndices (length bs) js
      → place Ref js e bs ≡ ok next
      → IsPlaced js e bs next
  unfolding place
  place-IsPlaced [] e bs next ix h = absurd (ground (arith, h))
  place-IsPlaced (j ∷ js) e bs next ix h = elim (Bool-cases (is_free Ref bs j)) [
    | inl here ↦ record {
      index = j;
      was_free = here;
      result = sym (
          eq_of_ok
            (sym (ap (λ t. if t then ok (set_bucket Ref j e bs) else place Ref js e bs) here) ∙ h));
      reached = inl refl;
    }
    | inr there ↦
        let later =
          place-IsPlaced js e bs next ix.1 (
            sym (ap (λ t. if t then ok (set_bucket Ref j e bs) else place Ref js e bs) there)
            ∙ h) in
        record {
          index = later.index;
          was_free = later.was_free;
          result = later.result;
          reached = inr (occupied bs j ix.0 there, later.reached);
        }
  ]

  -- What was stored is stored after an entry is placed.
  placed_keeps :
      (i : ℕ) (e : Entry Ref) (bs : Buckets Ref)
      → is_free Ref bs i ≡ true
      → (j : ℕ) (x : Entry Ref) → Holds bs j x
      → Holds (set_bucket Ref i e bs) j x
  placed_keeps i e bs free j x h = elim (Bool-cases (i == j)) [
    | inl same ↦
        let here = subst (λ n. is_free Ref bs n ≡ true) ((==_iff i j).0 same) free in
        absurd (ground (arith, here, h))
    | inr apart ↦ ground (arith, get_elem?-set_bucket i j e bs, apart, h)
  ]

  -- What is stored then is the new entry or was stored before.
  pub placed_cases :
      (i : ℕ) (e : Entry Ref) (bs : Buckets Ref) (j : ℕ) (x : Entry Ref)
      → Holds (set_bucket Ref i e bs) j x
      → ((i ≡ j) × (e ≡ x)) ⊎ Holds bs j x
  placed_cases i e bs j x h = elim (Bool-cases (i == j && ltb j (length bs))) [
    | inl here ↦
        inl (ground (arith, here, ==_iff i j), eq_of_some (eq_of_some (sym (got here) ∙ h)))
    | inr there ↦ inr (sym (passed there) ∙ h)
  ]
    where
      got :
          (i == j && ltb j (length bs)) ≡ true → get_elem? (set_bucket Ref i e bs) j ≡ some (some e)
      got here =
          get_elem?-set_bucket i j e bs ∙ ap (λ t. if t then some (some e) else get_elem? bs j) here

      passed :
          (i == j && ltb j (length bs)) ≡ false
          → get_elem? (set_bucket Ref i e bs) j ≡ get_elem? bs j
      passed there =
          get_elem?-set_bucket i j e bs
          ∙ ap (λ t. if t then some (some e) else get_elem? bs j) there

  probe_from-AreIndices :
      (start step n capacity : ℕ)
      → 0 < capacity
      → AreIndices capacity (probe_from start step n capacity)
  unfolding probe_from
  probe_from-AreIndices start step zero capacity h = tt
  probe_from-AreIndices start step (suc n) capacity h =
      (mod-lt _ h, probe_from-AreIndices start (step + 1) n capacity h)

  pub placing :
      (e : Entry Ref) (bs next : Buckets Ref)
      → 0 < length bs
      → place Ref (probe_sequence e.hash (length bs)) e bs ≡ ok next
      → IsPlaced (probe_sequence e.hash (length bs)) e bs next
  unfolding probe_sequence
  placing e bs next big h =
      place-IsPlaced (probe_sequence e.hash (length bs)) e bs next
        (probe_from-AreIndices _ 0 (length bs) (length bs) big) h

  pub place-IsProbed :
      (e : Entry Ref) (bs next : Buckets Ref)
      → IsProbed bs
      → IsPlaced (probe_sequence e.hash (length bs)) e bs next
      → IsProbed next
  place-IsProbed e bs next probed p i x h =
      let kept : IsKept bs next = λ j y held. (
        y,
        subst (λ b. Holds b j y) (sym p.result) (placed_keeps p.index e bs p.was_free j y held),
      ) in
      let len : length next ≡ length bs =
        ap (λ b. length b) p.result ∙ length-set_bucket p.index e bs in
      subst (λ n. IsReached (probe_sequence x.hash n) next i) (sym len)
        (elim (placed_cases p.index e bs i x (subst (λ b. Holds b i x) p.result h)) [
          | inl (at, mine) ↦
              subst (λ (y : Entry Ref). IsReached (probe_sequence y.hash (length bs)) next i) mine
                (subst (λ n. IsReached (probe_sequence e.hash (length bs)) next n) at
                  (kept-IsReached (probe_sequence e.hash (length bs)) bs next p.index kept
                    p.reached))
          | inr before ↦
              kept-IsReached (probe_sequence x.hash (length bs)) bs next i kept (probed i x before)
        ])
