-- ===== src/Language/DictionaryTable/Search.antt =====
-- The search of src/language/smalltalk-primitives-dictionary.js, `locate`: it finds what is stored.
use lagrange_images.Base.Integers.{ℤ, pos, negsuc}
use lagrange_images.Base.{
  ℕ, ◌≡◌, ◌≢◌, refl, sym, ap, ◌∙◌, subst, Bool, true, false, ◌&&◌, none, some, List, [], ◌∷◌,
  if◌then◌else◌, length, arith, Bool-cases, inl, inr, ==_iff, not_true,
}
use lagrange_images.Language.DictionaryTable.{
  same_stored_hash, probe_sequence, Entry, Value, Buckets, locate, lookup,
}
use lagrange_images.Language.DictionaryTable.Reach.{Holds, IsReached, IsProbed}

eq_of_same_stored_hash : (a b : ℤ) → same_stored_hash a b ≡ true → a ≡ b
unfolding same_stored_hash
eq_of_same_stored_hash (pos m) (pos n) h = ap pos ((==_iff m n).0 h)
eq_of_same_stored_hash (negsuc m) (negsuc n) h = ap negsuc ((==_iff m n).0 h)
eq_of_same_stored_hash (pos m) (negsuc n) h = cc
eq_of_same_stored_hash (negsuc m) (pos n) h = cc

pub same_stored_hash_self : (a : ℤ) → same_stored_hash a a ≡ true
unfolding same_stored_hash
same_stored_hash_self (pos m) = ground arith
same_stored_hash_self (negsuc m) = ground arith

module _ (Ref : Type 0) (equals : Value Ref → Value Ref → Bool) (hash : ℤ) (key : Value Ref) where
  -- The entry has the key, as the search tests it.
  abbrev pub fits : Entry Ref → Bool
  fits e = same_stored_hash e.hash hash && equals e.key key

  -- One probe.
  pub locate_step :
      (j : ℕ) (js : List ℕ) (e : Entry Ref) (bs : Buckets Ref)
      → Holds Ref bs j e
      → locate Ref equals (j ∷ js) hash key bs
        ≡ (if fits e then some j else locate Ref equals js hash key bs)
  unfolding locate
  locate_step j js e bs h = rw (h, locate) refl

  -- No stored entry has the key.
  abbrev pub IsAbsent : Buckets Ref → Type 0
  IsAbsent bs = (i : ℕ) (e : Entry Ref) → Holds Ref bs i e → fits e ≡ false

  -- An entry that the probes reach and that has the key makes the search find a bucket.
  locate_reached :
      (js : List ℕ) (bs : Buckets Ref) (i : ℕ) (e : Entry Ref)
      → IsReached Ref js bs i
      → Holds Ref bs i e
      → fits e ≡ true
      → locate Ref equals js hash key bs ≢ none
  locate_reached [] bs i e r h f = elim r [ ]
  locate_reached (j ∷ js) bs i e (inl at) h f = λ gone.
      absurd (ground (arith, locate_step j js e bs (subst (λ n. Holds Ref bs n e) at h), f, gone))
  locate_reached (j ∷ js) bs i e (inr ((x, here), later)) h f = λ gone. elim (Bool-cases (fits x)) [
    | inl mine ↦ absurd (ground (arith, locate_step j js x bs here, mine, gone))
    | inr other ↦ locate_reached js bs i e later h f (
        sym (
          locate_step j js x bs here
          ∙ ap (λ t. if t then some j else locate Ref equals js hash key bs) other)
        ∙ gone)
  ]

  -- A key that the search does not find has no entry.
  pub locate-IsAbsent :
      (bs : Buckets Ref)
      → IsProbed Ref bs
      → locate Ref equals (probe_sequence hash (length bs)) hash key bs ≡ none
      → IsAbsent bs
  locate-IsAbsent bs probed gone i e h = not_true λ f.
      let same = eq_of_same_stored_hash e.hash hash (ground (arith, f)) in
      locate_reached (probe_sequence hash (length bs)) bs i e
        (subst (λ n. IsReached Ref (probe_sequence n (length bs)) bs i) same (probed i e h)) h f
        gone

  -- The only entry with the key is found where the probes reach it.
  pub locate_only :
      (js : List ℕ) (bs : Buckets Ref) (i : ℕ) (e : Entry Ref)
      → IsReached Ref js bs i
      → Holds Ref bs i e
      → fits e ≡ true
      → ((j : ℕ) (x : Entry Ref) → Holds Ref bs j x → fits x ≡ true → j ≡ i)
      → locate Ref equals js hash key bs ≡ some i
  locate_only [] bs i e r h f only = elim r [ ]
  locate_only (j ∷ js) bs i e (inl at) h f only =
      locate_step j js e bs (subst (λ n. Holds Ref bs n e) at h)
      ∙ ap (λ t. if t then some j else locate Ref equals js hash key bs) f
      ∙ ap (λ n. some n) (sym at)
  locate_only (j ∷ js) bs i e (inr ((x, here), later)) h f only =
      locate_step j js x bs here ∙ elim (Bool-cases (fits x)) [
        | inl mine ↦
            ap (λ t. if t then some j else locate Ref equals js hash key bs) mine
            ∙ ap (λ n. some n) (only j x here mine)
        | inr other ↦
            ap (λ t. if t then some j else locate Ref equals js hash key bs) other
            ∙ locate_only js bs i e later h f only
      ]

  pub lookup_at :
      (bs : Buckets Ref) (i : ℕ) (e : Entry Ref)
      → locate Ref equals (probe_sequence hash (length bs)) hash key bs ≡ some i
      → Holds Ref bs i e
      → lookup Ref equals hash key bs ≡ some e.value
  unfolding lookup
  lookup_at bs i e found h = rw (found, h, lookup) refl
