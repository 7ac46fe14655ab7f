-- ===== src/Language/DictionaryTable/Tests.antt =====
-- Runs of the table of src/language/smalltalk-dictionary-table.js, with numbers as references.
use lagrange_images.Base.Integers.{pos, negsuc}
use lagrange_images.Base.{Bool, true, false, ◌==◌, ℕ, ◌≡◌, refl, none, some, [], ◌∷◌, arith}
use lagrange_images.Base.Result.{ok}
use lagrange_images.Language.DictionaryTable.{
  Value, integer, other, Buckets, empty_buckets, tally_of, at_put, probe_sequence, probe_start,
  probe_from, next_buckets, locate, needs_growth, place, set_bucket, lookup,
}
use lagrange_images.Language.DictionaryTable.Reach.{IsProbed}
use lagrange_images.Language.DictionaryTable.Lookup.{empty_buckets-IsProbed}
use lagrange_images.Language.DictionaryTable.{put_all}
use lagrange_images.Language.DictionaryTable.Puts.{lookup-put_all}
use lagrange_images.Language.DictionaryTable.AtPut.{lookup-at_put}
use lagrange_images.Language.DictionaryTable.Growth.{IsUpdated, at_put-IsUpdated}

-- The key nil, which is reference 0, has the value 1; seven buckets are free.
abbrev one_key : Buckets ℕ
one_key =
    none
    ∷ some record { hash = pos 9; key = other 0; value = integer (negsuc 4) }
    ∷ none
    ∷ none
    ∷ none
    ∷ none
    ∷ none
    ∷ none
    ∷ []

at_put-IsUpdated_example :
    IsUpdated ℕ (at_put ℕ (λ a b. true) (pos 9) (other 5) (other 6) one_key) one_key
unfolding tally_of
at_put-IsUpdated_example =
    at_put-IsUpdated ℕ (λ a b. true) (pos 9) (other 5) (other 6) one_key (omega arith) (omega arith)

-- After a first key with hash 9, and then another with the same hash.
abbrev first_put : Buckets ℕ
first_put =
    none
    ∷ some record { hash = pos 9; key = other 4; value = other 6 }
    ∷ none
    ∷ none
    ∷ none
    ∷ none
    ∷ none
    ∷ none
    ∷ []

abbrev same_number : Value ℕ → Value ℕ → Bool
same_number (other m) (other n) = m == n
same_number _ _ = false

first_put-lookup :
    (lookup ℕ same_number (pos 9) (other 4) first_put ≡ some (other 6)) × IsProbed ℕ first_put
unfolding at_put next_buckets locate probe_sequence probe_start probe_from needs_growth tally_of
    place set_bucket empty_buckets
first_put-lookup =
    lookup-at_put ℕ same_number (pos 9) (other 4) (other 6) (empty_buckets ℕ 8) first_put
      (omega arith) refl (empty_buckets-IsProbed ℕ 8) refl

-- References by their numbers, and any two integers.
abbrev same_value : Value ℕ → Value ℕ → Bool
same_value (other m) (other n) = m == n
same_value (integer m) (integer n) = true
same_value _ _ = false

same_value_self : (k : Value ℕ) → same_value k k ≡ true
same_value_self (other m) = ground arith
same_value_self (integer n) = refl

lookup-put_all_example :
    (bs : Buckets ℕ) × (next : Buckets ℕ) × (put_all ℕ same_value
        ((pos 9, other 4, other 6) ∷ [])
        (empty_buckets ℕ 8)
      ≡ ok bs)
    × (at_put ℕ same_value (negsuc 6) (other 5) (other 7) bs ≡ ok next)
    × (lookup ℕ same_value (negsuc 6) (other 5) next ≡ some (other 7))
lookup-put_all_example =
    lookup-put_all ℕ same_value same_value_self ((pos 9, other 4, other 6) ∷ []) (negsuc 6)
      (other 5) (other 7)
