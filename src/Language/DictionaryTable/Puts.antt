-- ===== src/Language/DictionaryTable/Puts.antt =====
-- A Dictionary of src/language/smalltalk-primitives-dictionary.js from its initialization on.
use lagrange_images.Base.Integers.{ℤ}
use lagrange_images.Base.{◌≤◌, ◌≡◌, refl, Bool, true, some, List, [], ◌∷◌, length, arith}
use lagrange_images.Base.Result.{ok}
use lagrange_images.Language.DictionaryTable.{
  Value, Buckets, empty_buckets, at_put, lookup, put_all, dictionary_minimum_capacity,
}
use lagrange_images.Language.DictionaryTable.Growth.{
  IsLoaded, at_put-IsUpdated, length-empty_buckets, tally_of-empty_buckets,
}
use lagrange_images.Language.DictionaryTable.Reach.{IsProbed}
use lagrange_images.Language.DictionaryTable.Lookup.{empty_buckets-IsProbed}
use lagrange_images.Language.DictionaryTable.AtPut.{lookup-at_put}

module _ (Ref : Type 0) (equals : Value Ref → Value Ref → Bool)
    (self_equal : (k : Value Ref) → equals k k ≡ true) where
  -- What every table of a Dictionary satisfies.
  abbrev pub IsValid : Buckets Ref → Type 0
  IsValid bs = (8 ≤ length bs) × IsLoaded Ref bs × IsProbed Ref bs

  put_one :
      (hash : ℤ) (key value : Value Ref) (bs : Buckets Ref)
      → IsValid bs
      → (next : Buckets Ref) × (at_put Ref equals hash key value bs ≡ ok next)
        × IsValid next
        × (lookup Ref equals hash key next ≡ some value)
  put_one hash key value bs (big, load, probed) =
      let (next, done, load', more, _) = at_put-IsUpdated Ref equals hash key value bs big load in
      let (found, probed') =
        lookup-at_put Ref equals hash key value bs next big (self_equal key) probed done in
      (next, done, (omega arith, load', probed'), found)

  put_all-IsValid :
      (puts : List (ℤ × Value Ref × Value Ref)) (bs : Buckets Ref)
      → IsValid bs
      → (next : Buckets Ref) × (put_all Ref equals puts bs ≡ ok next) × IsValid next
  unfolding put_all
  put_all-IsValid [] bs v = (bs, refl, v)
  put_all-IsValid ((hash, key, value) ∷ puts) bs v =
      let (mid, done, v', _) = put_one hash key value bs v in
      let (next, rest, v'') = put_all-IsValid puts mid v' in (next, rw (done, put_all) rest, v'')

  initial-IsValid : IsValid (empty_buckets Ref dictionary_minimum_capacity)
  initial-IsValid = (
    omega (arith, length-empty_buckets Ref dictionary_minimum_capacity),
    omega (
      arith,
      length-empty_buckets Ref dictionary_minimum_capacity,
      tally_of-empty_buckets Ref dictionary_minimum_capacity,
    ),
    empty_buckets-IsProbed Ref dictionary_minimum_capacity,
  )

  -- If = answers true for every key and itself, then from the table that a Dictionary is initialized
  -- with, any sequence of `at:put:` succeeds, and so does one more, after which a search for its key
  -- finds the value put.
  pub lookup-put_all :
      (puts : List (ℤ × Value Ref × Value Ref)) (hash : ℤ) (key value : Value Ref)
      → (bs : Buckets Ref) × (next : Buckets Ref) × (put_all Ref equals puts
            (empty_buckets Ref dictionary_minimum_capacity)
          ≡ ok bs)
        × (at_put Ref equals hash key value bs ≡ ok next)
        × (lookup Ref equals hash key next ≡ some value)
  lookup-put_all puts hash key value =
      let (bs, done, v) =
        put_all-IsValid puts (empty_buckets Ref dictionary_minimum_capacity) initial-IsValid in
      let (next, put, _, found) = put_one hash key value bs v in (bs, next, done, put, found)
