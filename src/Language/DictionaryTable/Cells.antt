-- ===== src/Language/DictionaryTable/Cells.antt =====
-- The durable form of a table of src/language/smalltalk-dictionary-table.js, and what is read from it.
use lagrange_images.Base.{
  ℕ, ◌-◌, ◌*◌, ◌/◌, ◌%◌, ◌≡◌, refl, ap, true, ◌&&◌, none, some, [], ◌∷◌, ◌==◌, leb, length, arith,
}
use Prim.Native.Nat.{bit_and}
use lagrange_images.Base.Result.{ok}
use lagrange_images.Language.DictionaryTable.{
  pos, same_stored_hash, capacity_of, integer, Buckets, indexed_from_buckets, bucket_at, group,
  buckets_from_indexed, tally_of, table_record_fields, check_tally, read_table_record,
}

-- A power of two of at least eight, by the test that the code makes.
abbrev pub IsCapacity : ℕ → Type 0
IsCapacity n = (leb 8 n && bit_and n (n - 1) == 0) ≡ true

module _ {Ref : Type 0} where
  length-indexed_from_buckets :
      (nil : Ref) (bs : Buckets Ref) → length (indexed_from_buckets Ref nil bs) ≡ 3 * length bs
  unfolding indexed_from_buckets
  length-indexed_from_buckets nil [] = omega arith
  length-indexed_from_buckets nil (none ∷ bs) = omega (arith, length-indexed_from_buckets nil bs)
  length-indexed_from_buckets nil (some e ∷ bs) = omega (arith, length-indexed_from_buckets nil bs)

  group-indexed_from_buckets :
      (nil : Ref) (bs : Buckets Ref) → group Ref (indexed_from_buckets Ref nil bs) ≡ bs
  unfolding indexed_from_buckets group bucket_at
  group-indexed_from_buckets nil [] = refl
  group-indexed_from_buckets nil (none ∷ bs) =
      ap (λ l. none ∷ l) (group-indexed_from_buckets nil bs)
  group-indexed_from_buckets nil (some e ∷ bs) =
      ap (λ l. some e ∷ l) (group-indexed_from_buckets nil bs)

capacity_of_cells : (n : ℕ) → IsCapacity n → capacity_of (3 * n) ≡ ok n
unfolding capacity_of
capacity_of_cells n h =
    let whole : 3 * n / 3 ≡ n = omega arith in
    let even : (3 * n % 3 == 0) ≡ true = ground arith in rw (even, whole) (rw h refl)

check_own_tally : (Ref : Type 0) (n : ℕ) → check_tally Ref (integer (pos n)) n ≡ ok n
unfolding check_tally same_stored_hash
check_own_tally Ref n = ground arith

module _ {Ref : Type 0} where
  buckets_from-indexed_from :
      (nil : Ref) (bs : Buckets Ref)
      → IsCapacity (length bs)
      → buckets_from_indexed Ref (indexed_from_buckets Ref nil bs) ≡ ok bs
  unfolding buckets_from_indexed
  buckets_from-indexed_from nil bs h =
      rw
        (
          length-indexed_from_buckets nil bs,
          capacity_of_cells (length bs) h,
          group-indexed_from_buckets nil bs,
          buckets_from_indexed,
        )
        refl

  -- A table whose number of buckets is a power of two of at least eight is read back from its record:
  -- the same buckets, nil keys among them, with their number and the number of occupied ones.
  pub read-table_record_fields :
      (nil : Ref) (bs : Buckets Ref)
      → IsCapacity (length bs)
      → read_table_record Ref (table_record_fields Ref nil bs) ≡ ok (bs, length bs, tally_of Ref bs)
  unfolding read_table_record table_record_fields
  read-table_record_fields nil bs h =
      rw
        (
          buckets_from-indexed_from nil bs h,
          check_own_tally Ref (tally_of Ref bs),
          read_table_record,
        )
        refl
