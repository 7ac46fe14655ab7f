-- ===== src/Language/DictionaryTable.antt =====
-- src/language/smalltalk-dictionary-table.js: the durable table of a Dictionary, three cells for each
-- bucket. The proofs are in the modules below.
pub mod Cells
pub mod Probing
pub mod Growth
pub mod Reach
pub mod Search
pub mod Lookup
pub mod AtPut
pub mod Puts
mod Tests
use lagrange_images.Base.Integers.{ℤ, pos, negsuc}
use lagrange_images.Base.{
  ℕ, zero, suc, ◌+◌, ◌-◌, ◌*◌, ◌/◌, ◌%◌, Bool, true, false, not, ◌&&◌, Option, none, some, List, [],
  ◌∷◌, ◌==◌, leb, ltb, if◌then◌else◌, length, get_elem?, is_some, map,
}
use Prim.Native.Nat.{bit_and}
use lagrange_images.Base.Result.{Result, ok, err, ◌>>=◌, ◌>>◌, ensure}

-- Integers of any size, negative ones included.
unfoldable pub same_stored_hash : ℤ → ℤ → Bool
same_stored_hash (pos m) (pos n) = m == n
same_stored_hash (negsuc m) (negsuc n) = m == n
same_stored_hash _ _ = false

abbrev pub dictionary_minimum_capacity : ℕ
dictionary_minimum_capacity = 8

abbrev pub load_numerator : ℕ
load_numerator = 3

abbrev pub load_denominator : ℕ
load_denominator = 4

abbrev pub bucket_width : ℕ
bucket_width = 3

pub data TableError : Type 0 where
  bad_length bad_capacity bad_tally wrong_tally no_free_bucket : TableError

unfoldable pub capacity_of : ℕ → Result TableError ℕ
capacity_of indexed_length = do
  ensure (indexed_length % bucket_width == 0) bad_length
  let capacity = indexed_length / bucket_width
  ensure (leb dictionary_minimum_capacity capacity && bit_and capacity (capacity - 1) == 0)
      bad_capacity
  ok capacity

-- `((raw % capacity) + capacity) % capacity`, where `raw` has the sign of the hash.
unfoldable pub probe_start : ℤ → ℕ → ℕ
probe_start (pos n) capacity = (n % capacity + capacity) % capacity
probe_start (negsuc n) capacity = (capacity - (n + 1) % capacity) % capacity

-- `(start + step) % capacity`, for a number of steps from a given one.
unfoldable pub probe_from : ℕ → ℕ → ℕ → ℕ → List ℕ
probe_from start step zero capacity = []
probe_from start step (suc n) capacity =
    ((start + step) % capacity) ∷ probe_from start (step + 1) n capacity

unfoldable pub probe_sequence : ℤ → ℕ → List ℕ
probe_sequence hash capacity = probe_from (probe_start hash capacity) 0 capacity capacity

unfoldable pub needs_growth : ℕ → ℕ → Bool
needs_growth tally_after_insert capacity =
    ltb (capacity * load_numerator) (tally_after_insert * load_denominator)

abbrev pub grown_capacity : ℕ → ℕ
grown_capacity capacity = capacity * 2

module _ (Ref : Type 0) where
  -- A Value is an integer or another, such as a reference to an object.
  pub data Value : Type 0 where
    integer : ℤ → Value
    other : Ref → Value

  pub record Entry : Type 0 where
    pub hash : ℤ
    pub key : Value
    pub value : Value

  -- An empty bucket is `none`.
  abbrev pub Buckets : Type 0
  Buckets = List (Option Entry)

  unfoldable pub empty_buckets : ℕ → Buckets
  empty_buckets zero = []
  empty_buckets (suc n) = none ∷ empty_buckets n

  unfoldable pub indexed_from_buckets : Ref → Buckets → List Value
  indexed_from_buckets nil [] = []
  indexed_from_buckets nil (none ∷ bs) =
      other nil ∷ other nil ∷ other nil ∷ indexed_from_buckets nil bs
  indexed_from_buckets nil (some e ∷ bs) =
      integer e.hash ∷ e.key ∷ e.value ∷ indexed_from_buckets nil bs

  unfoldable pub bucket_at : Value → Value → Value → Option Entry
  bucket_at (integer h) k v = some record { hash = h; key = k; value = v }
  bucket_at (other r) k v = none

  -- Three cells at a time; a length that is not a multiple of three was refused before.
  unfoldable pub group : List Value → Buckets
  group (h ∷ k ∷ v ∷ cells) = bucket_at h k v ∷ group cells
  group (h ∷ k ∷ []) = []
  group (h ∷ []) = []
  group [] = []

  unfoldable pub buckets_from_indexed : List Value → Result TableError Buckets
  buckets_from_indexed indexed = do capacity ← capacity_of (length indexed); ok (group indexed)

  unfoldable pub tally_of : Buckets → ℕ
  tally_of [] = 0
  tally_of (b ∷ bs) = (if is_some b then 1 else 0) + tally_of bs

  -- The slots and cells of a table's record: its tally, and the indexed part.
  pub record Table : Type 0 where
    pub tally : Value
    pub indexed : List Value

  unfoldable pub table_record_fields : Ref → Buckets → Table
  table_record_fields nil bs = record {
    tally = integer (pos (tally_of bs));
    indexed = indexed_from_buckets nil bs;
  }

  unfoldable pub check_tally : Value → ℕ → Result TableError ℕ
  check_tally (integer n) counted =
      if same_stored_hash n (pos counted) then ok counted else err wrong_tally
  check_tally (other r) counted = err bad_tally

  -- Buckets, capacity and tally.
  unfoldable pub read_table_record : Table → Result TableError (Buckets × ℕ × ℕ)
  read_table_record t = do
    bs ← buckets_from_indexed t.indexed
    counted ← check_tally t.tally (tally_of bs)
    ok (bs, length bs, counted)

  unfoldable pub set_bucket : ℕ → Entry → Buckets → Buckets
  set_bucket i e [] = []
  set_bucket zero e (b ∷ bs) = some e ∷ bs
  set_bucket (suc i) e (b ∷ bs) = b ∷ set_bucket i e bs

  abbrev pub is_free : Buckets → ℕ → Bool
  is_free bs i = elim (get_elem? bs i) [ some none ↦ true | _ ↦ false ]

  -- In the first free bucket of a probe sequence.
  unfoldable pub place : List ℕ → Entry → Buckets → Result TableError Buckets
  place [] e bs = err no_free_bucket
  place (i ∷ is) e bs =
      let rest = place is e bs in if is_free bs i then ok (set_bucket i e bs) else rest

  unfoldable pub reinsert_into : Buckets → ℕ → Buckets → Result TableError Buckets
  reinsert_into grown capacity [] = ok grown
  reinsert_into grown capacity (none ∷ bs) = reinsert_into grown capacity bs
  reinsert_into grown capacity (some e ∷ bs) =
      elim (place (probe_sequence e.hash capacity) e grown) [
        | ok next ↦ reinsert_into next capacity bs
        | err x ↦ err x
      ]

  unfoldable pub reinsert : Buckets → ℕ → Result TableError Buckets
  reinsert bs capacity = reinsert_into (empty_buckets capacity) capacity bs

  -- The bucket of a key, if it has one; `equals` is what sending = to a stored key answers.
  unfoldable pub locate : (Value → Value → Bool) → List ℕ → ℤ → Value → Buckets → Option ℕ
  locate equals [] hash key bs = none
  locate equals (i ∷ is) hash key bs =
      let rest = locate equals is hash key bs in
      elim (get_elem? bs i) [
        | some (some e) ↦ if same_stored_hash e.hash hash && equals e.key key then some i else rest
        | _ ↦ none
      ]

  -- The next snapshot of `at:put:`, where the key has a bucket or none.
  unfoldable pub next_buckets : Option ℕ → ℤ → Value → Value → Buckets → Result TableError Buckets
  next_buckets (some i) hash key value bs = elim (get_elem? bs i) [
    | some (some e) ↦ ok (set_bucket i (record e { value = value }) bs)
    | _ ↦ ok bs
  ]
  next_buckets none hash key value bs =
      let e : Entry = record { hash = hash; key = key; value = value } in
      if needs_growth (tally_of bs + 1) (length bs)
      then (do
        grown ← reinsert bs (grown_capacity (length bs))
        place (probe_sequence hash (grown_capacity (length bs))) e grown)
      else place (probe_sequence hash (length bs)) e bs

  unfoldable pub at_put :
      (Value → Value → Bool) → ℤ → Value → Value → Buckets → Result TableError Buckets
  at_put equals hash key value bs =
      next_buckets (locate equals (probe_sequence hash (length bs)) hash key bs) hash key value bs

  -- `dictionaryLookup`, and the value that `at:` answers if there is one.
  unfoldable pub lookup : (Value → Value → Bool) → ℤ → Value → Buckets → Option Value
  lookup equals hash key bs = elim (locate equals (probe_sequence hash (length bs)) hash key bs) [
    | none ↦ none
    | some i ↦ elim (get_elem? bs i) [ some (some e) ↦ some e.value | _ ↦ none ]
  ]

  -- The `at:put:` calls of a program, one after the other: hash, key and value.
  unfoldable pub put_all :
      (Value → Value → Bool) → List (ℤ × Value × Value) → Buckets → Result TableError Buckets
  put_all equals [] bs = ok bs
  put_all equals ((hash, key, value) ∷ puts) bs = elim (at_put equals hash key value bs) [
    | ok next ↦ put_all equals puts next
    | err x ↦ err x
  ]
