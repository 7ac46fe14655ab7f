-- ===== src/Value/Host.antt =====
-- The values of the host language, as the code of src/value/ and src/callable/ takes and returns
-- them. A text is its UTF-16 code units, a number the 64 bits of its double.
use lagrange_images.Base.Integers.{ℤ, pos, negsuc}
use lagrange_images.Base.{
  ℕ, suc, ◌<◌, ◌≡◌, String, Bool, true, false, Option, none, some, List, [], ◌∷◌, str_eq,
  if◌then◌else◌, ltb,
}
use lagrange_images.Support.PortableBytes.{Bytes, Text}

-- `other` is what is none of the rest, such as null, undefined or a function. A record is an object
-- with its own keys, in the order in which they were added.
mutual
  pub data HostValue : Type 0 where
    boolean : Bool → HostValue
    number : ℕ → HostValue
    bigint : ℤ → HostValue
    text : Text → HostValue
    byte_array : Bytes → HostValue
    array : Values → HostValue
    object : Members → HostValue
    other : HostValue

  pub data Values : Type 0 where
    no_values : Values
    value : HostValue → Values → Values

  pub data Members : Type 0 where
    no_members : Members
    member : String → HostValue → Members → Members

unfoldable pub count_values : Values → ℕ
count_values no_values = 0
count_values (value v vs) = suc (count_values vs)

-- `object[key]`, which is nothing without the key.
unfoldable pub get_member : String → Members → Option HostValue
get_member k no_members = none
get_member k (member j v ms) = if str_eq j k then some v else get_member k ms

-- `object[key] = value`
unfoldable pub set_member : String → HostValue → Members → Members
set_member k v no_members = member k v no_members
set_member k v (member j w ms) =
    if str_eq j k then member j v ms else member j w (set_member k v ms)

-- `Object.keys`
unfoldable pub keys : Members → List String
keys no_members = []
keys (member k v ms) = k ∷ keys ms

-- `low <= n && n <= high` for the least and the greatest signed integer of `bound * 2` values.
unfoldable pub in_range : ℕ → ℤ → Bool
in_range bound (pos n) = ltb n bound
in_range bound (negsuc n) = ltb n bound

-- Numbers of the host: `BigInt(number)`, which throws on what is no integer, `Number(bigint)`, the
-- bits of a number as a single and back, and what `Uint8Array.from` stores of an element, which it
-- may refuse. What is used: an integer of less than 53 bits is a number, and a number that a single
-- was widened to is narrowed to it again.
pub record HostNumbers : Type 0 where
  pub integer_of : ℕ → Option ℤ
  pub number_of : ℤ → ℕ
  pub single_of : ℕ → ℕ
  pub double_of : ℕ → ℕ
  pub byte_of : HostValue → Option ℕ
  pub integer_of-number_of :
      (i : ℤ) → in_range 9007199254740992 i ≡ true → integer_of (number_of i) ≡ some i
  pub single_of_lt : (n : ℕ) → single_of n < 4294967296
  pub double_of_lt : (s : ℕ) → double_of s < 18446744073709551616
  pub double_of_stable : (s : ℕ) → double_of (single_of (double_of s)) ≡ double_of s

-- `Number.isSafeInteger`, below 2 ^ 53 in size.
unfoldable pub is_safe_integer : HostNumbers → ℕ → Bool
unfolding in_range
is_safe_integer host n = elim (host.integer_of n) [
  | none ↦ false
  | some (pos m) ↦ ltb m 9007199254740992
  | some (negsuc m) ↦ ltb m 9007199254740991
]
