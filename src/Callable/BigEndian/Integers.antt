-- ===== src/Callable/BigEndian/Integers.antt =====
-- Host numbers that are integers of 64 bits, for runs of the code at concrete values.
use lagrange_images.Base.Integers.{ℤ, pos, negsuc}
use lagrange_images.Base.{ℕ, ◌%◌, ◌≡◌, refl, true, Option, none, some, arith, ltb→lt}
use lagrange_images.Value.Host.{HostValue, number, HostNumbers, in_range}
use lagrange_images.Callable.BigEndian.{signed, twos_complement, signed-twos_complement}

pub in_range_below :
    (i : ℤ) → in_range 9007199254740992 i ≡ true → in_range 9223372036854775808 i ≡ true
unfolding in_range
in_range_below (pos n) h = ground (arith, ltb→lt n 9007199254740992 h)
in_range_below (negsuc n) h = ground (arith, ltb→lt n 9007199254740992 h)

abbrev pub byte_of : HostValue → Option ℕ
byte_of (number n) = some (n % 256)
byte_of _ = none

-- A number is an integer of 64 bits, of which a single has the low half.
abbrev pub toy_numbers : HostNumbers
toy_numbers = record {
  integer_of = λ n. some (signed 9223372036854775808 n);
  number_of = λ i. twos_complement 9223372036854775808 i;
  single_of = λ n. n % 4294967296;
  double_of = λ s. s % 4294967296;
  byte_of = byte_of;
  integer_of-number_of =
      λ i h. rw (signed-twos_complement 9223372036854775808 i (in_range_below i h)) refl;
  single_of_lt = λ n. omega arith;
  double_of_lt = λ s. omega arith;
  double_of_stable = λ s. omega arith;
}
