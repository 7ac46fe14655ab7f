-- ===== src/Callable/BigEndian.antt =====
-- What a `DataView` stores and reads with `littleEndian` false, as src/callable/composite-codec.js
-- calls it: unsigned and signed integers of a number of bytes, the most significant byte first.
pub mod Integers
use lagrange_images.Base.Integers.{ℤ, pos, negsuc}
use lagrange_images.Base.{
  ℕ, zero, suc, ◌+◌, ◌-◌, ◌*◌, ◌/◌, ◌%◌, ◌^◌, ◌≤◌, ◌<◌, ◌≡◌, refl, sym, ap, ltb→lt, ◌∙◌, Bool, true,
  false, List, [], ◌∷◌, ◌++◌, if◌then◌else◌, ltb, length, length-append, arith, All, Bool-cases,
  inl, inr,
}
use lagrange_images.Support.PortableBytes.{Bytes}
use lagrange_images.Support.PortableBytes.Base64.{IsByte}
use lagrange_images.Value.Host.{in_range}
use native.Mathlib.Nat.{
  pow-suc, one-le-pow, div-div-eq-div-mul, div-eq_of_lt, mod-eq_of_lt, mul-le-mul_right,
}

-- The low bytes of a number.
unfoldable pub big_endian : ℕ → ℕ → Bytes
big_endian zero n = []
big_endian (suc k) n = (n / 256 ^ k % 256) ∷ big_endian k n

unfoldable pub unsigned_from : ℕ → Bytes → ℕ
unsigned_from acc [] = acc
unsigned_from acc (b ∷ bs) = unsigned_from (acc * 256 + b) bs

unfoldable pub unsigned : Bytes → ℕ
unfolding unsigned_from
unsigned bs = unsigned_from 0 bs

-- Two's complement, where `half` is 2 ^ (width - 1).
unfoldable pub twos_complement : ℕ → ℤ → ℕ
twos_complement half (pos n) = n % (2 * half)
twos_complement half (negsuc n) = (2 * half - 1) - n % (2 * half)

unfoldable pub signed : ℕ → ℕ → ℤ
signed half u = if ltb u half then pos u else negsuc ((2 * half - 1) - u)

pub length-big_endian : (k n : ℕ) → length (big_endian k n) ≡ k
unfolding big_endian
length-big_endian zero n = refl
length-big_endian (suc k) n = omega (arith, length-big_endian k n)

pub big_endian-IsByte : (k n : ℕ) → All IsByte (big_endian k n)
unfolding big_endian
big_endian-IsByte zero n = tt
big_endian-IsByte (suc k) n = (omega arith, big_endian-IsByte k n)

-- The next byte down is read behind the ones above it.
next_byte : (k n : ℕ) → n / 256 ^ suc k * 256 + n / 256 ^ k % 256 ≡ n / 256 ^ k
next_byte k n =
    omega (arith, ap (λ (t : ℕ). n / t) (pow-suc 256 k), div-div-eq-div-mul n (256 ^ k) 256)

unsigned_from-big_endian : (k n : ℕ) → unsigned_from (n / 256 ^ k) (big_endian k n) ≡ n
unfolding unsigned_from big_endian
unsigned_from-big_endian zero n = omega arith
unsigned_from-big_endian (suc k) n =
    ap (λ (t : ℕ). unsigned_from t (big_endian k n)) (next_byte k n) ∙ unsigned_from-big_endian k n

pub unsigned-big_endian : (k n : ℕ) → n < 256 ^ k → unsigned (big_endian k n) ≡ n
unfolding unsigned
unsigned-big_endian k n h =
    ap (λ (t : ℕ). unsigned_from t (big_endian k n)) (sym (div-eq_of_lt h))
    ∙ unsigned_from-big_endian k n

lt_double : (half n : ℕ) → n < half → n < 2 * half
lt_double half n h = omega arith

pub signed-twos_complement :
    (half : ℕ) (i : ℤ) → in_range half i ≡ true → signed half (twos_complement half i) ≡ i
unfolding signed twos_complement in_range
signed-twos_complement half (pos n) h =
    rw (mod-eq_of_lt (lt_double half n (ltb→lt n half h)), h) refl
signed-twos_complement half (negsuc n) h =
    rw (mod-eq_of_lt (lt_double half n (ltb→lt n half h))) (ground (arith, ltb→lt n half h))

pub twos_complement_lt : (half : ℕ) (i : ℤ) → 0 < half → twos_complement half i < 2 * half
unfolding twos_complement
twos_complement_lt half (pos n) h = omega arith
twos_complement_lt half (negsuc n) h = omega arith

pub unsigned_from_lt :
    (acc : ℕ) (bs : Bytes) → All IsByte bs → unsigned_from acc bs < (acc + 1) * 256 ^ length bs
unfolding unsigned_from
unsigned_from_lt acc [] h = omega arith
unsigned_from_lt acc (b ∷ bs) h = omega (
  arith,
  unsigned_from_lt (acc * 256 + b) bs h.1,
  ap (λ (t : ℕ). (acc + 1) * t) (pow-suc 256 (length bs)),
  mul-le-mul_right {m = acc * 256 + b + 1} {n = (acc + 1) * 256} (256 ^ length bs)
      (omega (arith, h.0)),
)

pub signed-in_range : (half u : ℕ) → u < 2 * half → in_range half (signed half u) ≡ true
unfolding signed in_range
signed-in_range half u h = elim (Bool-cases (ltb u half)) [
  | inl low ↦ rw low low
  | inr high ↦ rw high (ground arith)
]
