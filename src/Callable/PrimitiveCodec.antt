-- ===== src/Callable/PrimitiveCodec.antt =====
-- The primitive branches of `writeValue` and `readValue` in src/callable/composite-codec.js.
use lagrange_images.Base.Integers.{ℤ}
use lagrange_images.Base.{ℕ, Option, none, some, [], ◌∷◌, if◌then◌else◌, ltb, ◌==◌}
use lagrange_images.Base.Result.{Result, ok, err}
use lagrange_images.Support.PortableBytes.{Bytes}
use lagrange_images.Support.Utf8.{Utf8}
use lagrange_images.Value.Host.{
  HostValue, boolean, number, bigint, text, byte_array, array, Values, no_values, value, in_range,
  HostNumbers,
}
use lagrange_images.Callable.TypeGrammar.{Primitive, bool, s32, s64, f32, f64, string, byte_list}
use lagrange_images.Callable.BigEndian.{big_endian, signed, twos_complement}
use lagrange_images.Callable.Buffers.{
  CodecError, not_boolean, not_integer, out_of_range, not_number, not_text, not_bytes,
  invalid_boolean, Writer, push, push_bytes, take_unsigned, take_counted,
}

-- 2 ^ 31 and 2 ^ 63, the halves of the integers' ranges.
abbrev pub s32_half : ℕ
s32_half = 2147483648

abbrev pub s64_half : ℕ
s64_half = 9223372036854775808

-- `Uint8Array.from(array)`
unfoldable pub bytes_from : HostNumbers → Values → Option Bytes
bytes_from host no_values = some []
bytes_from host (value v vs) = elim (host.byte_of v) [
  | none ↦ none
  | some b ↦ elim (bytes_from host vs) [ none ↦ none | some bs ↦ some (b ∷ bs) ]
]

-- `BigInt(value)` of a number or a bigint.
unfoldable pub integer_in : HostNumbers → HostValue → Option ℤ
integer_in host (number n) = host.integer_of n
integer_in host (bigint i) = some i
integer_in host _ = none

-- An integer of `k` bytes, if it is in the range of the type.
unfoldable pub write_integer : HostNumbers → ℕ → ℕ → HostValue → Writer → Result CodecError Writer
unfolding integer_in in_range push big_endian twos_complement
write_integer host half k v w = elim (integer_in host v) [
  | none ↦ err not_integer
  | some i ↦
      if in_range half i then push (big_endian k (twos_complement half i)) w else err out_of_range
]

-- The primitive branch of `writeValue`.
unfoldable pub write_primitive :
    HostNumbers → Utf8 → Primitive → HostValue → Writer → Result CodecError Writer
unfolding push push_bytes write_integer bytes_from big_endian
write_primitive host utf8 bool (boolean b) w = push ((if b then 1 else 0) ∷ []) w
write_primitive host utf8 bool _ w = err not_boolean
write_primitive host utf8 s32 v w = write_integer host s32_half 4 v w
write_primitive host utf8 s64 v w = write_integer host s64_half 8 v w
write_primitive host utf8 f32 (number n) w =
    push (big_endian 4 (host.single_of (host.double_of (host.single_of n)))) w
write_primitive host utf8 f32 _ w = err not_number
write_primitive host utf8 f64 (number n) w = push (big_endian 8 n) w
write_primitive host utf8 f64 _ w = err not_number
write_primitive host utf8 string (text t) w = push_bytes (utf8.encode t) w
write_primitive host utf8 string _ w = err not_text
write_primitive host utf8 byte_list (byte_array bs) w = push_bytes bs w
write_primitive host utf8 byte_list (array vs) w = elim (bytes_from host vs) [
  | none ↦ err not_bytes
  | some bs ↦ push_bytes bs w
]
write_primitive host utf8 byte_list _ w = err not_bytes

-- What a `Reader` method reads, made a value.
abbrev pub reading :
    {A : Type 0}
    → (A → HostValue)
    → Result CodecError (A × Bytes)
    → Result CodecError (HostValue × Bytes)
reading make r = elim r [ err e ↦ err e | ok s ↦ ok (make s.0, s.1) ]

-- The primitive branch of `readValue`.
unfoldable pub read_primitive :
    HostNumbers → Utf8 → Primitive → Bytes → Result CodecError (HostValue × Bytes)
unfolding take_unsigned take_counted signed
read_primitive host utf8 bool bs = elim (take_unsigned 1 bs) [
  | err e ↦ err e
  | ok r ↦ if ltb 1 r.0 then err invalid_boolean else ok (boolean (r.0 == 1), r.1)
]
read_primitive host utf8 s32 bs =
    reading (λ n. number (host.number_of (signed s32_half n))) (take_unsigned 4 bs)
read_primitive host utf8 s64 bs = reading (λ n. bigint (signed s64_half n)) (take_unsigned 8 bs)
read_primitive host utf8 f32 bs = reading (λ n. number (host.double_of n)) (take_unsigned 4 bs)
read_primitive host utf8 f64 bs = reading number (take_unsigned 8 bs)
read_primitive host utf8 string bs = reading (λ b. text (utf8.decode b)) (take_counted bs)
read_primitive host utf8 byte_list bs = reading byte_array (take_counted bs)
