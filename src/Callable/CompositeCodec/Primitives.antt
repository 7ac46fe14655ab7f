-- ===== src/Callable/CompositeCodec/Primitives.antt =====
-- The codes of primitive values: what is written of a typed one is read as the value.
use lagrange_images.Base.Integers.{ℤ, pos, negsuc}
use lagrange_images.Base.{
  ℕ, ◌≤◌, ◌<◌, ◌≡◌, subst, refl, true, false, [], ◌∷◌, ◌++◌, length, length-append, arith, All,
  All-append, ltb→lt,
}
use lagrange_images.Base.Result.{Result, ok}
use lagrange_images.Support.PortableBytes.{Bytes, Text}
use lagrange_images.Support.PortableBytes.Base64.{IsByte}
use lagrange_images.Support.Utf8.{Utf8, IsPlain, IsWellFormed, strip_mark}
use lagrange_images.Value.Host.{
  HostValue, boolean, number, bigint, text, byte_array, HostNumbers, in_range,
}
use lagrange_images.Callable.TypeGrammar.{Primitive, bool, s32, s64, f32, f64, string, byte_list}
use lagrange_images.Callable.BigEndian.{
  big_endian, unsigned, unsigned_from, twos_complement, signed-twos_complement, twos_complement_lt,
  big_endian-IsByte,
}
use lagrange_images.Callable.Buffers.{
  CodecError, Writer, max_payload_bytes, take_bytes, push, take_unsigned,
}
use lagrange_images.Callable.PrimitiveCodec.{
  s32_half, s64_half, integer_in, write_integer, write_primitive, read_primitive,
}
use lagrange_images.Callable.Typed.{IsPrimitive}
use lagrange_images.Callable.CompositeCodec.Writes.{
  Writes, eq-Writes, push-Writes, push_bytes-Writes, take_unsigned-big_endian, take_counted-push,
}

-- A writer's step and a reader's step that agree on `x`.
abbrev pub Codes :
    {A : Type 0}
    → (Writer → Result CodecError Writer)
    → (Bytes → Result CodecError (A × Bytes))
    → A
    → Type 0
Codes f g x =
    (bs : Bytes) × All IsByte bs
    × Writes bs f
    × (length bs ≤ max_payload_bytes → (rest : Bytes) → g (bs ++ rest) ≡ ok (x, rest))

in_range_mono :
    (half bound : ℕ) (i : ℤ) → half ≤ bound → in_range half i ≡ true → in_range bound i ≡ true
unfolding in_range
in_range_mono half bound (pos n) h k = ground (arith, ltb→lt n half k)
in_range_mono half bound (negsuc n) h k = ground (arith, ltb→lt n half k)

counted_fits :
    (bs : Bytes)
    → length (big_endian 4 (length bs) ++ bs) ≤ max_payload_bytes
    → length bs ≤ max_payload_bytes
counted_fits bs h = omega (arith, length-append (big_endian 4 (length bs)) bs)

one_byte : (b : ℕ) (rest : Bytes) → b < 256 → take_unsigned 1 ((b ∷ []) ++ rest) ≡ ok (b, rest)
unfolding take_unsigned take_bytes unsigned unsigned_from
one_byte b rest h = ground arith

module _ (host : HostNumbers) (utf8 : Utf8) where
  number-Codes :
      (i : ℤ)
      → in_range s32_half i ≡ true
      → Codes
          (write_primitive host utf8 s32 (number (host.number_of i)))
          (read_primitive host utf8 s32)
          (number (host.number_of i))
  unfolding write_primitive read_primitive write_integer integer_in
  number-Codes i h = (
    big_endian 4 (twos_complement s32_half i),
    big_endian-IsByte 4 (twos_complement s32_half i),
    eq-Writes (big_endian 4 (twos_complement s32_half i))
        (write_primitive host utf8 s32 (number (host.number_of i)))
        (push (big_endian 4 (twos_complement s32_half i))) (λ w. written w)
        (push-Writes (big_endian 4 (twos_complement s32_half i))),
    λ _ rest.
        rw
          (
            take_unsigned-big_endian 4 (twos_complement s32_half i) rest
                (twos_complement_lt s32_half i (omega arith)),
            signed-twos_complement s32_half i h,
          )
          refl,
  )
    where
      written :
          (w : Writer)
          → write_integer host s32_half 4 (number (host.number_of i)) w
            ≡ push (big_endian 4 (twos_complement s32_half i)) w
      written w =
          rw
            (
              write_integer,
              host.integer_of-number_of i
                  (in_range_mono s32_half 9007199254740992 i (omega arith) h),
              h,
            )
            refl

  bigint-Codes :
      (i : ℤ)
      → in_range s64_half i ≡ true
      → Codes (write_primitive host utf8 s64 (bigint i)) (read_primitive host utf8 s64) (bigint i)
  unfolding write_primitive read_primitive write_integer integer_in
  bigint-Codes i h = (
    big_endian 8 (twos_complement s64_half i),
    big_endian-IsByte 8 (twos_complement s64_half i),
    λ w. rw h (push-Writes (big_endian 8 (twos_complement s64_half i)) w),
    λ _ rest.
        rw
          (
            take_unsigned-big_endian 8 (twos_complement s64_half i) rest
                (twos_complement_lt s64_half i (omega arith)),
            signed-twos_complement s64_half i h,
          )
          refl,
  )

  single-Codes :
      (s : ℕ)
      → Codes
          (write_primitive host utf8 f32 (number (host.double_of s)))
          (read_primitive host utf8 f32)
          (number (host.double_of s))
  unfolding write_primitive read_primitive
  single-Codes s =
      let narrowed = host.single_of (host.double_of (host.single_of (host.double_of s))) in
      (
        big_endian 4 narrowed,
        big_endian-IsByte 4 narrowed,
        push-Writes (big_endian 4 narrowed),
        λ _ rest.
            rw
              (
                take_unsigned-big_endian 4 narrowed rest
                    (host.single_of_lt (host.double_of (host.single_of (host.double_of s)))),
                host.double_of_stable (host.single_of (host.double_of s)),
                host.double_of_stable s,
              )
              refl,
      )

  -- A text is read without the mark at its front.
  pub text-Codes :
      (t : Text)
      → IsWellFormed utf8 t
      → Codes
          (write_primitive host utf8 string (text t))
          (read_primitive host utf8 string)
          (text (strip_mark t))
  unfolding write_primitive read_primitive
  text-Codes t h = (
    big_endian 4 (length (utf8.encode t)) ++ utf8.encode t,
    All-append (utf8.encode t) IsByte (utf8.encode-IsByte t) (big_endian 4 (length (utf8.encode t)))
        (big_endian-IsByte 4 (length (utf8.encode t))),
    push_bytes-Writes (utf8.encode t),
    λ fits rest.
        rw
          (
            read_primitive,
            take_counted-push (utf8.encode t) rest (counted_fits (utf8.encode t) fits),
            utf8.decode-encode t h,
          )
          refl,
  )

  pub primitive-Codes :
      (p : Primitive) (v : HostValue)
      → IsPrimitive host (IsPlain utf8) p v
      → Codes (write_primitive host utf8 p v) (read_primitive host utf8 p) v
  unfolding IsPrimitive write_primitive read_primitive
  primitive-Codes bool (boolean true) h = (
    1 ∷ [],
    (omega arith, tt),
    push-Writes (1 ∷ []),
    λ _ rest. rw (read_primitive, one_byte 1 rest (omega arith)) refl,
  )
  primitive-Codes bool (boolean false) h = (
    0 ∷ [],
    (omega arith, tt),
    push-Writes (0 ∷ []),
    λ _ rest. rw (read_primitive, one_byte 0 rest (omega arith)) refl,
  )
  primitive-Codes s32 (number n) (i, h, e) = rw e (number-Codes i h)
  primitive-Codes s64 (bigint i) h = bigint-Codes i h
  primitive-Codes f32 (number n) (s, h, e) = rw e (single-Codes s)
  primitive-Codes f64 (number n) h = (
    big_endian 8 n,
    big_endian-IsByte 8 n,
    push-Writes (big_endian 8 n),
    λ _ rest. rw (read_primitive, take_unsigned-big_endian 8 n rest h) refl,
  )
  primitive-Codes string (text t) h =
      subst
        (λ x.
          Codes (write_primitive host utf8 string (text t)) (read_primitive host utf8 string)
            (text x))
        h.1 (text-Codes t h.0)
  primitive-Codes byte_list (byte_array b) h = (
    big_endian 4 (length b) ++ b,
    All-append b IsByte h (big_endian 4 (length b)) (big_endian-IsByte 4 (length b)),
    push_bytes-Writes b,
    λ fits rest. rw (read_primitive, take_counted-push b rest (counted_fits b fits)) refl,
  )
  primitive-Codes _ _ h = absurd h
