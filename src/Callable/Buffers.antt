-- ===== src/Callable/Buffers.antt =====
-- `Writer` and `Reader` of src/callable/composite-codec.js. A writer holds the chunks and the number
-- of bytes written, a reader is the bytes that are still to be read.
use lagrange_images.Base.{ℕ, ◌+◌, List, [], ◌∷◌, ◌++◌, length, take, drop, if◌then◌else◌, ltb}
use lagrange_images.Base.Result.{Result, ok, err}
use lagrange_images.Support.PortableBytes.{Bytes, concat_bytes}
use lagrange_images.Callable.BigEndian.{big_endian, unsigned}

pub data CodecError : Type 0 where
  too_deep has_reference undeclared payload_too_large ended_early invalid_boolean : CodecError
  not_boolean not_integer out_of_range not_number not_text not_bytes not_array not_record :
      CodecError
  list_too_long extra_fields missing_field : CodecError

abbrev pub max_payload_bytes : ℕ
max_payload_bytes = 67108864

pub record Writer : Type 0 where
  pub chunks : List Bytes
  pub written : ℕ

abbrev pub new_writer : Writer
new_writer = record { chunks = []; written = 0 }

-- `Writer.push`
unfoldable pub push : Bytes → Writer → Result CodecError Writer
push buffer w =
    if ltb max_payload_bytes (w.written + length buffer)
    then err payload_too_large
    else ok record { chunks = w.chunks ++ buffer ∷ []; written = w.written + length buffer }

-- `Writer.bytes`
unfoldable pub push_bytes : Bytes → Writer → Result CodecError Writer
unfolding push big_endian
push_bytes bs w = elim (push (big_endian 4 (length bs)) w) [ err e ↦ err e | ok u ↦ push bs u ]

-- `Writer.contents`
unfoldable pub contents : Writer → Bytes
unfolding concat_bytes
contents w = concat_bytes w.chunks

-- `Reader.take`
unfoldable pub take_bytes : ℕ → Bytes → Result CodecError (Bytes × Bytes)
take_bytes n bs = if ltb (length bs) n then err ended_early else ok (take n bs, drop n bs)

-- `Reader.u8` and `Reader.u32`
unfoldable pub take_unsigned : ℕ → Bytes → Result CodecError (ℕ × Bytes)
unfolding take_bytes unsigned
take_unsigned n bs = elim (take_bytes n bs) [ err e ↦ err e | ok r ↦ ok (unsigned r.0, r.1) ]

-- `Reader.bytes`
unfoldable pub take_counted : Bytes → Result CodecError (Bytes × Bytes)
unfolding take_unsigned take_bytes
take_counted bs = elim (take_unsigned 4 bs) [ err e ↦ err e | ok r ↦ take_bytes r.0 r.1 ]
