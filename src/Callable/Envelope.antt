-- ===== src/Callable/Envelope.antt =====
-- src/callable/composite-codec.js: the envelope, which is the magic number, a version, the fingerprint
-- of the type and the payload.
mod Laws
pub mod RoundTrip
use lagrange_images.Base.{
  ℕ, zero, suc, ◌+◌, Bool, true, false, List, [], ◌∷◌, ◌++◌, length, take, drop, codes, ltb, ◌==◌,
  get_or, if◌then◌else◌,
}
use lagrange_images.Base.Result.{Result, ok, err}
use lagrange_images.Support.PortableBytes.{Bytes, Text, base64_decode, bytes_equal, concat_bytes}
use lagrange_images.Value.Kinds.{Value, bytes}
use lagrange_images.Value.Host.{HostValue}
use lagrange_images.Value.Scalars.{ValueError, bad_bytes, canonicalize_value, bytes_value}
use lagrange_images.Callable.TypeGrammar.{TypeExpr, Declarations, GrammarError}
use lagrange_images.Callable.Buffers.{CodecError, new_writer, contents}
use lagrange_images.Callable.CompositeCodec.{max_value_depth, write_value, read_value}
use lagrange_images.Callable.Fingerprint.{Platform, type_fingerprint}

pub data EnvelopeError : Type 0 where
  codec : CodecError → EnvelopeError
  grammar : GrammarError → EnvelopeError
  invalid_value : ValueError → EnvelopeError
  not_bytes_value too_short bad_magic bad_version wrong_type trailing_bytes : EnvelopeError

-- `utf8Encode('LGIC')`
abbrev pub magic : Bytes
magic = codes "LGIC"

abbrev pub version : ℕ
version = 0

abbrev pub header_length : ℕ
header_length = 37

-- What `bytesValue` throws, if anything.
unfoldable pub value_of_bytes : Bytes → Result EnvelopeError Value
unfolding bytes_value
value_of_bytes bs = elim (bytes_value bs) [ err e ↦ err (invalid_value e) | ok v ↦ ok v ]

-- `packCompositeValue`
unfoldable pub pack_composite_value :
    Platform → HostValue → TypeExpr → Declarations → Result EnvelopeError Value
unfolding write_value contents type_fingerprint value_of_bytes concat_bytes
pack_composite_value platform v type types =
    elim (write_value platform.numbers platform.utf8 types (suc max_value_depth) type v
      new_writer) [
        | err e ↦ err (codec e)
        | ok w ↦ elim (type_fingerprint platform type types) [
          | err e ↦ err (grammar e)
          | ok fingerprint ↦
              value_of_bytes (concat_bytes (magic ∷ (version ∷ []) ∷ fingerprint ∷ contents w ∷ []))
        ]
      ]

-- The bytes of a bytes Value.
unfoldable pub bytes_of_value : Platform → HostValue → Result EnvelopeError Bytes
unfolding canonicalize_value base64_decode
bytes_of_value platform v = elim (canonicalize_value platform.numbers v) [
  | err e ↦ err (invalid_value e)
  | ok (bytes t) ↦ elim (base64_decode t) [ err e ↦ err (invalid_value bad_bytes) | ok bs ↦ ok bs ]
  | ok _ ↦ err not_bytes_value
]

-- `envelopeFingerprint`
unfoldable pub envelope_fingerprint : Bytes → Bytes
envelope_fingerprint envelope = take 32 (drop (length magic + 1) envelope)

-- A payload read to its end.
unfoldable pub decode_payload :
    Platform → TypeExpr → Declarations → Bytes → Result EnvelopeError HostValue
unfolding read_value
decode_payload platform type types payload =
    elim (read_value platform.numbers platform.utf8 types (suc max_value_depth) type payload) [
      | err e ↦ err (codec e)
      | ok (v, []) ↦ ok v
      | ok (v, _ ∷ _) ↦ err trailing_bytes
    ]

-- The tests of the header.
unfoldable pub check_header : Platform → TypeExpr → Declarations → Bytes → Result EnvelopeError Unit
unfolding bytes_equal type_fingerprint envelope_fingerprint
check_header platform type types envelope =
    if ltb (length envelope) header_length
    then err too_short
    else if bytes_equal (take (length magic) envelope) magic
    then (if get_or envelope (length magic) 0 == version
        then elim (type_fingerprint platform type types) [
          | err e ↦ err (grammar e)
          | ok expected ↦
              if bytes_equal (envelope_fingerprint envelope) expected then ok tt else err wrong_type
        ]
        else err bad_version)
    else err bad_magic

-- `unpackCompositeValue`
unfoldable pub unpack_composite_value :
    Platform → HostValue → TypeExpr → Declarations → Result EnvelopeError HostValue
unfolding bytes_of_value check_header decode_payload
unpack_composite_value platform v type types = elim (bytes_of_value platform v) [
  | err e ↦ err e
  | ok envelope ↦ elim (check_header platform type types envelope) [
    | err e ↦ err e
    | ok _ ↦ decode_payload platform type types (drop header_length envelope)
  ]
]

-- `compositePayloadOf`
unfoldable pub composite_payload_of : Platform → HostValue → Result EnvelopeError Value
unfolding bytes_of_value value_of_bytes
composite_payload_of platform v = elim (bytes_of_value platform v) [
  | err e ↦ err e
  | ok envelope ↦
      if ltb (length envelope) header_length
      then err too_short
      else value_of_bytes (drop header_length envelope)
]

-- `compositeEnvelopeOf`
unfoldable pub composite_envelope_of :
    Platform → HostValue → TypeExpr → Declarations → Result EnvelopeError Value
unfolding bytes_of_value decode_payload pack_composite_value
composite_envelope_of platform payload type types = elim (bytes_of_value platform payload) [
  | err e ↦ err e
  | ok bs ↦ elim (decode_payload platform type types bs) [
    | err e ↦ err e
    | ok decoded ↦ pack_composite_value platform decoded type types
  ]
]
