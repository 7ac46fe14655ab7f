-- ===== src/Callable/CompositeCodec/Writes.antt =====
-- The bytes that a part of `writeValue` appends, and what a part of `readValue` reads them as.
use lagrange_images.Base.{
  take-append, drop-append, ℕ, ◌+◌, ◌≤◌, ◌<◌, ◌^◌, ◌≡◌, refl, sym, ◌∙◌, false, List, [], ◌∷◌, ◌++◌,
  length, ltb, arith, length-append, Bool-cases, inl, inr, lt→ltb, ltb→lt,
}
use lagrange_images.Base.Result.{Result, ok, err}
use lagrange_images.Support.PortableBytes.{Bytes, concat_bytes}
use lagrange_images.Callable.BigEndian.{big_endian, length-big_endian, unsigned-big_endian}
use lagrange_images.Callable.Buffers.{
  CodecError, payload_too_large, Writer, max_payload_bytes, push, push_bytes, contents, take_bytes,
  take_unsigned, take_counted,
}
use mathlib.Core.List.{append_assoc, append-nil}

-- From a writer within the bound, a call appends these bytes, or throws for the size of the payload if they do not fit.
abbrev pub Writes : Bytes → (Writer → Result CodecError Writer) → Type 0
Writes bs f =
    (w : Writer)
    → w.written ≤ max_payload_bytes
    → (w.written + length bs ≤ max_payload_bytes
        → (u : Writer) × (f w ≡ ok u)
          × (contents u ≡ contents w ++ bs)
          × (u.written ≡ w.written + length bs))
      × (max_payload_bytes < w.written + length bs → f w ≡ err payload_too_large)

pub eq-Writes :
    (bs : Bytes) (f g : Writer → Result CodecError Writer)
    → ((w : Writer) → f w ≡ g w)
    → Writes bs g
    → Writes bs f
eq-Writes bs f g e h w k = rw (e w) (h w k)

concat_bytes-append :
    (xs : List Bytes) (b : Bytes) → concat_bytes (xs ++ b ∷ []) ≡ concat_bytes xs ++ b
unfolding concat_bytes
concat_bytes-append [] b = append-nil b
concat_bytes-append (x ∷ xs) b =
    rw (concat_bytes-append xs b) (sym (append_assoc x (concat_bytes xs) b))

pub push-Writes : (bs : Bytes) → Writes bs (push bs)
unfolding push contents
push-Writes bs w k = (
  λ h. elim (Bool-cases (ltb max_payload_bytes (w.written + length bs))) [
    | inl over ↦ absurd (omega (arith, ltb→lt max_payload_bytes (w.written + length bs) over))
    | inr fits ↦ (
      record { chunks = w.chunks ++ bs ∷ []; written = w.written + length bs },
      rw fits refl,
      concat_bytes-append w.chunks bs,
      refl,
    )
  ],
  λ h. rw (lt→ltb max_payload_bytes (w.written + length bs) h) refl,
)

-- One call and then another.
abbrev pub and_then :
    (Writer → Result CodecError Writer)
    → (Writer → Result CodecError Writer)
    → Writer
    → Result CodecError Writer
and_then f g w = elim (f w) [ err e ↦ err e | ok u ↦ g u ]

le_of_ltb : (n : ℕ) → ltb max_payload_bytes n ≡ false → n ≤ max_payload_bytes
le_of_ltb n h = ground arith

pub and_then-Writes :
    (bs cs : Bytes) (f g : Writer → Result CodecError Writer)
    → Writes bs f
    → Writes cs g
    → Writes (bs ++ cs) (and_then f g)
and_then-Writes bs cs f g hf hg w k = (
  λ h.
      let (u, ran, here, size) = (hf w k).0 (omega (arith, length-append bs cs)) in
      let (v, ran', here', size') =
        (hg u (omega (arith, size, length-append bs cs))).0
          (omega (arith, size, length-append bs cs)) in
      (
        v,
        rw (and_then, ran) ran',
        here' ∙ rw here (append_assoc (contents w) bs cs),
        omega (arith, size, size', length-append bs cs),
      ),
  λ h. elim (Bool-cases (ltb max_payload_bytes (w.written + length bs))) [
    | inl over ↦
        rw (and_then, (hf w k).1 (ltb→lt max_payload_bytes (w.written + length bs) over)) refl
    | inr fits ↦
        let (u, ran, here, size) = (hf w k).0 (ground arith) in
        rw (and_then, ran)
          ((hg u (omega (arith, size, le_of_ltb (w.written + length bs) fits))).1
            (omega (arith, size, length-append bs cs)))
  ],
)

pub push_bytes-Writes : (bs : Bytes) → Writes (big_endian 4 (length bs) ++ bs) (push_bytes bs)
unfolding push_bytes
push_bytes-Writes bs =
    and_then-Writes (big_endian 4 (length bs)) bs (push (big_endian 4 (length bs))) (push bs)
      (push-Writes (big_endian 4 (length bs))) (push-Writes bs)

pub take_bytes-append : (bs rest : Bytes) → take_bytes (length bs) (bs ++ rest) ≡ ok (bs, rest)
unfolding take_bytes
take_bytes-append bs rest = elim (Bool-cases (ltb (length (bs ++ rest)) (length bs))) [
  | inl short ↦
      absurd (omega (arith, length-append bs rest, ltb→lt (length (bs ++ rest)) (length bs) short))
  | inr long ↦ rw (long, take-append bs rest, drop-append bs rest) refl
]

pub take_unsigned-big_endian :
    (k n : ℕ) (rest : Bytes) → n < 256 ^ k → take_unsigned k (big_endian k n ++ rest) ≡ ok (n, rest)
unfolding take_unsigned
take_unsigned-big_endian k n rest h =
    let got = take_bytes-append (big_endian k n) rest in
    let whole : take_bytes k (big_endian k n ++ rest) ≡ ok (big_endian k n, rest) =
      rw (length-big_endian k n) at got in
    rw (take_unsigned, whole, unsigned-big_endian k n h) refl

pub take_counted-push :
    (bs rest : Bytes)
    → length bs ≤ max_payload_bytes
    → take_counted ((big_endian 4 (length bs) ++ bs) ++ rest) ≡ ok (bs, rest)
unfolding take_counted
take_counted-push bs rest h =
    rw
      (
        append_assoc (big_endian 4 (length bs)) bs rest,
        take_counted,
        take_unsigned-big_endian 4 (length bs) (bs ++ rest) (omega arith),
      )
      (take_bytes-append bs rest)
