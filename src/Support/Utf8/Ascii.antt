-- ===== src/Support/Utf8/Ascii.antt =====
-- A host that knows ASCII and the byte order mark alone, for runs of the code at concrete texts.
use lagrange_images.Base.{
  ℕ, ◌%◌, ◌<◌, ◌≡◌, ◌∙◌, refl, sym, ap, Bool, true, ◌&&◌, ◌||◌, [], ◌∷◌, All, ltb, ◌==◌,
  if◌then◌else◌, arith,
}
use lagrange_images.Support.PortableBytes.{Text, Bytes}
use lagrange_images.Support.PortableBytes.Base64.{IsByte}
use lagrange_images.Support.Utf8.{Utf8, byte_order_mark, strip_mark}

unfoldable pub is_known : Text → Bool
is_known [] = true
is_known (c ∷ cs) = ((c == byte_order_mark) || ltb c 128) && is_known cs

unfoldable pub encode : Text → Bytes
encode [] = []
encode (c ∷ cs) =
    let rest = encode cs in
    if c == byte_order_mark then 239 ∷ 187 ∷ 191 ∷ rest else (c % 128) ∷ rest

unfoldable pub decode_all : Bytes → Text
decode_all [] = []
decode_all (a ∷ []) = (a % 128) ∷ []
decode_all (a ∷ b ∷ []) = (a % 128) ∷ (b % 128) ∷ []
decode_all (a ∷ b ∷ c ∷ rest) =
    let whole = decode_all rest in
    let one = decode_all (b ∷ c ∷ rest) in
    if (a == 239) && ((b == 187) && (c == 191)) then byte_order_mark ∷ whole else (a % 128) ∷ one

pub encode-IsByte : (s : Text) → All IsByte (encode s)
unfolding encode
encode-IsByte [] = tt
encode-IsByte (c ∷ cs) = ground (arith, encode-IsByte cs)

decode_all_ascii : (c : ℕ) (bs : Bytes) → c < 128 → decode_all (c ∷ bs) ≡ c ∷ decode_all bs
unfolding decode_all
decode_all_ascii c [] h = ground arith
decode_all_ascii c (b ∷ []) h = ground arith
decode_all_ascii c (b ∷ d ∷ rest) h = ground arith

decode_all-encode : (s : Text) → is_known s ≡ true → decode_all (encode s) ≡ s
unfolding is_known encode decode_all
decode_all-encode [] h = refl
decode_all-encode (c ∷ cs) h =
    ground (arith, decode_all-encode cs, decode_all_ascii (c % 128) (encode cs))

pub encode_injective :
    (s t : Text) → is_known s ≡ true → is_known t ≡ true → encode s ≡ encode t → s ≡ t
encode_injective s t h k e = sym (decode_all-encode s h) ∙ ap decode_all e ∙ decode_all-encode t k

unfoldable pub decode : Bytes → Text
unfolding decode_all strip_mark
decode bs = strip_mark (decode_all bs)

pub decode-encode : (s : Text) → is_known s ≡ true → decode (encode s) ≡ strip_mark s
unfolding decode
decode-encode s h = ap strip_mark (decode_all-encode s h)

decode_all-is_known : (bs : Bytes) → is_known (decode_all bs) ≡ true
unfolding decode_all is_known
decode_all-is_known [] = refl
decode_all-is_known (a ∷ []) = ground arith
decode_all-is_known (a ∷ b ∷ []) = ground arith
decode_all-is_known (a ∷ b ∷ c ∷ rest) =
    ground (arith, decode_all-is_known rest, decode_all-is_known (b ∷ c ∷ rest))

strip_mark-is_known : (s : Text) → is_known s ≡ true → is_known (strip_mark s) ≡ true
unfolding strip_mark is_known
strip_mark-is_known [] h = refl
strip_mark-is_known (c ∷ cs) h = ground arith

pub decode-is_known : (bs : Bytes) → is_known (decode bs) ≡ true
unfolding decode
decode-is_known bs = strip_mark-is_known (decode_all bs) (decode_all-is_known bs)

pub ascii-is_known : (s : Text) → All (λ c. c < 128) s → is_known s ≡ true
unfolding is_known
ascii-is_known [] h = refl
ascii-is_known (c ∷ cs) h = ground (arith, ascii-is_known cs h.1)

abbrev pub small_host : Utf8
small_host = record {
  encode = encode;
  decode = decode;
  well_formed = is_known;
  encode-IsByte = encode-IsByte;
  encode_injective = encode_injective;
  decode-encode = decode-encode;
  decode-well_formed = decode-is_known;
  well_formed_of_ascii = ascii-is_known;
}
