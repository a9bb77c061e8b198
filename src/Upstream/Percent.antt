-- ===== src/Upstream/Percent.antt =====
-- Percent-encoding as RFC 3986 has it, and that `percent_decode` inverts it.
use wg_wrapper.Base.{
  ℕ, ◌+◌, ◌-◌, ◌*◌, ◌/◌, ◌%◌, ◌<◌, ◌≡◌, refl, ap, ◌∙◌, Bool, true, false, ◌||◌, [], ◌∷◌, Bytes,
  some, All, arith, ltb, ◌==◌, between, if◌then◌else◌, Bool-cases, inl, inr,
}
use wg_wrapper.Text.{Text, from_str_radix}
use wg_wrapper.Text.Split.{Lacks}
use wg_wrapper.Text.Utf8.{IsScalar, as_bytes, as_bytes-lt, as_bytes_ascii, from_utf8_lossy-as_bytes}
use wg_wrapper.Upstream.{
  percent_decode, percent_decode_from, decode_at, decoded, at_boundary, next_two,
}

-- the unreserved characters
abbrev is_unreserved : ℕ → Bool
is_unreserved b =
    between b'a' b'z' b
    || between b'A' b'Z' b
    || between b'0' b'9' b
    || b == b'-'
    || b == b'.'
    || b == b'_'
    || b == b'~'

hex : ℕ → ℕ
hex n = if ltb n 10 then b'0' + n else b'A' + (n - 10)

encode_byte : ℕ → Bytes → Bytes
encode_byte b rest = if is_unreserved b then b ∷ rest else b'%' ∷ hex (b / 16) ∷ hex (b % 16) ∷ rest

encode_bytes : Bytes → Bytes
unfolding encode_byte hex
encode_bytes [] = []
encode_bytes (b ∷ bs) = encode_byte b (encode_bytes bs)

pub percent_encode : Text → Text
unfolding encode_bytes as_bytes
percent_encode s = encode_bytes (as_bytes s)

radix_pair :
    (x y : ℕ) → x < 16 → y < 16 → from_str_radix 16 255 (hex x ∷ hex y ∷ []) ≡ some (x * 16 + y)
unfolding from_str_radix hex
radix_pair x y h k = ground arith

encode-at_boundary : (bs : Bytes) → at_boundary (encode_bytes bs) ≡ true
unfolding encode_bytes
encode-at_boundary [] = refl
encode-at_boundary (b ∷ bs) = ground arith

hex-lt : (n : ℕ) → n < 16 → hex n < 128
unfolding hex
hex-lt n h = ground arith

next_two-escape :
    (x y : ℕ) (rest : Bytes)
    → x < 16
    → at_boundary rest ≡ true
    → next_two (hex x ∷ hex y ∷ rest) ≡ hex x ∷ hex y ∷ []
next_two-escape x y rest h k = ground (arith, hex-lt x)

decode_at-escape :
    (b : ℕ) (rest : Bytes)
    → b < 256
    → at_boundary rest ≡ true
    → decode_at b'%' (hex (b / 16) ∷ hex (b % 16) ∷ rest) ≡ (b, 2)
unfolding decode_at
decode_at-escape b rest h k =
    ap (decoded b'%') (
      ap (from_str_radix 16 255) (next_two-escape (b / 16) (b % 16) rest (omega arith) k)
      ∙ radix_pair (b / 16) (b % 16) (omega arith) (omega arith))
    ∙ ap (λ v. (v, 2)) (omega arith)

decode_at-plain : (b : ℕ) (rest : Bytes) → is_unreserved b ≡ true → decode_at b rest ≡ (b, 0)
unfolding decode_at
decode_at-plain b rest h = ground arith

decode-encode_byte :
    (b : ℕ) (rest : Bytes)
    → b < 256
    → at_boundary rest ≡ true
    → percent_decode_from 0 (encode_byte b rest) ≡ b ∷ percent_decode_from 0 rest
unfolding percent_decode_from encode_byte
decode-encode_byte b rest h k = elim (Bool-cases (is_unreserved b)) [
  | inl plain ↦ rw plain (rw (decode_at-plain b rest plain) refl)
  | inr coded ↦ rw coded (rw (decode_at-escape b rest h k) refl)
]

decode-encode_bytes :
    (bs : Bytes) → All (λ b. b < 256) bs → percent_decode_from 0 (encode_bytes bs) ≡ bs
unfolding percent_decode_from encode_bytes
decode-encode_bytes [] h = refl
decode-encode_bytes (b ∷ bs) h =
    decode-encode_byte b (encode_bytes bs) h.0 (encode-at_boundary bs)
    ∙ ap (◌∷◌ b) (decode-encode_bytes bs h.1)

encode_bytes-IsAscii : (bs : Bytes) → All (λ b. b < 256) bs → All (λ b. b < 128) (encode_bytes bs)
unfolding encode_bytes
encode_bytes-IsAscii [] h = tt
encode_bytes-IsAscii (b ∷ bs) h =
    ground (arith, hex-lt (b / 16), hex-lt (b % 16), encode_bytes-IsAscii bs h.1)

-- What was encoded by RFC 3986 is decoded.
pub percent_decode-encode : (s : Text) → All IsScalar s → percent_decode (percent_encode s) ≡ s
unfolding percent_decode percent_encode
percent_decode-encode s h =
    rw
      (
        as_bytes_ascii (encode_bytes (as_bytes s))
            (encode_bytes-IsAscii (as_bytes s) (as_bytes-lt s h)),
        decode-encode_bytes (as_bytes s) (as_bytes-lt s h),
      )
      (from_utf8_lossy-as_bytes s h)

hex-IsHex : (n : ℕ) → n < 16 → is_unreserved (hex n) ≡ true
unfolding hex
hex-IsHex n h = ground arith

reserved-ne :
    (sep c : ℕ)
    → (is_unreserved sep || sep == b'%') ≡ false
    → is_unreserved c ≡ true
    → (c == sep) ≡ false
reserved-ne sep c h k = ground arith

encode_bytes-Lacks :
    (sep : ℕ) (bs : Bytes)
    → All (λ b. b < 256) bs
    → (is_unreserved sep || sep == b'%') ≡ false
    → Lacks sep (encode_bytes bs)
unfolding encode_bytes
encode_bytes-Lacks sep [] h reserved = tt
encode_bytes-Lacks sep (b ∷ bs) h reserved =
    let later = encode_bytes-Lacks sep bs h.1 reserved in
    elim (Bool-cases (is_unreserved b)) [
      | inl plain ↦ rw plain (reserved-ne sep b reserved plain, later)
      | inr coded ↦
          let digit = λ (n : ℕ) (k : n < 16). reserved-ne sep (hex n) reserved (hex-IsHex n k) in
          rw coded
            (ground arith, (digit (b / 16) (omega arith), (digit (b % 16) (omega arith), later)))
    ]

-- A reserved ASCII character other than `%` does not occur in an encoded text.
pub percent_encode-Lacks :
    (sep : ℕ) (s : Text)
    → All IsScalar s
    → (is_unreserved sep || sep == b'%') ≡ false
    → Lacks sep (percent_encode s)
unfolding percent_encode
percent_encode-Lacks sep s h = encode_bytes-Lacks sep (as_bytes s) (as_bytes-lt s h)
