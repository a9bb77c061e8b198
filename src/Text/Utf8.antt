-- ===== src/Text/Utf8.antt =====
-- str::as_bytes and String::from_utf8_lossy, and that the second inverts the first.
use wg_wrapper.Base.{
  ℕ, zero, suc, ◌+◌, ◌-◌, ◌*◌, ◌/◌, ◌%◌, ◌≤◌, ◌<◌, ◌≡◌, refl, ap, ◌∙◌, ◌⊎◌, Bool, List, [], ◌∷◌,
  ◌++◌, Bytes, All, All-append, arith, ltb, ◌==◌, between, if◌then◌else◌,
}

-- a Unicode scalar value
abbrev pub IsScalar : ℕ → Type 0
IsScalar c = (c < 0xd800) ⊎ ((0xe000 ≤ c) × (c < 0x110000))

pub encode_char : ℕ → Bytes
encode_char c =
    if ltb c 0x80
    then c ∷ []
    else if ltb c 0x800
    then (0xc0 + c / 64) ∷ (0x80 + c % 64) ∷ []
    else if ltb c 0x10000
    then (0xe0 + c / 4096) ∷ (0x80 + c / 64 % 64) ∷ (0x80 + c % 64) ∷ []
    else (0xf0 + c / 262144) ∷ (0x80 + c / 4096 % 64) ∷ (0x80 + c / 64 % 64) ∷ (0x80 + c % 64) ∷ []

unfoldable pub as_bytes : List ℕ → Bytes
unfolding encode_char
as_bytes [] = []
as_bytes (c ∷ s) = encode_char c ++ as_bytes s

abbrev replacement : ℕ
replacement = 0xfffd

abbrev is_cont : ℕ → Bool
is_cont b = between 0x80 0xbf b

-- A decoded character, and how many bytes behind the first it takes.
two : ℕ → Bytes → ℕ × ℕ
two b [] = (replacement, 0)
two b (c ∷ _) = if is_cont c then ((b - 0xc0) * 64 + (c - 0x80), 1) else (replacement, 0)

abbrev three_end : ℕ → Bytes → ℕ × ℕ
three_end high [] = (replacement, 1)
three_end high (d ∷ _) = if is_cont d then (high * 64 + (d - 0x80), 2) else (replacement, 1)

three : ℕ → Bytes → ℕ × ℕ
three b [] = (replacement, 0)
three b (c ∷ rest) =
    if between (if b == 0xe0 then 0xa0 else 0x80) (if b == 0xed then 0x9f else 0xbf) c
    then three_end ((b - 0xe0) * 64 + (c - 0x80)) rest
    else (replacement, 0)

abbrev four_end : ℕ → Bytes → ℕ × ℕ
four_end high [] = (replacement, 2)
four_end high (e ∷ _) = if is_cont e then (high * 64 + (e - 0x80), 3) else (replacement, 2)

abbrev four_middle : ℕ → Bytes → ℕ × ℕ
four_middle high [] = (replacement, 1)
four_middle high (d ∷ rest) =
    if is_cont d then four_end (high * 64 + (d - 0x80)) rest else (replacement, 1)

four : ℕ → Bytes → ℕ × ℕ
four b [] = (replacement, 0)
four b (c ∷ rest) =
    if between (if b == 0xf0 then 0x90 else 0x80) (if b == 0xf4 then 0x8f else 0xbf) c
    then four_middle ((b - 0xf0) * 64 + (c - 0x80)) rest
    else (replacement, 0)

decode_char : ℕ → Bytes → ℕ × ℕ
unfolding two three four
decode_char b rest =
    if ltb b 0x80
    then (b, 0)
    else if between 0xc2 0xdf b
    then two b rest
    else if between 0xe0 0xef b
    then three b rest
    else if between 0xf0 0xf4 b
    then four b rest
    else (replacement, 0)

-- The first argument counts the bytes that belong to the character read last.
lossy_from : ℕ → Bytes → List ℕ
unfolding decode_char
lossy_from skip [] = []
lossy_from zero (b ∷ rest) = let d = decode_char b rest in d.0 ∷ lossy_from d.1 rest
lossy_from (suc skip) (b ∷ rest) = lossy_from skip rest

unfoldable pub from_utf8_lossy : Bytes → List ℕ
unfolding lossy_from
from_utf8_lossy = lossy_from 0

decode_two :
    (x y : ℕ) (rest : Bytes)
    → 2 ≤ x
    → x < 32
    → y < 64
    → decode_char (0xc0 + x) ((0x80 + y) ∷ rest) ≡ (x * 64 + y, 1)
unfolding decode_char
decode_two x y rest h k l = ground arith

decode_three :
    (x y z : ℕ) (rest : Bytes)
    → x < 16
    → y < 64
    → z < 64
    → (x ≡ 0 → 32 ≤ y)
    → (x ≡ 13 → y < 32)
    → decode_char (0xe0 + x) ((0x80 + y) ∷ (0x80 + z) ∷ rest) ≡ ((x * 64 + y) * 64 + z, 2)
unfolding decode_char
decode_three x y z rest hx hy hz low high = ground arith

decode_four :
    (x y z w : ℕ) (rest : Bytes)
    → x < 5
    → y < 64
    → z < 64
    → w < 64
    → (x ≡ 0 → 16 ≤ y)
    → (x ≡ 4 → y < 16)
    → decode_char (0xf0 + x) ((0x80 + y) ∷ (0x80 + z) ∷ (0x80 + w) ∷ rest)
      ≡ (((x * 64 + y) * 64 + z) * 64 + w, 3)
unfolding decode_char
decode_four x y z w rest hx hy hz hw low high = ground arith

-- The four lengths of a character.
lossy-one : (c : ℕ) (rest : Bytes) → c < 0x80 → lossy_from 0 (c ∷ rest) ≡ c ∷ lossy_from 0 rest
unfolding lossy_from
lossy-one c rest h = ground arith

lossy-two :
    (c : ℕ) (rest : Bytes)
    → 0x80 ≤ c
    → c < 0x800
    → lossy_from 0 ((0xc0 + c / 64) ∷ (0x80 + c % 64) ∷ rest) ≡ c ∷ lossy_from 0 rest
unfolding lossy_from
lossy-two c rest h k =
    rw (decode_two (c / 64) (c % 64) rest (omega arith) (omega arith) (omega arith))
      (ap (λ d. d ∷ lossy_from 0 rest) (omega arith))

lossy-three :
    (c : ℕ) (rest : Bytes)
    → 0x800 ≤ c
    → c < 0x10000
    → IsScalar c
    → lossy_from 0 ((0xe0 + c / 4096) ∷ (0x80 + c / 64 % 64) ∷ (0x80 + c % 64) ∷ rest)
      ≡ c ∷ lossy_from 0 rest
unfolding lossy_from
lossy-three c rest h k s =
    rw
      (decode_three (c / 4096) (c / 64 % 64) (c % 64) rest (omega arith) (omega arith) (omega arith)
        (λ e. omega arith) (λ e. omega arith))
      (ap (λ d. d ∷ lossy_from 0 rest) (omega arith))

lossy-four :
    (c : ℕ) (rest : Bytes)
    → 0x10000 ≤ c
    → c < 0x110000
    → lossy_from 0 (
        (0xf0 + c / 262144)
        ∷ (0x80 + c / 4096 % 64)
        ∷ (0x80 + c / 64 % 64)
        ∷ (0x80 + c % 64)
        ∷ rest)
      ≡ c ∷ lossy_from 0 rest
unfolding lossy_from
lossy-four c rest h k =
    rw
      (decode_four (c / 262144) (c / 4096 % 64) (c / 64 % 64) (c % 64) rest (omega arith)
        (omega arith) (omega arith) (omega arith) (λ e. omega arith) (λ e. omega arith))
      (ap (λ d. d ∷ lossy_from 0 rest) (omega arith))

lossy-encode_char :
    (c : ℕ) (rest : Bytes)
    → IsScalar c
    → lossy_from 0 (encode_char c ++ rest) ≡ c ∷ lossy_from 0 rest
unfolding encode_char
lossy-encode_char c rest h =
    ground (arith, lossy-one c rest, lossy-two c rest, lossy-three c rest, lossy-four c rest)

lossy-as_bytes : (s : List ℕ) → All IsScalar s → lossy_from 0 (as_bytes s) ≡ s
unfolding as_bytes lossy_from
lossy-as_bytes [] h = refl
lossy-as_bytes (c ∷ s) h = lossy-encode_char c (as_bytes s) h.0 ∙ ap (◌∷◌ c) (lossy-as_bytes s h.1)

-- A text of scalar values survives the way to UTF-8 and back.
pub from_utf8_lossy-as_bytes : (s : List ℕ) → All IsScalar s → from_utf8_lossy (as_bytes s) ≡ s
unfolding from_utf8_lossy
from_utf8_lossy-as_bytes = lossy-as_bytes

encode_char-lt : (c : ℕ) → IsScalar c → All (λ b. b < 256) (encode_char c)
unfolding encode_char
encode_char-lt c h = ground arith

pub as_bytes-lt : (s : List ℕ) → All IsScalar s → All (λ b. b < 256) (as_bytes s)
unfolding as_bytes
as_bytes-lt [] h = tt
as_bytes-lt (c ∷ s) h =
    All-append (λ b. b < 256) (encode_char c) (as_bytes s) (encode_char-lt c h.0)
      (as_bytes-lt s h.1)

-- ASCII is its own encoding.
pub as_bytes_ascii : (s : List ℕ) → All (λ c. c < 128) s → as_bytes s ≡ s
unfolding as_bytes encode_char
as_bytes_ascii [] h = refl
as_bytes_ascii (c ∷ s) h = ground (arith, as_bytes_ascii s h.1)
