-- ===== src/Upstream.antt =====
-- crates/server/src/config.rs: `percent_decode` and `parse_upstream`.
pub mod Percent
pub mod RoundTrip
use wg_wrapper.Base.{
  ℕ, zero, suc, Bool, true, false, not, ◌||◌, List, [], ◌∷◌, ◌++◌, Bytes, Option, none, some, ◌==◌,
  leb, ltb, between, if◌then◌else◌, Result, ok, err, ◌>>=◌, ◌>>◌, ensure, ok_or,
}
use wg_wrapper.Text.{Text, codes, from_str_radix, parse_u16, strip_prefix, split_once, rsplit_once}
use wg_wrapper.Text.Utf8.{as_bytes, from_utf8_lossy}

pub record Upstream : Type 0 where
  pub addr : Text
  pub auth : Option (Text × Text)

pub data UpstreamError : Type 0 where
  no_scheme no_password no_host_port : UpstreamError

-- str::is_char_boundary at the first of these bytes
abbrev at_boundary : Bytes → Bool
at_boundary [] = true
at_boundary (b ∷ _) = not (between 0x80 0xbf b)

-- s.get(i+1..i+3).unwrap_or(""), on the bytes behind the i-th
abbrev next_two : Bytes → Bytes
next_two [] = []
next_two (a ∷ []) = []
next_two (a ∷ b ∷ rest) =
    if at_boundary (a ∷ []) then (if at_boundary rest then a ∷ b ∷ [] else []) else []

-- The arms of the match on the two digits.
abbrev decoded : ℕ → Option ℕ → ℕ × ℕ
decoded b (some v) = if b == b'%' then (v, 2) else (b, 0)
decoded b none = (b, 0)

-- The byte that the loop pushes at `raw[i]`, and how far past `i + 1` it goes on.
decode_at : ℕ → Bytes → ℕ × ℕ
decode_at b rest = decoded b (from_str_radix 16 255 (next_two rest))

-- The loop; the first argument counts the bytes of an escape still to be passed.
percent_decode_from : ℕ → Bytes → Bytes
unfolding decode_at from_str_radix
percent_decode_from skip [] = []
percent_decode_from zero (b ∷ rest) = let d = decode_at b rest in d.0 ∷ percent_decode_from d.1 rest
percent_decode_from (suc skip) (b ∷ rest) = percent_decode_from skip rest

unfoldable pub percent_decode : Text → Text
unfolding percent_decode_from as_bytes from_utf8_lossy
percent_decode s = from_utf8_lossy (percent_decode_from 0 (as_bytes s))

-- `user:pass` in front of the `@`
unfoldable pub credentials : Text → Result UpstreamError (Text × Text)
credentials a = do
  (u, p) ← ok_or (split_once b':' a) no_password
  ok (percent_decode u, percent_decode p)

-- The match on `rest.rsplit_once('@')`: the credentials, and the host and port.
unfoldable pub authority :
    Text → Option (Text × Text) → Result UpstreamError (Option (Text × Text) × Text)
authority rest (some (a, h)) = do c ← credentials a; ok (some c, h)
authority rest none = ok (none, rest)

abbrev is_empty : Text → Bool
is_empty [] = true
is_empty (_ ∷ _) = false

abbrev is_none {ℓ} : {A : Type ℓ} → Option A → Bool
is_none none = true
is_none (some _) = false

unfoldable pub parse_upstream : Text → Result UpstreamError Upstream
parse_upstream s = do
  rest ← ok_or (strip_prefix (codes "socks5://") s) no_scheme
  (auth, hostport) ← authority rest (rsplit_once b'@' rest)
  (host, port) ← ok_or (rsplit_once b':' hostport) no_host_port
  ensure (not (is_empty host || is_none (parse_u16 port))) no_host_port
  ok (record { addr = hostport; auth = auth })
