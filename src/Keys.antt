-- ===== src/Keys.antt =====
-- crates/wgcore/src/lib.rs: keys as text and packet addresses. The base64 engine and the random
-- bytes come from outside.
use wg_wrapper.Base.{
  ℕ, ◌/◌, ◌^◌, ◌&&◌, Option, none, some, Bytes, [], ◌∷◌, length, ◌==◌, leb, if◌then◌else◌, take,
  drop, set, get_elem?, bit_and, bit_or, Result, ok, err,
}
use wg_wrapper.Addr.{IpAddr, v4, v6}
use wg_wrapper.Base.BigEndian.{from_be_bytes}
use wg_wrapper.Text.{Text, trim}

pub data KeyError : Type 0 where
  bad_base64 bad_length : KeyError

key_of : Option Bytes → Result KeyError Bytes
key_of none = err bad_base64
key_of (some v) = if length v == 32 then ok v else err bad_length

unfoldable pub decode_key : (Text → Option Bytes) → Text → Result KeyError Bytes
unfolding key_of
decode_key decode_base64 s = key_of (decode_base64 (trim s))

-- k[i] &= mask, and k[i] |= mask
abbrev update : (ℕ → ℕ) → Bytes → ℕ → Bytes
update f k i = elim (get_elem? k i) [ none ↦ k | some b ↦ set k i (f b) ]

unfoldable pub generate_key : Bytes → Bytes
generate_key random =
    let low = update (λ b. bit_and b 248) random 0 in
    let high = update (λ b. bit_and b 127) low 31 in update (λ b. bit_or b 64) high 31

address_of : Bytes → Bytes → Option IpAddr
unfolding from_be_bytes
address_of [] packet = none
address_of (first ∷ _) packet =
    if first / 2 ^ 4 == 4 && leb 20 (length packet)
    then some (v4 (from_be_bytes (take 4 (drop 12 packet)) 0))
    else if first / 2 ^ 4 == 6 && leb 40 (length packet)
    then some (v6 (from_be_bytes (take 16 (drop 8 packet)) 0))
    else none

-- The source address of an IP packet.
unfoldable pub src_address : Bytes → Option IpAddr
unfolding address_of
src_address packet = address_of packet packet
