-- ===== src/Addr/Display.antt =====
-- The Display implementations of std::net, and of the unsigned integers.
use wg_wrapper.Base.{
  ℕ, zero, suc, ◌+◌, ◌-◌, ◌*◌, ◌/◌, ◌%◌, ◌^◌, List, [], ◌∷◌, ◌++◌, take, drop, ltb, ◌==◌,
  if◌then◌else◌,
}
use wg_wrapper.Addr.{IpAddr, v4, v6, SocketAddr, octet_0, octet_1, octet_2, octet_3}
use wg_wrapper.Text.{Text, codes}

abbrev digit : ℕ → ℕ
digit d = if ltb d 10 then b'0' + d else b'a' + (d - 10)

-- the digits in front of those already written; a number has no more of them than the fuel
digits : ℕ → ℕ → ℕ → Text → Text
digits zero radix n written = written
digits (suc fuel) radix n written =
    let more = digits fuel radix (n / radix) (digit (n % radix) ∷ written) in
    if n / radix == 0 then digit (n % radix) ∷ written else more

-- `{}` and `{:x}` of an unsigned integer of at most 64 bits
unfoldable pub decimal : ℕ → Text
unfolding digits
decimal n = digits 20 10 n []

unfoldable pub hexadecimal : ℕ → Text
unfolding digits
hexadecimal n = digits 16 16 n []

unfoldable pub join : Text → List Text → Text
join sep [] = []
join sep (s ∷ []) = s
join sep (s ∷ t ∷ ts) = s ++ sep ++ join sep (t ∷ ts)

-- Ipv4Addr
unfoldable pub display_v4 : ℕ → Text
unfolding decimal join
display_v4 a =
    join (codes ".")
      (decimal (octet_0 a) ∷ decimal (octet_1 a) ∷ decimal (octet_2 a) ∷ decimal (octet_3 a) ∷ [])

-- Ipv6Addr::segments
segments : ℕ → ℕ → List ℕ
segments zero a = []
segments (suc n) a = a / 2 ^ (16 * n) % 2 ^ 16 ∷ segments n a

-- A run of zero segments: where it starts, and its length.
pub record Span : Type 0 where
  pub start : ℕ
  pub len : ℕ

-- The loop that looks for the first longest run.
longest_span : ℕ → Span → Span → List ℕ → Span
longest_span i longest current [] = longest
longest_span i longest current (g ∷ gs) =
    let current =
      if g == 0
      then record { start = if current.len == 0 then i else current.start; len = suc current.len }
      else record { start = 0; len = 0 } in
    let longest = if ltb longest.len current.len then current else longest in
    longest_span (suc i) longest current gs

abbrev groups : List ℕ → Text
unfolding hexadecimal join
groups [] = []
groups gs = join (codes ":") (hexes gs)
  where
    hexes : List ℕ → List Text
    hexes [] = []
    hexes (g ∷ gs) = hexadecimal g ∷ hexes gs

compressed : List ℕ → Span → Text
unfolding groups
compressed gs s =
    if ltb 1 s.len
    then groups (take s.start gs) ++ codes "::" ++ groups (drop (s.start + s.len) gs)
    else groups gs

-- Ipv6Addr
unfoldable pub display_v6 : ℕ → Text
unfolding segments longest_span compressed display_v4
display_v6 a =
    let gs = segments 8 a in
    let empty : Span = record { start = 0; len = 0 } in
    if a / 2 ^ 32 == 0xffff
    then codes "::ffff:" ++ display_v4 (a % 2 ^ 32)
    else compressed gs (longest_span 0 empty empty gs)

unfoldable pub display : IpAddr → Text
unfolding display_v4 display_v6
display (v4 a) = display_v4 a
display (v6 a) = display_v6 a

-- Display of a SocketAddr
unfoldable pub display_socket : SocketAddr → Text
unfolding display
display_socket a = bracketed a.ip ++ codes ":" ++ decimal a.port
  where
    bracketed : IpAddr → Text
    bracketed (v4 n) = display_v4 n
    bracketed (v6 n) = codes "[" ++ display_v6 n ++ codes "]"
