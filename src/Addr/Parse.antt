-- ===== src/Addr/Parse.antt =====
-- The parsers of std::net behind `parse::<Ipv4Addr>`, `parse::<IpAddr>` and `parse::<SocketAddr>`:
-- readers that take a prefix of the text, and the whole text in the end.
pub mod Bounds
use wg_wrapper.Base.{
  ℕ, zero, suc, ◌+◌, ◌-◌, ◌*◌, ◌/◌, ◌%◌, ◌^◌, Bool, true, false, not, ◌&&◌, List, [], ◌∷◌, ◌++◌,
  Option, none, some, length, leb, ltb, ◌==◌, if◌then◌else◌,
}
use wg_wrapper.Addr.{IpAddr, v4, v6, SocketAddr}
use wg_wrapper.Text.{Text, to_digit}

-- A value read off the front of a text, and the rest.
abbrev Read : Type 0 → Type 0
Read A = Option (A × Text)

abbrev and_then {ℓ} : {A : Type 0} {B : Type ℓ} → Read A → (A → Text → Option B) → Option B
and_then none next = none
and_then (some (a, rest)) next = next a rest

abbrev within : Option ℕ → ℕ → Bool
within none n = true
within (some limit) n = leb n limit

abbrev on_digit : {A : Type 0} → Read A → (ℕ → Read A) → Option ℕ → Read A
on_digit stop more none = stop
on_digit stop more (some d) = more d

-- The loop of `read_number`: the number so far and the count of its digits.
read_digits : ℕ → ℕ → Option ℕ → ℕ → ℕ → Text → Read (ℕ × ℕ)
unfolding to_digit
read_digits radix max limit a n [] = some ((a, n), [])
read_digits radix max limit a n (c ∷ s) =
    on_digit (some ((a, n), c ∷ s))
      (λ d.
        let rest = read_digits radix max limit (a * radix + d) (suc n) s in
        if leb (a * radix + d) max && within limit (suc n) then rest else none)
      (to_digit radix c)

abbrev zero_in_front : Text → Bool
zero_in_front [] = false
zero_in_front (c ∷ _) = c == b'0'

abbrev counted : Bool → ℕ × ℕ → Text → Read ℕ
counted refused (a, zero) rest = none
counted refused (a, suc zero) rest = some (a, rest)
counted refused (a, suc (suc n)) rest = if refused then none else some (a, rest)

-- Parser::read_number: the radix, the largest value, the most digits, and whether zeros may stand in front
read_number : ℕ → ℕ → Option ℕ → Bool → Text → Read ℕ
unfolding read_digits
read_number radix max limit allow_zero_prefix s =
    and_then (read_digits radix max limit 0 0 s)
      (λ d rest. counted (not allow_zero_prefix && zero_in_front s) d rest)

-- Parser::read_given_char
abbrev given : ℕ → Text → Option Text
given c [] = none
given c (d ∷ s) = if c == d then some s else none

abbrev after {ℓ} : {B : Type ℓ} → Option Text → (Text → Option B) → Option B
after none next = none
after (some rest) next = next rest

-- Parser::read_separator: in front of every part but the first
abbrev separated {ℓ} : {B : Type ℓ} → ℕ → ℕ → Text → (Text → Option B) → Option B
separated sep zero s next = next s
separated sep (suc i) s next = after (given sep s) next

octets : ℕ → ℕ → ℕ → Text → Read ℕ
unfolding read_number
octets zero i a s = some (a, s)
octets (suc n) i a s =
    and_then (separated b'.' i s (read_number 10 255 (some 3) false))
      (λ d rest. octets n (suc i) (a * 256 + d) rest)

-- Parser::read_ipv4_addr
read_ipv4_addr : Text → Read ℕ
unfolding octets
read_ipv4_addr s = octets 4 0 0 s

-- `read_groups` up to `n` more groups behind `i`: the groups, whether an IPv4 address ends them, the rest.
read_groups : ℕ → ℕ → Text → List ℕ × Bool × Text
unfolding read_ipv4_addr read_number
read_groups zero i s = ([], false, s)
read_groups (suc n) i s = elim (if leb 1 n then separated b':' i s read_ipv4_addr else none) [
  | some (a, rest) ↦ (a / 2 ^ 16 ∷ a % 2 ^ 16 ∷ [], true, rest)
  | none ↦ elim (separated b':' i s (read_number 16 0xffff (some 4) true)) [
    | none ↦ ([], false, s)
    | some (g, rest) ↦ let more = read_groups n (suc i) rest in (g ∷ more.0, more.1, more.2)
  ]
]

abbrev from_groups : ℕ → List ℕ → ℕ
from_groups a [] = a
from_groups a (g ∷ gs) = from_groups (a * 2 ^ 16 + g) gs

abbrev zeros : ℕ → List ℕ
zeros zero = []
zeros (suc n) = 0 ∷ zeros n

-- The eight groups with the `::` between head and tail filled up.
abbrev filled : List ℕ → List ℕ → ℕ
filled head tail = from_groups 0 (head ++ zeros (8 - (length head + length tail)) ++ tail)

behind_head : List ℕ → Text → Read ℕ
unfolding read_groups
behind_head head s = after (given b':' s) (λ s.
    after (given b':' s) (λ s.
      let tail = read_groups (8 - (length head + 1)) 0 s in some (filled head tail.0, tail.2)))

-- Parser::read_ipv6_addr
read_ipv6_addr : Text → Read ℕ
unfolding read_groups behind_head
read_ipv6_addr s =
    let head = read_groups 8 0 s in
    let rest = behind_head head.0 head.2 in
    if length head.0 == 8
    then some (from_groups 0 head.0, head.2)
    else if head.1
    then none
    else rest

-- Parser::parse_with: all of the text
abbrev whole : {A : Type 0} → Read A → Option A
whole none = none
whole (some (a, [])) = some a
whole (some (a, _ ∷ _)) = none

-- str::parse::<Ipv4Addr>; a longer text is refused unread
unfoldable pub parse_ipv4 : Text → Option ℕ
unfolding read_ipv4_addr
parse_ipv4 s = if ltb 15 (length s) then none else whole (read_ipv4_addr s)

abbrev or_else {ℓ} : {A : Type ℓ} → Option A → Option A → Option A
or_else none o = o
or_else (some a) o = some a

abbrev mapped : {A B : Type 0} → (A → B) → Read A → Read B
mapped f none = none
mapped f (some (a, rest)) = some (f a, rest)

-- str::parse::<IpAddr>
unfoldable pub parse_ip : Text → Option IpAddr
unfolding read_ipv4_addr read_ipv6_addr
parse_ip s = whole (or_else (mapped v4 (read_ipv4_addr s)) (mapped v6 (read_ipv6_addr s)))

port_behind : IpAddr → Text → Read SocketAddr
unfolding read_number
port_behind ip s =
    after (given b':' s)
      (λ s. mapped (λ p. record { ip = ip; port = p }) (read_number 10 0xffff none true s))

abbrev behind_scope : Text → Read ℕ → Text
behind_scope s none = s
behind_scope s (some (_, rest)) = rest

-- Parser::read_scope_id; the scope is read and not kept
skip_scope : Text → Text
unfolding read_number
skip_scope s = elim (given b'%' s) [
  | none ↦ s
  | some r ↦ behind_scope s (read_number 10 0xffffffff none true r)
]

read_socket_v6 : Text → Read SocketAddr
unfolding read_ipv6_addr skip_scope port_behind
read_socket_v6 s = after (given b'[' s) (λ s.
    and_then (read_ipv6_addr s)
      (λ a rest. after (given b']' (skip_scope rest)) (port_behind (v6 a))))

-- str::parse::<SocketAddr>
unfoldable pub parse_socket : Text → Option SocketAddr
unfolding read_ipv4_addr port_behind read_socket_v6
parse_socket s =
    whole
      (or_else (and_then (read_ipv4_addr s) (λ a rest. port_behind (v4 a) rest)) (read_socket_v6 s))
