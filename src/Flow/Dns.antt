-- ===== src/Flow/Dns.antt =====
-- crates/server/src/flow.rs: `dns_over_tcp`, a lookup over one SOCKS5 connection with the length of
-- each message in front.
pub mod Clip
use wg_wrapper.Base.{
  ℕ, zero, suc, ◌%◌, ◌^◌, Bool, true, false, List, [], ◌∷◌, ◌++◌, Bytes, Option, none, some,
  get_elem?, set, length, take, ltb, leb, bit_or, if◌then◌else◌,
}
use wg_wrapper.Base.BigEndian.{from_be_bytes, to_be_bytes}
use wg_wrapper.Flow.Associate.{split_at?}
use wg_wrapper.Flow.{cap}

-- (n as u16).to_be_bytes(), then the query
unfoldable pub frame : Bytes → Bytes
frame query = to_be_bytes 2 (length query % 2 ^ 16) ++ query

pub body_read : Option (Bytes × Bytes) → Option Bytes
body_read none = none
body_read (some (answer, rest)) = some answer

pub length_read : Option (Bytes × Bytes) → Option Bytes
unfolding body_read
length_read none = none
length_read (some (len, rest)) = body_read (split_at? (from_be_bytes len 0) rest)

-- The answer in what the resolver sends; none when it closes or is too slow.
unfoldable pub read_answer : Bytes → Option Bytes
unfolding length_read
read_answer incoming = length_read (split_at? 2 incoming)

-- answer[2] |= 0x02
pub flag_truncated : Bytes → Bytes
flag_truncated answer = elim (get_elem? answer 2) [
  | none ↦ answer
  | some b ↦ set answer 2 (bit_or b 2)
]

-- What is written to the peer of an answer.
unfoldable pub clip : ℕ → Bytes → Bytes
unfolding flag_truncated
clip limit answer =
    if ltb limit (length answer)
    then take limit (if leb 3 (length answer) then flag_truncated answer else answer)
    else answer

-- One round of the loop: a query of the peer, what the resolver sends if the dial succeeds, and
-- whether the stack takes the answer.
pub record Round : Type 0 where
  pub query : Bytes
  pub remote : Option Bytes
  pub taken : Bool

-- What went to the resolver, and what to the peer.
pub record Lookups : Type 0 where
  pub asked : List Bytes
  pub written : List Bytes

abbrev pub answer_of : Option Bytes → Option Bytes
answer_of none = none
answer_of (some incoming) = read_answer incoming

abbrev asked_of : Bytes → Option Bytes → List Bytes
asked_of query none = []
asked_of query (some incoming) = frame query ∷ []

-- The end of a round, with the rounds behind it: a failed write ends the loop.
pub conclude : ℕ → Bool → Option Bytes → List Bytes → Lookups → Lookups
conclude limit taken none asked rest = record rest { asked = asked ++ rest.asked }
conclude limit true (some answer) asked rest = record {
  asked = asked ++ rest.asked;
  written = clip limit answer ∷ rest.written;
}
conclude limit false (some answer) asked rest = record {
  asked = asked;
  written = clip limit answer ∷ [];
}

-- The loop, until the peer's stream ends.
unfoldable pub dns_over_tcp : ℕ → List Round → Lookups
unfolding conclude
dns_over_tcp mtu [] = record { asked = []; written = [] }
dns_over_tcp mtu (r ∷ rs) =
    let rest = dns_over_tcp mtu rs in
    conclude (cap mtu) r.taken (answer_of r.remote) (asked_of r.query r.remote) rest
