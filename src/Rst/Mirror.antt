-- ===== src/Rst/Mirror.antt =====
-- The reset mirrors the packet that it answers, and is never answered itself.
use wg_wrapper.Base.{ℕ, ◌+◌, ◌%◌, ◌^◌, ◌≡◌, refl, true, false, Bytes, none, some, arith}
use wg_wrapper.Rst.{TcpHeader, ipv4, tcp, Etherparse, reset_for, answer, answer_parsed, tcp_rst}

-- RFC 9293, 3.5.2: the reset that refuses a segment without an acknowledgment.
pub record Refuses (t u : TcpHeader) : Type 0 where
  pub from_there : u.source_port ≡ t.destination_port
  pub to_here : u.destination_port ≡ t.source_port
  pub from_zero : u.sequence_number ≡ 0
  pub acknowledges : u.acknowledgment_number ≡ (t.sequence_number + 1) % 2 ^ 32
  pub resets : u.rst ≡ true
  pub with_ack : u.ack ≡ true
  pub no_syn : u.syn ≡ false

reset_for-Refuses : (t : TcpHeader) → Refuses t (reset_for t)
reset_for-Refuses t = record {
  from_there = refl;
  to_here = refl;
  from_zero = refl;
  acknowledges = refl;
  resets = refl;
  with_ack = refl;
  no_syn = refl;
}

module _ (lib : Etherparse) where
  -- A built packet parses to what it was built from.
  pub record BuildsParse : Type 0 where
    pub parsed :
        (source destination ttl : ℕ) (t : TcpHeader) (packet : Bytes)
        → lib.write_ipv4_tcp source destination ttl t ≡ some packet
        → lib.from_ip_slice packet
          ≡ some (record { net = some (ipv4 source destination); transport = some (tcp t) })

  -- A packet that carries a TCP segment over IPv4.
  pub record Carries (packet : Bytes) (source destination : ℕ) (t : TcpHeader) : Type 0 where
    pub parses :
        lib.from_ip_slice packet
        ≡ some (record { net = some (ipv4 source destination); transport = some (tcp t) })

  answer-built :
      (source destination : ℕ) (t : TcpHeader) (reply : Bytes)
      → answer lib (some (ipv4 source destination)) (some (tcp t)) ≡ some reply
      → (t.rst ≡ false) × (lib.write_ipv4_tcp destination source 64 (reset_for t) ≡ some reply)
  unfolding answer
  answer-built source destination t reply e = ground arith

  -- A reply exists only for a segment that is no reset itself. It carries, from the destination back
  -- to the source, a reset with the two ports swapped, sequence number 0 and the segment's sequence
  -- number plus one, modulo 2 ^ 32, acknowledged; and no reply is ever made to the reply.
  pub tcp_rst-mirrors :
      (packet : Bytes) (source destination : ℕ) (t : TcpHeader) (reply : Bytes)
      → BuildsParse
      → Carries packet source destination t
      → tcp_rst lib packet ≡ some reply
      → (t.rst ≡ false)
        × (u : TcpHeader) × Carries reply destination source u
        × Refuses t u
        × (tcp_rst lib reply ≡ none)
  unfolding tcp_rst answer_parsed answer
  tcp_rst-mirrors packet source destination t reply laws carries e =
      let (fresh, built) = answer-built source destination t reply (rw carries.parses at e) in
      let back = laws.parsed destination source 64 (reset_for t) reply built in
      (fresh, reset_for t, record { parses = back }, reset_for-Refuses t, rw back)
