-- ===== src/Tests/Instances.antt =====
-- Concrete libraries for the tests: IPv4 blocks as networks, a toy session, a toy packet format.
use wg_wrapper.Base.{
  ℕ, zero, suc, ◌+◌, ◌-◌, ◌*◌, ◌/◌, ◌%◌, ◌^◌, ◌≤◌, ◌<◌, ◌≡◌, refl, sym, ap, ◌∙◌, subst, Bool, true,
  false, ◌&&◌, List, [], ◌∷◌, Bytes, Option, none, some, arith, length, leb, leb→le, ◌==◌,
  if◌then◌else◌, ==_iff, drop, and-true, inl, inr, ◌⊎◌, some-eq,
}
use wg_wrapper.Addr.{IpAddr, v4, v6, IsAddr}
use wg_wrapper.IpNet.{NetOps, NetLaws}
use wg_wrapper.Noise.{
  Noise, Drains, TunnResult, Verdict, finished, write_to_network, write_to_tunnel_v4, verified,
  refused, handshake_init, packet_data,
}
use wg_wrapper.Rst.Mirror.{BuildsParse}
use wg_wrapper.Rst.{Etherparse, PacketHeaders, TcpHeader, ipv4, tcp}

-- a without its last n bits
abbrev pub shift : ℕ → ℕ → ℕ
shift zero a = a
shift (suc n) a = shift n (a / 2)

pub record Block : Type 0 where
  pub base : ℕ
  pub host : ℕ

abbrev holds : Block → IpAddr → Bool
holds n (v4 a) = shift n.host n.base == shift n.host a
holds n (v6 a) = false

abbrev pub blocks : NetOps
blocks = record {
  Net = Block;
  contains = holds;
  includes = λ m n. leb n.host m.host && shift m.host m.base == shift m.host n.base;
  addr = λ n. v4 n.base;
  prefix_len = λ n. 32 - n.host;
}

shift-shift : (n k a : ℕ) → shift k (shift n a) ≡ shift (n + k) a
shift-shift zero k a = let same : k ≡ 0 + k = omega arith in ap (λ m. shift m a) same
shift-shift (suc n) k a = shift-shift n k (a / 2) ∙ ap (λ m. shift m a) (succ n k)
  where
    succ : (n k : ℕ) → suc (n + k) ≡ suc n + k
    succ n k = omega arith

==-self : (a b : ℕ) → a ≡ b → (a == b) ≡ true
==-self a b e = ground arith

-- Addresses that agree in a narrow block agree in a wide one.
shift-wider : (n m a b : ℕ) → n ≤ m → shift n a ≡ shift n b → shift m a ≡ shift m b
shift-wider n m a b h e =
    let whole : n + (m - n) ≡ m = omega arith in
    subst (λ m. shift m a ≡ shift m b) whole
      (sym (shift-shift n (m - n) a) ∙ ap (shift (m - n)) e ∙ shift-shift n (m - n) b)

le-or : (m n : ℕ) → (m ≤ n) ⊎ (n ≤ m)
le-or m n = ground arith

pub blocks-NetLaws : NetLaws blocks
blocks-NetLaws = record {
  contains-addr = λ n. ==-self _ _ refl;
  includes-contains = λ m n ip i c. wider m n ip i c;
  nested = λ m n ip c d. meet m n ip c d;
}
  where
    wider :
        (m n : Block) (ip : IpAddr)
        → (leb n.host m.host && shift m.host m.base == shift m.host n.base) ≡ true
        → holds n ip ≡ true
        → holds m ip ≡ true
    wider m n (v6 a) i c = cc
    wider m n (v4 a) i c =
        let (le, same) =
          and-true (leb n.host m.host) (shift m.host m.base == shift m.host n.base) i in
        ==-self _ _ (
          (==_iff _ _).0 same
          ∙ shift-wider n.host m.host n.base a (leb→le n.host m.host le) ((==_iff _ _).0 c))

    meet :
        (m n : Block) (ip : IpAddr)
        → holds m ip ≡ true
        → holds n ip ≡ true
        → (holds m (v4 n.base) ≡ true) ⊎ (holds n (v4 m.base) ≡ true)
    meet m n (v6 a) c d = cc
    meet m n (v4 a) c d = elim (le-or m.host n.host) [
      | inl le ↦ inr (
          ==-self _ _
            ((==_iff _ _).0 d ∙ sym (shift-wider m.host n.host m.base a le ((==_iff _ _).0 c))))
      | inr ge ↦ inl (
          ==-self _ _
            ((==_iff _ _).0 c ∙ sym (shift-wider n.host m.host n.base a ge ((==_iff _ _).0 d))))
    ]

-- the octet at a place, or 0
abbrev pub octet : ℕ → Bytes → ℕ
octet i [] = 0
octet zero (b ∷ bs) = b % 256
octet (suc i) (b ∷ bs) = octet i bs

abbrev pub destination : Bytes → ℕ
destination p = octet 16 p * 2 ^ 24 + octet 17 p * 2 ^ 16 + octet 18 p * 2 ^ 8 + octet 19 p

abbrev read_data : Bytes → Verdict Bytes
read_data [] = refused
read_data (idx ∷ packet) = verified (packet_data (idx * 256))

abbrev read : Bytes → Verdict Bytes
read [] = refused
read (kind ∷ rest) = if kind == 1 then verified (handshake_init rest) else read_data rest

-- An empty datagram asks for the next of the queue.
abbrev opened :
    Unit {0}
    → List Bytes
    → Bytes
    → record { limiter : Unit {0}; tunn : List Bytes; answer : TunnResult }
opened l [] [] = record { limiter = l; tunn = []; answer = finished }
opened l (q ∷ t) [] = record { limiter = l; tunn = t; answer = write_to_network q }
opened l t (b ∷ d) = record { limiter = l; tunn = t; answer = write_to_tunnel_v4 (drop 1 d) }

-- A datagram is its kind, the peer's index and the packet; a session is a queue of datagrams to send.
abbrev pub plain : Noise
plain = record {
  Tunn = List Bytes;
  Limiter = Unit {0};
  Init = Bytes;
  new_limiter = λ k. tt;
  reset_count = λ l. l;
  verify_packet = λ l ip d. (l, read d);
  parse_handshake_anon = λ k p. some p;
  new_tunn = λ private public psk keepalive idx. [];
  decapsulate = λ l t ip d. opened l t d;
  encapsulate = λ t p. (t, write_to_network (4 ∷ p));
  update_timers = λ t. (t, write_to_network (4 ∷ []));
  time_since_last_handshake = λ t. some 5;
  dst_address = λ p. some (v4 (destination p));
}

pub plain-Drains : Drains plain
plain-Drains = record { pending = length; shrinks = λ l t ip b e. shorter l t b e }
  where
    shorter :
        (l : Unit {0}) (t : List Bytes) (b : Bytes)
        → (opened l t []).answer ≡ write_to_network b
        → length (opened l t []).tunn < length t
    shorter l [] b e = cc
    shorter l (q ∷ t) b e = omega arith

pub plain-IsAddr : (p : Bytes) (ip : IpAddr) → plain.dst_address p ≡ some ip → IsAddr ip
plain-IsAddr p ip e = subst IsAddr (some-eq e) (in_range p)
  where
    small : (i : ℕ) (bs : Bytes) → octet i bs < 256
    small i [] = omega arith
    small zero (b ∷ bs) = omega arith
    small (suc i) (b ∷ bs) = small i bs

    in_range : (p : Bytes) → destination p < 2 ^ 32
    in_range p = omega (arith, small 16 p, small 17 p, small 18 p, small 19 p)

-- A packet is the list of its header's numbers.
abbrev bit : Bool → ℕ
bit true = 1
bit false = 0

abbrev pub written : ℕ → ℕ → ℕ → TcpHeader → Bytes
written source destination ttl t =
    source
    ∷ destination
    ∷ ttl
    ∷ t.source_port
    ∷ t.destination_port
    ∷ t.sequence_number
    ∷ t.acknowledgment_number
    ∷ t.window_size
    ∷ bit t.syn
    ∷ bit t.rst
    ∷ bit t.ack
    ∷ []

abbrev parse : Bytes → Option PacketHeaders
parse (s ∷ d ∷ ttl ∷ sp ∷ dp ∷ seq ∷ acked ∷ window ∷ syn ∷ rst ∷ ack ∷ []) = some (record {
  net = some (ipv4 s d);
  transport = some (
      tcp (record {
        source_port = sp;
        destination_port = dp;
        sequence_number = seq;
        acknowledgment_number = acked;
        window_size = window;
        syn = syn == 1;
        rst = rst == 1;
        ack = ack == 1;
      }));
})
parse _ = none

abbrev pub numbers : Etherparse
numbers = record {
  from_ip_slice = λ p. parse p;
  write_ipv4_tcp = λ s d ttl t. some (written s d ttl t);
}

bit-test : (b : Bool) → (bit b == 1) ≡ b
bit-test true = refl
bit-test false = refl

parse-written :
    (s d ttl : ℕ) (t : TcpHeader)
    → parse (written s d ttl t) ≡ some (record { net = some (ipv4 s d); transport = some (tcp t) })
parse-written s d ttl t = rw (bit-test t.syn, bit-test t.rst, bit-test t.ack) refl

pub numbers-BuildsParse : BuildsParse numbers
numbers-BuildsParse = record {
  parsed = λ s d ttl t p e.
      subst (λ p. parse p ≡ some (record { net = some (ipv4 s d); transport = some (tcp t) }))
        (some-eq e) (parse-written s d ttl t);
}
