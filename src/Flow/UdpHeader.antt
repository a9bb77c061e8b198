-- ===== src/Flow/UdpHeader.antt =====
-- crates/server/src/flow.rs: the header of RFC 1928, section 7, around each datagram.
use wg_wrapper.Base.{
  ℕ, ◌^◌, ◌<◌, ◌≤◌, ◌≡◌, refl, sym, ap, ◌∙◌, subst, true, ◌&&◌, [], ◌∷◌, ◌++◌, Bytes, Option, none,
  some, arith, ◌==◌, leb, if◌then◌else◌, length, take, drop, length-append, ◌⊎◌, inl, inr,
  get_elem?, some-eq, if-cases, and-true, ==_iff, length-take, take-drop,
}
use wg_wrapper.Addr.{IpAddr, v4, v6, IsAddr, SocketAddr}
use wg_wrapper.Base.BigEndian.{from_be_bytes, to_be_bytes, from_be_bytes-to_be_bytes}

-- the address type and the octets
abbrev address_bytes : IpAddr → Bytes
address_bytes (v4 a) = 1 ∷ to_be_bytes 4 a
address_bytes (v6 a) = 4 ∷ to_be_bytes 16 a

unfoldable pub udp_header : SocketAddr → Bytes
udp_header dst = 0 ∷ 0 ∷ 0 ∷ (address_bytes dst.ip ++ to_be_bytes 2 dst.port)

-- The source that a header names, and what comes behind it.
source_of : ℕ → Bytes → Option (SocketAddr × Bytes)
source_of kind d =
    if kind == 1 && leb 10 (length d)
    then some (
      record {
        ip = v4 (from_be_bytes (take 4 (drop 4 d)) 0);
        port = from_be_bytes (take 2 (drop 8 d)) 0;
      },
      drop 10 d,
    )
    else if kind == 4 && leb 22 (length d)
    then some (
      record {
        ip = v6 (from_be_bytes (take 16 (drop 4 d)) 0);
        port = from_be_bytes (take 2 (drop 20 d)) 0;
      },
      drop 22 d,
    )
    else none

unfoldable pub parse_udp : Bytes → Option (SocketAddr × Bytes)
unfolding source_of
parse_udp (a ∷ b ∷ fragment ∷ kind ∷ rest) =
    if fragment == 0 then source_of kind (a ∷ b ∷ fragment ∷ kind ∷ rest) else none
parse_udp _ = none

body_of : Option (SocketAddr × Bytes) → Option Bytes
body_of none = none
body_of (some (src, body)) = some body

-- The source is logged when it is not `dst`, and not enforced.
unfoldable pub unwrap_udp : Bytes → SocketAddr → Option Bytes
unfolding parse_udp body_of
unwrap_udp datagram dst = body_of (parse_udp datagram)

-- A port and a payload behind their octets.
port-read : (p : ℕ) → p < 2 ^ 16 → from_be_bytes (to_be_bytes 2 p) 0 ≡ p
port-read p h = from_be_bytes-to_be_bytes 2 p (omega arith)

at_least : (k n : ℕ) → k ≤ n → leb k n ≡ true
at_least k n h = ground arith

-- The test of the length of a header and what comes behind it.
long_enough :
    {A : Type 0} (k : ℕ) (header payload : Bytes) (x y : A)
    → length header ≡ k
    → (if leb k (length (header ++ payload)) then x else y) ≡ x
long_enough k header payload x y e =
    rw (at_least k (length (header ++ payload)) (omega (arith, length-append header payload, e)))
      refl

read-eq :
    (family : ℕ → IpAddr) (x a y p : ℕ) (payload : Bytes)
    → x ≡ a
    → y ≡ p
    → ◌≡◌ {A = Option (SocketAddr × Bytes)}
        (some (record { ip = family x; port = y }, payload))
        (some (record { ip = family a; port = p }, payload))
read-eq family x a y p payload e f = rw (e, f) refl

parse_udp-v4 :
    (a p : ℕ) (payload : Bytes)
    → a < 2 ^ 32
    → p < 2 ^ 16
    → parse_udp (udp_header (record { ip = v4 a; port = p }) ++ payload)
      ≡ some (record { ip = v4 a; port = p }, payload)
unfolding parse_udp source_of udp_header to_be_bytes
parse_udp-v4 a p payload ha hp =
    long_enough 10 (udp_header (record { ip = v4 a; port = p })) payload _ _ refl
    ∙ read-eq v4 _ a _ p payload (from_be_bytes-to_be_bytes 4 a (omega arith)) (port-read p hp)

parse_udp-v6 :
    (a p : ℕ) (payload : Bytes)
    → a < 2 ^ 128
    → p < 2 ^ 16
    → parse_udp (udp_header (record { ip = v6 a; port = p }) ++ payload)
      ≡ some (record { ip = v6 a; port = p }, payload)
unfolding parse_udp source_of udp_header to_be_bytes
parse_udp-v6 a p payload ha hp =
    long_enough 22 (udp_header (record { ip = v6 a; port = p })) payload _ _ refl
    ∙ read-eq v6 _ a _ p payload (from_be_bytes-to_be_bytes 16 a (omega arith)) (port-read p hp)

parse_udp-header :
    (ip : IpAddr) (p : ℕ) (payload : Bytes)
    → IsAddr ip
    → p < 2 ^ 16
    → parse_udp (udp_header (record { ip = ip; port = p }) ++ payload)
      ≡ some (record { ip = ip; port = p }, payload)
parse_udp-header (v4 a) p payload ha hp = parse_udp-v4 a p payload ha hp
parse_udp-header (v6 a) p payload ha hp = parse_udp-v6 a p payload ha hp

-- What `udp_header` puts in front of a payload is read back, and `unwrap_udp` strips it whatever
-- destination it expects.
pub udp_header-RoundTrip :
    (dst expected : SocketAddr) (payload : Bytes)
    → IsAddr dst.ip
    → dst.port < 2 ^ 16
    → (parse_udp (udp_header dst ++ payload) ≡ some (dst, payload))
      × (unwrap_udp (udp_header dst ++ payload) expected ≡ some payload)
unfolding unwrap_udp body_of
udp_header-RoundTrip dst expected payload ha hp =
    let read = parse_udp-header dst.ip dst.port payload ha hp in (read, ap body_of read)

-- The header of an accepted reply: unfragmented, of a known family, in front of the body.
pub record Wraps (header body : Bytes) : Type 0 where
  pub unfragmented : get_elem? header 2 ≡ some 0
  pub family :
      ((get_elem? header 3 ≡ some 1) × (length header ≡ 10))
      ⊎ ((get_elem? header 3 ≡ some 4) × (length header ≡ 22))

length-take_at_most : (n : ℕ) (xs : Bytes) → leb n (length xs) ≡ true → length (take n xs) ≡ n
length-take_at_most n xs h = omega (arith, length-take n xs, at_most n (length xs) h)
  where
    at_most : (n m : ℕ) → leb n m ≡ true → n ≤ m
    at_most n m h = ground arith

source_of-Wraps :
    (a b kind : ℕ) (rest body : Bytes)
    → body_of (source_of kind (a ∷ b ∷ 0 ∷ kind ∷ rest)) ≡ some body
    → (header : Bytes) × (a ∷ b ∷ 0 ∷ kind ∷ rest ≡ header ++ body) × Wraps header body
unfolding source_of body_of
source_of-Wraps a b kind rest body h =
    let d : Bytes = a ∷ b ∷ 0 ∷ kind ∷ rest in
    let P : Option (SocketAddr × Bytes) → Type 0 = λ o. body_of o ≡ some body in
    elim (if-cases P (kind == 1 && leb 10 (length d)) h) [
      | inl (four, cut) ↦
          let (is_four, long) = and-true (kind == 1) (leb 10 (length d)) four in
          (
            take 10 d,
            subst (λ t. d ≡ take 10 d ++ t) (some-eq cut) (sym (take-drop 10 d)),
            record {
              unfragmented = refl;
              family = inl (ap some ((==_iff kind 1).0 is_four), length-take_at_most 10 d long);
            },
          )
      | inr (_, h') ↦ elim (if-cases P (kind == 4 && leb 22 (length d)) h') [
        | inl (six, cut) ↦
            let (is_six, long) = and-true (kind == 4) (leb 22 (length d)) six in
            (
              take 22 d,
              subst (λ t. d ≡ take 22 d ++ t) (some-eq cut) (sym (take-drop 22 d)),
              record {
                unfragmented = refl;
                family = inr (ap some ((==_iff kind 4).0 is_six), length-take_at_most 22 d long);
              },
            )
        | inr (_, h'') ↦ absurd (some≢none h'')
      ]
    ]
  where
    some≢none : ◌≡◌ {A = Option Bytes} none (some body) → ⊥
    some≢none e = cc

-- A reply that is accepted is a header without fragments, of 10 octets for IPv4 and 22 for IPv6,
-- in front of the body that goes to the peer.
pub unwrap_udp-Wraps :
    (datagram body : Bytes) (dst : SocketAddr)
    → unwrap_udp datagram dst ≡ some body
    → (header : Bytes) × (datagram ≡ header ++ body) × Wraps header body
unfolding unwrap_udp parse_udp body_of
unwrap_udp-Wraps (a ∷ b ∷ f ∷ kind ∷ rest) body dst h =
    elim (if-cases (λ o. body_of o ≡ some body) (f == 0) h) [
      | inl (unfragmented, h') ↦
          subst
            (λ f. (header : Bytes) × (a ∷ b ∷ f ∷ kind ∷ rest ≡ header ++ body) × Wraps header body)
            (sym ((==_iff f 0).0 unfragmented))
            (source_of-Wraps a b kind rest body (
              subst (λ f. body_of (source_of kind (a ∷ b ∷ f ∷ kind ∷ rest)) ≡ some body)
                ((==_iff f 0).0 unfragmented) h'))
      | inr (_, h') ↦ cc
    ]
unwrap_udp-Wraps [] body dst h = cc
unwrap_udp-Wraps (a ∷ []) body dst h = cc
unwrap_udp-Wraps (a ∷ b ∷ []) body dst h = cc
unwrap_udp-Wraps (a ∷ b ∷ f ∷ []) body dst h = cc
