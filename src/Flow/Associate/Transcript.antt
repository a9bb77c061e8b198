-- ===== src/Flow/Associate/Transcript.antt =====
-- The exchanges with the proxy that open an association, and no others.
use wg_wrapper.Base.{
  ℕ, zero, suc, ◌<◌, ◌≡◌, refl, sym, ap, List, [], ◌∷◌, ◌++◌, Bytes, Option, none, some, arith,
  length, ok, ok-eq, some-eq,
}
use wg_wrapper.Addr.{IpAddr, v4, v6, SocketAddr}
use wg_wrapper.Base.BigEndian.{from_be_bytes}
use wg_wrapper.Text.Utf8.{as_bytes}
use wg_wrapper.Text.{Text}
use wg_wrapper.Flow.Associate.{
  Conn, split_at?, prepend, read_exact, received, nth, greeting, udp_associate, password_request,
  relay_addr,
}

-- What the proxy sends to settle the method, and what it is sent.
pub data Negotiates (auth : Option (Text × Text)) : Bytes → List Bytes → Type 0 where
  anonymous : Negotiates auth (5 ∷ 0 ∷ []) (greeting ∷ [])
  password :
      (user pass : Text) (version : ℕ)
      → auth ≡ some (user, pass)
      → length (as_bytes user) < 256
      → length (as_bytes pass) < 256
      → Negotiates auth
          (5 ∷ 2 ∷ version ∷ 0 ∷ [])
          (greeting ∷ password_request (as_bytes user) (as_bytes pass) ∷ [])

-- A reply that binds an address.
pub data Binds : Bytes → SocketAddr → Type 0 where
  binds_v4 :
      (reserved : ℕ) (octets port : Bytes)
      → length octets ≡ 4
      → length port ≡ 2
      → Binds
          (5 ∷ 0 ∷ reserved ∷ 1 ∷ (octets ++ port))
          (record { ip = v4 (from_be_bytes octets 0); port = from_be_bytes port 0 })
  binds_v6 :
      (reserved : ℕ) (octets port : Bytes)
      → length octets ≡ 16
      → length port ≡ 2
      → Binds
          (5 ∷ 0 ∷ reserved ∷ 4 ∷ (octets ++ port))
          (record { ip = v6 (from_be_bytes octets 0); port = from_be_bytes port 0 })

-- A whole exchange, from one state of the connection to another.
pub record Opens (proxy : IpAddr) (auth : Option (Text × Text)) (c : Conn) (to : SocketAddr)
    (c' : Conn) : Type 0 where
  pub negotiation : Bytes
  pub sent : List Bytes
  pub reply : Bytes
  pub bound : SocketAddr
  pub negotiates : Negotiates auth negotiation sent
  pub binds : Binds reply bound
  pub reads : c.incoming ≡ negotiation ++ (reply ++ c'.incoming)
  pub writes : c'.written ≡ c.written ++ (sent ++ udp_associate ∷ [])
  pub target : to ≡ relay_addr proxy bound

prepend_sound :
    (b : ℕ) (o : Option (Bytes × Bytes)) (read rest : Bytes)
    → prepend b o ≡ some (read, rest)
    → (r : Bytes) × (o ≡ some (r, rest)) × (read ≡ b ∷ r)
prepend_sound b none read rest e = cc
prepend_sound b (some (r, rest')) read rest e =
    let same = some-eq e in
    (r, ap (λ t. some (r, t)) (ap (λ p. p.1) same), sym (ap (λ p. p.0) same))

pub split_at?-sound :
    (n : ℕ) (bs read rest : Bytes)
    → split_at? n bs ≡ some (read, rest)
    → (bs ≡ read ++ rest) × (length read ≡ n)
unfolding split_at?
split_at?-sound zero bs read rest e =
    let same = some-eq e in
    (rw (← ap (λ p. p.0) same) (ap (λ p. p.1) same), sym (ap (λ p. length p.0) same))
split_at?-sound (suc n) [] read rest e = cc
split_at?-sound (suc n) (b ∷ bs) read rest e =
    let (r, before, is) = prepend_sound b (split_at? n bs) read rest e in
    let (parts, long) = split_at?-sound n bs r rest before in
    (rw is (ap (◌∷◌ b) parts), rw is (ap suc long))

-- What a successful read takes.
pub record Reads (n : ℕ) (c : Conn) (read : Bytes) (c' : Conn) : Type 0 where
  pub parts : c.incoming ≡ read ++ c'.incoming
  pub long : length read ≡ n
  pub kept : c'.written ≡ c.written

received_sound :
    (c c' : Conn) (o : Option (Bytes × Bytes)) (read : Bytes)
    → received c o ≡ ok (read, c')
    → (o ≡ some (read, c'.incoming)) × (c'.written ≡ c.written)
received_sound c c' none read e = cc
received_sound c c' (some (r, rest)) read e =
    let same = ok-eq e in
    (ap (λ p. some (p.0, p.1.incoming)) same, sym (ap (λ p. p.1.written) same))

pub read_exact_sound :
    (n : ℕ) (c c' : Conn) (read : Bytes) → read_exact n c ≡ ok (read, c') → Reads n c read c'
read_exact_sound n c c' read e =
    let (split, kept) = received_sound c c' (split_at? n c.incoming) read e in
    let (parts, long) = split_at?-sound n c.incoming read c'.incoming split in
    record { parts = parts; long = long; kept = kept }

pub two_of : (b : Bytes) → length b ≡ 2 → b ≡ nth b 0 ∷ nth b 1 ∷ []
two_of [] h = absurd (omega arith)
two_of (a ∷ []) h = absurd (omega arith)
two_of (a ∷ b ∷ []) h = refl
two_of (a ∷ b ∷ c ∷ bs) h = absurd (omega arith)

pub four_of : (b : Bytes) → length b ≡ 4 → b ≡ nth b 0 ∷ nth b 1 ∷ nth b 2 ∷ nth b 3 ∷ []
four_of [] h = absurd (omega arith)
four_of (a ∷ []) h = absurd (omega arith)
four_of (a ∷ b ∷ []) h = absurd (omega arith)
four_of (a ∷ b ∷ c ∷ []) h = absurd (omega arith)
four_of (a ∷ b ∷ c ∷ d ∷ []) h = refl
four_of (a ∷ b ∷ c ∷ d ∷ e ∷ bs) h = absurd (omega arith)

pub split_at?-complete :
    (n : ℕ) (read rest : Bytes) → length read ≡ n → split_at? n (read ++ rest) ≡ some (read, rest)
unfolding split_at?
split_at?-complete zero [] rest h = refl
split_at?-complete zero (b ∷ read) rest h = absurd (omega arith)
split_at?-complete (suc n) [] rest h = absurd (omega arith)
split_at?-complete (suc n) (b ∷ read) rest h =
    ap (prepend b) (split_at?-complete n read rest (omega arith))
