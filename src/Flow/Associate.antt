-- ===== src/Flow/Associate.antt =====
-- crates/server/src/flow.rs: `associate`, the SOCKS5 handshake that opens a UDP association. The
-- control connection is what the proxy will send and what has been sent to it; a read past its
-- end fails.
pub mod Transcript
pub mod Sound
use wg_wrapper.Base.{
  ℕ, zero, suc, ◌+◌, ◌&&◌, List, [], ◌∷◌, ◌++◌, Bytes, Option, none, some, get_elem?, length, ltb,
  ◌==◌, take, drop, if◌then◌else◌, Result, ok, err, ◌>>=◌, ◌>>◌, ensure, Bool, true, false,
}
use wg_wrapper.Addr.{IpAddr, v4, v6, SocketAddr}
use wg_wrapper.Addr.Ip.{is_unspecified}
use wg_wrapper.Base.BigEndian.{from_be_bytes}
use wg_wrapper.Text.{Text}
use wg_wrapper.Text.Utf8.{as_bytes}

pub data AssociateError : Type 0 where
  closed not_socks5 no_credentials too_long rejected : AssociateError
  bad_method refused bad_family : ℕ → AssociateError

pub record Conn : Type 0 where
  pub incoming : Bytes
  pub written : List Bytes

abbrev pub write : Conn → Bytes → Conn
write c b = record c { written = c.written ++ b ∷ [] }

abbrev pub prepend : ℕ → Option (Bytes × Bytes) → Option (Bytes × Bytes)
prepend b none = none
prepend b (some (read, rest)) = some (b ∷ read, rest)

-- the first n octets, when there are that many
pub split_at? : ℕ → Bytes → Option (Bytes × Bytes)
split_at? zero bs = some ([], bs)
split_at? (suc n) [] = none
split_at? (suc n) (b ∷ bs) = prepend b (split_at? n bs)

abbrev pub received : Conn → Option (Bytes × Bytes) → Result AssociateError (Bytes × Conn)
received c none = err closed
received c (some (read, rest)) = ok (read, record c { incoming = rest })

abbrev pub read_exact : ℕ → Conn → Result AssociateError (Bytes × Conn)
read_exact n c = received c (split_at? n c.incoming)

-- b[i], in a buffer that is long enough
abbrev pub nth : Bytes → ℕ → ℕ
nth [] i = 0
nth (b ∷ bs) zero = b
nth (b ∷ bs) (suc i) = nth bs i

abbrev pub greeting : Bytes
greeting = 5 ∷ 2 ∷ 0 ∷ 2 ∷ []

abbrev pub udp_associate : Bytes
udp_associate = 5 ∷ 3 ∷ 0 ∷ 1 ∷ 0 ∷ 0 ∷ 0 ∷ 0 ∷ 0 ∷ 0 ∷ []

-- the request of RFC 1929
abbrev pub password_request : Bytes → Bytes → Bytes
password_request user pass = 1 ∷ length user ∷ (user ++ length pass ∷ pass)

pub authenticate : Option (Text × Text) → Conn → Result AssociateError Conn
unfolding split_at?
authenticate none c = err no_credentials
authenticate (some (user, pass)) c = do
  ensure (ltb (length (as_bytes user)) 256 && ltb (length (as_bytes pass)) 256) too_long
  (answer, c) ← read_exact 2 (write c (password_request (as_bytes user) (as_bytes pass)))
  ensure (nth answer 1 == 0) rejected
  ok c

-- The match on the method that the proxy picked.
pub choose : ℕ → Option (Text × Text) → Conn → Result AssociateError Conn
unfolding authenticate
choose m auth c =
    if m == 0 then ok c else if m == 2 then authenticate auth c else err (bad_method m)

-- The match on the address type of BND.ADDR.
pub read_bound : ℕ → Conn → Result AssociateError (SocketAddr × Conn)
unfolding split_at?
read_bound kind c =
    if kind == 1
    then (do
      (b, c) ← read_exact 6 c
      ok (record { ip = v4 (from_be_bytes (take 4 b) 0); port = from_be_bytes (drop 4 b) 0 }, c))
    else if kind == 4
    then (do
      (b, c) ← read_exact 18 c
      ok (record { ip = v6 (from_be_bytes (take 16 b) 0); port = from_be_bytes (drop 16 b) 0 }, c))
    else err (bad_family kind)

-- A wildcard stands for the host of the control connection.
abbrev pub relay_addr : IpAddr → SocketAddr → SocketAddr
relay_addr proxy bound =
    if is_unspecified bound.ip then record { ip = proxy; port = bound.port } else bound

-- The address to relay through; `proxy` is the address of the control connection's other end.
unfoldable pub associate :
    IpAddr → Option (Text × Text) → Conn → Result AssociateError (SocketAddr × Conn)
unfolding split_at? choose read_bound
associate proxy auth c = do
  (chosen, c) ← read_exact 2 (write c greeting)
  ensure (nth chosen 0 == 5) not_socks5
  c ← choose (nth chosen 1) auth c
  (head, c) ← read_exact 4 (write c udp_associate)
  ensure (nth head 0 == 5) not_socks5
  ensure (nth head 1 == 0) (refused (nth head 1))
  (bound, c) ← read_bound (nth head 3) c
  ok (relay_addr proxy bound, c)
