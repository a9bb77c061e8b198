-- ===== src/Config.antt =====
-- crates/server/src/config.rs: the configuration and `Config::validate`. The JSON decoder, which
-- yields a `Config`, and the base64 engine are outside.
pub mod Overlap
pub mod Accepts
pub mod Exact
use wg_wrapper.Base.{
  ℕ, Bool, true, false, not, ◌&&◌, ◌||◌, List, [], ◌∷◌, ◌++◌, Bytes, Option, none, some, any, ◌==◌,
  Result, ok, err, ◌>>=◌, ◌>>◌, ensure, map_err, done,
}
use wg_wrapper.Addr.{SocketAddr}
use wg_wrapper.IpNet.{NetOps}
use wg_wrapper.Isolation.{allowed_dst}
use wg_wrapper.Keys.{KeyError, decode_key}
use wg_wrapper.Text.{Text}
use wg_wrapper.Upstream.{UpstreamError, parse_upstream}

pub record WsListen : Type 0 where
  pub addr : SocketAddr
  pub path : Text
  pub cert : Option Text
  pub key : Option Text

pub record PeerConfig (Net : Type 0) : Type 0 where
  pub public_key : Text
  pub preshared_key : Option Text
  pub allowed_ips : List Net
  pub upstream : Option Text

pub record Config (Net : Type 0) : Type 0 where
  pub private_key : Text
  pub address : Net
  pub mtu : Option ℕ
  pub listen_udp : Option SocketAddr
  pub listen_ws : Option WsListen
  pub upstream : Text
  pub dns : Option SocketAddr
  pub allow_private : Bool
  pub udp_idle_secs : Option ℕ
  pub tcp_idle_secs : Option ℕ
  pub peers : List (PeerConfig Net)

pub data ConfigError : Type 0 where
  no_listener half_tls bad_path dns_refused no_peers no_allowed_ips outside_address overlaps :
      ConfigError
  bad_key : KeyError → ConfigError
  bad_upstream : UpstreamError → ConfigError

abbrev unwrap_or {ℓ} : {A : Type ℓ} → Option A → A → A
unwrap_or none d = d
unwrap_or (some a) d = a

module _ {Net : Type 0} where
  pub mtu_of : Config Net → ℕ
  mtu_of c = unwrap_or c.mtu 1420

  -- in seconds
  pub udp_idle : Config Net → ℕ
  udp_idle c = unwrap_or c.udp_idle_secs 60

  pub tcp_idle : Config Net → ℕ
  tcp_idle c = unwrap_or c.tcp_idle_secs 7200

abbrev pub is_some {ℓ} : {A : Type ℓ} → Option A → Bool
is_some none = false
is_some (some _) = true

abbrev bool_eq : Bool → Bool → Bool
bool_eq true b = b
bool_eq false b = not b

abbrev starts_with_slash : Text → Bool
starts_with_slash [] = false
starts_with_slash (c ∷ _) = c == b'/'

abbrev is_empty {ℓ} : {A : Type ℓ} → List A → Bool
is_empty [] = true
is_empty (_ ∷ _) = false

pub check_ws : Option WsListen → Result ConfigError (Unit {0})
check_ws none = ok tt
check_ws (some ws) = do
  ensure (bool_eq (is_some ws.cert) (is_some ws.key)) half_tls
  ensure (starts_with_slash ws.path) bad_path

pub check_upstream : Text → Result ConfigError (Unit {0})
check_upstream u = done (map_err bad_upstream (parse_upstream u))

pub check_peer_upstream : Option Text → Result ConfigError (Unit {0})
check_peer_upstream none = ok tt
check_peer_upstream (some u) = check_upstream u

module _ (ops : NetOps) where
  open ops use {Net, contains, includes, addr}

  pub check_dns : Config Net → Option SocketAddr → Result ConfigError (Unit {0})
  check_dns c none = ok tt
  check_dns c (some dns) = ensure (allowed_dst ops c.address dns.ip c.allow_private) dns_refused

  -- the test of `find`: one network holds the address of the other
  abbrev overlapping : Net → Net → Bool
  overlapping net o = contains o (addr net) || contains net (addr o)

  -- The inner loop, over the networks of a peer.
  pub check_nets : Net → List Net → List Net → Result ConfigError (List Net)
  check_nets address seen [] = ok seen
  check_nets address seen (net ∷ nets) = do
    ensure (includes address net) outside_address
    ensure (not (any (overlapping net) seen)) overlaps
    check_nets address (seen ++ net ∷ []) nets

module _ (ops : NetOps) (decode_base64 : Text → Option Bytes) where
  open ops use {Net}

  pub check_key : Text → Result ConfigError (Unit {0})
  check_key s = done (map_err bad_key (decode_key decode_base64 s))

  pub check_psk : Option Text → Result ConfigError (Unit {0})
  check_psk none = ok tt
  check_psk (some psk) = check_key psk

  pub check_peer : Net → List Net → PeerConfig Net → Result ConfigError (List Net)
  unfolding check_key check_psk check_peer_upstream check_nets
  check_peer address seen p = do
    check_key p.public_key
    check_psk p.preshared_key
    check_peer_upstream p.upstream
    ensure (not (is_empty p.allowed_ips)) no_allowed_ips
    check_nets ops address seen p.allowed_ips

  -- The outer loop.
  pub check_peers : Net → List Net → List (PeerConfig Net) → Result ConfigError (List Net)
  unfolding check_peer
  check_peers address seen [] = ok seen
  check_peers address seen (p ∷ ps) = do
    seen' ← check_peer address seen p
    check_peers address seen' ps

  unfoldable pub validate : Config Net → Result ConfigError (Unit {0})
  unfolding check_ws check_upstream check_dns check_key check_peers
  validate c = do
    ensure (is_some c.listen_udp || is_some c.listen_ws) no_listener
    check_key c.private_key
    check_upstream c.upstream
    check_ws c.listen_ws
    check_dns ops c c.dns
    ensure (not (is_empty c.peers)) no_peers
    done (check_peers c.address [] c.peers)
