-- ===== src/Config/Accepts.antt =====
-- What `validate` accepts, told without its loops and its accumulator.
use wg_wrapper.Base.{
  ◌≡◌, refl, Bool, true, false, ◌||◌, List, [], ◌∷◌, ◌++◌, Bytes, Option, none, some, All, arith,
  ok, >>=-eq-ok, ensure, ensure-eq-ok, done-eq-ok,
}
use wg_wrapper.Isolation.{allowed_dst}
use wg_wrapper.IpNet.{NetOps}
use wg_wrapper.Keys.{decode_key}
use wg_wrapper.Text.{Text}
use wg_wrapper.Upstream.{Upstream, parse_upstream}
use wg_wrapper.Config.Overlap.{Apart}
use wg_wrapper.Config.{
  Config, WsListen, PeerConfig, bad_key, bad_upstream, half_tls, bad_path, is_some, is_empty,
  bool_eq, starts_with_slash, check_ws, check_upstream, check_peer_upstream, check_key, check_psk,
}

abbrev pub Parses : Text → Type 0
Parses u = (up : Upstream) × (parse_upstream u ≡ ok up)

abbrev pub Whenever {ℓ} : {A : Type ℓ} → (A → Type 0) → Option A → Type 0
Whenever P none = Unit
Whenever P (some a) = P a

-- certificate and key together or neither, and a path that starts with a slash
abbrev pub WsFits : WsListen → Type 0
WsFits ws = (is_some ws.cert ≡ is_some ws.key) × (starts_with_slash ws.path ≡ true)

module _ (ops : NetOps) where
  open ops use {Net}

  -- the networks of all peers, in order
  abbrev pub all_nets : List (PeerConfig Net) → List Net
  all_nets [] = []
  all_nets (p ∷ ps) = p.allowed_ips ++ all_nets ps

module _ (ops : NetOps) (decode_base64 : Text → Option Bytes) where
  open ops use {Net, contains, includes}

  abbrev pub IsKey : Text → Type 0
  IsKey s = (k : Bytes) × (decode_key decode_base64 s ≡ ok k)

  pub record PeerFits (p : PeerConfig Net) : Type 0 where
    pub public_key : IsKey p.public_key
    pub preshared_key : Whenever IsKey p.preshared_key
    pub upstream : Whenever Parses p.upstream
    pub some_net : is_empty p.allowed_ips ≡ false

  pub record IsValid (c : Config Net) : Type 0 where
    pub listens : (is_some c.listen_udp || is_some c.listen_ws) ≡ true
    pub private_key : IsKey c.private_key
    pub upstream : Parses c.upstream
    pub ws : Whenever WsFits c.listen_ws
    pub dns : Whenever (λ d. allowed_dst ops c.address d.ip c.allow_private ≡ true) c.dns
    pub some_peer : is_empty c.peers ≡ false
    pub peers : All PeerFits c.peers
    pub inside : All (λ n. includes c.address n ≡ true) (all_nets ops c.peers)
    pub apart : Apart ops (all_nets ops c.peers)

  pub IsKey-sound : (s : Text) → check_key ops decode_base64 s ≡ ok tt → IsKey s
  unfolding check_key
  IsKey-sound s e = done-eq-ok bad_key (decode_key decode_base64 s) e

  pub key_complete : (s : Text) → IsKey s → check_key ops decode_base64 s ≡ ok tt
  unfolding check_key
  key_complete s (k, e) = rw e

  pub psk_sound : (s : Option Text) → check_psk ops decode_base64 s ≡ ok tt → Whenever IsKey s
  unfolding check_psk
  psk_sound none e = tt
  psk_sound (some s) e = IsKey-sound s e

  pub psk_complete : (s : Option Text) → Whenever IsKey s → check_psk ops decode_base64 s ≡ ok tt
  unfolding check_psk
  psk_complete none e = refl
  psk_complete (some s) e = key_complete s e

pub upstream_sound : (u : Text) → check_upstream u ≡ ok tt → Parses u
unfolding check_upstream
upstream_sound u e = done-eq-ok bad_upstream (parse_upstream u) e

pub upstream_complete : (u : Text) → Parses u → check_upstream u ≡ ok tt
unfolding check_upstream
upstream_complete u (up, e) = rw e

pub peer_upstream_sound : (u : Option Text) → check_peer_upstream u ≡ ok tt → Whenever Parses u
unfolding check_peer_upstream
peer_upstream_sound none e = tt
peer_upstream_sound (some u) e = upstream_sound u e

pub peer_upstream_complete : (u : Option Text) → Whenever Parses u → check_peer_upstream u ≡ ok tt
unfolding check_peer_upstream
peer_upstream_complete none e = refl
peer_upstream_complete (some u) e = upstream_complete u e

bool_eq_sound : (a b : Bool) → bool_eq a b ≡ true → a ≡ b
bool_eq_sound a b h = ground arith

bool_eq_complete : (a b : Bool) → a ≡ b → bool_eq a b ≡ true
bool_eq_complete a b h = ground arith

pub ws_sound : (w : Option WsListen) → check_ws w ≡ ok tt → Whenever WsFits w
unfolding check_ws
ws_sound none e = tt
ws_sound (some w) e =
    let (_, tls, path) =
      >>=-eq-ok (ensure (bool_eq (is_some w.cert) (is_some w.key)) half_tls) _ e in
    (bool_eq_sound _ _ (ensure-eq-ok _ half_tls tls), ensure-eq-ok _ bad_path path)

pub ws_complete : (w : Option WsListen) → Whenever WsFits w → check_ws w ≡ ok tt
unfolding check_ws
ws_complete none e = refl
ws_complete (some w) e = rw (bool_eq_complete _ _ e.0, e.1)
