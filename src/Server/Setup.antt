-- ===== src/Server/Setup.antt =====
-- `start` up to the tasks: the endpoint, the routing table and the upstreams, built peer by peer. The
-- sockets, and the work of the tasks, come behind.
pub mod Routes
pub mod Built
pub mod Outcome
use wg_wrapper.Base.{
  ℕ, List, [], ◌∷◌, ◌++◌, map, Bytes, Option, none, some, Result, ok, err, ◌>>=◌, map_err,
}
use wg_wrapper.Addr.{IpAddr, v4, v6, SocketAddr}
use wg_wrapper.Addr.Ip.{is_unspecified}
use wg_wrapper.Base.{Bool, ◌^◌, ◌*◌, ◌+◌, if◌then◌else◌}
use wg_wrapper.Config.{Config, PeerConfig}
use wg_wrapper.IpNet.{NetOps}
use wg_wrapper.Keys.{KeyError, decode_key}
use wg_wrapper.Noise.{Noise}
use wg_wrapper.Text.{Text}
use wg_wrapper.Upstream.{Upstream, UpstreamError, parse_upstream}
use wg_wrapper.Wg.{Wg, AddError, new, add_peer}

pub data StartError : Type 0 where
  bad_key : KeyError → StartError
  bad_upstream : UpstreamError → StartError
  bad_peer : AddError → StartError

module _ (ops : NetOps) (noise : Noise) where
  open ops use {Net}

  pub record Tables : Type 0 where
    pub wg : Wg noise
    pub allowed : List (Net × ℕ)
    pub upstreams : List Upstream

  module _ (decode_base64 : Text → Option Bytes) where
    pub key_of : Text → Result StartError Bytes
    key_of s = map_err bad_key (decode_key decode_base64 s)

    -- p.preshared_key.as_deref().map(decode_key).transpose()
    pub psk_of : Option Text → Result StartError (Option Bytes)
    unfolding key_of
    psk_of none = ok none
    psk_of (some s) = do k ← key_of s; ok (some k)

    -- the peer's own upstream, or the global one
    pub upstream_of : Upstream → Option Text → Result StartError Upstream
    upstream_of global none = ok global
    upstream_of global (some s) = map_err bad_upstream (parse_upstream s)

    -- One round of the loop over the peers.
    pub add_one : Upstream → Tables → PeerConfig Net → Result StartError Tables
    unfolding key_of psk_of upstream_of
    add_one global t p = do
      psk ← psk_of p.preshared_key
      key ← key_of p.public_key
      (wg, idx) ← map_err bad_peer (add_peer noise t.wg key psk none)
      up ← upstream_of global p.upstream
      ok (record {
        wg = wg;
        allowed = t.allowed ++ map (λ n. (n, idx)) p.allowed_ips;
        upstreams = t.upstreams ++ up ∷ [];
      })

    pub add_all : Upstream → Tables → List (PeerConfig Net) → Result StartError Tables
    unfolding add_one
    add_all global t [] = ok t
    add_all global t (p ∷ ps) = do t' ← add_one global t p; add_all global t' ps

    -- The public key is that of the private one; `now` is the time of the start.
    unfoldable pub setup : (Bytes → Bytes) → ℕ → Config Net → Result StartError Tables
    unfolding key_of add_all
    setup public_of now c = do
      global ← map_err bad_upstream (parse_upstream c.upstream)
      private ← key_of c.private_key
      add_all global
          (record { wg = new noise private (public_of private) now; allowed = []; upstreams = [] })
          c.peers

-- Where the WebSocket relay sends: the WireGuard socket over loopback, also for a wildcard address.
unfoldable pub relay_target : SocketAddr → SocketAddr
relay_target udp =
    if is_unspecified udp.ip then record { ip = v4 (127 * 2 ^ 24 + 1); port = udp.port } else udp
