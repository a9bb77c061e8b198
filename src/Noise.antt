-- ===== src/Noise.antt =====
-- The interface to the `boringtun` crate, which is not part of the repository: one WireGuard
-- session with a peer, the rate limiter that the sessions share, and the parsers.
use wg_wrapper.Base.{ℕ, ◌<◌, ◌≡◌, [], Bytes, Option}
use wg_wrapper.Addr.{IpAddr}

-- What a session asks its owner to do.
pub data TunnResult : Type 0 where
  finished failed : TunnResult
  write_to_network write_to_tunnel_v4 write_to_tunnel_v6 : Bytes → TunnResult

-- A datagram whose macs hold; the numbers are receiver indices.
pub data Packet (Init : Type 0) : Type 0 where
  handshake_init : Init → Packet Init
  handshake_response cookie_reply packet_data : ℕ → Packet Init

-- RateLimiter::verify_packet: a packet, a cookie to send while under load, or another error.
pub data Verdict (Init : Type 0) : Type 0 where
  verified : Packet Init → Verdict Init
  under_load : Bytes → Verdict Init
  refused : Verdict Init

pub record Noise : Type 1 where
  pub Tunn : Type 0
  pub Limiter : Type 0
  pub Init : Type 0
  pub new_limiter : Bytes → Limiter
  pub reset_count : Limiter → Limiter
  pub verify_packet : Limiter → IpAddr → Bytes → Limiter × Verdict Init
  -- the static public key of the sender, for our private key
  pub parse_handshake_anon : Bytes → Init → Option Bytes
  -- private key, peer's public key, preshared key, keepalive, index
  pub new_tunn : Bytes → Bytes → Option Bytes → Option ℕ → ℕ → Tunn
  pub decapsulate :
      Limiter
      → Tunn
      → IpAddr
      → Bytes
      → record { limiter : Limiter; tunn : Tunn; answer : TunnResult }
  pub encapsulate : Tunn → Bytes → Tunn × TunnResult
  pub update_timers : Tunn → Tunn × TunnResult
  pub time_since_last_handshake : Tunn → Option ℕ
  pub dst_address : Bytes → Option IpAddr

-- Repeated calls of `decapsulate` with an empty datagram drain a finite queue.
module _ (noise : Noise) where
  open noise use {Tunn, Limiter, decapsulate}

  pub record Drains : Type 0 where
    pub pending : Tunn → ℕ
    pub shrinks :
        (l : Limiter) (t : Tunn) (from : IpAddr) (b : Bytes)
        → (decapsulate l t from []).answer ≡ write_to_network b
        → pending (decapsulate l t from []).tunn < pending t
