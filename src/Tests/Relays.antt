-- ===== src/Tests/Relays.antt =====
-- The theorems on lookups, relayed datagrams and the WebSocket client at concrete inputs.
use wg_wrapper.Base.{
  ℕ, zero, suc, ◌*◌, ◌^◌, ◌≡◌, refl, ap, true, List, [], ◌∷◌, ◌++◌, none, some, arith, length,
}
use wg_wrapper.Addr.{v4, SocketAddr}
use wg_wrapper.Flow.Dns.Clip.{Clipped, read_answer-frame, clip-Clipped}
use wg_wrapper.Flow.Dns.{frame, read_answer, clip}
use wg_wrapper.Flow.Relay.Fallback.{Fits, NoneRelayed, handle_udp-Fits, handle_all-NoneRelayed}
use wg_wrapper.Flow.Relay.Pump.{Faithful, pump-Faithful}
use wg_wrapper.Flow.Relay.{
  associated, refused, timed_out, over_tcp, relayed, dropped, Flow, handle_udp, handle_all,
  from_peer, from_relay, idle, pump,
}
use wg_wrapper.Flow.Relay
use wg_wrapper.Text.{codes}
use wg_wrapper.WsRelay.ClientPeer.Backoff.{Steps, step-Steps, start-Returns}
use wg_wrapper.WsRelay.ClientPeer.{sleeping, returned, woke, start, step, failing, Client}
use wg_wrapper.WsRelay.Mapping.Owner.{Owned, arrivals, run-Owned}
use wg_wrapper.WsRelay.Mapping.{Bridge, arrives, returns, sweeps, run}
use wg_wrapper.WsRelay.Mapping

read_answer-frame_example : read_answer (frame (1 ∷ 2 ∷ []) ++ 9 ∷ []) ≡ some (1 ∷ 2 ∷ [])
read_answer-frame_example = read_answer-frame (1 ∷ 2 ∷ []) (9 ∷ []) (omega arith)

clip-Clipped_example : Clipped 3 (7 ∷ 7 ∷ 1 ∷ 5 ∷ []) (clip 3 (7 ∷ 7 ∷ 1 ∷ 5 ∷ []))
clip-Clipped_example = clip-Clipped 3 (7 ∷ 7 ∷ 1 ∷ 5 ∷ [])

abbrev game : SocketAddr
game = record { ip = v4 (93 * 2 ^ 24); port = 27015 }

abbrev events : List Relay.Event
events =
    from_peer (1 ∷ []) true
    ∷ from_relay (0 ∷ 0 ∷ 0 ∷ 1 ∷ 93 ∷ 0 ∷ 0 ∷ 0 ∷ 0 ∷ 53 ∷ 6 ∷ []) true
    ∷ idle
    ∷ []

pump-Faithful_example : Faithful 1392 game events (pump 1392 game events)
pump-Faithful_example = pump-Faithful 1392 game events (omega arith) (omega arith)

abbrev lookup : SocketAddr
lookup = record { ip = v4 (8 * 2 ^ 24); port = 53 }

abbrev resolver : SocketAddr
resolver = record { ip = v4 (9 * 2 ^ 24); port = 53 }

-- A lookup with a forced resolver, past an upstream that would relay it.
handle_udp-Fits_example :
    Fits []
      (codes "h:1080")
      lookup
      (some resolver)
      60
      associated
      (handle_udp [] (codes "h:1080") lookup (some resolver) 60 associated).0
handle_udp-Fits_example = handle_udp-Fits [] (codes "h:1080") lookup 60 (some resolver) associated

-- The ways of a lookup and of another flow.
ways :
    (handle_udp [] (codes "h:1080") lookup (some resolver) 60 associated ≡ (over_tcp resolver, []))
    × (handle_udp [] (codes "h:1080") lookup none 60 associated ≡ (relayed 10, []))
    × (handle_udp [] (codes "h:1080") lookup none 60 timed_out ≡ (over_tcp lookup, []))
    × (handle_udp [] (codes "h:1080") game (some resolver) 60 associated ≡ (relayed 60, []))
    × (handle_udp [] (codes "h:1080") game none 60 timed_out ≡ (dropped, []))
unfolding handle_udp
ways = (refl, refl, refl, refl, refl)

abbrev later : List Flow
later = record { addr = codes "h:1080"; dst = game; attempt = associated } ∷ []

handle_all-NoneRelayed_example :
    NoneRelayed
      (codes "h:1080")
      later
      (handle_all none 60 (handle_udp [] (codes "h:1080") game none 60 refused).1 later).0
handle_all-NoneRelayed_example =
    handle_all-NoneRelayed none 60 [] (codes "h:1080") game later (λ e. cc)

abbrev waiting : Client
waiting = record { phase = sleeping; backoff = 4000; deadline = 300000; sent = []; delivered = [] }

step-Steps_example : Steps 9000 waiting (step sleeping 9000 waiting woke) woke
step-Steps_example = step-Steps sleeping 9000 waiting woke

repeat : ℕ → List ℕ
repeat zero = []
repeat (suc n) = 10 ∷ repeat n

length-repeat : (n : ℕ) → length (repeat n) ≡ n
unfolding repeat
length-repeat zero = refl
length-repeat (suc n) = ap suc (length-repeat n)

start-Returns_example : (failing (repeat 1201) 5 (start 5)).phase ≡ returned
start-Returns_example = start-Returns 5 (repeat 1201) (omega (arith, length-repeat 1201))

abbrev unused : Bridge
unused = record { peers = []; spawned = []; closed = []; queued = [] }

abbrev two_sources : List Mapping.Event
two_sources =
    arrives game (1 ∷ []) ∷ arrives (record game { port = 1 }) (2 ∷ []) ∷ returns 0 ∷ sweeps ∷ []

unused-Owned : Owned unused []
unused-Owned = record { mapped = λ src id m. elim m [ ]; sent = λ id d m. elim m [ ] }

run-Owned_example : Owned (run unused two_sources) (arrivals two_sources [])
run-Owned_example = run-Owned two_sources unused [] unused-Owned
