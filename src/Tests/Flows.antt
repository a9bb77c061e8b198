-- ===== src/Tests/Flows.antt =====
-- The theorems on flows and on URLs at concrete inputs.
use wg_wrapper.Base.{
  ℕ, ◌+◌, ◌*◌, ◌^◌, ◌≡◌, ◌≤◌, ◌<◌, ◌⊎◌, inl, inr, refl, true, false, List, [], ◌∷◌, ◌++◌, Bytes,
  Option, none, some, ok, arith, get_elem?, length, All,
}
use wg_wrapper.Addr.{v4, v6, SocketAddr}
use wg_wrapper.Device.Boundaries.{Reads, poll_boundaries}
use wg_wrapper.Device.{PacketDev, poll_read, poll_write}
use wg_wrapper.Flow.Associate.Sound.{associate-Opens}
use wg_wrapper.Flow.Associate.Transcript.{Opens}
use wg_wrapper.Flow.Associate.{Conn, associate, greeting, udp_associate, password_request}
use wg_wrapper.Flow.UdpHeader.{
  udp_header, parse_udp, unwrap_udp, Wraps, udp_header-RoundTrip, unwrap_udp-Wraps,
}
use wg_wrapper.Server.Flows.Limits.{Exact}
use wg_wrapper.Server.Flows.Runs.{run-Exact, run-drained}
use wg_wrapper.Server.Flows.{Event, accepts, ends, releases, Table, waiting, run, start}
use wg_wrapper.Server.{max_flows}
use wg_wrapper.Text.{Text, codes, parse_u16, from_str_radix}
use wg_wrapper.Upstream.Percent.{percent_encode, percent_decode-encode}
use wg_wrapper.Upstream.RoundTrip.{print_upstream, print_address, parse_upstream-print}
use wg_wrapper.Upstream.{parse_upstream, percent_decode}

-- A flow of peer 1 that is accepted and ends.
abbrev one_flow : List Event
one_flow = accepts 1 ∷ accepts 1 ∷ ends 0 ∷ releases ∷ []

abbrev empty : Table
empty = record { permits = max_flows; counts = 0 ∷ 0 ∷ []; live = []; closing = 0; stage = waiting }

run-Exact_example : (t : Table) × (run one_flow (start 2) ≡ some t) × Exact 2 t
run-Exact_example = run-Exact 2 one_flow (omega arith, (omega arith, (tt, (tt, tt))))

runs : run one_flow (start 2) ≡ some empty
unfolding run start
runs = refl

run-drained_example :
    (empty.permits ≡ max_flows) × ((i c : ℕ) → get_elem? empty.counts i ≡ some c → c ≡ 0)
run-drained_example =
    run-drained 2 one_flow empty (omega arith, (omega arith, (tt, (tt, tt)))) runs refl refl refl

-- A proxy that wants a password and binds a wildcard.
abbrev calling : Conn
calling = record {
  incoming = 5 ∷ 2 ∷ 1 ∷ 0 ∷ 5 ∷ 0 ∷ 0 ∷ 1 ∷ 0 ∷ 0 ∷ 0 ∷ 0 ∷ 4 ∷ 56 ∷ [];
  written = [];
}

abbrev called : Conn
called = record {
  incoming = [];
  written = greeting ∷ password_request (codes "a") (codes "b") ∷ udp_associate ∷ [];
}

abbrev relay : SocketAddr
relay = record { ip = v4 (127 * 2 ^ 24 + 1); port = 1080 }

associates : associate relay.ip (some (codes "a", codes "b")) calling ≡ ok (relay, called)
unfolding associate wg_wrapper.Text.Utf8.as_bytes wg_wrapper.Base.BigEndian.from_be_bytes
associates = refl

associate-Opens_example : Opens relay.ip (some (codes "a", codes "b")) calling relay called
associate-Opens_example =
    associate-Opens relay.ip (some (codes "a", codes "b")) calling called relay associates

udp_header-RoundTrip_example :
    (parse_udp (udp_header relay ++ codes "payload") ≡ some (relay, codes "payload"))
    × (unwrap_udp (udp_header relay ++ codes "payload") (record { ip = v6 1; port = 53 })
        ≡ some (codes "payload"))
udp_header-RoundTrip_example =
    udp_header-RoundTrip relay (record { ip = v6 1; port = 53 }) (codes "payload") (omega arith)
      (omega arith)

abbrev wrapped : Bytes
wrapped = 9 ∷ 9 ∷ 0 ∷ 1 ∷ 1 ∷ 2 ∷ 3 ∷ 4 ∷ 0 ∷ 53 ∷ 7 ∷ []

unwraps : unwrap_udp wrapped relay ≡ some (7 ∷ [])
unfolding unwrap_udp
unwraps = refl

unwrap_udp-Wraps_example : (header : Bytes) × (wrapped ≡ header ++ 7 ∷ []) × Wraps header (7 ∷ [])
unwrap_udp-Wraps_example = unwrap_udp-Wraps wrapped (7 ∷ []) relay unwraps

-- The first waiting packet does not fit.
abbrev dev : PacketDev
dev = record { rx = (1 ∷ 2 ∷ 3 ∷ []) ∷ (4 ∷ []) ∷ []; tx = [] }

poll_boundaries_example :
    Reads 2 dev.rx (poll_read dev 2).0 (poll_read dev 2).1.rx
    × (((poll_write 1 dev (5 ∷ [])).1.tx ≡ dev.tx ++ (5 ∷ []) ∷ [])
        ⊎ ((length dev.tx ≡ 1) × ((poll_write 1 dev (5 ∷ [])).1 ≡ dev)))
    × (length (poll_write 1 dev (5 ∷ [])).1.tx ≤ 1)
poll_boundaries_example = poll_boundaries dev 2 1 (5 ∷ []) (omega arith)

percent_decode-encode_example : percent_decode (percent_encode (codes "p:a/")) ≡ codes "p:a/"
percent_decode-encode_example =
    percent_decode-encode (codes "p:a/")
      (inl (omega arith), (inl (omega arith), (inl (omega arith), (inl (omega arith), tt))))

port : parse_u16 (codes "1080") ≡ some 1080
unfolding from_str_radix
port = refl

parse_upstream-print_example :
    parse_upstream (print_upstream (codes "a@") (codes "b") (codes "h") (codes "1080"))
    ≡ ok (record {
      addr = print_address (codes "h") (codes "1080");
      auth = some (codes "a@", codes "b");
    })
parse_upstream-print_example =
    parse_upstream-print (codes "a@") (codes "b") (codes "h") (codes "1080") 1080
      (inl (omega arith), (inl (omega arith), tt)) (inl (omega arith), tt) (λ e. cc) (refl, tt)
      (refl, (refl, (refl, (refl, tt)))) (refl, (refl, (refl, (refl, tt)))) port
