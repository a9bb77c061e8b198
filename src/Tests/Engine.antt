-- ===== src/Tests/Engine.antt =====
-- The theorems on the client engine at a configuration and a run of its tasks.
use wg_wrapper.Base.{
  ℕ, suc, ◌+◌, ◌*◌, ◌≤◌, ◌<◌, ◌≡◌, refl, Bool, true, false, List, [], ◌∷◌, ◌++◌, filter, Bytes,
  Option, none, some, arith, Result, ok, err,
}
use wg_wrapper.Addr.{v4}
use wg_wrapper.Keys.{decode_key}
use wg_wrapper.Tests.Cidrs.{Cidr, cidrs, cidrs_text}
use wg_wrapper.Tests.Confs.{plain_key, text_of, full_conf, full_config, full_conf_parses}
use wg_wrapper.Tests.Data.{endpoint_ab, home, packet}
use wg_wrapper.Tests.Instances.{plain}
use wg_wrapper.Text.{Text, codes}
use wg_wrapper.Text.Pieces.{lines}
use wg_wrapper.Text.Pieces.Whole.{any-Free, unlines}
use wg_wrapper.Text.Split.{any-Lacks}
use wg_wrapper.Wg.Peers.{keys}
use wg_wrapper.Wg.Timers.{encapsulate}
use wg_wrapper.Wg.{Wg}
use wg_wrapper.WgClient.{ClientConfig, ws}
use wg_wrapper.WgClient.Conf.{Sections, parse_conf, read_lines, no_sections, get}
use wg_wrapper.WgClient.Conf.Fits.{Fits, parse_conf-Fits}
use wg_wrapper.WgClient.Conf.Written.{IsEntry, written, last_value, read_lines-written}
use wg_wrapper.WgClient.Connect.{Failed, Attempt, Sockets, spawned, connect_to}
use wg_wrapper.WgClient.Connect.Attempts.{Attempted, connect_to-Ends}
use wg_wrapper.WgClient.Resolve.{ends_authority, not_resolved, resolve_endpoint, url_target}
use wg_wrapper.WgClient.Resolve.Parsed.{IsSchemeError, resolve_endpoint-parsed}
use wg_wrapper.WgClient.Resolve.Urls.{bracketed_port, url_target-server}
use wg_wrapper.WgClient.Routes.{Routes, rows_of, parse_routes}
use wg_wrapper.WgClient.Routes.Lan.{RoutesFit, parse_routes-Fit}
use wg_wrapper.WgClient.Tunnel.{Tunnel, Event, received, from_tun, tick, tun_refuses, run}
use wg_wrapper.WgClient.Tunnel.Counters.{Counts, heard, v6_count, run-Counts}
use wg_wrapper.WgClient.Tunnel.Ipv6.{allowed, run-allowed}

parse_conf-Fits_example :
    (s : Sections) × (read_lines no_sections (lines full_conf) ≡ ok s)
    × Fits cidrs cidrs_text plain_key s.iface s.peer full_config
parse_conf-Fits_example =
    parse_conf-Fits cidrs cidrs_text plain_key full_conf full_config full_conf_parses

abbrev address_entry : Text × Text
address_entry = (codes "Address", codes "10.7.0.2")

address_entry-IsEntry : IsEntry address_entry
unfolding wg_wrapper.Text.is_whitespace wg_wrapper.Text.strip_prefix
address_entry-IsEntry = record {
  key = refl;
  key-Trimmed = (refl, refl);
  value-Trimmed = (refl, refl);
  no_equals = any-Lacks b'=' (codes "Address") refl;
  no_bracket = refl;
  key_no_comment = any-Lacks b'#' (codes "Address") refl;
  value_no_comment = any-Lacks b'#' (codes "10.7.0.2") refl;
  key_no_feed = any-Lacks 10 (codes "Address") refl;
  value_no_feed = any-Lacks 10 (codes "10.7.0.2") refl;
}

read_lines-written_example :
    (s : Sections) × (read_lines no_sections (lines (unlines (written (address_entry ∷ []) [])))
      ≡ ok s)
    × ((k : Text) → get k s.iface ≡ last_value k (address_entry ∷ []))
    × ((k : Text) → get k s.peer ≡ last_value k [])
read_lines-written_example =
    read_lines-written (address_entry ∷ []) [] (address_entry-IsEntry, tt) tt

-- the round k of the loop, 25 ms after the one before
abbrev pub clock : ℕ → ℕ
clock k = k * 25

pub sleeps : (k : ℕ) → clock k + 25 ≤ clock (suc k)
sleeps k = omega arith

-- any socket is bound and connected, and there is no bridge
abbrev pub sockets : Sockets
sockets = record { bridge = none; binds = λ a. true; connects = λ a. true; sends = λ d. true }

connect_to-Ends_example :
    (wg : Wg plain) × (public : Bytes) × (o : Result Failed (Attempt plain)) × (decode_key plain_key
        full_config.peer_public_key
      ≡ ok public)
    × (keys plain wg.peers ≡ public ∷ [])
    × (connect_to plain plain_key (λ k. k) sockets 401 full_config home 0 0 (λ k. endpoint_ab) clock
        ≡ some o)
    × Attempted cidrs cidrs_text plain_key plain
        (λ k. k)
        sockets
        0
        (λ k. endpoint_ab)
        clock
        0
        (omega arith)
        sleeps
        full_config
        home
        wg
        o
connect_to-Ends_example =
    connect_to-Ends cidrs cidrs_text plain_key plain (λ k. k) sockets 0 (λ k. endpoint_ab) clock 0
      (omega arith) sleeps full_conf full_config home full_conf_parses

url_target-server_example : url_target (codes "wss://[::1]:9443/x") ≡ ok (codes "::1", 9443)
unfolding wg_wrapper.Text.from_str_radix wg_wrapper.WgClient.Resolve.default_port
url_target-server_example =
    url_target-server (codes "wss") 443 none (bracketed_port (codes "::1") (codes "9443") 9443)
      (codes "/x") (any-Lacks b':' (codes "wss") refl) refl tt
      (
        (
          refl,
          any-Lacks b']' (codes "::1") refl,
          (any-Free ends_authority (codes "::1") refl, any-Lacks b'@' (codes "::1") refl),
        ),
        (refl, (any-Free ends_authority (codes "9443") refl, any-Lacks b'@' (codes "9443") refl)),
      )
      refl

abbrev ws_conf : Text
ws_conf = text_of (
    "[Interface]" ∷ "PrivateKey=0123456789abcdef0123456789abcdef" ∷ "Address=10.7.0.2" ∷ "[Peer]"
    ∷ "PublicKey=0123456789ABCDEF0123456789ABCDEF" ∷ "Endpoint = WSS://h/tunnel"
    ∷ "InsecureTls = true" ∷ [])

abbrev ws_config : ClientConfig Cidr
ws_config = record {
  private_key = codes "0123456789abcdef0123456789abcdef";
  peer_public_key = codes "0123456789ABCDEF0123456789ABCDEF";
  preshared_key = none;
  address = record { ip = v4 0x0a070002; len = 32 };
  dns = [];
  endpoint = ws (codes "WSS://h/tunnel") true;
  allowed_ips = [];
  mtu = 1380;
  keepalive = none;
}

ws_conf_parses : parse_conf cidrs cidrs_text plain_key ws_conf ≡ ok ws_config
unfolding parse_conf wg_wrapper.Base.bytes_eq decode_key wg_wrapper.Text.Pieces.starts_with
    wg_wrapper.WgClient.Conf.is_yes
ws_conf_parses = refl

unresolved :
    resolve_endpoint (λ s. none) (λ s port. none) ws_config.endpoint
    ≡ err (not_resolved (codes "h"))
unfolding resolve_endpoint
unresolved = refl

resolve_endpoint-parsed_example : ¬ IsSchemeError (not_resolved (codes "h"))
resolve_endpoint-parsed_example =
    resolve_endpoint-parsed (λ s. none) (λ s port. none) cidrs cidrs_text plain_key ws_conf
      ws_config (not_resolved (codes "h")) ws_conf_parses unresolved

abbrev pub route_print : Text
route_print = text_of (
    "IPv4 Route Table" ∷ "Active Routes:"
    ∷ "Network Destination        Netmask          Gateway       Interface  Metric"
    ∷ "          0.0.0.0          0.0.0.0     192.168.70.1   192.168.70.101     50"
    ∷ "          0.0.0.0          0.0.0.0        10.10.0.1        10.10.0.5     60"
    ∷ "        127.0.0.0        255.0.0.0         On-link         127.0.0.1    331"
    ∷ "     192.168.70.0    255.255.255.0         On-link    192.168.70.101    306"
    ∷ "   192.168.70.101  255.255.255.255         On-link    192.168.70.101    306"
    ∷ "        10.10.0.0    255.255.255.0         On-link         10.10.0.5     15"
    ∷ "        224.0.0.0        240.0.0.0         On-link    192.168.70.101    306"
    ∷ "Persistent Routes:"
    ∷ "          0.0.0.0          0.0.0.0      10.10.0.9       10.10.0.5       1" ∷ [])

abbrev routes : Routes
routes = record { default = some (0xc0a84601, 0xc0a84665); lan = (0xc0a84600, 0xffffff00) ∷ [] }

parses_routes : parse_routes route_print ≡ routes
unfolding parse_routes wg_wrapper.Text.Pieces.starts_with wg_wrapper.Text.from_str_radix
    wg_wrapper.Text.Pieces.eq_ignore_ascii_case
parses_routes = refl

parse_routes-Fit_example :
    RoutesFit
      (rows_of false (lines route_print))
      (parse_routes route_print).default
      (parse_routes route_print).lan
parse_routes-Fit_example = parse_routes-Fit route_print

-- an IPv6 packet, an IPv4 packet, a datagram, a tick, and the device that stops
abbrev events : List Event
events =
    from_tun (0x60 ∷ [])
    ∷ from_tun packet
    ∷ received (4 ∷ 0 ∷ packet)
    ∷ tick 5
    ∷ tun_refuses
    ∷ received (4 ∷ 0 ∷ packet)
    ∷ received (4 ∷ 0 ∷ packet)
    ∷ []

abbrev started : Tunnel plain
started = spawned plain endpoint_ab

abbrev or_started : Option (Tunnel plain) → Tunnel plain
or_started none = started
or_started (some t) = t

abbrev ended : Tunnel plain
ended = or_started (run plain 1 home started events)

runs : run plain 1 home started events ≡ some ended
unfolding run encapsulate wg_wrapper.Wg.recv_from_network wg_wrapper.Wg.origin
    wg_wrapper.Wg.drain_loop wg_wrapper.Wg.Timers.update_timers
runs = refl

run-Counts_example :
    Counts plain started ended (heard plain 1 home started events) (v6_count events)
run-Counts_example =
    run-Counts plain 1 home events started ended (omega arith, omega arith, omega arith) runs

run-allowed_example :
    run plain 1 home started (filter allowed events) ≡ some (record ended { v6_dropped = 0 })
run-allowed_example = run-allowed plain 1 home started ended events runs
