-- ===== src/Lib.antt =====
-- wg-wrapper: a WireGuard server that lets each peer out through a SOCKS5 upstream, and its clients.
--
-- The program. `crates/wgcore` wraps the WireGuard sessions of several peers into one endpoint that
-- never touches a socket. `crates/server` reads a configuration, feeds that endpoint from a UDP
-- socket, checks the decrypted packets against the routing table and the isolation rules and hands
-- them to a user-space IP stack; each flow of the stack leaves through the peer's upstream, and what
-- comes back is routed to its peer and encrypted. `crates/wsrelay` carries the datagrams over a
-- WebSocket, `crates/wgclient` and `crates/client-win` are the client.
--
-- What models what.
--   Base: the shared helpers, on the native ℕ: tests, lists, results, bit masks, network order.
--   Addr, Text: the parts of std::net and std::str that the crates use: Addr/Parse and Addr/Display
--     have the addresses' FromStr and Display, Text/Pieces the splitting and trimming.
--   Keys, Noise, Wg: crates/wgcore/src/lib.rs. Keys has the keys and packet addresses, Noise is the
--     interface to the boringtun crate, Wg is `struct Wg` with its operations; Wg/Timers has
--     `encapsulate` and `update_timers`. The state is the record Wg; &mut self is a state that is
--     passed and returned, and the output vectors are lists that grow.
--   IpNet: the interface to the ipnet crate, with the laws of CIDR blocks as hypotheses;
--     NetText is its parser and printer.
--   Isolation, Routing, Rst, Device: crates/server/src/net.rs, `allowed_dst`, `peer_for`, `tcp_rst`
--     and `PacketDev`.
--   Upstream, Config: crates/server/src/config.rs, `percent_decode`, `parse_upstream` and
--     `Config::validate`, whose errors are values of ConfigError.
--   Server: crates/server/src/lib.rs, `start`: Setup is the part up to the tasks, Inbound,
--     Outbound the three tasks around the endpoint, one function for one round, and Flows the limits
--     on concurrent flows, as a state machine whose events are the atomic operations of the accept
--     loop and of the ends of flows, in any interleaving.
--   Flow: crates/server/src/flow.rs: UdpHeader has the SOCKS5 datagram header, Associate the handshake
--     of `associate` over a connection that is the bytes the proxy will send and those it was sent,
--     Relay the choice of a way in `handle_udp` and the loop of `udp_relay`, Dns `dns_over_tcp`. A
--     select is a list of events, one for each branch that is taken.
--   WsRelay: crates/wsrelay/src/lib.rs: ClientPeer is `client_peer` as a machine with one phase for
--     each await, Mapping is `run_client_to` with its map from sources to connections,
--     Conn is `relay_conn` and the limit of `serve_limited`.
--   WgClient: crates/wgclient/src/lib.rs. Conf is `parse_conf`, whose errors are values of ConfError;
--     Routes is `parse_routes`; Resolve is `resolve_endpoint`, with the resolver as an argument; Tunnel
--     has the tasks that `connect_to` spawns, one function for one round, the device's threads and
--     `stats`; Connect has `connect_to`, its keys, sockets, first messages and the wait for the
--     handshake, and `close`; Adapter has the commands of `open`, in the order in which they run, and
--     `Drop`, in a monad that keeps its state behind an error; Adapter/Session is `open` itself. The system's answer to a command may depend on all that ran before.
--   ClientWin: crates/client-win/src-tauri/src/main.rs, the session of `connect` and `disconnect`, with
--     an event for each part of a command that holds the lock; Dial is `dial`, which runs the engine's
--     parts in their order and drops the adapter on an error; Profiles has the commands on profiles,
--     over the files of one directory, Names the ring of log lines and the profiles' file names.
--   Tests: runs and the theorems at concrete inputs; Tests/Instances has concrete libraries.
--
-- Fuel. The loop on `decapsulate` in `recv_from_network` runs on fuel, and none means that it ran
-- out; if sessions drain, as boringtun's do, every datagram has an amount of fuel that is enough. The
-- wait for the handshake polls every 25 ms for 10 s: 401 rounds are enough for a clock that moves on
-- by a poll's pause. All other loops are structural, or run over the events that they wait for.
--
-- Numbers. Times are in milliseconds. The 64-bit counts of flows wrap around as in the source; an
-- address is its big-endian number; bytes are natural numbers, and a text is its code points.
--
-- Not modelled: the cryptography, the IP stack, TLS and WebSocket framing and base64, which are other
-- crates; the sockets and the logging, which are input and output; the wintun driver, whose answers
-- are arguments; the updater, the settings and the window of client-win.
pub mod Addr
pub mod Base
pub mod ClientWin
pub mod Config
pub mod Device
pub mod Flow
pub mod IpNet
pub mod Isolation
pub mod Keys
pub mod Noise
pub mod Routing
pub mod Rst
pub mod Server
pub mod Tests
pub mod Text
pub mod Upstream
pub mod Wg
pub mod WgClient
pub mod WsRelay
