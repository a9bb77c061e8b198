-- ===== src/Tests/Data.antt =====
-- A configuration with two peers, its endpoint, and packets.
use wg_wrapper.Base.{ℕ, ◌+◌, ◌*◌, ◌^◌, true, false, [], ◌∷◌, Bytes, Option, none, some}
use wg_wrapper.Addr.{v4, SocketAddr}
use wg_wrapper.Config.{Config, PeerConfig}
use wg_wrapper.Rst.{TcpHeader}
use wg_wrapper.Server.Setup.{Tables}
use wg_wrapper.Server.Inbound.{State, Settings}
use wg_wrapper.Text.{Text, codes}
use wg_wrapper.Tests.Instances.{Block, blocks, plain, numbers}
use wg_wrapper.Upstream.{Upstream}
use wg_wrapper.Wg.{Wg, Peer}

abbrev pub decode_base64 : Text → Option Bytes
decode_base64 s = some s

abbrev pub key_a : Text
key_a = codes "0123456789abcdef0123456789abcdef"

abbrev pub key_b : Text
key_b = codes "0123456789ABCDEF0123456789ABCDEF"

abbrev pub ten : ℕ → ℕ
ten n = 10 * 2 ^ 24 + 8 * 2 ^ 16 + n

abbrev pub tunnel : Block
tunnel = record { base = ten 0; host = 8 }

abbrev pub only : ℕ → Block
only n = record { base = ten n; host = 0 }

abbrev pub peer : Text → ℕ → PeerConfig Block
peer key n = record {
  public_key = key;
  preshared_key = none;
  allowed_ips = only n ∷ [];
  upstream = none;
}

abbrev pub two_peers : Config Block
two_peers = record {
  private_key = key_a;
  address = tunnel;
  mtu = none;
  listen_udp = some (record { ip = v4 0; port = 51820 });
  listen_ws = none;
  upstream = codes "socks5://a:b@h:1080";
  dns = none;
  allow_private = false;
  udp_idle_secs = none;
  tcp_idle_secs = none;
  peers = peer key_a 2 ∷ peer key_b 3 ∷ [];
}

abbrev pub up : Upstream
up = record { addr = codes "h:1080"; auth = some (codes "a", codes "b") }

abbrev pub alice : Peer plain
alice = record { public_key = key_a; endpoint = none; tunn = [] }

abbrev pub bob : Peer plain
bob = record { public_key = key_b; endpoint = none; tunn = [] }

abbrev pub endpoint_ab : Wg plain
endpoint_ab = record {
  private = key_a;
  peers = alice ∷ bob ∷ [];
  by_key = (key_b, 1) ∷ (key_a, 0) ∷ [];
  limiter = tt;
  last_reset = 0;
}

abbrev pub tables : Tables blocks plain
tables = record {
  wg = endpoint_ab;
  allowed = (only 2, 0) ∷ (only 3, 1) ∷ [];
  upstreams = up ∷ up ∷ [];
}

-- A packet from 10.8.0.2 to 1.2.3.4.
abbrev pub packet : Bytes
packet = b'E' ∷ 0 ∷ 0 ∷ 20 ∷ 0 ∷ 0 ∷ 0 ∷ 0 ∷ 64 ∷ 6 ∷ 0 ∷ 0 ∷ 10 ∷ 8 ∷ 0 ∷ 2 ∷ 1 ∷ 2 ∷ 3 ∷ 4 ∷ []

abbrev pub home : SocketAddr
home = record { ip = v4 (93 * 2 ^ 24); port = 4000 }

abbrev pub settings : Settings blocks plain numbers
settings = record { wg_net = tunnel; allow_private = false; allowed = tables.allowed }

abbrev pub before : State blocks plain numbers
before = record { wg = endpoint_ab; sent = []; to_stack = [] }

abbrev pub roamed : Wg plain
roamed = record endpoint_ab { peers = record alice { endpoint = some home } ∷ bob ∷ [] }

abbrev pub after : State blocks plain numbers
after = record { wg = roamed; sent = []; to_stack = packet ∷ [] }

-- A reply to 10.8.0.2, for whom an address is known by now.
abbrev pub reply : Bytes
reply = b'E' ∷ 0 ∷ 0 ∷ 20 ∷ 0 ∷ 0 ∷ 0 ∷ 0 ∷ 64 ∷ 6 ∷ 0 ∷ 0 ∷ 1 ∷ 2 ∷ 3 ∷ 4 ∷ 10 ∷ 8 ∷ 0 ∷ 2 ∷ []

abbrev pub syn : TcpHeader
syn = record {
  source_port = 1000;
  destination_port = 80;
  sequence_number = 7;
  acknowledgment_number = 0;
  window_size = 100;
  syn = true;
  rst = false;
  ack = false;
}
