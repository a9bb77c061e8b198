-- ===== src/WgClient/Conf.antt =====
-- crates/wgclient/src/lib.rs: `parse_conf`. A map is an association list with the newest entry in
-- front; every key is taken out once, so a look-up stands for the removal.
pub mod Fits
pub mod Written
use wg_wrapper.Base.{
  ℕ, Bool, true, false, not, ◌||◌, List, [], ◌∷◌, Bytes, Option, none, some, ltb, if◌then◌else◌,
  bytes_eq, Result, ok, err, ◌>>=◌, ◌>>◌, ensure, ok_or, map_err, done,
}
use wg_wrapper.Addr.{IpAddr, v4, v6, SocketAddr}
use wg_wrapper.Addr.Parse.{parse_ip, parse_socket}
use wg_wrapper.IpNet.{NetOps, NetText}
use wg_wrapper.Keys.{KeyError, decode_key}
use wg_wrapper.Text.{
  Text, codes, trim, trim_end_matches, strip_prefix, split_once, rsplit_once, parse_u16,
}
use wg_wrapper.Text.Pieces.{
  to_ascii_lowercase, is_empty, starts_with, split, first_piece, at_char, lines,
}
use wg_wrapper.WgClient.{Endpoint, udp, udp_host, ws, ClientConfig}

pub data ConfError : Type 0 where
  malformed_line : Text → ConfError
  unknown_section : (key section : Text) → ConfError
  no_private_key no_public_key no_address no_endpoint : ConfError
  bad_private_key bad_public_key bad_preshared_key : KeyError → ConfError
  bad_address bad_prefix bad_mtu bad_keepalive : ConfError
  bad_allowed_ip bad_endpoint : Text → ConfError

-- HashMap::get on texts
unfoldable pub get : Text → List (Text × Text) → Option Text
get k [] = none
get k ((j, v) ∷ m) = if bytes_eq j k then some v else get k m

-- The variables of the loop over the lines.
pub record Sections : Type 0 where
  pub section : Text
  pub iface : List (Text × Text)
  pub peer : List (Text × Text)

-- The match on the section.
unfoldable pub assign : Sections → Text → Text → Result ConfError Sections
assign s k v =
    if bytes_eq s.section (codes "interface")
    then ok (record s { iface = (k, v) ∷ s.iface })
    else if bytes_eq s.section (codes "peer")
    then ok (record s { peer = (k, v) ∷ s.peer })
    else err (unknown_section k s.section)

-- A line that is not empty: `raw` as it stands, `line` without comment and blanks.
unfoldable pub read_entry : Sections → Text → Text → Option Text → Result ConfError Sections
unfolding assign trim trim_end_matches
read_entry s raw line (some name) =
    ok (record s { section = to_ascii_lowercase (trim (trim_end_matches (at_char b']') name)) })
read_entry s raw line none = do
  (k, v) ← ok_or (split_once b'=' line) (malformed_line raw)
  assign s (to_ascii_lowercase (trim k)) (trim v)

-- The body of the loop.
unfoldable pub read_line : Sections → Text → Result ConfError Sections
unfolding read_entry first_piece trim strip_prefix
read_line s raw =
    let line = trim (first_piece (at_char b'#') [] raw) in
    if is_empty line then ok s else read_entry s raw line (strip_prefix (codes "[") line)

unfoldable pub read_lines : Sections → List Text → Result ConfError Sections
unfolding read_line
read_lines s [] = ok s
read_lines s (raw ∷ raws) = do s' ← read_line s raw; read_lines s' raws

abbrev pub no_sections : Sections
no_sections = record { section = []; iface = []; peer = [] }

-- matches!(v, "true"|"1"|"yes"|"on")
unfoldable pub is_yes : Text → Bool
unfolding bytes_eq
is_yes v =
    bytes_eq v (codes "true")
    || bytes_eq v (codes "1")
    || bytes_eq v (codes "yes")
    || bytes_eq v (codes "on")

-- Option::is_some_and, of `insecuretls`
abbrev pub insecure_tls : Option Text → Bool
insecure_tls none = false
insecure_tls (some v) = is_yes (to_ascii_lowercase v)

-- starts_with("wss://") || starts_with("ws://")
abbrev pub is_ws : Text → Bool
is_ws lower = starts_with (codes "wss://") lower || starts_with (codes "ws://") lower

abbrev pub is_none {ℓ} : {A : Type ℓ} → Option A → Bool
is_none none = true
is_none (some _) = false

-- The match on `raw_endpoint.parse::<SocketAddr>()`.
unfoldable pub udp_endpoint : Text → Option SocketAddr → Result ConfError Endpoint
udp_endpoint raw (some a) = ok (udp a)
udp_endpoint raw none = do
  (host, port) ← ok_or (rsplit_once b':' raw) (bad_endpoint raw)
  ensure (not (is_empty host || is_none (parse_u16 port))) (bad_endpoint raw)
  ok (udp_host raw)

unfoldable pub parse_endpoint : Text → Bool → Result ConfError Endpoint
unfolding udp_endpoint parse_socket
parse_endpoint raw insecure =
    if is_ws (to_ascii_lowercase raw)
    then ok (ws raw insecure)
    else udp_endpoint raw (parse_socket raw)

-- if matches!(endpoint, Endpoint::Ws{..}){1380}else{1420}
abbrev pub default_mtu : Endpoint → ℕ
default_mtu (ws _ _) = 1380
default_mtu (udp _) = 1420
default_mtu (udp_host _) = 1420

unfoldable pub parse_mtu : Endpoint → Option Text → Result ConfError ℕ
parse_mtu e none = ok (default_mtu e)
parse_mtu e (some m) = ok_or (parse_u16 m) bad_mtu

unfoldable pub parse_keepalive : Option Text → Result ConfError (Option ℕ)
parse_keepalive none = ok none
parse_keepalive (some k) = do
  n ← ok_or (parse_u16 k) bad_keepalive
  ok (if ltb 0 n then some n else none)

-- filter_map over the pieces
addresses : List Text → List IpAddr
unfolding parse_ip trim
addresses [] = []
addresses (d ∷ ds) =
    let rest = addresses ds in elim (parse_ip (trim d)) [ none ↦ rest | some a ↦ a ∷ rest ]

unfoldable pub parse_dns : Option Text → List IpAddr
unfolding addresses split
parse_dns none = []
parse_dns (some v) = addresses (split (at_char b',') v)

abbrev pub max_prefix : IpAddr → ℕ
max_prefix (v4 _) = 32
max_prefix (v6 _) = 128

module _ (ops : NetOps) (cidr : NetText ops) where
  open ops use {Net}

  -- The match on `first.split_once('/')`.
  net_of : Text → Option (Text × Text) → Result ConfError Net
  unfolding parse_ip
  net_of first (some _) = ok_or (cidr.parse first) bad_address
  net_of first none = do
    ip ← ok_or (parse_ip first) bad_address
    ok_or (cidr.new ip (max_prefix ip)) bad_prefix

  unfoldable pub parse_address : Text → Result ConfError Net
  unfolding net_of first_piece trim split_once
  parse_address address =
      let first = trim (first_piece (at_char b',') [] address) in
      net_of first (split_once b'/' first)

  -- An entry that is not blank, in front of the others.
  first_net : Text → Result ConfError (List Net) → Result ConfError (List Net)
  unfolding trim
  first_net s rest = do
    net ← ok_or (cidr.parse (trim s)) (bad_allowed_ip s)
    nets ← rest
    ok (net ∷ nets)

  nets_of : List Text → Result ConfError (List Net)
  unfolding trim first_net
  nets_of [] = ok []
  nets_of (s ∷ ss) = let rest = nets_of ss in if is_empty (trim s) then rest else first_net s rest

  unfoldable pub parse_allowed_ips : Option Text → Result ConfError (List Net)
  unfolding nets_of split
  parse_allowed_ips none = ok []
  parse_allowed_ips (some v) = nets_of (split (at_char b',') v)

  module _ (decode_base64 : Text → Option Bytes) where
    unfoldable pub check_key : (KeyError → ConfError) → Text → Result ConfError (Unit {0})
    check_key wrap k = done (map_err wrap (decode_key decode_base64 k))

    unfoldable pub check_psk : Option Text → Result ConfError (Unit {0})
    unfolding check_key
    check_psk none = ok tt
    check_psk (some psk) = check_key bad_preshared_key psk

    -- Behind the loop.
    unfoldable pub config_of :
        List (Text × Text) → List (Text × Text) → Result ConfError (ClientConfig Net)
    unfolding get check_key check_psk parse_address parse_allowed_ips parse_endpoint parse_mtu
        parse_keepalive parse_dns
    config_of iface peer = do
      private_key ← ok_or (get (codes "privatekey") iface) no_private_key
      check_key bad_private_key private_key
      peer_public_key ← ok_or (get (codes "publickey") peer) no_public_key
      check_key bad_public_key peer_public_key
      check_psk (get (codes "presharedkey") peer)
      address ← ok_or (get (codes "address") iface) no_address
      net ← parse_address address
      allowed_ips ← parse_allowed_ips (get (codes "allowedips") peer)
      raw ← ok_or (get (codes "endpoint") peer) no_endpoint
      endpoint ← parse_endpoint raw (insecure_tls (get (codes "insecuretls") peer))
      mtu ← parse_mtu endpoint (get (codes "mtu") iface)
      keepalive ← parse_keepalive (get (codes "persistentkeepalive") peer)
      ok (record {
        private_key = private_key;
        peer_public_key = peer_public_key;
        preshared_key = get (codes "presharedkey") peer;
        address = net;
        dns = parse_dns (get (codes "dns") iface);
        endpoint = endpoint;
        allowed_ips = allowed_ips;
        mtu = mtu;
        keepalive = keepalive;
      })

    unfoldable pub parse_conf : Text → Result ConfError (ClientConfig Net)
    unfolding read_lines lines config_of
    parse_conf text = do s ← read_lines no_sections (lines text); config_of s.iface s.peer
