-- ===== src/Tests/Confs.antt =====
-- Configurations of the client, read with networks of both families.
use wg_wrapper.Base.{
  ℕ, ◌+◌, ◌-◌, ◌*◌, ◌/◌, ◌^◌, ◌≡◌, refl, Bool, true, false, ◌&&◌, List, [], ◌∷◌, ◌++◌, Bytes,
  Option, none, some, leb, ◌==◌, ◌&&◌, if◌then◌else◌, Result, ok, err,
}
use Prim.Native.String.{String}
use wg_wrapper.Addr.{v4, v6}
use wg_wrapper.Addr.Display.{display}
use wg_wrapper.Text.{Text, codes, parse_u16, split_once}
use wg_wrapper.Tests.Cidrs.{Cidr, cidrs, cidrs_text}
use wg_wrapper.WgClient.Conf.{parse_conf}
use wg_wrapper.WgClient.Resolve.{url_target, unsupported_scheme}
use wg_wrapper.WgClient.{ClientConfig, udp_host}

-- A key of the tests is any text of 32 characters.
abbrev pub plain_key : Text → Option Bytes
plain_key s = some s

-- the lines of a text
abbrev pub text_of : List String → Text
text_of [] = []
text_of (line ∷ lines) = codes line ++ 10 ∷ text_of lines

abbrev pub full_conf : Text
full_conf = text_of (
    "" ∷ "[Interface]  # our side" ∷ " PrivateKey = 0123456789abcdef0123456789abcdef"
    ∷ " Address = 10.7.0.2/32, fd00::2/128" ∷ "  DNS = 1.1.1.1, 9.9.9.9, corp.example" ∷ " MTU=1400"
    ∷ "" ∷ "[Peer]" ∷ " PublicKey=0123456789ABCDEF0123456789ABCDEF"
    ∷ " allowedips = 0.0.0.0/0, ::/0" ∷ " Endpoint = vpn.example.com:51820"
    ∷ " PersistentKeepalive = 25" ∷ [])

abbrev pub full_config : ClientConfig Cidr
full_config = record {
  private_key = codes "0123456789abcdef0123456789abcdef";
  peer_public_key = codes "0123456789ABCDEF0123456789ABCDEF";
  preshared_key = none;
  address = record { ip = v4 0x0a070002; len = 32 };
  dns = v4 0x01010101 ∷ v4 0x09090909 ∷ [];
  endpoint = udp_host (codes "vpn.example.com:51820");
  allowed_ips = record { ip = v4 0; len = 0 } ∷ record { ip = v6 0; len = 0 } ∷ [];
  mtu = 1400;
  keepalive = some 25;
}

pub full_conf_parses : parse_conf cidrs cidrs_text plain_key full_conf ≡ ok full_config
unfolding parse_conf wg_wrapper.Base.bytes_eq wg_wrapper.Keys.decode_key
    wg_wrapper.Text.from_str_radix wg_wrapper.Text.rsplit_once wg_wrapper.Text.Pieces.starts_with
full_conf_parses = refl

url_targets :
    (url_target (codes "wss://127.0.0.1/tunnel") ≡ ok (codes "127.0.0.1", 443))
    × (url_target (codes "ws://127.0.0.1/tunnel") ≡ ok (codes "127.0.0.1", 80))
    × (url_target (codes "wss://[::1]:9443/x") ≡ ok (codes "::1", 9443))
    × (url_target (codes "WSS://u:p@h:8443/a?b=c") ≡ ok (codes "h", 8443))
    × (url_target (codes "http://127.0.0.1/x") ≡ err (unsupported_scheme (codes "http")))
unfolding url_target split_once wg_wrapper.Text.from_str_radix
url_targets = (refl, refl, refl, refl, refl)

displays :
    (display (v4 0x0a070002) ≡ codes "10.7.0.2")
    × (display (v6 1) ≡ codes "::1")
    × (display (v6 0) ≡ codes "::")
    × (display (v6 0xfd00000000000000000000000000000a) ≡ codes "fd00::a")
    × (display (v6 0x00010000000000020000000000030004) ≡ codes "1::2:0:0:3:4")
    × (display (v6 0x0000000000000000000000010a070002) ≡ codes "::1:a07:2")
unfolding display
displays = (refl, refl, refl, refl, refl, refl)
