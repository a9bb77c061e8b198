-- ===== src/Tests/Servers.antt =====
-- The server's theorems at a small configuration.
use wg_wrapper.Base.{
  err, ℕ, ◌+◌, ◌*◌, ◌^◌, ◌≡◌, refl, ◌↔◌, ◌≤◌, Memᴰ, not, ◌&&◌, ◌||◌, true, false, List, [], ◌∷◌,
  Bytes, Option, none, some, ok, length, arith,
}
use wg_wrapper.Addr.{v4}
use wg_wrapper.Config.Accepts.{IsValid}
use wg_wrapper.Config.Exact.{validate_iff}
use wg_wrapper.Config.{Config, validate}
use wg_wrapper.Routing.{peer_for}
use wg_wrapper.Routing.Longest.{peer_for-longest}
use wg_wrapper.Rst.Mirror.{Refuses, Carries, tcp_rst-mirrors}
use wg_wrapper.Rst.{TcpHeader, reset_for, tcp_rst}
use wg_wrapper.Server.Inbound.Isolated.{Handed, on_datagram-Handed}
use wg_wrapper.Server.Outbound.Owner.{Delivers, on_reply-Delivers}
use wg_wrapper.Server.Outbound.{on_reply}
use wg_wrapper.Server.Setup.Routes.{RoutesTo}
use wg_wrapper.Server.Setup.{setup, bad_peer}
use wg_wrapper.Server.Setup.Outcome.{Outcome, setup-Outcome}
use wg_wrapper.Server.Setup.Built.{setup-Serves}
use wg_wrapper.Server.Inbound.{on_datagram}
use wg_wrapper.Isolation.{allowed_dst}
use wg_wrapper.Isolation.Blocks.{canonical, in_host_block, in_private_block}
use wg_wrapper.Isolation.Sound.{allowed_dst-blocks}
use wg_wrapper.Keys.{decode_key}
use wg_wrapper.Text.{trim, strip_prefix, split_once, rsplit_once, from_str_radix}
use wg_wrapper.Tests.Instances.{
  Block, blocks, blocks-NetLaws, plain, plain-IsAddr, numbers, numbers-BuildsParse, written,
}
use wg_wrapper.Upstream.{Upstream, parse_upstream, authority, credentials}
use wg_wrapper.Wg.{Wg, Peer, duplicate_peer, Received, add_peer, recv_from_network}
use wg_wrapper.Tests.Data.{
  decode_base64, key_a, ten, tunnel, only, peer, two_peers, endpoint_ab, tables, packet, home,
  settings, before, after, reply, syn,
}

validates : validate blocks decode_base64 two_peers ≡ ok tt
unfolding validate decode_key trim parse_upstream strip_prefix authority rsplit_once credentials
    split_once from_str_radix
validates = refl

sets_up : setup blocks plain decode_base64 (λ k. k) 0 two_peers ≡ ok tables
unfolding setup parse_upstream strip_prefix authority rsplit_once credentials split_once
    from_str_radix decode_key trim add_peer wg_wrapper.Wg.lookup wg_wrapper.Wg.new
    wg_wrapper.Base.bytes_eq wg_wrapper.Upstream.percent_decode
sets_up = refl

setup-Outcome_example :
    Outcome blocks plain decode_base64
      (λ k. k)
      0
      blocks-NetLaws
      two_peers
      (setup blocks plain decode_base64 (λ k. k) 0 two_peers)
setup-Outcome_example =
    setup-Outcome blocks plain decode_base64 (λ k. k) 0 blocks-NetLaws two_peers validates

-- One key for two peers: accepted by `validate`, and refused when the endpoint is built.
abbrev one_key : Config Block
one_key = record two_peers { peers = peer key_a 2 ∷ peer key_a 3 ∷ [] }

one_key_is_refused_late :
    (validate blocks decode_base64 one_key ≡ ok tt)
    × (setup blocks plain decode_base64 (λ k. k) 0 one_key ≡ err (bad_peer duplicate_peer))
unfolding setup validate parse_upstream strip_prefix authority rsplit_once credentials split_once
    from_str_radix decode_key trim add_peer wg_wrapper.Wg.lookup wg_wrapper.Wg.new
    wg_wrapper.Base.bytes_eq wg_wrapper.Upstream.percent_decode
one_key_is_refused_late = (refl, refl)

validate_iff_example :
    (validate blocks decode_base64 two_peers ≡ ok tt) ↔ IsValid blocks decode_base64 two_peers
validate_iff_example = validate_iff blocks decode_base64 blocks-NetLaws two_peers

-- 10.8.0.1 is in the tunnel, 10.0.0.1 in a private block.
allowed_dst-blocks_example : allowed_dst blocks tunnel (v4 (10 * 2 ^ 24 + 1)) true ≡ (
    not (blocks.contains tunnel (v4 (10 * 2 ^ 24 + 1)))
    && (not (blocks.contains tunnel (canonical (v4 (10 * 2 ^ 24 + 1))))
        && (not (in_host_block (canonical (v4 (10 * 2 ^ 24 + 1))))
            && (true || not (in_private_block (canonical (v4 (10 * 2 ^ 24 + 1))))))))
allowed_dst-blocks_example =
    allowed_dst-blocks blocks tunnel (v4 (10 * 2 ^ 24 + 1)) true (omega arith)

takes : on_datagram blocks plain numbers 2 settings before home (4 ∷ 0 ∷ packet) ≡ some after
unfolding on_datagram recv_from_network wg_wrapper.Wg.origin wg_wrapper.Wg.drain_loop
    wg_wrapper.Keys.src_address peer_for wg_wrapper.Routing.max_by_key wg_wrapper.Routing.max_from
    allowed_dst wg_wrapper.Isolation.refused_v4 wg_wrapper.Isolation.private_v4
takes = refl

on_datagram-Handed_example :
    (r : Received plain) × (recv_from_network plain 2 endpoint_ab home (4 ∷ 0 ∷ packet) [] []
      ≡ some r)
    × Handed blocks plain numbers settings before after home r
on_datagram-Handed_example =
    on_datagram-Handed blocks plain numbers 2 settings before after home (4 ∷ 0 ∷ packet)
      plain-IsAddr (omega arith) takes

setup-Serves_routes : RoutesTo blocks two_peers.peers tables.allowed
setup-Serves_routes =
    (setup-Serves blocks plain decode_base64 (λ k. k) 0 two_peers tables blocks-NetLaws validates
      sets_up).routes_to

on_reply-Delivers_example :
    Delivers blocks plain numbers 0 reply after
      (on_reply blocks plain numbers tables.allowed after reply)
on_reply-Delivers_example =
    on_reply-Delivers blocks plain numbers two_peers.peers tables.allowed after reply (v4 (ten 2)) 0
      (peer key_a 2) (only 2) setup-Serves_routes refl refl (Memᴰ.head refl) refl

routed : peer_for blocks tables.allowed (v4 (ten 3)) ≡ some 1
unfolding peer_for wg_wrapper.Routing.max_by_key wg_wrapper.Routing.max_from
routed = refl

peer_for-longest_example :
    (n : Block) × Memᴰ {A = Block × ℕ} (n, 1) tables.allowed
    × (blocks.contains n (v4 (ten 3)) ≡ true)
    × ((m : Block) (j : ℕ)
        → Memᴰ {A = Block × ℕ} (m, j) tables.allowed
        → blocks.contains m (v4 (ten 3)) ≡ true
        → blocks.prefix_len m ≤ blocks.prefix_len n)
peer_for-longest_example = peer_for-longest blocks tables.allowed (v4 (ten 3)) 1 routed

answered : tcp_rst numbers (written 3 4 64 syn) ≡ some (written 4 3 64 (reset_for syn))
unfolding tcp_rst
answered = refl

tcp_rst-mirrors_example :
    (syn.rst ≡ false)
    × (u : TcpHeader) × Carries numbers (written 4 3 64 (reset_for syn)) 4 3 u
    × Refuses syn u
    × (tcp_rst numbers (written 4 3 64 (reset_for syn)) ≡ none)
tcp_rst-mirrors_example =
    tcp_rst-mirrors numbers (written 3 4 64 syn) 3 4 syn (written 4 3 64 (reset_for syn))
      numbers-BuildsParse (record { parses = refl }) answered
