-- ===== src/Config/Exact.antt =====
-- `validate` succeeds on the valid configurations, and on no others.
use wg_wrapper.Base.{
  ◌≡◌, refl, sym, ap, ◌∙◌, subst, Bool, true, false, not, ◌||◌, List, [], ◌∷◌, ◌++◌, Bytes, Option,
  none, some, All, All-append, All-left, All-right, arith, Result, ok, err, >>=-eq-ok, ensure,
  ensure-eq-ok, done, ◌↔◌,
}
use mathlib.Core.List.{append_assoc, append-nil}
use wg_wrapper.Addr.{SocketAddr}
use wg_wrapper.Isolation.{allowed_dst}
use wg_wrapper.IpNet.{NetOps, NetLaws}
use wg_wrapper.Text.{Text}
use wg_wrapper.Config.Accepts.{
  Whenever, PeerFits, IsValid, all_nets, IsKey-sound, key_complete, psk_sound, psk_complete,
  upstream_sound, upstream_complete, peer_upstream_sound, peer_upstream_complete, ws_sound,
  ws_complete,
}
use wg_wrapper.Config.Overlap.{Apart, check_nets_sound, check_nets_complete}
use wg_wrapper.Config.{
  Config, PeerConfig, no_listener, dns_refused, no_peers, no_allowed_ips, is_some, is_empty,
  check_ws, check_upstream, check_peer_upstream, check_key, check_psk, check_dns, check_peer,
  check_peers, validate,
}

not-true : (b : Bool) → not b ≡ true → b ≡ false
not-true b h = ground arith

done-ok {ℓ} : {E : Type 0} {A : Type ℓ} (m : Result E A) → done m ≡ ok tt → (a : A) × (m ≡ ok a)
done-ok (ok a) h = (a, refl)
done-ok (err e) h = cc

module _ (ops : NetOps) (decode_base64 : Text → Option Bytes) where
  open ops use {Net, contains, includes}

  dns_sound :
      (c : Config Net) (d : Option SocketAddr)
      → check_dns ops c d ≡ ok tt
      → Whenever (λ d. allowed_dst ops c.address d.ip c.allow_private ≡ true) d
  unfolding check_dns
  dns_sound c none e = tt
  dns_sound c (some d) e = ensure-eq-ok _ dns_refused e

  dns_complete :
      (c : Config Net) (d : Option SocketAddr)
      → Whenever (λ d. allowed_dst ops c.address d.ip c.allow_private ≡ true) d
      → check_dns ops c d ≡ ok tt
  unfolding check_dns
  dns_complete c none e = refl
  dns_complete c (some d) e = rw e

  module _ (laws : NetLaws ops) where
    peer_sound :
        (address : Net) (seen all : List Net) (p : PeerConfig Net)
        → check_peer ops decode_base64 address seen p ≡ ok all
        → Apart ops seen
        → PeerFits ops decode_base64 p
          × (all ≡ seen ++ p.allowed_ips)
          × Apart ops all
          × All (λ n. includes address n ≡ true) p.allowed_ips
    unfolding check_peer
    peer_sound address seen all p e a =
        let (_, key, e₁) = >>=-eq-ok (check_key ops decode_base64 p.public_key) _ e in
        let (_, psk, e₂) = >>=-eq-ok (check_psk ops decode_base64 p.preshared_key) _ e₁ in
        let (_, up, e₃) = >>=-eq-ok (check_peer_upstream p.upstream) _ e₂ in
        let (_, some_net, e₄) =
          >>=-eq-ok (ensure (not (is_empty p.allowed_ips)) no_allowed_ips) _ e₃ in
        let (same, apart, inside) = check_nets_sound ops laws address seen p.allowed_ips all e₄ a in
        (
          record {
            public_key = IsKey-sound ops decode_base64 p.public_key key;
            preshared_key = psk_sound ops decode_base64 p.preshared_key psk;
            upstream = peer_upstream_sound p.upstream up;
            some_net = not-true _ (ensure-eq-ok _ no_allowed_ips some_net);
          },
          same,
          apart,
          inside,
        )

    peer_complete :
        (address : Net) (seen : List Net) (p : PeerConfig Net)
        → PeerFits ops decode_base64 p
        → Apart ops (seen ++ p.allowed_ips)
        → All (λ n. includes address n ≡ true) p.allowed_ips
        → check_peer ops decode_base64 address seen p ≡ ok (seen ++ p.allowed_ips)
    unfolding check_peer
    peer_complete address seen p f a i =
        rw
          (
            key_complete ops decode_base64 p.public_key f.public_key,
            psk_complete ops decode_base64 p.preshared_key f.preshared_key,
            peer_upstream_complete p.upstream f.upstream,
            f.some_net,
          )
          (check_nets_complete ops laws address seen p.allowed_ips a i)

    Apart-left : (ns ms : List Net) → Apart ops (ns ++ ms) → Apart ops ns
    Apart-left [] ms a = tt
    Apart-left (n ∷ ns) ms a = (All-left _ ns ms a.0, Apart-left ns ms a.1)

    peers_sound :
        (address : Net) (seen all : List Net) (ps : List (PeerConfig Net))
        → check_peers ops decode_base64 address seen ps ≡ ok all
        → Apart ops seen
        → All (PeerFits ops decode_base64) ps
          × (all ≡ seen ++ all_nets ops ps)
          × Apart ops all
          × All (λ n. includes address n ≡ true) (all_nets ops ps)
    unfolding check_peers
    peers_sound address seen all [] e a =
        let same : seen ≡ all = ground arith in
        (tt, rw (append-nil, same), subst (Apart ops) same a, tt)
    peers_sound address seen all (p ∷ ps) e a =
        let (seen', first, e₁) = >>=-eq-ok (check_peer ops decode_base64 address seen p) _ e in
        let (fits, grown, apart, inside) = peer_sound address seen seen' p first a in
        let (rest, same, apart', inside') = peers_sound address seen' all ps e₁ apart in
        (
          (fits, rest),
          same
              ∙ ap (λ l. l ++ all_nets ops ps) grown
              ∙ append_assoc seen p.allowed_ips (all_nets ops ps),
          apart',
          All-append _ p.allowed_ips (all_nets ops ps) inside inside',
        )

    peers_complete :
        (address : Net) (seen : List Net) (ps : List (PeerConfig Net))
        → All (PeerFits ops decode_base64) ps
        → Apart ops (seen ++ all_nets ops ps)
        → All (λ n. includes address n ≡ true) (all_nets ops ps)
        → check_peers ops decode_base64 address seen ps ≡ ok (seen ++ all_nets ops ps)
    unfolding check_peers
    peers_complete address seen [] f a i = rw append-nil
    peers_complete address seen (p ∷ ps) f a i =
        let again = append_assoc seen p.allowed_ips (all_nets ops ps) in
        let apart = subst (Apart ops) (sym again) a in
        rw
          (peer_complete address seen p f.0
            (Apart-left (seen ++ p.allowed_ips) (all_nets ops ps) apart)
            (All-left _ p.allowed_ips (all_nets ops ps) i))
          (peers_complete address (seen ++ p.allowed_ips) ps f.1 apart
              (All-right _ p.allowed_ips (all_nets ops ps) i)
            ∙ ap ok again)

    validate_sound :
        (c : Config Net) → validate ops decode_base64 c ≡ ok tt → IsValid ops decode_base64 c
    unfolding validate
    validate_sound c e =
        let (_, listens, e₁) =
          >>=-eq-ok (ensure (is_some c.listen_udp || is_some c.listen_ws) no_listener) _ e in
        let (_, key, e₂) = >>=-eq-ok (check_key ops decode_base64 c.private_key) _ e₁ in
        let (_, up, e₃) = >>=-eq-ok (check_upstream c.upstream) _ e₂ in
        let (_, ws, e₄) = >>=-eq-ok (check_ws c.listen_ws) _ e₃ in
        let (_, dns, e₅) = >>=-eq-ok (check_dns ops c c.dns) _ e₄ in
        let (_, peers, e₆) = >>=-eq-ok (ensure (not (is_empty c.peers)) no_peers) _ e₅ in
        let (all, checked) = done-ok (check_peers ops decode_base64 c.address [] c.peers) e₆ in
        let (fits, same, apart, inside) = peers_sound c.address [] all c.peers checked tt in
        record {
          listens = ensure-eq-ok _ no_listener listens;
          private_key = IsKey-sound ops decode_base64 c.private_key key;
          upstream = upstream_sound c.upstream up;
          ws = ws_sound c.listen_ws ws;
          dns = dns_sound c c.dns dns;
          some_peer = not-true _ (ensure-eq-ok _ no_peers peers);
          peers = fits;
          inside = inside;
          apart = subst (Apart ops) same apart;
        }

    validate_complete :
        (c : Config Net) → IsValid ops decode_base64 c → validate ops decode_base64 c ≡ ok tt
    unfolding validate
    validate_complete c v = rw (
      v.listens,
      key_complete ops decode_base64 c.private_key v.private_key,
      upstream_complete c.upstream v.upstream,
      ws_complete c.listen_ws v.ws,
      dns_complete c c.dns v.dns,
      v.some_peer,
      peers_complete c.address [] c.peers v.peers v.apart v.inside,
    )

    -- A configuration is accepted exactly if it has a listener, its keys and upstreams parse, the
    -- WebSocket listener has both TLS files or neither and a path with a slash in front, the forced
    -- resolver is reachable, there are peers and each has networks, and all networks lie inside
    -- the tunnel subnet and share no address.
    pub validate_iff :
        (c : Config Net) → (validate ops decode_base64 c ≡ ok tt) ↔ IsValid ops decode_base64 c
    validate_iff c = (validate_sound c, validate_complete c)
