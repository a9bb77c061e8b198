-- ===== src/WgClient/Adapter/Open.antt =====
-- `win::open`, from the started session on; the adapter's name and index are arguments.
use wg_wrapper.Base.{
  ℕ, Bool, false, ◌&&◌, List, [], ◌∷◌, ◌++◌, any, Option, none, some, ◌==◌, if◌then◌else◌, ok, err,
}
use wg_wrapper.Addr.{IpAddr, v4, v6}
use wg_wrapper.Addr.Display.{display, display_v4, display_v6}
use wg_wrapper.IpNet.{NetOps, NetText}
use wg_wrapper.Text.{Text, codes}
use wg_wrapper.WgClient.{ClientConfig}
use wg_wrapper.WgClient.Routes.{Routes, parse_routes}
use wg_wrapper.WgClient.Adapter.{
  Argv, no_gateway, bad_half, Action, ok_or, done, return, ◌>>=◌, ◌>>◌, Os, run, run_undone,
}
use wg_wrapper.WgClient.Adapter.Commands.{
  print_routes, route_add, route_delete, route_v6, host_mask, metric_one, metric_one_if,
  interface_text,
}
use wg_wrapper.WgClient.Adapter.Setup.{is_ipv4, set_address, set_metrics, configure_dns}

abbrev pub same_ip : IpAddr → IpAddr → Bool
same_ip (v4 a) (v4 b) = a == b
same_ip (v6 a) (v6 b) = a == b
same_ip _ _ = false

-- cfg.dns.iter().filter(|d| seen.insert(**d))
unfoldable pub distinct : List IpAddr → List IpAddr → List IpAddr
distinct seen [] = []
distinct seen (d ∷ ds) =
    let rest = distinct (d ∷ seen) ds in if any (same_ip d) seen then rest else d ∷ rest

module _ (os : Os) (name : Text) (index : ℕ) where
  -- The gateway stays on its link, and the server behind the gateway.
  unfoldable pub pin_server : (server gateway iface : Text) → Action (Unit {0})
  unfolding run_undone
  pin_server server gateway iface = do
    run_undone os (route_add gateway host_mask iface metric_one)
        (route_delete gateway host_mask iface)
    run_undone os (route_add server host_mask gateway metric_one)
        (route_delete server host_mask gateway)

  -- an IPv4 route through the adapter, whose address is `ip`
  abbrev pub through : (ip dest mask : Text) → Argv
  through ip dest mask = route_add dest mask ip (metric_one_if index)

  -- The loop over the local networks; the tunnel's own stays.
  unfoldable pub add_lan : (ip : Text) → (own own_mask : IpAddr) → List (ℕ × ℕ) → Action (Unit {0})
  unfolding run_undone display_v4 metric_one_if
  add_lan ip own own_mask [] = done
  add_lan ip own own_mask ((dest, mask) ∷ lan) =
      if same_ip (v4 dest) own && same_ip (v4 mask) own_mask
      then add_lan ip own own_mask lan
      else (do
        run_undone os (through ip (display_v4 dest) (display_v4 mask))
            (route_delete (display_v4 dest) (display_v4 mask) ip)
        add_lan ip own own_mask lan)

  -- The loop over the servers, each with a route of its own.
  unfoldable pub add_dns_routes : (ip : Text) → List IpAddr → Action (Unit {0})
  unfolding run_undone display_v4 display_v6 metric_one_if interface_text
  add_dns_routes ip [] = done
  add_dns_routes ip (v4 a ∷ ds) = do
    run_undone os (through ip (display_v4 a) host_mask) (route_delete (display_v4 a) host_mask ip)
    add_dns_routes ip ds
  add_dns_routes ip (v6 a ∷ ds) = do
    run_undone os (route_v6 (codes "add") (display_v6 a ++ codes "/128") (interface_text index) [])
        (route_v6 (codes "delete") (display_v6 a ++ codes "/128") (interface_text index) [])
    add_dns_routes ip ds

  module _ (ops : NetOps) (cidr : NetText ops) where
    open ops use {Net, addr, prefix_len}

    -- a default route of IPv4
    abbrev pub is_default : Net → Bool
    is_default n = is_ipv4 (addr n) && prefix_len n == 0

    -- vec!["0.0.0.0/1".parse()?, "128.0.0.0/1".parse()?, *net]
    abbrev pub halves : Net → Option Net → Option Net → Action (List Net)
    halves n (some low) (some high) d = (ok (low ∷ high ∷ n ∷ []), d)
    halves n (some low) none d = (err bad_half, d)
    halves n none high d = (err bad_half, d)

    -- A default route is split in two halves, and rides along.
    unfoldable pub parts_of : Net → Action (List Net)
    parts_of n =
        if is_default n
        then halves n (cidr.parse (codes "0.0.0.0/1")) (cidr.parse (codes "128.0.0.0/1"))
        else return (n ∷ [])

    -- The match on one part.
    unfoldable pub add_part : (ip : Text) → Net → IpAddr → Action (Unit {0})
    unfolding run_undone display metric_one_if interface_text
    add_part ip n (v4 a) =
        run_undone os (through ip (display (v4 a)) (display (cidr.netmask n)))
          (route_delete (display (v4 a)) (display (cidr.netmask n)) ip)
    add_part ip n (v6 a) =
        run_undone os (route_v6 (codes "add") (cidr.to_string n) (interface_text index) [])
          (route_v6 (codes "delete") (cidr.to_string n) (interface_text index) [])

    unfoldable pub add_parts : (ip : Text) → List Net → Action (Unit {0})
    unfolding add_part
    add_parts ip [] = done
    add_parts ip (n ∷ ns) = do add_part ip n (addr n); add_parts ip ns

    -- The loop over the allowed networks.
    unfoldable pub add_allowed : (ip : Text) → List Net → Action (Unit {0})
    unfolding parts_of add_parts
    add_allowed ip [] = done
    add_allowed ip (n ∷ ns) = do parts ← parts_of n; add_parts ip parts; add_allowed ip ns

    -- A full tunnel takes the local networks too.
    unfoldable pub swallow_lan : (ip : Text) → Net → List Net → List (ℕ × ℕ) → Action (Unit {0})
    unfolding add_lan
    swallow_lan ip address allowed lan =
        if any is_default allowed
        then add_lan ip (cidr.network address) (cidr.netmask address) lan
        else done

    -- One half of the IPv6 addresses, unless it is allowed.
    unfoldable pub block_half : List Net → Text → Action (Unit {0})
    unfolding run_undone interface_text
    block_half allowed half = do
      net ← ok_or (cidr.parse half) bad_half
      (if any (cidr.equal net) allowed
          then done
          else run_undone os
              (route_v6 (codes "add") half (interface_text index) (codes "metric=1" ∷ []))
              (route_v6 (codes "delete") half (interface_text index) []))

    -- Behind the adapter's DNS servers.
    unfoldable pub add_routes : ClientConfig Net → (server : IpAddr) → Routes → Action (Unit {0})
    unfolding pin_server add_allowed swallow_lan block_half add_dns_routes display display_v4
        distinct
    add_routes cfg server routes = do
      (gateway, iface) ← ok_or routes.default no_gateway
      pin_server (display server) (display_v4 gateway) (display_v4 iface)
      add_allowed (display (addr cfg.address)) cfg.allowed_ips
      swallow_lan (display (addr cfg.address)) cfg.address cfg.allowed_ips routes.lan
      block_half cfg.allowed_ips (codes "::/1")
      block_half cfg.allowed_ips (codes "8000::/1")
      add_dns_routes (display (addr cfg.address)) (distinct [] cfg.dns)

    unfoldable pub open_adapter : ClientConfig Net → (server : IpAddr) → Action (Unit {0})
    unfolding set_address set_metrics configure_dns run parse_routes add_routes display
    open_adapter cfg server = do
      set_address os name index (display (addr cfg.address)) (display (cidr.netmask cfg.address))
          cfg.mtu
      set_metrics os name index
      configure_dns os name index cfg.dns
      text ← run os print_routes
      add_routes cfg server (parse_routes text)
