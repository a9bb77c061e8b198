-- ===== src/WgClient/Adapter/Opened.antt =====
-- `open` that succeeds, from its first command to its last.
use wg_wrapper.Base.{
  All-map, ℕ, ◌≡◌, refl, ap, Bool, List, [], any, Option, none, some, bytes_eq, Result, ok, err,
  ok-eq,
}
use wg_wrapper.Addr.{IpAddr}
use wg_wrapper.Addr.Display.{display, display_v4}
use wg_wrapper.IpNet.{NetOps, NetText}
use wg_wrapper.Text.{Text, codes}
use wg_wrapper.WgClient.{ClientConfig}
use wg_wrapper.WgClient.Routes.{Routes, parse_routes}
use wg_wrapper.WgClient.Adapter.{
  Argv, OpenError, failed, no_gateway, Dev, ok_or, answered, Os, run, run_undone,
}
use wg_wrapper.WgClient.Adapter.Commands.{
  print_routes, route_add, route_delete, host_mask, metric_one,
}
use wg_wrapper.WgClient.Adapter.Open.{
  pin_server, add_dns_routes, is_default, add_allowed, swallow_lan, block_half, add_routes,
  open_adapter, distinct,
}
use wg_wrapper.WgClient.Adapter.Setup.{set_address, set_metrics, configure_dns}
use wg_wrapper.WgClient.Adapter.Inverse.{inverse_of}
use wg_wrapper.WgClient.Adapter.Stable
use wg_wrapper.WgClient.Adapter.Covered.{dns_route, add_dns_routes-ok}
use wg_wrapper.WgClient.Adapter.Succeeded.{
  Ran, ok_or-ok, flushes-Ran, run-Ran, run_undone-Ran, run_undone-ok,
}
use wg_wrapper.WgClient.Adapter.FullTunnel.{
  Grows, two_ok, add_allowed-Grows, add_allowed-ok, Blocked, block_half-ok, Later, later,
  Routed-later, RanUnless-later, distinct-All, swallow_lan-ok, LanTaken-later, Covered,
}

module _ (os : Os) (name : Text) (index : ℕ) (ops : NetOps) (cidr : NetText ops) where
  open ops use {Net, addr, prefix_len}

  then_later :
      (d e t : Dev)
      → Later os name index ops cidr d e
      → Later os name index ops cidr e t
      → Later os name index ops cidr d t
  then_later d e t f g k r = g k (f k r)

  swallow_lan-Grows :
      (ip : Text) (address : Net) (allowed : List Net) (lan : List (ℕ × ℕ))
      → Grows os name index ops cidr (swallow_lan os name index ops cidr ip address allowed lan)
  swallow_lan-Grows ip address allowed lan k =
      Stable.swallow_lan-Stable (Ran k) os (flushes-Ran os k) (run-Ran os k) (run_undone-Ran os k)
        name index ops cidr ip address allowed lan

  block_half-Grows :
      (allowed : List Net) (half : Text)
      → Grows os name index ops cidr (block_half os name index ops cidr allowed half)
  block_half-Grows allowed half k =
      Stable.block_half-Stable (Ran k) os (flushes-Ran os k) (run-Ran os k) (run_undone-Ran os k)
        name index ops cidr allowed half

  add_dns_routes-Grows :
      (ip : Text) (ds : List IpAddr)
      → Grows os name index ops cidr (add_dns_routes os name index ip ds)
  add_dns_routes-Grows ip ds k =
      Stable.add_dns_routes-Stable (Ran k) os (flushes-Ran os k) (run-Ran os k)
        (run_undone-Ran os k) name index ip ds

  run_undone-Grows :
      (c undo : Argv)
      → inverse_of c ≡ some undo
      → Grows os name index ops cidr (run_undone os c undo)
  run_undone-Grows c undo e k =
      Stable.run_undone-Stable (Ran k) os (flushes-Ran os k) (run-Ran os k) (run_undone-Ran os k) c
        undo e

  pin_server-ok :
      (server gateway iface : Text) (d t : Dev)
      → pin_server os name index server gateway iface d ≡ (ok tt, t)
      → Ran (route_add gateway host_mask iface metric_one) t
        × Ran (route_add server host_mask gateway metric_one) t
  unfolding pin_server inverse_of bytes_eq
  pin_server-ok server gateway iface d t h =
      let c₁ = route_add gateway host_mask iface metric_one in
      let u₁ = route_delete gateway host_mask iface in
      let c₂ = route_add server host_mask gateway metric_one in
      let u₂ = route_delete server host_mask gateway in
      let (_, s, first, last) =
        two_ok os name index ops cidr (run_undone os c₁ u₁) (λ u. run_undone os c₂ u₂) d t tt h in
      (
        later os name index ops cidr (run_undone os c₂ u₂) s t tt (run_undone-Grows c₂ u₂ refl) last
            c₁ (run_undone-ok os c₁ u₁ d s first),
        run_undone-ok os c₂ u₂ s t last,
      )

  Blocked-later :
      (d t : Dev) (allowed : List Net) (half : Text)
      → Later os name index ops cidr d t
      → Blocked os name index ops cidr d allowed half
      → Blocked os name index ops cidr t allowed half
  Blocked-later d t allowed half l (net, e, r) =
      (net, e, RanUnless-later os name index ops cidr (any (cidr.equal net) allowed) _ d t l r)

  add_routes-Covered :
      (cfg : ClientConfig Net) (server : IpAddr) (routes : Routes) (d t : Dev)
      → add_routes os name index ops cidr cfg server routes d ≡ (ok tt, t)
      → Covered os name index ops cidr cfg server routes t
  unfolding add_routes swallow_lan
  add_routes-Covered cfg server routes d t h =
      let ip = display (addr cfg.address) in
      let ((gw, iface), d₀, found, h₀) =
        two_ok os name index ops cidr (ok_or routes.default no_gateway) _ d t tt h in
      let (_, d₁, pins, h₁) =
        two_ok os name index ops cidr
          (pin_server os name index (display server) (display_v4 gw) (display_v4 iface)) _ d₀ t tt
          h₀ in
      let (_, d₂, nets, h₂) =
        two_ok os name index ops cidr (add_allowed os name index ops cidr ip cfg.allowed_ips) _ d₁ t
          tt h₁ in
      let (_, d₃, lans, h₃) =
        two_ok os name index ops cidr
          (swallow_lan os name index ops cidr ip cfg.address cfg.allowed_ips routes.lan) _ d₂ t tt
          h₂ in
      let (_, d₄, low, h₄) =
        two_ok os name index ops cidr
          (block_half os name index ops cidr cfg.allowed_ips (codes "::/1")) _ d₃ t tt h₃ in
      let (_, d₅, high, h₅) =
        two_ok os name index ops cidr
          (block_half os name index ops cidr cfg.allowed_ips (codes "8000::/1"))
          (λ u. add_dns_routes os name index ip (distinct [] cfg.dns)) d₄ t tt h₄ in
      let l₅ =
        later os name index ops cidr (add_dns_routes os name index ip (distinct [] cfg.dns)) d₅ t tt
          (add_dns_routes-Grows ip (distinct [] cfg.dns)) h₅ in
      let l₄ =
        then_later d₄ d₅ t
          (later os name index ops cidr
            (block_half os name index ops cidr cfg.allowed_ips (codes "8000::/1")) d₄ d₅ tt
            (block_half-Grows cfg.allowed_ips (codes "8000::/1")) high)
          l₅ in
      let l₃ =
        then_later d₃ d₄ t
          (later os name index ops cidr
            (block_half os name index ops cidr cfg.allowed_ips (codes "::/1")) d₃ d₄ tt
            (block_half-Grows cfg.allowed_ips (codes "::/1")) low)
          l₄ in
      let l₂ =
        then_later d₂ d₃ t
          (later os name index ops cidr
            (swallow_lan os name index ops cidr ip cfg.address cfg.allowed_ips routes.lan) d₂ d₃ tt
            (swallow_lan-Grows ip cfg.address cfg.allowed_ips routes.lan) lans)
          l₃ in
      let l₁ =
        then_later d₁ d₂ t
          (later os name index ops cidr (add_allowed os name index ops cidr ip cfg.allowed_ips) d₁
            d₂ tt (add_allowed-Grows os name index ops cidr ip cfg.allowed_ips) nets)
          l₂ in
      let (pin₁, pin₂) =
        pin_server-ok (display server) (display_v4 gw) (display_v4 iface) d₀ d₁ pins in
      record {
        pinned = (
          gw,
          iface,
          ok_or-ok routes.default no_gateway d d₀ (gw, iface) found,
          l₁ _ pin₁,
          l₁ _ pin₂,
        );
        allowed =
            All-map
              (λ n r.
                Routed-later os name index ops cidr ip d₂ t n (is_default os name index ops cidr n)
                  l₂ r)
              cfg.allowed_ips (add_allowed-ok os name index ops cidr ip cfg.allowed_ips d₁ d₂ nets);
        lan =
            LanTaken-later os name index ops cidr ip cfg routes.lan d₃ t
              (any (is_default os name index ops cidr) cfg.allowed_ips) l₃
              (swallow_lan-ok os name index ops cidr ip cfg routes.lan
                (any (is_default os name index ops cidr) cfg.allowed_ips) d₂ d₃ lans);
        low_half =
            Blocked-later d₄ t cfg.allowed_ips (codes "::/1") l₄
              (block_half-ok os name index ops cidr cfg.allowed_ips (codes "::/1") d₃ d₄ low);
        high_half =
            Blocked-later d₅ t cfg.allowed_ips (codes "8000::/1") l₅
              (block_half-ok os name index ops cidr cfg.allowed_ips (codes "8000::/1") d₄ d₅ high);
        dns =
            distinct-All os name index ops cidr (λ a. Ran (dns_route os name index ip a) t) []
              cfg.dns tt (add_dns_routes-ok os name index ip (distinct [] cfg.dns) d₅ t h₅);
      }

  answered-ok :
      (c : Argv) (o : Option Text) (d s : Dev) (text : Text)
      → answered c o d ≡ (ok text, s)
      → o ≡ some text
  answered-ok c none d s text h = absurd (never (ap (λ (p : Result OpenError Text × Dev). p.0) h))
    where
      never : ◌≡◌ {A = Result OpenError Text} (err (failed c)) (ok text) → ⊥
      never h = cc
  answered-ok c (some t) d s text h =
      ap some (ok-eq (ap (λ (p : Result OpenError Text × Dev). p.0) h))

  run-ok : (c : Argv) (d s : Dev) (text : Text) → run os c d ≡ (ok text, s) → os d.log c ≡ some text
  unfolding run
  run-ok c d s text h = answered-ok c (os d.log c) d s text h

  -- When `open` succeeds, the gateway and the server are pinned outside the tunnel, by the table
  -- that the system printed; every allowed network has a route through the tunnel, an IPv4 default
  -- route with both its halves, and with it every local network of the table but the tunnel's own;
  -- and so has either half of the IPv6 addresses that is not allowed, and every DNS server.
  pub open_adapter-Covered :
      (cfg : ClientConfig Net) (server : IpAddr) (d t : Dev)
      → open_adapter os name index ops cidr cfg server d ≡ (ok tt, t)
      → (log : List (Argv × Bool)) × (text : Text) × (os log print_routes ≡ some text)
        × Covered os name index ops cidr cfg server (parse_routes text) t
  unfolding open_adapter
  open_adapter-Covered cfg server d t h =
      let ip = display (addr cfg.address) in
      let (_, d₁, _, h₁) =
        two_ok os name index ops cidr
          (set_address os name index ip (display (cidr.netmask cfg.address)) cfg.mtu) _ d t tt h in
      let (_, d₂, _, h₂) = two_ok os name index ops cidr (set_metrics os name index) _ d₁ t tt h₁ in
      let (_, d₃, _, h₃) =
        two_ok os name index ops cidr (configure_dns os name index cfg.dns) _ d₂ t tt h₂ in
      let (text, d₄, printed, h₄) =
        two_ok os name index ops cidr (run os print_routes)
          (λ text. add_routes os name index ops cidr cfg server (parse_routes text)) d₃ t tt h₃ in
      (
        d₃.log,
        text,
        run-ok print_routes d₃ d₄ text printed,
        add_routes-Covered cfg server (parse_routes text) d₄ t h₄,
      )
