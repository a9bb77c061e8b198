-- ===== src/WgClient/Adapter/FullTunnel.antt =====
-- What goes through the tunnel when `open` has succeeded.
use wg_wrapper.Base.{
  All-map, ℕ, ◌≡◌, sym, subst, Bool, true, false, List, [], ◌∷◌, any, some, All, All-mem, any-mem,
  Bool-cases, inl, inr, arith, if◌then◌else◌, ok,
}
use wg_wrapper.Addr.{IpAddr, v4, v6}
use wg_wrapper.Addr.Display.{display, display_v4}
use wg_wrapper.IpNet.{NetOps, NetText}
use wg_wrapper.Text.{Text, codes}
use wg_wrapper.WgClient.{ClientConfig}
use wg_wrapper.WgClient.Routes.{Routes}
use wg_wrapper.WgClient.Adapter.{
  Argv, bad_half, Dev, Action, ok_or, done, ◌>>=◌, ◌>>◌, Os, run_undone,
}
use wg_wrapper.WgClient.Adapter.Commands.{
  route_add, route_v6, host_mask, metric_one, interface_text,
}
use wg_wrapper.WgClient.Adapter.Open.{
  same_ip, add_lan, is_default, parts_of, add_parts, add_allowed, block_half, distinct,
}
use wg_wrapper.WgClient.Adapter.Stable
use wg_wrapper.WgClient.Adapter.Covered.{
  RanUnless, is_own, lan_route, dns_route, net_route, Routed, add_lan-ok, add_parts-ok, Routed-ok,
}
use wg_wrapper.WgClient.Adapter.Succeeded.{
  Ran, continue-ok, ok_or-ok, flushes-Ran, run-Ran, run_undone-Ran, run_undone-ok, stays,
}

module _ (os : Os) (name : Text) (index : ℕ) (ops : NetOps) (cidr : NetText ops) where
  open ops use {Net, addr, prefix_len}

  -- no step of the rest undoes what has succeeded
  abbrev pub Grows {ℓ} : {A : Type ℓ} → Action A → Type 0
  Grows m = (k : Argv) → Stable.Stable (Ran k) m

  -- Two steps that succeed.
  pub two_ok :
      {A B : Type 0} (m : Action A) (next : A → Action B) (d t : Dev) (b : B)
      → (m >>= next) d ≡ (ok b, t)
      → (a : A) × (s : Dev) × (m d ≡ (ok a, s)) × (next a s ≡ (ok b, t))
  two_ok m next d t b h = continue-ok next (m d) b t h

  add_parts-Grows : (ip : Text) (ns : List Net) → Grows (add_parts os name index ops cidr ip ns)
  add_parts-Grows ip ns k =
      Stable.add_parts-Stable (Ran k) os (flushes-Ran os k) (run-Ran os k) (run_undone-Ran os k)
        name index ops cidr ip ns

  pub add_allowed-Grows :
      (ip : Text) (ns : List Net) → Grows (add_allowed os name index ops cidr ip ns)
  add_allowed-Grows ip ns k =
      Stable.add_allowed-Stable (Ran k) os (flushes-Ran os k) (run-Ran os k) (run_undone-Ran os k)
        name index ops cidr ip ns

  pub add_allowed-ok :
      (ip : Text) (ns : List Net) (d t : Dev)
      → add_allowed os name index ops cidr ip ns d ≡ (ok tt, t)
      → All (λ n. Routed os name index ops cidr ip t n (is_default os name index ops cidr n)) ns
  unfolding add_allowed parts_of
  add_allowed-ok ip [] d t h = tt
  add_allowed-ok ip (n ∷ ns) d t h =
      let rest = add_allowed os name index ops cidr ip ns in
      let (ps, s, first, h₁) =
        two_ok (parts_of os name index ops cidr n)
          (λ ps. add_parts os name index ops cidr ip ps >> rest) d t tt h in
      let (_, s', added, h₂) =
        two_ok (add_parts os name index ops cidr ip ps) (λ u. rest) s t tt h₁ in
      let here = add_parts-ok os name index ops cidr ip ps s s' added in
      (
        Routed-ok os name index ops cidr ip n (is_default os name index ops cidr n) ps d s t first (
            All-map
              (λ m r.
                stays os rest (net_route os name index ops cidr ip m) s' t tt
                  (add_allowed-Grows ip ns (net_route os name index ops cidr ip m)) h₂ r)
              ps here),
        add_allowed-ok ip ns s' t h₂,
      )

  -- Either half of the IPv6 addresses, unless it is allowed.
  abbrev pub Blocked : Dev → List Net → Text → Type 0
  Blocked t allowed half =
      (net : Net) × (cidr.parse half ≡ some net)
      × RanUnless os name index (any (cidr.equal net) allowed)
          (route_v6 (codes "add") half (interface_text index) (codes "metric=1" ∷ [])) t

  unless-ok :
      (b : Bool) (c undo : Argv) (d t : Dev)
      → (if b then done else run_undone os c undo) d ≡ (ok tt, t)
      → RanUnless os name index b c t
  unless-ok true c undo d t h = tt
  unless-ok false c undo d t h = run_undone-ok os c undo d t h

  pub block_half-ok :
      (allowed : List Net) (half : Text) (d t : Dev)
      → block_half os name index ops cidr allowed half d ≡ (ok tt, t)
      → Blocked t allowed half
  unfolding block_half
  block_half-ok allowed half d t h =
      let c = route_v6 (codes "add") half (interface_text index) (codes "metric=1" ∷ []) in
      let undo = route_v6 (codes "delete") half (interface_text index) [] in
      let (net, s, parsed, h₁) =
        two_ok (ok_or (cidr.parse half) bad_half)
          (λ net. if any (cidr.equal net) allowed then done else run_undone os c undo) d t tt h in
      (
        net,
        ok_or-ok (cidr.parse half) bad_half d s net parsed,
        unless-ok (any (cidr.equal net) allowed) c undo s t h₁,
      )

  -- All that had succeeded still has.
  abbrev pub Later : Dev → Dev → Type 0
  Later d t = (k : Argv) → Ran k d → Ran k t

  pub later :
      {A : Type 0} (m : Action A) (d t : Dev) (a : A) → Grows m → m d ≡ (ok a, t) → Later d t
  later m d t a g h k r = stays os m k d t a (g k) h r

  pub Routed-later :
      (ip : Text) (d t : Dev) (n : Net) (b : Bool)
      → Later d t
      → Routed os name index ops cidr ip d n b
      → Routed os name index ops cidr ip t n b
  Routed-later ip d t n true l (low, high, e, f, p, q, r) = (low, high, e, f, l _ p, l _ q, l _ r)
  Routed-later ip d t n false l r = l _ r

  pub RanUnless-later :
      (b : Bool) (c : Argv) (d t : Dev)
      → Later d t
      → RanUnless os name index b c d
      → RanUnless os name index b c t
  RanUnless-later true c d t l h = tt
  RanUnless-later false c d t l h = l c h

  same_ip_sound : (a b : IpAddr) → same_ip a b ≡ true → a ≡ b
  same_ip_sound (v4 a) (v4 b) h = ground arith
  same_ip_sound (v6 a) (v6 b) h = ground arith
  same_ip_sound (v4 a) (v6 b) h = cc
  same_ip_sound (v6 a) (v4 b) h = cc

  -- What holds of the servers that are kept holds of all.
  pub distinct-All :
      (P : IpAddr → Type 0) (seen ds : List IpAddr)
      → All P seen
      → All P (distinct seen ds)
      → All P ds
  unfolding distinct
  distinct-All P seen [] hs h = tt
  distinct-All P seen (d ∷ ds) hs h = elim (Bool-cases (any (same_ip d) seen)) [
    | inl e ↦
        let (s, m, same) = any-mem (same_ip d) seen e in
        let here : P d = subst P (sym (same_ip_sound d s same)) (All-mem P hs m) in
        (here, distinct-All P (d ∷ seen) ds (here, hs) (rw e at h))
    | inr e ↦
        let kept : All P (d ∷ distinct (d ∷ seen) ds) = rw e at h in
        (kept.0, distinct-All P (d ∷ seen) ds (kept.0, hs) kept.1)
  ]

  -- the local networks, if there is a default route of IPv4 among the allowed networks
  abbrev pub LanTaken : Text → ClientConfig Net → List (ℕ × ℕ) → Dev → Bool → Type 0
  LanTaken ip cfg lan t true =
      All
        (λ net.
          RanUnless os name index
            (is_own os name index (cidr.network cfg.address) (cidr.netmask cfg.address) net)
            (lan_route os name index ip net) t)
        lan
  LanTaken ip cfg lan t false = Unit

  pub swallow_lan-ok :
      (ip : Text) (cfg : ClientConfig Net) (lan : List (ℕ × ℕ)) (b : Bool) (d t : Dev)
      → (if b
            then add_lan os name index ip (cidr.network cfg.address) (cidr.netmask cfg.address) lan
            else done)
          d
        ≡ (ok tt, t)
      → LanTaken ip cfg lan t b
  swallow_lan-ok ip cfg lan true d t h =
      add_lan-ok os name index ip (cidr.network cfg.address) (cidr.netmask cfg.address) lan d t h
  swallow_lan-ok ip cfg lan false d t h = tt

  pub LanTaken-later :
      (ip : Text) (cfg : ClientConfig Net) (lan : List (ℕ × ℕ)) (d t : Dev) (b : Bool)
      → Later d t
      → LanTaken ip cfg lan d b
      → LanTaken ip cfg lan t b
  LanTaken-later ip cfg lan d t true l h =
      All-map
        (λ net r.
          RanUnless-later
            (is_own os name index (cidr.network cfg.address) (cidr.netmask cfg.address) net)
            (lan_route os name index ip net) d t l r)
        lan h
  LanTaken-later ip cfg lan d t false l h = tt

  -- The gateway and the server are pinned outside; every allowed network goes through the tunnel,
  -- an IPv4 default route with both its halves, and with it the local networks but the tunnel's
  -- own; so does either half of the IPv6 addresses that is not allowed, and every DNS server.
  pub record Covered (cfg : ClientConfig Net) (server : IpAddr) (routes : Routes) (t : Dev)
      : Type 0 where
    pub pinned :
        (gateway : ℕ) × (iface : ℕ) × (routes.default ≡ some (gateway, iface))
        × Ran (route_add (display_v4 gateway) host_mask (display_v4 iface) metric_one) t
        × Ran (route_add (display server) host_mask (display_v4 gateway) metric_one) t
    pub allowed :
        All
          (λ n.
            Routed os name index ops cidr
              (display (addr cfg.address))
              t
              n
              (is_default os name index ops cidr n))
          cfg.allowed_ips
    pub lan :
        LanTaken
          (display (addr cfg.address))
          cfg
          routes.lan
          t
          (any (is_default os name index ops cidr) cfg.allowed_ips)
    pub low_half : Blocked t cfg.allowed_ips (codes "::/1")
    pub high_half : Blocked t cfg.allowed_ips (codes "8000::/1")
    pub dns : All (λ a. Ran (dns_route os name index (display (addr cfg.address)) a) t) cfg.dns
