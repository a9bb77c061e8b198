-- ===== src/WgClient/Adapter/Covered.antt =====
-- The routes that are there when `open` has succeeded.
use wg_wrapper.Base.{
  ℕ, ◌≡◌, refl, subst, Bool, true, false, ◌&&◌, List, [], ◌∷◌, ◌++◌, Option, none, some, All, arith,
  if◌then◌else◌, ok,
}
use wg_wrapper.Addr.{IpAddr, v4, v6}
use wg_wrapper.Addr.Display.{display, display_v4, display_v6}
use wg_wrapper.IpNet.{NetOps, NetText}
use wg_wrapper.Text.{Text, codes}
use wg_wrapper.WgClient.Adapter.{Argv, Dev, Action, return, ◌>>◌, Os, run_undone}
use wg_wrapper.WgClient.Adapter.Commands.{route_delete, route_v6, host_mask, interface_text}
use wg_wrapper.WgClient.Adapter.Open.{
  same_ip, through, add_lan, add_dns_routes, halves, add_part, add_parts,
}
use wg_wrapper.WgClient.Adapter.Stable
use wg_wrapper.WgClient.Adapter.Succeeded.{
  Ran, continue-ok, flushes-Ran, run-Ran, run_undone-Ran, run_undone-ok, stays,
}

module _ (os : Os) (name : Text) (index : ℕ) where
  -- unless b, it has succeeded
  abbrev pub RanUnless : Bool → Argv → Dev → Type 0
  RanUnless true c d = Unit
  RanUnless false c d = Ran c d

  abbrev pub is_own : (own own_mask : IpAddr) → ℕ × ℕ → Bool
  is_own own own_mask (dest, mask) = same_ip (v4 dest) own && same_ip (v4 mask) own_mask

  abbrev pub lan_route : Text → ℕ × ℕ → Argv
  lan_route ip (dest, mask) = through os name index ip (display_v4 dest) (display_v4 mask)

  pub first_of :
      (c undo : Argv) (rest : Action (Unit {0})) (d t : Dev)
      → Stable.Stable (Ran c) rest
      → (run_undone os c undo >> rest) d ≡ (ok tt, t)
      → Ran c t × ((s : Dev) × (rest s ≡ (ok tt, t)))
  first_of c undo rest d t v h =
      let (_, s, first, later) =
        continue-ok (λ (u : Unit {0}). rest) (run_undone os c undo d) tt t h in
      (stays os rest c s t tt v later (run_undone-ok os c undo d s first), (s, later))

  unless_own :
      (b : Bool) (c undo : Argv) (rest : Action (Unit {0})) (d t : Dev) (Later : Type 0)
      → Stable.Stable (Ran c) rest
      → ((s : Dev) → rest s ≡ (ok tt, t) → Later)
      → (if b then rest else (run_undone os c undo >> rest)) d ≡ (ok tt, t)
      → RanUnless b c t × Later
  unless_own true c undo rest d t Later v f h = (tt, f d h)
  unless_own false c undo rest d t Later v f h =
      let (ran, (s, later)) = first_of c undo rest d t v h in (ran, f s later)

  pub add_lan-ok :
      (ip : Text) (own own_mask : IpAddr) (lan : List (ℕ × ℕ)) (d t : Dev)
      → add_lan os name index ip own own_mask lan d ≡ (ok tt, t)
      → All (λ net. RanUnless (is_own own own_mask net) (lan_route ip net) t) lan
  unfolding add_lan
  add_lan-ok ip own own_mask [] d t h = tt
  add_lan-ok ip own own_mask ((dest, mask) ∷ lan) d t h =
      let c = lan_route ip (dest, mask) in
      unless_own (is_own own own_mask (dest, mask)) c
        (route_delete (display_v4 dest) (display_v4 mask) ip)
        (add_lan os name index ip own own_mask lan) d t
        (All (λ net. RanUnless (is_own own own_mask net) (lan_route ip net) t) lan)
        (Stable.add_lan-Stable (Ran c) os (flushes-Ran os c) (run-Ran os c) (run_undone-Ran os c)
          name index ip own own_mask lan)
        (λ s later. add_lan-ok ip own own_mask lan s t later) h

  -- the route to a server
  abbrev pub dns_route : Text → IpAddr → Argv
  dns_route ip (v4 a) = through os name index ip (display_v4 a) host_mask
  dns_route ip (v6 a) =
      route_v6 (codes "add") (display_v6 a ++ codes "/128") (interface_text index) []

  abbrev dns_delete : Text → IpAddr → Argv
  dns_delete ip (v4 a) = route_delete (display_v4 a) host_mask ip
  dns_delete ip (v6 a) =
      route_v6 (codes "delete") (display_v6 a ++ codes "/128") (interface_text index) []

  pub add_dns_routes-ok :
      (ip : Text) (ds : List IpAddr) (d t : Dev)
      → add_dns_routes os name index ip ds d ≡ (ok tt, t)
      → All (λ a. Ran (dns_route ip a) t) ds
  unfolding add_dns_routes
  add_dns_routes-ok ip [] d t h = tt
  add_dns_routes-ok ip (v4 a ∷ ds) d t h =
      let c = dns_route ip (v4 a) in
      let (ran, (s, later)) =
        first_of c (dns_delete ip (v4 a)) (add_dns_routes os name index ip ds) d t
          (Stable.add_dns_routes-Stable (Ran c) os (flushes-Ran os c) (run-Ran os c)
            (run_undone-Ran os c) name index ip ds)
          h in
      (ran, add_dns_routes-ok ip ds s t later)
  add_dns_routes-ok ip (v6 a ∷ ds) d t h =
      let c = dns_route ip (v6 a) in
      let (ran, (s, later)) =
        first_of c (dns_delete ip (v6 a)) (add_dns_routes os name index ip ds) d t
          (Stable.add_dns_routes-Stable (Ran c) os (flushes-Ran os c) (run-Ran os c)
            (run_undone-Ran os c) name index ip ds)
          h in
      (ran, add_dns_routes-ok ip ds s t later)

  module _ (ops : NetOps) (cidr : NetText ops) where
    open ops use {Net, addr, prefix_len}

    -- the route to a network
    abbrev pub net_route_at : Text → Net → IpAddr → Argv
    net_route_at ip n (v4 a) = through os name index ip (display (v4 a)) (display (cidr.netmask n))
    net_route_at ip n (v6 a) = route_v6 (codes "add") (cidr.to_string n) (interface_text index) []

    abbrev pub net_route : Text → Net → Argv
    net_route ip n = net_route_at ip n (addr n)

    add_part-ok :
        (ip : Text) (n : Net) (a : IpAddr) (d t : Dev)
        → add_part os name index ops cidr ip n a d ≡ (ok tt, t)
        → Ran (net_route_at ip n a) t
    unfolding add_part
    add_part-ok ip n (v4 a) d t h = run_undone-ok os _ _ d t h
    add_part-ok ip n (v6 a) d t h = run_undone-ok os _ _ d t h

    pub add_parts-ok :
        (ip : Text) (ns : List Net) (d t : Dev)
        → add_parts os name index ops cidr ip ns d ≡ (ok tt, t)
        → All (λ n. Ran (net_route ip n) t) ns
    unfolding add_parts
    add_parts-ok ip [] d t h = tt
    add_parts-ok ip (n ∷ ns) d t h =
        let c = net_route ip n in
        let rest = add_parts os name index ops cidr ip ns in
        let (_, s, first, later) =
          continue-ok (λ (u : Unit {0}). rest) (add_part os name index ops cidr ip n (addr n) d) tt
            t h in
        (
          stays os rest c s t tt
              (Stable.add_parts-Stable (Ran c) os (flushes-Ran os c) (run-Ran os c)
                (run_undone-Ran os c) name index ops cidr ip ns)
              later (add_part-ok ip n (addr n) d s first),
          add_parts-ok ip ns s t later,
        )

    -- A default route of IPv4 with both its halves, or the network.
    abbrev pub Routed : Text → Dev → Net → Bool → Type 0
    Routed ip t n true =
        (low : Net) × (high : Net) × (cidr.parse (codes "0.0.0.0/1") ≡ some low)
        × (cidr.parse (codes "128.0.0.0/1") ≡ some high)
        × Ran (net_route ip low) t
        × Ran (net_route ip high) t
        × Ran (net_route ip n) t
    Routed ip t n false = Ran (net_route ip n) t

    halves-ok :
        (n : Net) (low high : Option Net) (ps : List Net) (d s : Dev)
        → halves os name index ops cidr n low high d ≡ (ok ps, s)
        → (l : Net) × (h : Net) × (low ≡ some l) × (high ≡ some h) × (ps ≡ l ∷ h ∷ n ∷ [])
    halves-ok n (some l) (some h) ps d s e = (l, h, refl, refl, ground arith)
    halves-ok n (some l) none ps d s e = cc
    halves-ok n none high ps d s e = cc

    pub Routed-ok :
        (ip : Text) (n : Net) (b : Bool) (ps : List Net) (d s t : Dev)
        → (if b
              then halves os name index ops cidr n
                  (cidr.parse (codes "0.0.0.0/1"))
                  (cidr.parse (codes "128.0.0.0/1"))
              else return (n ∷ []))
            d
          ≡ (ok ps, s)
        → All (λ n. Ran (net_route ip n) t) ps
        → Routed ip t n b
    Routed-ok ip n true ps d s t e h =
        let (low, high, l, u, same) = halves-ok n _ _ ps d s e in
        let all = subst (All (λ n. Ran (net_route ip n) t)) same h in
        (low, high, l, u, all.0, all.1.0, all.1.1.0)
    Routed-ok ip n false ps d s t e h =
        let same : ps ≡ n ∷ [] = ground arith in
        (subst (All (λ n. Ran (net_route ip n) t)) same h).0
