-- ===== src/Server/Setup/Routes.antt =====
-- The tables that a valid configuration leads to.
use mathlib.Core.List.{map-append}
use wg_wrapper.Base.{
  ℕ, zero, suc, ◌+◌, ◌<◌, ◌≡◌, refl, sym, ap, ◌∙◌, subst, true, List, [], ◌∷◌, ◌++◌, map, some,
  arith, All-mem, Memᴰ, mem-left, mem-right, mem_of_mem-append, get_elem?, length, inl, inr,
}
use wg_wrapper.Addr.{IpAddr}
use wg_wrapper.Config.Accepts.{all_nets}
use wg_wrapper.Config.Overlap.{Disjoint, Apart}
use wg_wrapper.Config.{PeerConfig}
use wg_wrapper.IpNet.{NetOps}
use wg_wrapper.Routing.Disjoint.{IsUnambiguous, peer_for-owner}
use wg_wrapper.Routing.Longest.{peer_for-longest}
use wg_wrapper.Routing.{peer_for}

module _ (ops : NetOps) where
  open ops use {Net, contains}

  -- the table that the peers stand for, from index `i` on
  abbrev pub routes : ℕ → List (PeerConfig Net) → List (Net × ℕ)
  routes i [] = []
  routes i (p ∷ ps) = map (λ n. (n, i)) p.allowed_ips ++ routes (suc i) ps

  abbrev nets_of : List (Net × ℕ) → List Net
  nets_of = map (λ e. e.0)

  nets_of-map : (i : ℕ) (ns : List Net) → nets_of (map (λ n. (n, i)) ns) ≡ ns
  nets_of-map i [] = refl
  nets_of-map i (n ∷ ns) = ap (◌∷◌ n) (nets_of-map i ns)

  nets_of-routes : (i : ℕ) (ps : List (PeerConfig Net)) → nets_of (routes i ps) ≡ all_nets ops ps
  nets_of-routes i [] = refl
  nets_of-routes i (p ∷ ps) =
      map-append (λ e. e.0) (map (λ n. (n, i)) p.allowed_ips) (routes (suc i) ps)
      ∙ ap (λ l. l ++ nets_of (routes (suc i) ps)) (nets_of-map i p.allowed_ips)
      ∙ ap (◌++◌ p.allowed_ips) (nets_of-routes (suc i) ps)

  -- A network of the table is disjoint from the ones that the others are disjoint from.
  mem-nets_of : (l : List (Net × ℕ)) (n : Net) (i : ℕ) → Memᴰ (n, i) l → Memᴰ n (nets_of l)
  mem-nets_of (x ∷ l) n i (Memᴰ.head e) = Memᴰ.head (ap (λ t. t.0) e)
  mem-nets_of (x ∷ l) n i (Memᴰ.tail m) = Memᴰ.tail (mem-nets_of l n i m)
  mem-nets_of [] n i m = elim m [ ]

  Apart-IsUnambiguous : (l : List (Net × ℕ)) → Apart ops (nets_of l) → IsUnambiguous ops l
  Apart-IsUnambiguous [] a n m i j ip at at' h h' = elim at [ ]
  Apart-IsUnambiguous (x ∷ l) a n m i j ip (Memᴰ.head e) (Memᴰ.head e') h h' =
      ap (λ t. t.1) (e ∙ sym e')
  Apart-IsUnambiguous (x ∷ l) a n m i j ip (Memᴰ.head e) (Memᴰ.tail at') h h' = absurd (
      All-mem (Disjoint ops x.0) a.0 (mem-nets_of l m j at') ip
        (subst (λ t. contains t.0 ip ≡ true) e h) h')
  Apart-IsUnambiguous (x ∷ l) a n m i j ip (Memᴰ.tail at) (Memᴰ.head e') h h' = absurd (
      All-mem (Disjoint ops x.0) a.0 (mem-nets_of l n i at) ip
        (subst (λ t. contains t.0 ip ≡ true) e' h') h)
  Apart-IsUnambiguous (x ∷ l) a n m i j ip (Memᴰ.tail at) (Memᴰ.tail at') h h' =
      Apart-IsUnambiguous l a.1 n m i j ip at at' h h'

  mem-map_pair :
      (i : ℕ) (ns : List Net) (n : Net)
      → Memᴰ n ns
      → Memᴰ {A = Net × ℕ} (n, i) (map (λ n. (n, i)) ns)
  mem-map_pair i (x ∷ ns) n (Memᴰ.head e) = Memᴰ.head (ap (λ n. (n, i)) e)
  mem-map_pair i (x ∷ ns) n (Memᴰ.tail m) = Memᴰ.tail (mem-map_pair i ns n m)
  mem-map_pair i [] n m = elim m [ ]

  mem-routes :
      (i k : ℕ) (ps : List (PeerConfig Net)) (p : PeerConfig Net) (n : Net)
      → get_elem? ps k ≡ some p
      → Memᴰ n p.allowed_ips
      → Memᴰ (n, k + i) (routes i ps)
  mem-routes i k [] p n e m = cc
  mem-routes i zero (q ∷ ps) p n e m =
      let same : q ≡ p = ground arith in
      rw same (
        mem-left (routes (suc i) ps) (
          subst (λ j. Memᴰ {A = Net × ℕ} (n, j) (map (λ n. (n, i)) p.allowed_ips)) (omega arith)
            (mem-map_pair i p.allowed_ips n m)))
  mem-routes i (suc k) (q ∷ ps) p n e m = mem-right (map (λ n. (n, i)) q.allowed_ips) (
      subst (λ j. Memᴰ {A = Net × ℕ} (n, j) (routes (suc i) ps)) (omega arith)
        (mem-routes (suc i) k ps p n e m))

  mem_of_mem-map_pair :
      (i : ℕ) (ns : List Net) (n : Net) (j : ℕ)
      → Memᴰ {A = Net × ℕ} (n, j) (map (λ n. (n, i)) ns)
      → j ≡ i
  mem_of_mem-map_pair i (x ∷ ns) n j (Memᴰ.head e) = ap (λ t. t.1) e
  mem_of_mem-map_pair i (x ∷ ns) n j (Memᴰ.tail m) = mem_of_mem-map_pair i ns n j m
  mem_of_mem-map_pair i [] n j m = elim m [ ]

  routes-lt :
      (i : ℕ) (ps : List (PeerConfig Net)) (n : Net) (j : ℕ)
      → Memᴰ {A = Net × ℕ} (n, j) (routes i ps)
      → j < i + length ps
  routes-lt i [] n j m = elim m [ ]
  routes-lt i (p ∷ ps) n j m =
      elim (mem_of_mem-append (map (λ n. (n, i)) p.allowed_ips) (routes (suc i) ps) m) [
        | inl here ↦ omega (arith, mem_of_mem-map_pair i p.allowed_ips n j here)
        | inr later ↦ omega (arith, routes-lt (suc i) ps n j later)
      ]

  -- A table whose networks are apart routes each peer's addresses to it, and none past the peers.
  pub record RoutesTo (ps : List (PeerConfig Net)) (allowed : List (Net × ℕ)) : Type 0 where
    pub owner :
        (k : ℕ) (p : PeerConfig Net) (n : Net) (ip : IpAddr)
        → get_elem? ps k ≡ some p
        → Memᴰ n p.allowed_ips
        → contains n ip ≡ true
        → peer_for ops allowed ip ≡ some k
    pub in_range : (ip : IpAddr) (k : ℕ) → peer_for ops allowed ip ≡ some k → k < length ps

  pub routes-RoutesTo :
      (ps : List (PeerConfig Net)) → Apart ops (all_nets ops ps) → RoutesTo ps (routes 0 ps)
  routes-RoutesTo ps a =
      let apart =
        Apart-IsUnambiguous (routes 0 ps) (subst (Apart ops) (sym (nets_of-routes 0 ps)) a) in
      record {
        owner = λ k p n ip e m h.
            peer_for-owner ops (routes 0 ps) ip n k apart
              (subst (λ j. Memᴰ {A = Net × ℕ} (n, j) (routes 0 ps)) (omega arith)
                (mem-routes 0 k ps p n e m))
              h;
        in_range = λ ip k e.
            let (n, at, _, _) = peer_for-longest ops (routes 0 ps) ip k e in
            omega (arith, routes-lt 0 ps n k at);
      }
