-- ===== src/WgClient/Routes/Lan.antt =====
-- The subnets beside the default gateway, and the whole of `parse_routes` against its table.
use wg_wrapper.Base.{
  ℕ, ◌^◌, ◌-◌, ◌<◌, ◌≡◌, ◌≢◌, ◌↔◌, refl, sym, ap, ◌∙◌, Bool, true, false, not, ◌&&◌, List, [], ◌∷◌,
  map, filter, Memᴰ, Option, none, some, arith, ◌==◌, between, bit_and, bytes_eq, bytes_eq_sound,
  mem-filter, mem_of_mem-filter, All, All-mem,
}
use wg_wrapper.Base.Bits.{bit_and-f0-e0}
use wg_wrapper.Addr.{octet_0}
use wg_wrapper.Text.{Text, codes}
use wg_wrapper.Text.Pieces.{to_ascii_lowercase, eq_ignore_ascii_case, lines}
use wg_wrapper.WgClient.Routes.{Row, rows_of, Best, best_of, is_lan, routes_of, parse_routes}
use wg_wrapper.WgClient.Routes.Rows.{IsInet, rows_of-IsInet}
use wg_wrapper.WgClient.Routes.Least.{gateway_of, Least, IsBest, best_of-Least}

-- On this interface and on the link; the subnet is no single host, and it is not in 127/8, in
-- 224/4 or the broadcast address.
pub record IsLan (iface : ℕ) (r : Row) : Type 0 where
  pub same : r.iface ≡ iface
  pub on_link : to_ascii_lowercase r.gateway ≡ codes "on-link"
  pub subnet : r.mask ≢ 0xffffffff
  pub not_loopback : between 0x7f000000 0x7fffffff r.dest ≡ false
  pub not_multicast : between 0xe0000000 0xefffffff r.dest ≡ false
  pub not_broadcast : r.dest ≢ 0xffffffff

loopback_block : (a : ℕ) → (octet_0 a == 127) ≡ between 0x7f000000 0x7fffffff a
loopback_block a = ground arith

multicast_block :
    (a : ℕ) → a < 2 ^ 32 → (bit_and (octet_0 a) 0xf0 == 224) ≡ between 0xe0000000 0xefffffff a
multicast_block a h = rw (bit_and-f0-e0 (octet_0 a) (omega arith)) (ground arith)

not-true : (b : Bool) → not b ≡ true → b ≡ false
not-true b h = ground arith

differs : (a b : ℕ) → not (a == b) ≡ true → a ≢ b
differs a b h e = ground arith

equal : (a b : ℕ) → (a == b) ≡ true → a ≡ b
equal a b h = ground arith

all_true :
    (a b c d e f : Bool)
    → (a && b && c && d && e && f) ≡ true
    → (a ≡ true) × (b ≡ true) × (c ≡ true) × (d ≡ true) × (e ≡ true) × (f ≡ true)
all_true a b c d e f h = ground arith

is_lan-IsLan : (iface : ℕ) (r : Row) → r.dest < 2 ^ 32 → is_lan iface r ≡ true → IsLan iface r
unfolding is_lan bytes_eq eq_ignore_ascii_case
is_lan-IsLan iface r h e =
    let (same, link, subnet, loopback, multicast, broadcast) =
      all_true (r.iface == iface) (eq_ignore_ascii_case r.gateway (codes "on-link"))
        (not (r.mask == 2 ^ 32 - 1)) (not (octet_0 r.dest == 127))
        (not (bit_and (octet_0 r.dest) 0xf0 == 224)) (not (r.dest == 2 ^ 32 - 1)) e in
    record {
      same = equal r.iface iface same;
      on_link = bytes_eq_sound _ _ link;
      subnet = differs r.mask 0xffffffff subnet;
      not_loopback = sym (loopback_block r.dest) ∙ not-true _ loopback;
      not_multicast = sym (multicast_block r.dest h) ∙ not-true _ multicast;
      not_broadcast = differs r.dest 0xffffffff broadcast;
    }

IsLan-is_lan : (iface : ℕ) (r : Row) → r.dest < 2 ^ 32 → IsLan iface r → is_lan iface r ≡ true
unfolding is_lan bytes_eq eq_ignore_ascii_case
IsLan-is_lan iface r h v =
    rw
      (
        self r.iface iface v.same,
        link r.gateway v.on_link,
        other r.mask 0xffffffff v.subnet,
        loopback_block r.dest ∙ v.not_loopback,
        multicast_block r.dest h ∙ v.not_multicast,
        other r.dest 0xffffffff v.not_broadcast,
      )
      refl
  where
    self : (a b : ℕ) → a ≡ b → (a == b) ≡ true
    self a b e = ground arith

    other : (a b : ℕ) → a ≢ b → (a == b) ≡ false
    other a b e = ground arith

    link :
        (s : Text)
        → to_ascii_lowercase s ≡ codes "on-link"
        → eq_ignore_ascii_case s (codes "on-link") ≡ true
    link s e = ap (λ t. bytes_eq t (codes "on-link")) e

abbrev subnet : Row → ℕ × ℕ
subnet r = (r.dest, r.mask)

-- among the subnets of the rows that pass
mem-map_filter :
    (p : Row → Bool) (r : Row) {rows : List Row}
    → Memᴰ r rows
    → p r ≡ true
    → Memᴰ (subnet r) (map subnet (filter p rows))
mem-map_filter p r m e = mem-map (mem-filter p m e)
  where
    mem-map : {r : Row} {rs : List Row} → Memᴰ r rs → Memᴰ (subnet r) (map subnet rs)
    mem-map (Memᴰ.head e) = Memᴰ.head (ap subnet e)
    mem-map (Memᴰ.tail m) = Memᴰ.tail (mem-map m)

mem_of_mem-map :
    {x : ℕ × ℕ} (rs : List Row) → Memᴰ x (map subnet rs) → (r : Row) × Memᴰ r rs × (x ≡ subnet r)
mem_of_mem-map [] m = elim m [ ]
mem_of_mem-map (r ∷ rs) (Memᴰ.head e) = (r, Memᴰ.head refl, e)
mem_of_mem-map (r ∷ rs) (Memᴰ.tail m) =
    let (r', m', e) = mem_of_mem-map rs m in (r', Memᴰ.tail m', e)

-- No default route and no subnets; or the next hop of the first default route of the lowest metric,
-- its interface, and the subnets of exactly the rows that are LANs of that interface.
abbrev pub RoutesFit : List Row → Option (ℕ × ℕ) → List (ℕ × ℕ) → Type 0
RoutesFit rows none lan = All (λ r. gateway_of r ≡ none) rows × (lan ≡ [])
RoutesFit rows (some (gw, iface)) lan =
    ((metric : ℕ) × Least rows (record { metric = metric; gateway = gw; iface = iface }))
    × ((net : ℕ × ℕ)
        → Memᴰ net lan ↔ ((r : Row) × Memᴰ r rows × (net ≡ (r.dest, r.mask)) × IsLan iface r))

routes_of-Fit :
    (rows : List Row) (b : Option Best)
    → All IsInet rows
    → IsBest rows b
    → RoutesFit rows (routes_of rows b).default (routes_of rows b).lan
unfolding routes_of
routes_of-Fit rows none h v = (v, refl)
routes_of-Fit rows (some b) h v = ((b.metric, v), λ net. (there net, back net))
  where
    there :
        (net : ℕ × ℕ)
        → Memᴰ net (map subnet (filter (is_lan b.iface) rows))
        → (r : Row) × Memᴰ r rows × (net ≡ (r.dest, r.mask)) × IsLan b.iface r
    there net m =
        let (r, m', e) = mem_of_mem-map (filter (is_lan b.iface) rows) m in
        let found = mem_of_mem-filter (is_lan b.iface) rows m' in
        (r, found.0, e, is_lan-IsLan b.iface r (All-mem IsInet h found.0) found.1)

    back :
        (net : ℕ × ℕ)
        → (r : Row) × Memᴰ r rows × (net ≡ (r.dest, r.mask)) × IsLan b.iface r
        → Memᴰ net (map subnet (filter (is_lan b.iface) rows))
    back net (r, m, e, v) =
        rw e (mem-map_filter (is_lan b.iface) r m (IsLan-is_lan b.iface r (All-mem IsInet h m) v))

-- The gateway is the next hop of the first default route of the lowest metric in the table, with
-- its interface, or there is no default route; the subnets are those of the rows on that interface
-- that are on the link, no single host, and not loopback, multicast or the broadcast address.
pub parse_routes-Fit :
    (text : Text)
    → RoutesFit (rows_of false (lines text)) (parse_routes text).default (parse_routes text).lan
unfolding parse_routes
parse_routes-Fit text =
    let rows = rows_of false (lines text) in
    routes_of-Fit rows (best_of none rows) (rows_of-IsInet false (lines text)) (best_of-Least rows)
