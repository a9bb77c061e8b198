-- ===== src/WgClient/Routes.antt =====
-- crates/wgclient/src/lib.rs: `parse_routes`.
pub mod Least
pub mod Rows
pub mod Lan
use wg_wrapper.Base.{
  ℕ, ◌-◌, ◌^◌, Bool, true, false, not, ◌&&◌, ◌||◌, List, [], ◌∷◌, map, filter, Option, none, some,
  ◌==◌, ltb, bit_and, if◌then◌else◌,
}
use wg_wrapper.Addr.{octet_0}
use wg_wrapper.Addr.Parse.{parse_ipv4}
use wg_wrapper.Addr.V4
use wg_wrapper.Text.{Text, codes, trim, from_str_radix}
use wg_wrapper.Text.Pieces.{starts_with, eq_ignore_ascii_case, split_whitespace, lines}

-- str::parse::<u32>
abbrev pub parse_u32 : Text → Option ℕ
parse_u32 = from_str_radix 10 0xffffffff

pub record Row : Type 0 where
  pub dest : ℕ
  pub mask : ℕ
  pub gateway : Text
  pub iface : ℕ
  pub metric : ℕ

abbrev row : Option ℕ → Option ℕ → Text → Option ℕ → Option ℕ → Option Row
row (some dest) (some mask) gateway (some iface) (some metric) =
    some (record { dest = dest; mask = mask; gateway = gateway; iface = iface; metric = metric })
row _ _ _ _ _ = none

-- five fields, all but the third of them numbers
unfoldable pub row_of : List Text → Option Row
unfolding parse_ipv4
row_of (dest ∷ mask ∷ gateway ∷ iface ∷ metric ∷ []) =
    row (parse_ipv4 dest) (parse_ipv4 mask) gateway (parse_ipv4 iface) (parse_u32 metric)
row_of _ = none

abbrev push : Option Row → List Row → List Row
push none rows = rows
push (some r) rows = r ∷ rows

-- The loop over the lines: rows count between the two headings.
unfoldable pub rows_of : Bool → List Text → List Row
unfolding row_of trim split_whitespace
rows_of active [] = []
rows_of active (raw ∷ raws) =
    let line = trim raw in
    let heading = starts_with (codes "Active Routes:") line in
    let rest = rows_of (heading || active) raws in
    if heading
    then rest
    else if starts_with (codes "Persistent Routes:") line
    then []
    else if not active
    then rest
    else push (row_of (split_whitespace line)) rest

-- The best default route so far.
pub record Best : Type 0 where
  pub metric : ℕ
  pub gateway : ℕ
  pub iface : ℕ

-- best.is_none_or(|(m, _, _)| *metric<m)
abbrev beaten : Option Best → ℕ → Bool
beaten none metric = true
beaten (some b) metric = ltb metric b.metric

abbrev challenge : Option Best → Row → Option ℕ → Option Best
challenge best r none = best
challenge best r (some gw) =
    if beaten best r.metric
    then some (record { metric = r.metric; gateway = gw; iface = r.iface })
    else best

-- The body of the loop over the rows.
unfoldable pub better : Option Best → Row → Option Best
unfolding parse_ipv4
better best r =
    if not (V4.is_unspecified r.dest) || not (V4.is_unspecified r.mask)
    then best
    else challenge best r (parse_ipv4 r.gateway)

unfoldable pub best_of : Option Best → List Row → Option Best
unfolding better
best_of best [] = best
best_of best (r ∷ rs) = best_of (better best r) rs

-- The filter on the rows.
unfoldable pub is_lan : ℕ → Row → Bool
is_lan iface r =
    r.iface == iface
    && eq_ignore_ascii_case r.gateway (codes "on-link")
    && not (V4.is_broadcast r.mask)
    && not (octet_0 r.dest == 127)
    && not (bit_and (octet_0 r.dest) 0xf0 == 224)
    && not (V4.is_broadcast r.dest)

-- The gateway and the address of its interface, and the subnets beside it.
pub record Routes : Type 0 where
  pub default : Option (ℕ × ℕ)
  pub lan : List (ℕ × ℕ)

unfoldable pub routes_of : List Row → Option Best → Routes
unfolding is_lan
routes_of rows none = record { default = none; lan = [] }
routes_of rows (some b) = record {
  default = some (b.gateway, b.iface);
  lan = map (λ r. (r.dest, r.mask)) (filter (is_lan b.iface) rows);
}

unfoldable pub parse_routes : Text → Routes
unfolding rows_of lines best_of routes_of
parse_routes text = let rows = rows_of false (lines text) in routes_of rows (best_of none rows)
