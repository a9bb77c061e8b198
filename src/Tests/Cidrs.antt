-- ===== src/Tests/Cidrs.antt =====
-- Networks of both families as an address and a length, read and printed as texts.
use wg_wrapper.Base.{
  ℕ, ◌-◌, ◌*◌, ◌/◌, ◌^◌, Bool, false, ◌&&◌, ◌++◌, Option, none, some, leb, ◌==◌, if◌then◌else◌,
}
use wg_wrapper.Addr.{IpAddr, v4, v6}
use wg_wrapper.Addr.Display.{display, decimal}
use wg_wrapper.Addr.Parse.{parse_ip}
use wg_wrapper.IpNet.{NetOps, NetText}
use wg_wrapper.Text.{Text, codes, parse_u16, split_once}

pub record Cidr : Type 0 where
  pub ip : IpAddr
  pub len : ℕ

abbrev holds : IpAddr → ℕ → IpAddr → Bool
holds (v4 a) len (v4 b) = a / 2 ^ (32 - len) == b / 2 ^ (32 - len)
holds (v6 a) len (v6 b) = a / 2 ^ (128 - len) == b / 2 ^ (128 - len)
holds _ len _ = false

abbrev pub cidrs : NetOps
cidrs = record {
  Net = Cidr;
  contains = λ n ip. holds n.ip n.len ip;
  includes = λ m n. leb m.len n.len && holds m.ip m.len n.ip;
  addr = λ n. n.ip;
  prefix_len = λ n. n.len;
}

abbrev pub new_cidr : IpAddr → ℕ → Option Cidr
new_cidr (v4 a) n = if leb n 32 then some (record { ip = v4 a; len = n }) else none
new_cidr (v6 a) n = if leb n 128 then some (record { ip = v6 a; len = n }) else none

abbrev pub both : Option IpAddr → Option ℕ → Option Cidr
both none n = none
both (some ip) none = none
both (some ip) (some n) = new_cidr ip n

abbrev pub parse_cidr : Option (Text × Text) → Option Cidr
parse_cidr none = none
parse_cidr (some (a, n)) = both (parse_ip a) (parse_u16 n)

abbrev pub mask_of : IpAddr → ℕ → IpAddr
mask_of (v4 a) len = v4 (2 ^ 32 - 2 ^ (32 - len))
mask_of (v6 a) len = v6 (2 ^ 128 - 2 ^ (128 - len))

abbrev pub network_of : IpAddr → ℕ → IpAddr
network_of (v4 a) len = v4 (a / 2 ^ (32 - len) * 2 ^ (32 - len))
network_of (v6 a) len = v6 (a / 2 ^ (128 - len) * 2 ^ (128 - len))

abbrev pub same : IpAddr → IpAddr → Bool
same (v4 a) (v4 b) = a == b
same (v6 a) (v6 b) = a == b
same _ _ = false

abbrev pub cidrs_text : NetText cidrs
cidrs_text = record {
  parse = λ s. parse_cidr (split_once b'/' s);
  new = new_cidr;
  netmask = λ n. mask_of n.ip n.len;
  network = λ n. network_of n.ip n.len;
  to_string = λ n. display n.ip ++ codes "/" ++ decimal n.len;
  equal = λ m n. same m.ip n.ip && m.len == n.len;
}
