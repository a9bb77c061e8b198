-- ===== src/Isolation/Blocks.antt =====
-- The address blocks that the README and the IANA registries name, as intervals of numbers.
use wg_wrapper.Base.{ℕ, ◌*◌, ◌+◌, ◌-◌, ◌^◌, Bool, List, [], ◌∷◌, any, between, if◌then◌else◌}
use wg_wrapper.Addr.{IpAddr, v4, v6}

pub record Block : Type 0 where
  pub first : ℕ
  pub last : ℕ

-- a.b.c.d / n, written as its four octets and the number of host bits
abbrev cidr : ℕ → ℕ → ℕ → ℕ → ℕ → Block
cidr a b c d host = record {
  first = a * 2 ^ 24 + b * 2 ^ 16 + c * 2 ^ 8 + d;
  last = a * 2 ^ 24 + b * 2 ^ 16 + c * 2 ^ 8 + d + (2 ^ host - 1);
}

-- the first segment of an IPv6 block, and the number of host bits
abbrev cidr_v6 : ℕ → ℕ → Block
cidr_v6 segment host = record {
  first = segment * 2 ^ 112;
  last = segment * 2 ^ 112 + (2 ^ host - 1);
}

abbrev pub in_any : List Block → ℕ → Bool
in_any blocks a = any (λ b. between b.first b.last a) blocks

-- 0/8, 127/8, 169.254/16, 224/4 and the broadcast address
abbrev pub host_blocks_v4 : List Block
host_blocks_v4 =
    cidr 0 0 0 0 24
    ∷ cidr 127 0 0 0 24
    ∷ cidr 169 254 0 0 16
    ∷ cidr 224 0 0 0 28
    ∷ cidr 255 255 255 255 0
    ∷ []

-- 10/8, 172.16/12, 192.168/16, 100.64/10, 192.0.0/24, 198.18/15 and 240/4
abbrev pub private_blocks_v4 : List Block
private_blocks_v4 =
    cidr 10 0 0 0 24
    ∷ cidr 172 16 0 0 20
    ∷ cidr 192 168 0 0 16
    ∷ cidr 100 64 0 0 22
    ∷ cidr 192 0 0 0 8
    ∷ cidr 198 18 0 0 17
    ∷ cidr 240 0 0 0 28
    ∷ []

-- ::1, ::, ff00::/8 and fe80::/10
abbrev pub host_blocks_v6 : List Block
host_blocks_v6 =
    record { first = 1; last = 1 }
    ∷ record { first = 0; last = 0 }
    ∷ cidr_v6 0xff00 120
    ∷ cidr_v6 0xfe80 118
    ∷ []

-- fc00::/7
abbrev pub private_blocks_v6 : List Block
private_blocks_v6 = cidr_v6 0xfc00 121 ∷ []

-- The address that a packet for `ip` really goes to: an IPv4-mapped one stands for its inner one.
abbrev pub canonical : IpAddr → IpAddr
canonical (v4 a) = v4 a
canonical (v6 a) =
    if between 0xffff_0000_0000 0xffff_ffff_ffff a then v4 (a - 0xffff_0000_0000) else v6 a

abbrev pub in_host_block : IpAddr → Bool
in_host_block (v4 a) = in_any host_blocks_v4 a
in_host_block (v6 a) = in_any host_blocks_v6 a

abbrev pub in_private_block : IpAddr → Bool
in_private_block (v4 a) = in_any private_blocks_v4 a
in_private_block (v6 a) = in_any private_blocks_v6 a
