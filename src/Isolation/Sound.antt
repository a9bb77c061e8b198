-- ===== src/Isolation/Sound.antt =====
-- The octet tests of `allowed_dst` against the address blocks.
use wg_wrapper.Base.{
  ℕ, ◌-◌, ◌*◌, ◌+◌, ◌/◌, ◌%◌, ◌∙◌, ◌^◌, ◌≡◌, ◌<◌, refl, Bool, true, false, not, ◌&&◌, ◌||◌, arith,
  ◌==◌, bit_and, between, inl, inr, some, none, Bool-cases, if◌then◌else◌,
}
use wg_wrapper.Base.Bits.{
  bit_and-f0-10, bit_and-f0-f0, bit_and-c0-40, bit_and-fe-12, bit_and-ffc0-fe80, bit_and-fe00-fc00,
}
use wg_wrapper.Addr.{IpAddr, v4, v6, IsAddr, octet_0, octet_1, octet_2, segment_0}
use wg_wrapper.Addr.V6
use wg_wrapper.IpNet.{NetOps}
use wg_wrapper.Isolation.Blocks.{
  in_any, host_blocks_v4, private_blocks_v4, host_blocks_v6, private_blocks_v6, canonical,
  in_host_block, in_private_block,
}
use wg_wrapper.Isolation.{
  refused_v4, private_v4, refused_v6, private_v6, allowed_dst_v4, allowed_dst,
}

refused_v4-blocks : (a : ℕ) → a < 2 ^ 32 → refused_v4 a ≡ in_any host_blocks_v4 a
unfolding refused_v4
refused_v4-blocks a h = ground arith

private-172 :
    (a : ℕ)
    → a < 2 ^ 32
    → (octet_0 a == 172 && bit_and (octet_1 a) 0xf0 == 16) ≡ between 0xac100000 0xac1fffff a
private-172 a h = rw (bit_and-f0-10 (octet_1 a) (omega arith)) (ground arith)

private-100 :
    (a : ℕ)
    → a < 2 ^ 32
    → (octet_0 a == 100 && bit_and (octet_1 a) 0xc0 == 64) ≡ between 0x64400000 0x647fffff a
private-100 a h = rw (bit_and-c0-40 (octet_1 a) (omega arith)) (ground arith)

private-198 :
    (a : ℕ)
    → a < 2 ^ 32
    → (octet_0 a == 198 && bit_and (octet_1 a) 0xfe == 18) ≡ between 0xc6120000 0xc613ffff a
private-198 a h = rw (bit_and-fe-12 (octet_1 a) (omega arith)) (ground arith)

private-240 :
    (a : ℕ) → a < 2 ^ 32 → (bit_and (octet_0 a) 0xf0 == 240) ≡ between 0xf0000000 0xffffffff a
private-240 a h = rw (bit_and-f0-f0 (octet_0 a) (omega arith)) (ground arith)

private-192 :
    (a : ℕ)
    → a < 2 ^ 32
    → (octet_0 a == 192 && octet_1 a == 0 && octet_2 a == 0) ≡ between 0xc0000000 0xc00000ff a
private-192 a h = ground arith

private-192-168 :
    (a : ℕ) → a < 2 ^ 32 → (octet_0 a == 192 && octet_1 a == 168) ≡ between 0xc0a80000 0xc0a8ffff a
private-192-168 a h = ground arith

private-10 : (a : ℕ) → a < 2 ^ 32 → (octet_0 a == 10) ≡ between 0x0a000000 0x0affffff a
private-10 a h = ground arith

private_v4-blocks : (a : ℕ) → a < 2 ^ 32 → private_v4 a ≡ in_any private_blocks_v4 a
unfolding private_v4
private_v4-blocks a h =
    rw
      (
        private-10 a h,
        private-172 a h,
        private-192-168 a h,
        private-100 a h,
        private-192 a h,
        private-198 a h,
        private-240 a h,
      )
      (ground arith)

link_local_v6 :
    (a : ℕ)
    → a < 2 ^ 128
    → (bit_and (segment_0 a) 0xffc0 == 0xfe80)
      ≡ between (0xfe80 * 2 ^ 112) (0xfe80 * 2 ^ 112 + (2 ^ 118 - 1)) a
link_local_v6 a h = rw (bit_and-ffc0-fe80 (segment_0 a) (omega arith)) (ground arith)

refused_v6-blocks : (a : ℕ) → a < 2 ^ 128 → refused_v6 a ≡ in_any host_blocks_v6 a
unfolding refused_v6
refused_v6-blocks a h = rw (link_local_v6 a h) (ground arith)

private_v6-blocks : (a : ℕ) → a < 2 ^ 128 → private_v6 a ≡ in_any private_blocks_v6 a
unfolding private_v6
private_v6-blocks a h = rw (bit_and-fe00-fc00 (segment_0 a) (omega arith)) (ground arith)

-- The ladder of tests as a conjunction.
ladder :
    (c r q p : Bool)
    → (if c then false else if r then false else p || not q) ≡ (not c && (not r && (p || not q)))
ladder c r q p = ground arith

ladder_twice : (c x : Bool) → (not c && x) ≡ (not c && (not c && x))
ladder_twice c x = ground arith

ladder_under : (c x y : Bool) → x ≡ y → (if c then false else x) ≡ (not c && y)
ladder_under c x y h = ground arith

canonical_mapped :
    (a : ℕ)
    → (a / 2 ^ 32 == 0xffff) ≡ true
    → (V6.to_ipv4_mapped a ≡ some (a % 2 ^ 32)) × (canonical (v6 a) ≡ v4 (a % 2 ^ 32))
canonical_mapped a h = (ground arith, ground arith)

canonical_direct :
    (a : ℕ)
    → (a / 2 ^ 32 == 0xffff) ≡ false
    → (V6.to_ipv4_mapped a ≡ none) × (canonical (v6 a) ≡ v6 a)
canonical_direct a h = (ground arith, ground arith)

module _ (ops : NetOps) where
  open ops use {Net, contains}

  -- What the gate lets through, told by blocks.
  abbrev reachable : Net → IpAddr → Bool → Bool
  reachable net ip allow_private =
      not (contains net ip)
      && (not (in_host_block ip) && (allow_private || not (in_private_block ip)))

  allowed_dst_v4-blocks :
      (net : Net) (a : ℕ) (p : Bool)
      → a < 2 ^ 32
      → allowed_dst_v4 ops net a p ≡ reachable net (v4 a) p
  unfolding allowed_dst_v4
  allowed_dst_v4-blocks net a p h =
      rw (refused_v4-blocks a h, private_v4-blocks a h)
        (ladder (contains net (v4 a)) (in_any host_blocks_v4 a) (in_any private_blocks_v4 a) p)

  allowed_dst_v6_direct :
      (net : Net) (a : ℕ) (p : Bool)
      → a < 2 ^ 128
      → (if refused_v6 a then false else p || not (private_v6 a))
        ≡ (not (in_host_block (v6 a)) && (p || not (in_private_block (v6 a))))
  allowed_dst_v6_direct net a p h =
      rw (refused_v6-blocks a h, private_v6-blocks a h)
        (ladder_under (in_any host_blocks_v6 a) _ _ refl)

  -- An address is reachable exactly if neither it nor the IPv4 address that it maps lies in the
  -- tunnel subnet, and that address is in no host block and, unless `allow_private` is set, in no
  -- private block.
  pub allowed_dst-blocks :
      (net : Net) (ip : IpAddr) (allow_private : Bool)
      → IsAddr ip
      → allowed_dst ops net ip allow_private ≡ (
          not (contains net ip)
          && (not (contains net (canonical ip))
              && (not (in_host_block (canonical ip))
                  && (allow_private || not (in_private_block (canonical ip))))))
  unfolding allowed_dst allowed_dst_v4
  allowed_dst-blocks net (v4 a) p h =
      allowed_dst_v4-blocks net a p h ∙ ladder_twice (contains net (v4 a)) _
  allowed_dst-blocks net (v6 a) p h = elim (Bool-cases (a / 2 ^ 32 == 0xffff)) [
    | inl mapped ↦
        let (inner, same) = canonical_mapped a mapped in
        rw (same, inner)
          (ladder_under (contains net (v6 a)) _ _
            (allowed_dst_v4-blocks net (a % 2 ^ 32) p (omega arith)))
    | inr direct ↦
        let (inner, same) = canonical_direct a direct in
        rw (same, inner)
          (ladder_under (contains net (v6 a)) _ _ (allowed_dst_v6_direct net a p h)
            ∙ ladder_twice (contains net (v6 a)) _)
  ]
