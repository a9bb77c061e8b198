-- ===== src/Flow/Relay/Fallback.antt =====
-- Which way a flow takes, and that a refusal is remembered.
use wg_wrapper.Base.{
  ℕ, ◌≡◌, ◌≢◌, refl, sym, subst, Bool, Bool-cases, true, false, List, [], ◌∷◌, Option, none, some,
  arith, ◌⊎◌, inl, inr, ◌==◌, bytes_eq, bytes_eq_sound, bytes_eq_refl, min, Memᴰ, if◌then◌else◌,
}
use wg_wrapper.Addr.{SocketAddr}
use wg_wrapper.Flow.Relay.{
  Attempt, associated, refused, timed_out, Way, over_tcp, relayed, dropped, dns_port, without_udp,
  fallback, attempted, udp_relay, idle_of, relay_or_force, handle_udp, Flow, handle_all,
}
use wg_wrapper.Text.{Text}

-- No association to be had: the upstream is known to refuse them, or the attempt fails.
abbrev pub Alone : List Text → Text → Attempt → Type 0
Alone no_udp addr attempt = Memᴰ addr no_udp ⊎ (attempt ≢ associated)

-- The one way that a flow may take. A lookup goes over TCP to the forced resolver if there is one;
-- without one, to where it was sent, if there is no association. Any other flow, and a lookup
-- without a forced resolver, is relayed if its upstream gives an association and is not known to
-- refuse them, with the configured limit, for a lookup with at most 10 seconds. Only a flow that is
-- no lookup is dropped, without an association.
abbrev pub Fits : List Text → Text → SocketAddr → Option SocketAddr → ℕ → Attempt → Way → Type 0
Fits no_udp addr dst dns limit attempt (over_tcp to) =
    (dst.port ≡ 53) × ((dns ≡ some to) ⊎ ((dns ≡ none) × (to ≡ dst) × Alone no_udp addr attempt))
Fits no_udp addr dst dns limit attempt (relayed l) =
    (¬ Memᴰ addr no_udp)
    × (attempt ≡ associated)
    × (dst.port ≡ 53 → (dns ≡ none) × (l ≡ min limit 10))
    × (dst.port ≢ 53 → l ≡ limit)
Fits no_udp addr dst dns limit attempt dropped = (dst.port ≢ 53) × Alone no_udp addr attempt

without_udp-mem :
    (addr : Text) (no_udp : List Text) → without_udp addr no_udp ≡ true → Memᴰ addr no_udp
without_udp-mem addr [] h = cc
without_udp-mem addr (a ∷ no_udp) h = elim (Bool-cases (bytes_eq addr a)) [
  | inl same ↦ Memᴰ.head (bytes_eq_sound addr a same)
  | inr other ↦ Memᴰ.tail (without_udp-mem addr no_udp (rw other at h))
]

mem-without_udp :
    (addr : Text) (no_udp : List Text) → Memᴰ addr no_udp → without_udp addr no_udp ≡ true
mem-without_udp addr [] m = elim m [ ]
mem-without_udp addr (a ∷ no_udp) (Memᴰ.head e) = rw (← e, bytes_eq_refl addr) refl
mem-without_udp addr (a ∷ no_udp) (Memᴰ.tail m) = ground (arith, mem-without_udp addr no_udp m)

module _ (no_udp : List Text) (addr : Text) (dst : SocketAddr) (limit : ℕ) where
  fallback-Fits :
      (dns : Option SocketAddr) (attempt : Attempt)
      → (dst.port ≡ 53 → dns ≡ none)
      → Alone no_udp addr attempt
      → Fits no_udp addr dst dns limit attempt (fallback dst)
  fallback-Fits dns attempt free alone = elim (Bool-cases (dst.port == dns_port)) [
    | inl lookup ↦
        let at_port : dst.port ≡ 53 = ground arith in
        rw lookup (at_port, inr (free at_port, refl, alone))
    | inr other ↦ rw other ((λ h. ground arith), alone)
  ]

  relayed-Fits :
      (dns : Option SocketAddr)
      → (dst.port ≡ 53 → dns ≡ none)
      → ¬ Memᴰ addr no_udp
      → Fits no_udp addr dst dns limit associated (relayed (idle_of dst limit))
  relayed-Fits dns free fresh = elim (Bool-cases (dst.port == dns_port)) [
    | inl lookup ↦ rw lookup (fresh, refl, (λ h. (free h, refl)), λ h. absurd (h (ground arith)))
    | inr other ↦ rw other (fresh, refl, (λ h. absurd (ground arith)), λ h. refl)
  ]

  attempted-Fits :
      (dns : Option SocketAddr) (attempt : Attempt)
      → (dst.port ≡ 53 → dns ≡ none)
      → ¬ Memᴰ addr no_udp
      → Fits no_udp addr dst dns limit attempt
          (attempted no_udp addr dst (idle_of dst limit) attempt).0
  unfolding attempted
  attempted-Fits dns associated free fresh = relayed-Fits dns free fresh
  attempted-Fits dns refused free fresh = fallback-Fits dns refused free (inr (λ h. cc))
  attempted-Fits dns timed_out free fresh = fallback-Fits dns timed_out free (inr (λ h. cc))

  udp_relay-Fits :
      (dns : Option SocketAddr) (attempt : Attempt)
      → (dst.port ≡ 53 → dns ≡ none)
      → Fits no_udp addr dst dns limit attempt
          (udp_relay no_udp addr dst (idle_of dst limit) attempt).0
  unfolding udp_relay
  udp_relay-Fits dns attempt free = elim (Bool-cases (without_udp addr no_udp)) [
    | inl known ↦
        rw known (fallback-Fits dns attempt free (inl (without_udp-mem addr no_udp known)))
    | inr fresh ↦
        rw fresh
          (attempted-Fits dns attempt free (λ m. differ (mem-without_udp addr no_udp m) fresh))
  ]
    where
      differ : {b : Bool} → b ≡ true → b ≡ false → ⊥
      differ h h' = cc

  -- A lookup for which a resolver is forced goes to that resolver over TCP. Every other flow is
  -- relayed, with the configured limit, a lookup with at most 10 seconds, exactly if its upstream is
  -- not known to refuse associations and gives one; otherwise a lookup goes to where it was sent
  -- over TCP, and any other flow is dropped.
  pub handle_udp-Fits :
      (dns : Option SocketAddr) (attempt : Attempt)
      → Fits no_udp addr dst dns limit attempt (handle_udp no_udp addr dst dns limit attempt).0
  unfolding handle_udp relay_or_force
  handle_udp-Fits none attempt = udp_relay-Fits none attempt (λ h. refl)
  handle_udp-Fits (some forced) attempt = elim (Bool-cases (dst.port == dns_port)) [
    | inl lookup ↦ rw lookup (ground arith, inl refl)
    | inr other ↦
        subst
          (λ b.
            Fits no_udp addr dst (some forced) limit attempt
              (if b
                then (over_tcp forced, no_udp)
                else udp_relay no_udp addr dst (idle_of dst limit) attempt).0)
          (sym other) (udp_relay-Fits (some forced) attempt (λ h. absurd (ground arith)))
  ]

-- A known upstream stays known, and none of its flows is relayed.
abbrev Ends : Text → Text → Way × List Text → Type 0
Ends a addr r = (without_udp a r.1 ≡ true) × (a ≡ addr → (l : ℕ) → r.0 ≢ relayed l)

abbrev Shuts : Text → Text → List Text → Way × List Text → Type 0
Shuts a addr no_udp r = without_udp a no_udp ≡ true → Ends a addr r

fallback_ends : (dst : SocketAddr) (l : ℕ) → fallback dst ≢ relayed l
fallback_ends dst l = elim (Bool-cases (dst.port == dns_port)) [
  | inl lookup ↦ rw lookup (λ h. cc)
  | inr other ↦ rw other (λ h. cc)
]

attempted_keeps :
    (a : Text) (no_udp : List Text) (addr : Text) (dst : SocketAddr) (l : ℕ) (attempt : Attempt)
    → without_udp a no_udp ≡ true
    → without_udp a (attempted no_udp addr dst l attempt).1 ≡ true
unfolding attempted
attempted_keeps a no_udp addr dst l associated h = h
attempted_keeps a no_udp addr dst l refused h = ground arith
attempted_keeps a no_udp addr dst l timed_out h = h

udp_relay-Shuts :
    (a : Text) (no_udp : List Text) (addr : Text) (dst : SocketAddr) (l : ℕ) (attempt : Attempt)
    → Shuts a addr no_udp (udp_relay no_udp addr dst l attempt)
unfolding udp_relay
udp_relay-Shuts a no_udp addr dst l attempt h = elim (Bool-cases (without_udp addr no_udp)) [
  | inl known ↦ rw known (h, λ same. fallback_ends dst)
  | inr fresh ↦ rw fresh (
    attempted_keeps a no_udp addr dst l attempt h,
    λ same. absurd (differ (subst (λ a. without_udp a no_udp ≡ true) same h) fresh),
  )
]
  where
    differ : {b : Bool} → b ≡ true → b ≡ false → ⊥
    differ h h' = cc

handle_udp-Shuts :
    (a : Text) (no_udp : List Text) (addr : Text) (dst : SocketAddr) (dns : Option SocketAddr)
    (l : ℕ) (attempt : Attempt)
    → Shuts a addr no_udp (handle_udp no_udp addr dst dns l attempt)
unfolding handle_udp relay_or_force
handle_udp-Shuts a no_udp addr dst none l attempt h =
    udp_relay-Shuts a no_udp addr dst (idle_of dst l) attempt h
handle_udp-Shuts a no_udp addr dst (some forced) l attempt h =
    elim (Bool-cases (dst.port == dns_port)) [
      | inl lookup ↦ rw lookup (h, λ same l h. cc)
      | inr other ↦
          subst
            (λ b. Ends a addr (
              if b
              then (over_tcp forced, no_udp)
              else udp_relay no_udp addr dst (idle_of dst l) attempt))
            (sym other) (udp_relay-Shuts a no_udp addr dst (idle_of dst l) attempt h)
    ]

-- No flow of an upstream is relayed.
abbrev pub NoneRelayed : Text → List Flow → List Way → Type 0
NoneRelayed a (f ∷ fs) (w ∷ ws) = (a ≡ f.addr → (l : ℕ) → w ≢ relayed l) × NoneRelayed a fs ws
NoneRelayed a [] [] = Unit
NoneRelayed a _ _ = ⊥

known-NoneRelayed :
    (a : Text) (dns : Option SocketAddr) (limit : ℕ) (fs : List Flow) (no_udp : List Text)
    → without_udp a no_udp ≡ true
    → NoneRelayed a fs (handle_all dns limit no_udp fs).0
unfolding handle_all
known-NoneRelayed a dns limit [] no_udp h = tt
known-NoneRelayed a dns limit (f ∷ fs) no_udp h =
    let (kept, shut) = handle_udp-Shuts a no_udp f.addr f.dst dns limit f.attempt h in
    (shut, known-NoneRelayed a dns limit fs _ kept)

udp_relay_kept :
    (no_udp : List Text) (addr : Text) (dst : SocketAddr) (l : ℕ)
    → without_udp addr (udp_relay no_udp addr dst l refused).1 ≡ true
unfolding udp_relay attempted
udp_relay_kept no_udp addr dst l =
    let shape : Bool → Way × List Text =
      λ known. if known then (fallback dst, no_udp) else (fallback dst, addr ∷ no_udp) in
    elim (Bool-cases (without_udp addr no_udp)) [
      | inl known ↦ subst (λ b. without_udp addr (shape b).1 ≡ true) (sym known) known
      | inr fresh ↦
          subst (λ b. without_udp addr (shape b).1 ≡ true) (sym fresh)
            (rw (bytes_eq_refl addr) refl)
    ]

refusal_kept :
    (no_udp : List Text) (addr : Text) (dst : SocketAddr) (dns : Option SocketAddr) (l : ℕ)
    → dst.port ≢ 53
    → without_udp addr (handle_udp no_udp addr dst dns l refused).1 ≡ true
unfolding handle_udp relay_or_force
refusal_kept no_udp addr dst none l other = udp_relay_kept no_udp addr dst (idle_of dst l)
refusal_kept no_udp addr dst (some forced) l other =
    let no_lookup : (dst.port == dns_port) ≡ false = ground arith in
    subst
      (λ b.
        without_udp addr
          (if b
            then (over_tcp forced, no_udp)
            else udp_relay no_udp addr dst (idle_of dst l) refused).1
        ≡ true)
      (sym no_lookup) (udp_relay_kept no_udp addr dst (idle_of dst l))

-- Once an upstream has refused an association to a flow that is no lookup, no later flow through it
-- is relayed, whatever flows of other upstreams come between.
pub handle_all-NoneRelayed :
    (dns : Option SocketAddr) (limit : ℕ) (no_udp : List Text) (addr : Text) (dst : SocketAddr)
    (fs : List Flow)
    → dst.port ≢ 53
    → NoneRelayed addr fs
        (handle_all dns limit (handle_udp no_udp addr dst dns limit refused).1 fs).0
handle_all-NoneRelayed dns limit no_udp addr dst fs other =
    known-NoneRelayed addr dns limit fs _ (refusal_kept no_udp addr dst dns limit other)
