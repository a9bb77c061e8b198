-- ===== src/WgClient/Tunnel/Counters.antt =====
-- The counters along a run of the tasks.
use wg_wrapper.Base.{
  ℕ, ◌+◌, ◌%◌, ◌^◌, ◌≡◌, refl, sym, ap, ◌∙◌, subst, Bool, true, false, List, [], ◌∷◌, ◌++◌, map,
  Bytes, Option, none, some, some-eq, length, arith, if◌then◌else◌, Bool-cases, Option-cases, ◌<◌,
  inl, inr,
}
use mathlib.Core.List.{append_assoc, append-nil}
use wg_wrapper.Addr.{SocketAddr}
use wg_wrapper.Noise.{Noise}
use wg_wrapper.Wg.Timers.{encapsulate, update_timers}
use wg_wrapper.Wg.{Received, recv_from_network}
use wg_wrapper.WgClient.Tunnel.{
  is_v6, fetch_add, Event, received, from_tun, tick, tun_refuses, Tunnel, send_all, forward,
  after_receive, on_datagram, on_packet, on_tick, step, run,
}

-- the bytes of these datagrams
abbrev pub total : List Bytes → ℕ
total [] = 0
total (d ∷ ds) = length d + total ds

total-append : (ds es : List Bytes) → total (ds ++ es) ≡ total ds + total es
total-append [] es = omega arith
total-append (d ∷ ds) es = omega (arith, total-append ds es)

-- one for an IPv6 packet
abbrev pub v6_of : Event → ℕ
v6_of (from_tun p) = if is_v6 p then 1 else 0
v6_of (received _) = 0
v6_of (tick _) = 0
v6_of tun_refuses = 0

abbrev pub v6_count : List Event → ℕ
v6_count [] = 0
v6_count (e ∷ es) = v6_of e + v6_count es

module _ (noise : Noise) where
  -- the bytes that a task still reading the socket counts in this round
  abbrev pub heard_of : Tunnel noise → Event → ℕ
  heard_of t (received d) = if t.reading then length d else 0
  heard_of t (from_tun _) = 0
  heard_of t (tick _) = 0
  heard_of t tun_refuses = 0

  abbrev pub or_zero : Option (Tunnel noise) → (Tunnel noise → ℕ) → ℕ
  or_zero none f = 0
  or_zero (some t) f = f t

  -- along a run
  unfoldable pub heard : ℕ → SocketAddr → Tunnel noise → List Event → ℕ
  heard fuel peer t [] = 0
  heard fuel peer t (e ∷ es) =
      heard_of t e + or_zero (step noise fuel peer t e) (λ t. heard fuel peer t es)

  -- From s to t: these bytes received and IPv6 packets dropped, and the bytes sent of what the
  -- socket was given.
  abbrev pub Counts : Tunnel noise → Tunnel noise → (rx v6 : ℕ) → Type 0
  Counts s t rx v6 =
      (t.rx ≡ (s.rx + rx) % 2 ^ 64)
      × (t.v6_dropped ≡ (s.v6_dropped + v6) % 2 ^ 64)
      × ((given : List Bytes) × (t.net ≡ s.net ++ given) × (t.tx ≡ (s.tx + total given) % 2 ^ 64))

  abbrev pub InRange : Tunnel noise → Type 0
  InRange t = (t.rx < 2 ^ 64) × (t.v6_dropped < 2 ^ 64) × (t.tx < 2 ^ 64)

  same : (n : ℕ) → n < 2 ^ 64 → n ≡ (n + 0) % 2 ^ 64
  same n h = omega arith

  below : (n : ℕ) → n % 2 ^ 64 < 2 ^ 64
  below n = omega arith

  twice : (n a b : ℕ) → ((n + a) % 2 ^ 64 + b) % 2 ^ 64 ≡ (n + (a + b)) % 2 ^ 64
  twice n a b = omega arith

  unmoved : (t : Tunnel noise) → InRange t → Counts t t 0 0
  unmoved t h = (same t.rx h.0, same t.v6_dropped h.1, ([], sym (append-nil t.net), same t.tx h.2))

  Counts-InRange : (s t : Tunnel noise) (rx v6 : ℕ) → Counts s t rx v6 → InRange t
  Counts-InRange s t rx v6 c = (rw c.0 (below _), rw c.1 (below _), rw c.2.2 (below _))

  chained :
      (n a b m k : ℕ) → m ≡ (n + a) % 2 ^ 64 → k ≡ (m + b) % 2 ^ 64 → k ≡ (n + (a + b)) % 2 ^ 64
  chained n a b m k e f = omega (arith, e, f)

  Counts-trans :
      (s t u : Tunnel noise) (a b c d : ℕ)
      → Counts s t a b
      → Counts t u c d
      → Counts s u (a + c) (b + d)
  Counts-trans s t u a b c d f g =
      let (given, net, tx) = f.2 in
      let (more, net', tx') = g.2 in
      (
        chained s.rx a c t.rx u.rx f.0 g.0,
        chained s.v6_dropped b d t.v6_dropped u.v6_dropped f.1 g.1,
        (
          given ++ more,
          net' ∙ ap (λ n. n ++ more) net ∙ append_assoc s.net given more,
          chained s.tx (total given) (total more) t.tx u.tx tx tx'
              ∙ ap (λ n. (s.tx + n) % 2 ^ 64) (sym (total-append given more)),
        ),
      )

  send_one-Counts :
      (t : Tunnel noise) (d : Bytes)
      → InRange t
      → Counts t (record t { tx = fetch_add t.tx (length d); net = t.net ++ d ∷ [] }) 0 0
  send_one-Counts t d h = (
    same t.rx h.0,
    same t.v6_dropped h.1,
    (d ∷ [], refl, ap (λ n. (t.tx + n) % 2 ^ 64) (one (length d))),
  )
    where
      one : (n : ℕ) → n ≡ n + 0
      one n = omega arith

  send_all-Counts :
      (t : Tunnel noise) (ds : List Bytes) → InRange t → Counts t (send_all noise t ds) 0 0
  unfolding send_all
  send_all-Counts t [] h = unmoved t h
  send_all-Counts t (d ∷ ds) h =
      let t' = record t { tx = fetch_add t.tx (length d); net = t.net ++ d ∷ [] } in
      let c = send_one-Counts t d h in
      Counts-trans t t' (send_all noise t' ds) 0 0 0 0 c
        (send_all-Counts t' ds (Counts-InRange t t' 0 0 c))

  forward-Counts :
      (t : Tunnel noise) (ps : List Bytes) → InRange t → Counts t (forward noise t ps) 0 0
  unfolding forward
  forward-Counts t [] h = unmoved t h
  forward-Counts t (p ∷ ps) h =
      either t.writing _ _ (forward-Counts (record t { tun = t.tun ++ p ∷ [] }) ps h) (unmoved t h)
    where
      either :
          (b : Bool) (u v : Tunnel noise)
          → Counts t u 0 0
          → Counts t v 0 0
          → Counts t (if b then u else v) 0 0
      either true u v c d = c
      either false u v c d = d

  -- A datagram is counted before it is read.
  received-Counts :
      (s t u : Tunnel noise) (n : ℕ) (r : Option (Received noise))
      → InRange s
      → t.rx ≡ fetch_add s.rx n
      → t.v6_dropped ≡ s.v6_dropped
      → t.net ≡ s.net
      → t.tx ≡ s.tx
      → after_receive noise t r ≡ some u
      → Counts s u n 0
  unfolding after_receive
  received-Counts s t u n none h e₁ e₂ e₃ e₄ e = cc
  received-Counts s t u n (some r) h e₁ e₂ e₃ e₄ e =
      let base : Counts s t n 0 =
        (e₁, e₂ ∙ same s.v6_dropped h.1, ([], e₃ ∙ sym (append-nil s.net), e₄ ∙ same s.tx h.2)) in
      let w = record t { wg = r.wg } in
      let sent = send_all noise w r.net_out in
      let c : Counts s sent (n + 0) 0 =
        Counts-trans s t sent n 0 0 0 base
          (send_all-Counts w r.net_out (Counts-InRange s t n 0 base)) in
      let last : Counts s (forward noise sent r.ip_out) (n + 0 + 0) 0 =
        Counts-trans s sent (forward noise sent r.ip_out) (n + 0) 0 0 0 c
          (forward-Counts sent r.ip_out (Counts-InRange s sent (n + 0) 0 c)) in
      subst (λ v. Counts s v n 0) (some-eq e)
        (subst (λ k. Counts s (forward noise sent r.ip_out) k 0) (zeros n) last)
    where
      zeros : (n : ℕ) → n + 0 + 0 ≡ n
      zeros n = omega arith

  on_packet-Counts :
      (t : Tunnel noise) (p : Bytes)
      → InRange t
      → Counts t (on_packet noise t p) 0 (if is_v6 p then 1 else 0)
  unfolding on_packet
  on_packet-Counts t p h = elim (Bool-cases (is_v6 p)) [
    | inl e ↦ rw e (same t.rx h.0, refl, ([], sym (append-nil t.net), same t.tx h.2))
    | inr e ↦ rw e (
        send_all-Counts (record t { wg = (encapsulate noise t.wg 0 p []).0 })
          (encapsulate noise t.wg 0 p []).1 h)
  ]

  listening :
      (b : Bool) (s t : Tunnel noise) (n : ℕ) (o : Option (Tunnel noise))
      → InRange s
      → (o ≡ some t → Counts s t n 0)
      → (if b then o else some s) ≡ some t
      → Counts s t (if b then n else 0) 0
  listening true s t n o h f e = f e
  listening false s t n o h f e = subst (λ u. Counts s u 0 0) (some-eq e) (unmoved s h)

  step-Counts :
      (fuel : ℕ) (peer : SocketAddr) (s : Tunnel noise) (e : Event) (t : Tunnel noise)
      → InRange s
      → step noise fuel peer s e ≡ some t
      → Counts s t (heard_of s e) (v6_of e)
  unfolding step on_datagram on_tick
  step-Counts fuel peer s (received d) t h e =
      listening s.reading s t (length d) _ h
        (λ f.
          received-Counts s (record s { rx = fetch_add s.rx (length d) }) t (length d)
            (recv_from_network noise fuel s.wg peer d [] []) h refl refl refl refl f)
        e
  step-Counts fuel peer s (from_tun p) t h e =
      subst (λ u. Counts s u 0 (if is_v6 p then 1 else 0)) (some-eq e) (on_packet-Counts s p h)
  step-Counts fuel peer s (tick now) t h e =
      subst (λ u. Counts s u 0 0) (some-eq e)
        (send_all-Counts (record s { wg = (update_timers noise s.wg now []).0 })
          (map (λ (i, d). d) (update_timers noise s.wg now []).1) h)
  step-Counts fuel peer s tun_refuses t h e = subst (λ u. Counts s u 0 0) (some-eq e) (unmoved s h)

  -- Along every run the counters say, modulo 2 ^ 64, how many bytes came in while the socket was
  -- read, how many bytes the socket was given, and how many IPv6 packets of the device were dropped.
  pub run-Counts :
      (fuel : ℕ) (peer : SocketAddr) (es : List Event) (s t : Tunnel noise)
      → InRange s
      → run noise fuel peer s es ≡ some t
      → Counts s t (heard fuel peer s es) (v6_count es)
  unfolding run heard
  run-Counts fuel peer [] s t h e = subst (λ u. Counts s u 0 0) (some-eq e) (unmoved s h)
  run-Counts fuel peer (e ∷ es) s t h r = elim (Option-cases (step noise fuel peer s e)) [
    | inl n ↦ absurd (stuck (rw n at r))
    | inr (u, n) ↦
        let c = step-Counts fuel peer s e u h n in
        let rest = run-Counts fuel peer es u t (Counts-InRange s u _ _ c) (rw n at r) in
        rw n
          (Counts-trans s u t (heard_of s e) (v6_of e) (heard fuel peer u es) (v6_count es) c rest)
  ]
    where
      stuck : {t : Tunnel noise} → ◌≡◌ {A = Option (Tunnel noise)} none (some t) → ⊥
      stuck h = cc
