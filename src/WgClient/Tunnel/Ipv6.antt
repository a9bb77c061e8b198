-- ===== src/WgClient/Tunnel/Ipv6.antt =====
-- The IPv6 packets of the device leave no trace but their count.
use wg_wrapper.Base.{
  ℕ, ◌≡◌, refl, sym, ap, ◌∙◌, Bool, true, false, not, List, [], ◌∷◌, ◌++◌, map, filter, Bytes,
  Option, none, some, some-eq, length, if◌then◌else◌, Bool-cases, Option-cases, inl, inr,
}
use wg_wrapper.Addr.{SocketAddr}
use wg_wrapper.Noise.{Noise}
use wg_wrapper.Wg.Timers.{encapsulate, update_timers}
use wg_wrapper.Wg.{Received, recv_from_network}
use wg_wrapper.WgClient.Tunnel.{
  is_v6, fetch_add, Event, received, from_tun, tick, tun_refuses, Tunnel, send_all, forward,
  after_receive, on_datagram, on_packet, on_tick, step, and_then, run,
}

-- not an IPv6 packet of the device
abbrev pub allowed : Event → Bool
allowed (from_tun p) = not (is_v6 p)
allowed (received _) = true
allowed (tick _) = true
allowed tun_refuses = true

module _ (noise : Noise) where
  abbrev counting : ℕ → Tunnel noise → Tunnel noise
  counting k t = record t { v6_dropped = k }

  abbrev counting_all : ℕ → Option (Tunnel noise) → Option (Tunnel noise)
  counting_all k none = none
  counting_all k (some t) = some (counting k t)

  send_all-counting :
      (k : ℕ) (t : Tunnel noise) (ds : List Bytes)
      → send_all noise (counting k t) ds ≡ counting k (send_all noise t ds)
  unfolding send_all
  send_all-counting k t [] = refl
  send_all-counting k t (d ∷ ds) =
      send_all-counting k (record t { tx = fetch_add t.tx (length d); net = t.net ++ d ∷ [] }) ds

  counting-if :
      (k : ℕ) (b : Bool) (t u : Tunnel noise)
      → (if b then counting k t else counting k u) ≡ counting k (if b then t else u)
  counting-if k true t u = refl
  counting-if k false t u = refl

  forward-counting :
      (k : ℕ) (t : Tunnel noise) (ps : List Bytes)
      → forward noise (counting k t) ps ≡ counting k (forward noise t ps)
  unfolding forward
  forward-counting k t [] = refl
  forward-counting k t (p ∷ ps) =
      ap (λ r. if t.writing then r else counting k (record t { reading = false }))
        (forward-counting k (record t { tun = t.tun ++ p ∷ [] }) ps)
      ∙ counting-if k t.writing _ _

  after_receive-counting :
      (k : ℕ) (t : Tunnel noise) (r : Option (Received noise))
      → after_receive noise (counting k t) r ≡ counting_all k (after_receive noise t r)
  unfolding after_receive
  after_receive-counting k t none = refl
  after_receive-counting k t (some r) = ap some (
      ap (λ s. forward noise s r.ip_out) (send_all-counting k (record t { wg = r.wg }) r.net_out)
      ∙ forward-counting k (send_all noise (record t { wg = r.wg }) r.net_out) r.ip_out)

  counting_all-if :
      (k : ℕ) (b : Bool) (o : Option (Tunnel noise)) (t : Tunnel noise)
      → (if b then counting_all k o else some (counting k t))
        ≡ counting_all k (if b then o else some t)
  counting_all-if k true o t = refl
  counting_all-if k false o t = refl

  -- A packet that is no IPv6 packet, or an event of another task, does not touch the count.
  step-counting :
      (fuel : ℕ) (peer : SocketAddr) (k : ℕ) (t : Tunnel noise) (e : Event)
      → allowed e ≡ true
      → step noise fuel peer (counting k t) e ≡ counting_all k (step noise fuel peer t e)
  unfolding step on_datagram on_packet on_tick
  step-counting fuel peer k t (received d) h =
      ap (λ r. if t.reading then r else some (counting k t))
        (after_receive-counting k (record t { rx = fetch_add t.rx (length d) })
          (recv_from_network noise fuel t.wg peer d [] []))
      ∙ counting_all-if k t.reading
          (after_receive noise (record t { rx = fetch_add t.rx (length d) })
            (recv_from_network noise fuel t.wg peer d [] []))
          t
  step-counting fuel peer k t (from_tun p) h = rw (not-true (is_v6 p) h) (
      ap some (
        send_all-counting k (record t { wg = (encapsulate noise t.wg 0 p []).0 })
          (encapsulate noise t.wg 0 p []).1))
    where
      not-true : (b : Bool) → not b ≡ true → b ≡ false
      not-true true h = cc
      not-true false h = refl
  step-counting fuel peer k t (tick now) h = ap some (
      send_all-counting k (record t { wg = (update_timers noise t.wg now []).0 })
        (map (λ (i, d). d) (update_timers noise t.wg now []).1))
  step-counting fuel peer k t tun_refuses h = refl

  -- An IPv6 packet changes nothing but the count.
  step-v6 :
      (fuel : ℕ) (peer : SocketAddr) (k : ℕ) (t : Tunnel noise) (e : Event)
      → allowed e ≡ false
      → counting_all k (step noise fuel peer t e) ≡ some (counting k t)
  unfolding step on_packet
  step-v6 fuel peer k t (received d) h = cc
  step-v6 fuel peer k t (from_tun p) h = rw (not-false (is_v6 p) h) refl
    where
      not-false : (b : Bool) → not b ≡ false → b ≡ true
      not-false true h = refl
      not-false false h = cc
  step-v6 fuel peer k t (tick now) h = cc
  step-v6 fuel peer k t tun_refuses h = cc

  and_then-counting :
      (fuel : ℕ) (peer : SocketAddr) (k : ℕ) (o : Option (Tunnel noise))
      (next : Tunnel noise → Option (Tunnel noise)) (es : List Event)
      → ((t : Tunnel noise) → run noise fuel peer (counting k t) es ≡ counting_all k (next t))
      → and_then noise (counting_all k o) (λ t. run noise fuel peer t es)
        ≡ counting_all k (and_then noise o next)
  and_then-counting fuel peer k none next es f = refl
  and_then-counting fuel peer k (some t) next es f = f t

  none-some : {t : Tunnel noise} → ◌≡◌ {A = Option (Tunnel noise)} none (some t) → ⊥
  none-some h = cc

  run-counting :
      (fuel : ℕ) (peer : SocketAddr) (k : ℕ) (t : Tunnel noise) (es : List Event)
      → run noise fuel peer (counting k t) (filter allowed es)
        ≡ counting_all k (run noise fuel peer t es)
  unfolding run
  run-counting fuel peer k t [] = refl
  run-counting fuel peer k t (e ∷ es) = elim (Bool-cases (allowed e)) [
    | inl h ↦
        rw (h, step-counting fuel peer k t e h)
          (and_then-counting fuel peer k (step noise fuel peer t e) (λ u. run noise fuel peer u es)
            (filter allowed es) (λ u. run-counting fuel peer k u es))
    | inr h ↦ elim (Option-cases (step noise fuel peer t e)) [
      | inl n ↦ absurd (none-some (sym (ap (counting_all k) n) ∙ step-v6 fuel peer k t e h))
      | inr (u, n) ↦
          let same = some-eq (sym (ap (counting_all k) n) ∙ step-v6 fuel peer k t e h) in
          rw (h, n)
            (ap (λ s. run noise fuel peer s (filter allowed es)) (sym same)
              ∙ run-counting fuel peer k u es)
    ]
  ]

  -- A run with the IPv6 packets of the device left out ends the same, the endpoint, the datagrams
  -- sent and the packets delivered included; only their count is not advanced.
  pub run-allowed :
      (fuel : ℕ) (peer : SocketAddr) (s t : Tunnel noise) (es : List Event)
      → run noise fuel peer s es ≡ some t
      → run noise fuel peer s (filter allowed es) ≡ some (record t { v6_dropped = s.v6_dropped })
  run-allowed fuel peer s t es h =
      run-counting fuel peer s.v6_dropped s es ∙ ap (counting_all s.v6_dropped) h
