-- ===== src/WsRelay/Mapping/Owner.antt =====
-- Datagrams of one source never reach the connection of another.
use wg_wrapper.Base.{
  ℕ, ◌≡◌, refl, sym, ap, ◌∙◌, subst, Bool, Bool-cases, true, not, and-true, if-cases, List, [], ◌∷◌,
  ◌++◌, Bytes, Option, none, some, arith, inl, inr, ◌⊎◌, Memᴰ, mem_of_mem-append, length, get_elem?,
  get_elem?-append_left, get_elem?-append_length, filter, ltb, ◌==◌, ==_iff, if◌then◌else◌,
}
use wg_wrapper.Addr.{IpAddr, v4, v6, SocketAddr}
use wg_wrapper.WsRelay.Mapping.{
  ip_eq, addr_eq, Bridge, is_closed, get, insert, waiting_of, send, spawn, send_or_spawn,
  on_datagram, sweep, Event, arrives, returns, takes, sweeps, take_first, step, run,
}
use wg_wrapper.WsRelay.{queue_capacity}

ip_eq_sound : (a b : IpAddr) → ip_eq a b ≡ true → a ≡ b
unfolding ip_eq
ip_eq_sound (v4 a) (v4 b) h = ap v4 ((==_iff a b).0 h)
ip_eq_sound (v6 a) (v6 b) h = ap v6 ((==_iff a b).0 h)
ip_eq_sound (v4 a) (v6 b) h = cc
ip_eq_sound (v6 a) (v4 b) h = cc

addr_eq_sound : (a b : SocketAddr) → addr_eq a b ≡ true → a ≡ b
unfolding addr_eq
addr_eq_sound a b h =
    let (ips, ports) = and-true (ip_eq a.ip b.ip) (a.port == b.port) h in
    ap (λ i. record { ip = i; port = a.port }) (ip_eq_sound a.ip b.ip ips)
    ∙ ap (λ p. record { ip = b.ip; port = p }) ((==_iff a.port b.port).0 ports)

-- Each entry of the map, and each queued datagram with its source, belongs to a task spawned for it.
pub record Owned (b : Bridge) (sources : List (Bytes × SocketAddr)) : Type 0 where
  pub mapped :
      (src : SocketAddr) (id : ℕ) → Memᴰ (src, id) b.peers → get_elem? b.spawned id ≡ some src
  pub sent :
      (id : ℕ) (d : Bytes)
      → Memᴰ (id, d) b.queued
      → (src : SocketAddr) × (get_elem? b.spawned id ≡ some src) × Memᴰ (d, src) sources

get-mem :
    (src : SocketAddr) (peers : List (SocketAddr × ℕ)) (id : ℕ)
    → get src peers ≡ some id
    → Memᴰ {A = SocketAddr × ℕ} (src, id) peers
unfolding get
get-mem src [] id e = cc
get-mem src ((key, j) ∷ peers) id e = elim (Bool-cases (addr_eq key src)) [
  | inl same ↦
      let found : j ≡ id = ground arith in
      Memᴰ.head (rw (found) (ap (λ k. (k, id)) (sym (addr_eq_sound key src same))))
  | inr other ↦ Memᴰ.tail (get-mem src peers id (ground arith))
]

mem-cons : {A : Type 0} {a x : A} {xs : List A} → Memᴰ a (x ∷ xs) → (a ≡ x) ⊎ Memᴰ a xs
mem-cons (Memᴰ.head e) = inl e
mem-cons (Memᴰ.tail m) = inr m

insert-mem :
    (src s : SocketAddr) (id i : ℕ) (peers : List (SocketAddr × ℕ))
    → Memᴰ {A = SocketAddr × ℕ} (s, i) (insert src id peers)
    → ((s ≡ src) × (i ≡ id)) ⊎ Memᴰ {A = SocketAddr × ℕ} (s, i) peers
unfolding insert
insert-mem src s id i [] (Memᴰ.head e) = inl (ap (λ p. p.0) e, ap (λ p. p.1) e)
insert-mem src s id i [] (Memᴰ.tail m) = elim m [ ]
insert-mem src s id i ((key, old) ∷ peers) m =
    elim (if-cases (λ (l : List (SocketAddr × ℕ)). Memᴰ {A = SocketAddr × ℕ} (s, i) l)
      (addr_eq key src) m) [
        | inl (same, here) ↦ elim (mem-cons here) [
          | inl e ↦ inl (ap (λ p. p.0) e ∙ addr_eq_sound key src same, ap (λ p. p.1) e)
          | inr old_m ↦ inr (Memᴰ.tail old_m)
        ]
        | inr (_, there) ↦ elim (mem-cons there) [
          | inl e ↦ inr (Memᴰ.head e)
          | inr later ↦ elim (insert-mem src s id i peers later) [
            | inl new ↦ inl new
            | inr old_m ↦ inr (Memᴰ.tail old_m)
          ]
        ]
      ]

mem_of_mem-filter :
    {A : Type 0} (p : A → Bool) (xs : List A) (a : A) → Memᴰ a (filter p xs) → Memᴰ a xs
mem_of_mem-filter p [] a m = elim m [ ]
mem_of_mem-filter {A = A} p (x ∷ xs) a m = elim (if-cases (λ (l : List A). Memᴰ a l) (p x) m) [
  | inl (_, kept) ↦ elim (mem-cons kept) [
    | inl e ↦ Memᴰ.head e
    | inr later ↦ Memᴰ.tail (mem_of_mem-filter p xs a later)
  ]
  | inr (_, rest) ↦ Memᴰ.tail (mem_of_mem-filter p xs a rest)
]

mem_of_mem-take_first :
    (id : ℕ) (qs : List (ℕ × Bytes)) (q : ℕ × Bytes) → Memᴰ q (take_first id qs) → Memᴰ q qs
unfolding take_first
mem_of_mem-take_first id [] q m = elim m [ ]
mem_of_mem-take_first id ((j, d) ∷ qs) q m =
    elim (if-cases (λ (l : List (ℕ × Bytes)). Memᴰ q l) (j == id) m) [
      | inl (_, rest) ↦ Memᴰ.tail rest
      | inr (_, there) ↦ elim (mem-cons there) [
        | inl e ↦ Memᴰ.head e
        | inr later ↦ Memᴰ.tail (mem_of_mem-take_first id qs q later)
      ]
    ]

later_Owned :
    (b : Bridge) (x : Bytes × SocketAddr) (sources : List (Bytes × SocketAddr))
    → Owned b sources
    → Owned b (x ∷ sources)
later_Owned b x sources v = record {
  mapped = v.mapped;
  sent = λ id d m. let (src, at, from) = v.sent id d m in (src, at, Memᴰ.tail from);
}

queue-Owned :
    (b : Bridge) (id : ℕ) (d : Bytes) (src : SocketAddr) (sources : List (Bytes × SocketAddr))
    → Owned b sources
    → get_elem? b.spawned id ≡ some src
    → Owned (record b { queued = b.queued ++ (id, d) ∷ [] }) ((d, src) ∷ sources)
queue-Owned b id d src sources v at = record {
  mapped = v.mapped;
  sent = λ i e m. elim (mem_of_mem-append b.queued ((id, d) ∷ []) m) [
    | inl old ↦ let (s, at', from) = v.sent i e old in (s, at', Memᴰ.tail from)
    | inr new ↦ elim (mem-cons new) [
      | inl same ↦ (
        src,
        subst (λ i. get_elem? b.spawned i ≡ some src) (sym (ap (λ p. p.0) same)) at,
        Memᴰ.head (ap (λ (p : ℕ × Bytes). (p.1, src)) same),
      )
      | inr none_left ↦ elim none_left [ ]
    ]
  ];
}

send-Owned :
    (b : Bridge) (id : ℕ) (d : Bytes) (src : SocketAddr) (sources : List (Bytes × SocketAddr))
    → Owned b sources
    → get_elem? b.spawned id ≡ some src
    → Owned (send b id d) ((d, src) ∷ sources)
unfolding send
send-Owned b id d src sources v at = elim (Bool-cases (is_closed b id)) [
  | inl gone ↦ rw gone (later_Owned b (d, src) sources v)
  | inr open_ ↦ elim (Bool-cases (ltb (length (waiting_of id b.queued)) queue_capacity)) [
    | inl room ↦ rw (open_, room) (queue-Owned b id d src sources v at)
    | inr full ↦ rw (open_, full) (later_Owned b (d, src) sources v)
  ]
]

spawn-Owned :
    (b : Bridge) (src : SocketAddr) (d : Bytes) (sources : List (Bytes × SocketAddr))
    → Owned b sources
    → Owned (spawn b src d) ((d, src) ∷ sources)
unfolding spawn
spawn-Owned b src d sources v =
    send-Owned
      (record b { spawned = b.spawned ++ src ∷ []; peers = insert src (length b.spawned) b.peers })
      (length b.spawned) d src sources
      (record {
        mapped = λ s i m. elim (insert-mem src s (length b.spawned) i b.peers m) [
          | inl (same, last) ↦ rw (same, last) (get_elem?-append_length b.spawned src [])
          | inr old ↦ get_elem?-append_left b.spawned (src ∷ []) i (v.mapped s i old)
        ];
        sent = λ i e m.
            let (s, at, from) = v.sent i e m in
            (s, get_elem?-append_left b.spawned (src ∷ []) i at, from);
      })
      (get_elem?-append_length b.spawned src [])

send_or_spawn-Owned :
    (b : Bridge) (src : SocketAddr) (d : Bytes) (sources : List (Bytes × SocketAddr)) (o : Option ℕ)
    → Owned b sources
    → get src b.peers ≡ o
    → Owned (send_or_spawn b src d o) ((d, src) ∷ sources)
unfolding send_or_spawn
send_or_spawn-Owned b src d sources none v e = spawn-Owned b src d sources v
send_or_spawn-Owned b src d sources (some id) v e = elim (Bool-cases (is_closed b id)) [
  | inl gone ↦ rw gone (spawn-Owned b src d sources v)
  | inr open_ ↦
      subst (λ c. Owned (if c then spawn b src d else send b id d) ((d, src) ∷ sources)) (sym open_)
        (send-Owned b id d src sources v (v.mapped src id (get-mem src b.peers id e)))
]

-- the datagrams that have arrived, the last one first, in front of those before
abbrev pub arrivals : List Event → List (Bytes × SocketAddr) → List (Bytes × SocketAddr)
arrivals [] before = before
arrivals (arrives src d ∷ es) before = arrivals es ((d, src) ∷ before)
arrivals (returns id ∷ es) before = arrivals es before
arrivals (takes id ∷ es) before = arrivals es before
arrivals (sweeps ∷ es) before = arrivals es before

-- In every run, a datagram waits only at a connection that was spawned for the source which the
-- datagram came from, and the map leads each source only to connections of its own.
pub run-Owned :
    (es : List Event) (b : Bridge) (before : List (Bytes × SocketAddr))
    → Owned b before
    → Owned (run b es) (arrivals es before)
unfolding run step on_datagram sweep
run-Owned [] b before v = v
run-Owned (arrives src d ∷ es) b before v =
    run-Owned es (on_datagram b src d) ((d, src) ∷ before)
      (send_or_spawn-Owned b src d before (get src b.peers) v refl)
run-Owned (returns id ∷ es) b before v =
    run-Owned es (record b { closed = id ∷ b.closed }) before
      (record { mapped = v.mapped; sent = v.sent })
run-Owned (takes id ∷ es) b before v =
    run-Owned es (record b { queued = take_first id b.queued }) before
      (record {
        mapped = v.mapped;
        sent = λ i d m. v.sent i d (mem_of_mem-take_first id b.queued (i, d) m);
      })
run-Owned (sweeps ∷ es) b before v = run-Owned es (sweep b) before (record {
  mapped = λ s i m. v.mapped s i (mem_of_mem-filter (λ p. not (is_closed b p.1)) b.peers (s, i) m);
  sent = v.sent;
})
