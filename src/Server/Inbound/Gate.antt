-- ===== src/Server/Inbound/Gate.antt =====
-- What the task from the peers hands to the stack.
use mathlib.Core.List.{append_assoc, append-nil, map-append}
use wg_wrapper.Base.{
  ℕ, ◌≤◌, ◌≡◌, refl, sym, ap, ◌∙◌, subst, Bool, false, ◌&&◌, List, [], ◌∷◌, ◌++◌, Bytes, Option,
  none, some, arith, length, filter, take, ltb, if◌then◌else◌, Bool-cases, inl, inr, length-append,
  take_all, take_full, take-take_append, length-take,
}
use wg_wrapper.Addr.{IpAddr, SocketAddr}
use wg_wrapper.IpNet.{NetOps}
use wg_wrapper.Isolation.{allowed_dst}
use wg_wrapper.Keys.{src_address}
use wg_wrapper.Noise.{Noise}
use wg_wrapper.Routing.{peer_for}
use wg_wrapper.Rst.{Etherparse, tcp_rst}
use wg_wrapper.Server.Inbound.{
  State, Settings, send_all, enqueue, refuse, gate, on_packet, on_packets, routed_to,
}
use wg_wrapper.Server.{queue_capacity}
use wg_wrapper.Wg.Timers.{encapsulate}

module _ (ops : NetOps) (noise : Noise) (lib : Etherparse) where
  open ops use {Net, contains}

  abbrev pub passes : Settings ops noise lib → ℕ → Option IpAddr → Option IpAddr → Bool
  passes cfg idx (some src) (some dst) =
      routed_to (peer_for ops cfg.allowed src) idx
      && allowed_dst ops cfg.wg_net dst cfg.allow_private
  passes cfg idx (some src) none = false
  passes cfg idx none dst = false

  -- the packets of peer `idx` that go up
  abbrev pub admits : Settings ops noise lib → ℕ → Bytes → Bool
  admits cfg idx packet = passes cfg idx (src_address packet) (noise.dst_address packet)

  -- A queue that gets the packets of a list, as far as there is room.
  abbrev pub fill : List Bytes → List Bytes → List Bytes
  fill queue packets = take queue_capacity (queue ++ packets)

  -- What a step does to the queue and to the socket.
  pub record Fills (from : SocketAddr) (s s' : State ops noise lib) (packets : List Bytes)
      : Type 0 where
    pub queue : s'.to_stack ≡ fill s.to_stack packets
    pub replies : List Bytes
    pub sends : s'.sent ≡ s.sent ++ send_all ops noise lib from replies

  pub Fills-nothing :
      (from : SocketAddr) (s : State ops noise lib)
      → length s.to_stack ≤ queue_capacity
      → Fills from s s []
  Fills-nothing from s h = record {
    queue = rw append-nil (sym (take_all queue_capacity s.to_stack h));
    replies = [];
    sends = rw append-nil;
  }

  enqueue-Fills :
      (from : SocketAddr) (s : State ops noise lib) (packet : Bytes)
      → length s.to_stack ≤ queue_capacity
      → Fills from s (enqueue ops noise lib s packet) (packet ∷ [])
  unfolding enqueue
  enqueue-Fills from s packet h = elim (Bool-cases (ltb (length s.to_stack) queue_capacity)) [
    | inl room ↦ rw room (record {
      queue =
          sym (take_all queue_capacity _ (ground (arith, length-append s.to_stack (packet ∷ []))));
      replies = [];
      sends = rw append-nil;
    })
    | inr full ↦ rw full (record {
      queue = sym (take_full queue_capacity s.to_stack (packet ∷ []) (ground arith));
      replies = [];
      sends = rw append-nil;
    })
  ]

  refuse-Fills :
      (from : SocketAddr) (s : State ops noise lib) (idx : ℕ) (rst : Option Bytes)
      → length s.to_stack ≤ queue_capacity
      → Fills from s (refuse ops noise lib s from idx rst) []
  unfolding refuse
  refuse-Fills from s idx none h = Fills-nothing from s h
  refuse-Fills from s idx (some rst) h = record {
    queue = rw append-nil (sym (take_all queue_capacity s.to_stack h));
    replies = (encapsulate noise s.wg idx rst []).1;
    sends = refl;
  }

  -- the packet alone, if it passes
  abbrev only_if : Bool → Bytes → List Bytes
  only_if b packet = if b then packet ∷ [] else []

  gate-Fills :
      (cfg : Settings ops noise lib) (s : State ops noise lib) (from : SocketAddr) (idx : ℕ)
      (packet : Bytes) (src dst : Option IpAddr)
      → length s.to_stack ≤ queue_capacity
      → Fills from s
          (gate ops noise lib cfg s from idx packet src dst)
          (only_if (passes cfg idx src dst) packet)
  unfolding gate
  gate-Fills cfg s from idx packet none dst h = Fills-nothing from s h
  gate-Fills cfg s from idx packet (some src) none h = Fills-nothing from s h
  gate-Fills cfg s from idx packet (some src) (some dst) h =
      elim (Bool-cases (routed_to (peer_for ops cfg.allowed src) idx)) [
        | inr spoofed ↦ rw spoofed (Fills-nothing from s h)
        | inl owned ↦ elim (Bool-cases (allowed_dst ops cfg.wg_net dst cfg.allow_private)) [
          | inl open_to ↦ rw (owned, open_to) (enqueue-Fills from s packet h)
          | inr closed ↦ rw (owned, closed) (refuse-Fills from s idx (tcp_rst lib packet) h)
        ]
      ]

  Fills-append :
      (from : SocketAddr) (s t u : State ops noise lib) (xs ys : List Bytes)
      → Fills from s t xs
      → Fills from t u ys
      → Fills from s u (xs ++ ys)
  Fills-append from s t u xs ys f g = record {
    queue =
        g.queue
        ∙ ap (λ q. fill q ys) f.queue
        ∙ take-take_append queue_capacity (s.to_stack ++ xs) ys
        ∙ ap (take queue_capacity) (append_assoc s.to_stack xs ys);
    replies = f.replies ++ g.replies;
    sends =
        g.sends
        ∙ ap (λ l. l ++ send_all ops noise lib from g.replies) f.sends
        ∙ append_assoc s.sent _ _
        ∙ ap (◌++◌ s.sent) (sym (map-append _ f.replies g.replies));
  }

  Fills-bounded :
      (from : SocketAddr) (s t : State ops noise lib) (xs : List Bytes)
      → Fills from s t xs
      → length t.to_stack ≤ queue_capacity
  Fills-bounded from s t xs f =
      rw (f.queue, length-take queue_capacity (s.to_stack ++ xs)) (omega arith)

  filter-cons :
      (p : Bytes → Bool) (x : Bytes) (xs : List Bytes)
      → only_if (p x) x ++ filter p xs ≡ filter p (x ∷ xs)
  filter-cons p x xs = ground arith

  pub on_packets-Fills :
      (cfg : Settings ops noise lib) (s : State ops noise lib) (from : SocketAddr) (idx : ℕ)
      (packets : List Bytes)
      → length s.to_stack ≤ queue_capacity
      → Fills from s
          (on_packets ops noise lib cfg s from idx packets)
          (filter (admits cfg idx) packets)
  unfolding on_packets on_packet
  on_packets-Fills cfg s from idx [] h = Fills-nothing from s h
  on_packets-Fills cfg s from idx (packet ∷ packets) h =
      let first =
        gate-Fills cfg s from idx packet (src_address packet) (noise.dst_address packet) h in
      let next = on_packet ops noise lib cfg s from idx packet in
      subst (Fills from s (on_packets ops noise lib cfg next from idx packets))
        (filter-cons (admits cfg idx) packet packets)
        (Fills-append from s next _ _ _ first
          (on_packets-Fills cfg next from idx packets (Fills-bounded from s next _ first)))
