-- ===== src/Server/Inbound/Isolated.antt =====
-- Only packets that the isolation rules admit reach the stack, and all of those for which there is room.
use mathlib.Core.List.{append_assoc, map-append}
use wg_wrapper.Base.{
  ℕ, ◌≤◌, ◌≡◌, refl, sym, ap, ◌∙◌, subst, Bool, true, false, not, ◌&&◌, ◌||◌, List, [], ◌++◌, Bytes,
  Option, none, some, arith, length, filter, Memᴰ, inl, inr, ◌⊎◌, some-eq, mem_of_mem-take,
  mem_of_mem-append, mem_of_mem-filter,
}
use wg_wrapper.Addr.{IpAddr, IsAddr, SocketAddr}
use wg_wrapper.IpNet.{NetOps}
use wg_wrapper.Isolation.Blocks.{canonical, in_host_block, in_private_block}
use wg_wrapper.Isolation.Sound.{allowed_dst-blocks}
use wg_wrapper.Isolation.{allowed_dst}
use wg_wrapper.Keys.{src_address}
use wg_wrapper.Noise.{Noise}
use wg_wrapper.Routing.Longest.{peer_for-longest}
use wg_wrapper.Routing.{peer_for}
use wg_wrapper.Rst.{Etherparse}
use wg_wrapper.Server.Inbound.{
  State, Settings, send_all, hand_up, after_receive, on_datagram, routed_to,
}
use wg_wrapper.Server.Inbound.Gate.{passes, admits, fill, Fills, Fills-nothing, on_packets-Fills}
use wg_wrapper.Server.{queue_capacity}
use wg_wrapper.Wg.{Received, recv_from_network}

module _ (ops : NetOps) (noise : Noise) (lib : Etherparse) where
  open ops use {Net, contains}

  -- A packet that may go up: its source lies in a network of the peer that sent it, and its
  -- destination is neither in the tunnel subnet nor in a block that is closed to peers.
  pub record Admitted (cfg : Settings ops noise lib) (idx : ℕ) (packet : Bytes) : Type 0 where
    pub src : IpAddr
    pub dst : IpAddr
    pub src_is : src_address packet ≡ some src
    pub dst_is : noise.dst_address packet ≡ some dst
    pub net : Net
    pub owned : Memᴰ (net, idx) cfg.allowed
    pub holds : contains net src ≡ true
    pub outside : contains cfg.wg_net dst ≡ false
    pub outside_inner : contains cfg.wg_net (canonical dst) ≡ false
    pub not_host : in_host_block (canonical dst) ≡ false
    pub not_private : cfg.allow_private ≡ false → in_private_block (canonical dst) ≡ false

  routed_to-some : (o : Option ℕ) (idx : ℕ) → routed_to o idx ≡ true → o ≡ some idx
  routed_to-some none idx h = cc
  routed_to-some (some j) idx h = ground arith

  closed-parts :
      (a b c p q : Bool)
      → (not a && (not b && (not c && (p || not q)))) ≡ true
      → (a ≡ false) × (b ≡ false) × (c ≡ false) × (p ≡ false → q ≡ false)
  closed-parts a b c p q h = ground arith

  passes-Admitted :
      (cfg : Settings ops noise lib) (idx : ℕ) (packet : Bytes) (src dst : Option IpAddr)
      → ((ip : IpAddr) → dst ≡ some ip → IsAddr ip)
      → src_address packet ≡ src
      → noise.dst_address packet ≡ dst
      → passes ops noise lib cfg idx src dst ≡ true
      → Admitted cfg idx packet
  passes-Admitted cfg idx packet none dst valid es ed h = cc
  passes-Admitted cfg idx packet (some src) none valid es ed h = cc
  passes-Admitted cfg idx packet (some src) (some dst) valid es ed h =
      let routed : routed_to (peer_for ops cfg.allowed src) idx ≡ true = ground arith in
      let open_to : allowed_dst ops cfg.wg_net dst cfg.allow_private ≡ true = ground arith in
      let (net, owned, holds, _) =
        peer_for-longest ops cfg.allowed src idx (routed_to-some _ idx routed) in
      let told =
        sym (allowed_dst-blocks ops cfg.wg_net dst cfg.allow_private (valid dst refl)) ∙ open_to in
      let (outside, inner, host, private) = closed-parts _ _ _ _ _ told in
      record {
        src = src;
        dst = dst;
        src_is = es;
        dst_is = ed;
        net = net;
        owned = owned;
        holds = holds;
        outside = outside;
        outside_inner = inner;
        not_host = host;
        not_private = private;
      }

  -- what a receipt hands up
  abbrev handed : Settings ops noise lib → Received noise → Option ℕ → List Bytes
  handed cfg r none = []
  handed cfg r (some idx) = filter (admits ops noise lib cfg idx) r.ip_out

  -- One round of the task.
  pub record Handed (cfg : Settings ops noise lib) (s s' : State ops noise lib) (from : SocketAddr)
      (r : Received noise) : Type 0 where
    pub queue : s'.to_stack ≡ fill ops noise lib s.to_stack (handed cfg r r.peer)
    pub admitted :
        (packet : Bytes)
        → Memᴰ packet s'.to_stack
        → Memᴰ packet s.to_stack
          ⊎ ((idx : ℕ) × (r.peer ≡ some idx) × Memᴰ packet r.ip_out × Admitted cfg idx packet)
    pub replies : List Bytes
    pub sends : s'.sent ≡ s.sent ++ send_all ops noise lib from (r.net_out ++ replies)

  handed-Admitted :
      (cfg : Settings ops noise lib) (r : Received noise) (peer : Option ℕ) (packet : Bytes)
      → ((p : Bytes) (ip : IpAddr) → noise.dst_address p ≡ some ip → IsAddr ip)
      → Memᴰ packet (handed cfg r peer)
      → (idx : ℕ) × (peer ≡ some idx) × Memᴰ packet r.ip_out × Admitted cfg idx packet
  handed-Admitted cfg r none packet valid m = elim m [ ]
  handed-Admitted cfg r (some idx) packet valid m =
      let (at, ok_) = mem_of_mem-filter (admits ops noise lib cfg idx) r.ip_out m in
      (idx, refl, at, passes-Admitted cfg idx packet _ _ (valid packet) refl refl ok_)

  hand_up-Fills :
      (cfg : Settings ops noise lib) (s : State ops noise lib) (from : SocketAddr)
      (r : Received noise) (peer : Option ℕ)
      → length s.to_stack ≤ queue_capacity
      → Fills ops noise lib from s
          (hand_up ops noise lib cfg s from r.ip_out peer)
          (handed cfg r peer)
  unfolding hand_up
  hand_up-Fills cfg s from r none h = Fills-nothing ops noise lib from s h
  hand_up-Fills cfg s from r (some idx) h = on_packets-Fills ops noise lib cfg s from idx r.ip_out h

  after_receive-Handed :
      (cfg : Settings ops noise lib) (s s' : State ops noise lib) (from : SocketAddr)
      (o : Option (Received noise))
      → ((p : Bytes) (ip : IpAddr) → noise.dst_address p ≡ some ip → IsAddr ip)
      → length s.to_stack ≤ queue_capacity
      → after_receive ops noise lib cfg s from o ≡ some s'
      → (r : Received noise) × (o ≡ some r) × Handed cfg s s' from r
  unfolding after_receive
  after_receive-Handed cfg s s' from none valid h e = cc
  after_receive-Handed cfg s s' from (some r) valid h e =
      let s₁ = record s { wg = r.wg; sent = s.sent ++ send_all ops noise lib from r.net_out } in
      let f =
        subst (λ t. Fills ops noise lib from s₁ t (handed cfg r r.peer)) (some-eq e)
          (hand_up-Fills cfg s₁ from r r.peer h) in
      (
        r,
        refl,
        record {
          queue = f.queue;
          admitted = λ packet m.
              elim (mem_of_mem-append s.to_stack (handed cfg r r.peer)
                (mem_of_mem-take queue_capacity _ (subst (Memᴰ packet) f.queue m))) [
                  | inl old ↦ inl old
                  | inr new ↦ inr (handed-Admitted cfg r r.peer packet valid new)
                ];
          replies = f.replies;
          sends =
              f.sends
              ∙ append_assoc s.sent _ _
              ∙ ap (◌++◌ s.sent) (sym (map-append _ r.net_out f.replies));
        },
      )

  -- A round hands up, in order and as far as the queue has room, the packets of the datagram that
  -- pass the gate; so each packet in the queue was there before, or comes from this datagram, with
  -- a source in a network of the peer that sent it and a destination outside the tunnel subnet and
  -- all closed blocks. All that is sent goes back to where the datagram came from.
  pub on_datagram-Handed :
      (fuel : ℕ) (cfg : Settings ops noise lib) (s s' : State ops noise lib) (from : SocketAddr)
      (datagram : Bytes)
      → ((p : Bytes) (ip : IpAddr) → noise.dst_address p ≡ some ip → IsAddr ip)
      → length s.to_stack ≤ queue_capacity
      → on_datagram ops noise lib fuel cfg s from datagram ≡ some s'
      → (r : Received noise) × (recv_from_network noise fuel s.wg from datagram [] [] ≡ some r)
        × Handed cfg s s' from r
  unfolding on_datagram
  on_datagram-Handed fuel cfg s s' from datagram valid h e =
      after_receive-Handed cfg s s' from _ valid h e
