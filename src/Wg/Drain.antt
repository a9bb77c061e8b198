-- ===== src/Wg/Drain.antt =====
-- The loop on `decapsulate`: it ends, only adds to its outputs, and opens at most one packet.
use mathlib.Core.List.{append_assoc, append-nil}
use wg_wrapper.Base.{
  ℕ, zero, suc, ◌<◌, ◌≡◌, ◌≢◌, refl, ◌∙◌, true, List, [], ◌∷◌, ◌++◌, Bytes, Option, some, arith,
  ◌⊎◌, inl, inr,
}
use wg_wrapper.Addr.{IpAddr}
use wg_wrapper.Noise.{
  Noise, Drains, TunnResult, finished, failed, write_to_network, write_to_tunnel_v4,
  write_to_tunnel_v6,
}
use wg_wrapper.Wg.{Drained, drain_loop, on_answer}

module _ (noise : Noise) where
  open noise use {Tunn, Limiter, decapsulate}

  -- What a run of the loop from these outputs may leave.
  pub record Extends (net_out ip_out : List Bytes) (d : Drained noise) : Type 0 where
    pub sent : List Bytes
    pub net_grows : d.net_out ≡ net_out ++ sent
    pub opened :
        ((d.ip_out ≡ ip_out) × (d.decrypted ≢ some true))
        ⊎ ((packet : Bytes) × (d.ip_out ≡ ip_out ++ packet ∷ []) × (d.decrypted ≡ some true))

  Extends-sent :
      (net_out ip_out : List Bytes) (b : Bytes) {d : Drained noise}
      → Extends (net_out ++ b ∷ []) ip_out d
      → Extends net_out ip_out d
  Extends-sent net_out ip_out b x = record {
    sent = b ∷ x.sent;
    net_grows = x.net_grows ∙ append_assoc net_out (b ∷ []) x.sent;
    opened = x.opened;
  }

  -- One round, whatever the session answered.
  round-Extends :
      (again : List Bytes → Option (Drained noise)) (l : Limiter) (t : Tunn)
      (net_out ip_out : List Bytes) (answer : TunnResult) (d : Drained noise)
      → ((net' : List Bytes) → again net' ≡ some d → Extends net' ip_out d)
      → on_answer noise again l t net_out ip_out answer ≡ some d
      → Extends net_out ip_out d
  round-Extends again l t net_out ip_out finished d ih e = record {
    sent = [];
    net_grows = ground (arith, append-nil net_out);
    opened = inl (ground arith, λ k. ground arith);
  }
  round-Extends again l t net_out ip_out failed d ih e = record {
    sent = [];
    net_grows = ground (arith, append-nil net_out);
    opened = inl (ground arith, λ k. ground arith);
  }
  round-Extends again l t net_out ip_out (write_to_network b) d ih e =
      Extends-sent net_out ip_out b (ih (net_out ++ b ∷ []) e)
  round-Extends again l t net_out ip_out (write_to_tunnel_v4 b) d ih e = record {
    sent = [];
    net_grows = ground (arith, append-nil net_out);
    opened = inr (b, ground arith, ground arith);
  }
  round-Extends again l t net_out ip_out (write_to_tunnel_v6 b) d ih e = record {
    sent = [];
    net_grows = ground (arith, append-nil net_out);
    opened = inr (b, ground arith, ground arith);
  }

  -- The loop only adds to its outputs, and opens at most one packet, exactly when it says so.
  pub drain_loop-Extends :
      (fuel : ℕ) (l : Limiter) (t : Tunn) (from : IpAddr) (input : Bytes)
      (net_out ip_out : List Bytes) (d : Drained noise)
      → drain_loop noise fuel l t from input net_out ip_out ≡ some d
      → Extends net_out ip_out d
  unfolding drain_loop
  drain_loop-Extends zero l t from input net_out ip_out d e = cc
  drain_loop-Extends (suc fuel) l t from input net_out ip_out d e =
      let r = decapsulate l t from input in
      round-Extends (λ net. drain_loop noise fuel r.limiter r.tunn from [] net ip_out) r.limiter
        r.tunn net_out ip_out r.answer d
        (λ net'. drain_loop-Extends fuel r.limiter r.tunn from [] net' ip_out d) e

  -- A run, and the fuel that it takes.
  abbrev Ends : ℕ → Limiter → Tunn → IpAddr → Bytes → List Bytes → List Bytes → Type 0
  Ends fuel l t from input net_out ip_out =
      (d : Drained noise) × (drain_loop noise fuel l t from input net_out ip_out ≡ some d)

  round-Ends :
      (again : List Bytes → Option (Drained noise)) (l : Limiter) (t : Tunn)
      (net_out ip_out : List Bytes) (answer : TunnResult)
      → ((b : Bytes)
          → answer ≡ write_to_network b
          → (d : Drained noise) × (again (net_out ++ b ∷ []) ≡ some d))
      → (d : Drained noise) × (on_answer noise again l t net_out ip_out answer ≡ some d)
  round-Ends again l t net_out ip_out (write_to_network b) ih = ih b refl
  round-Ends again l t net_out ip_out finished ih = (_, refl)
  round-Ends again l t net_out ip_out failed ih = (_, refl)
  round-Ends again l t net_out ip_out (write_to_tunnel_v4 b) ih = (_, refl)
  round-Ends again l t net_out ip_out (write_to_tunnel_v6 b) ih = (_, refl)

  module _ (drains : Drains noise) where
    -- With the queue empty after as many rounds as it holds entries, the loop ends.
    drain_loop-empty :
        (fuel : ℕ) (l : Limiter) (t : Tunn) (from : IpAddr) (net_out ip_out : List Bytes)
        → drains.pending t < fuel
        → Ends fuel l t from [] net_out ip_out
    unfolding drain_loop
    drain_loop-empty zero l t from net_out ip_out h = absurd (omega arith)
    drain_loop-empty (suc fuel) l t from net_out ip_out h =
        let r = decapsulate l t from [] in
        round-Ends (λ net. drain_loop noise fuel r.limiter r.tunn from [] net ip_out) r.limiter
          r.tunn net_out ip_out r.answer
          (λ b k.
            drain_loop-empty fuel r.limiter r.tunn from (net_out ++ b ∷ []) ip_out
              (omega (arith, drains.shrinks l t from b k)))

    pub drain_loop-Ends :
        (l : Limiter) (t : Tunn) (from : IpAddr) (input : Bytes) (net_out ip_out : List Bytes)
        (fuel : ℕ)
        → suc (drains.pending (decapsulate l t from input).tunn) < fuel
        → Ends fuel l t from input net_out ip_out
    unfolding drain_loop
    drain_loop-Ends l t from input net_out ip_out zero h = absurd (omega arith)
    drain_loop-Ends l t from input net_out ip_out (suc fuel) h =
        let r = decapsulate l t from input in
        round-Ends (λ net. drain_loop noise fuel r.limiter r.tunn from [] net ip_out) r.limiter
          r.tunn net_out ip_out r.answer
          (λ b k.
            drain_loop-empty fuel r.limiter r.tunn from (net_out ++ b ∷ []) ip_out (omega arith))
