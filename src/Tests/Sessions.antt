-- ===== src/Tests/Sessions.antt =====
-- The endpoint's theorems at two peers.
use wg_wrapper.Base.{
  ℕ, ◌≡◌, ◌≤◌, refl, sym, ap, ◌∙◌, subst, Result, ok-eq, inl, inr, [], ◌∷◌, Bytes, none, some, ok,
  err,
}
use wg_wrapper.Noise.{packet_data, verified}
use wg_wrapper.Tests.Data.{endpoint_ab, roamed, home, packet, key_a}
use wg_wrapper.Tests.Instances.{plain, plain-Drains}
use wg_wrapper.Wg.Handshake.{Outcome, recv_from_network-Outcome}
use wg_wrapper.Wg.Total.{recv_from_network-Ends}
use wg_wrapper.Wg.Peers.{IsIndexed, Added, add_peer-Added, new-IsIndexed}
use wg_wrapper.Wg.Roaming.{Moves, recv_from_network-Moves}
use wg_wrapper.Wg.{Wg, AddError, Received, Drained, new, add_peer, recv_from_network, drain_loop}

abbrev datagram : Bytes
datagram = 4 ∷ 0 ∷ packet

abbrev outcome : Received plain
outcome = record { wg = roamed; net_out = []; ip_out = packet ∷ []; peer = some 0 }

receives : recv_from_network plain 1 endpoint_ab home datagram [] [] ≡ some outcome
unfolding recv_from_network wg_wrapper.Wg.origin drain_loop
receives = refl

recv_from_network-Moves_example :
    Moves plain endpoint_ab home (verified (packet_data 0)) [] [] outcome 0
recv_from_network-Moves_example =
    recv_from_network-Moves plain 1 endpoint_ab home datagram [] [] outcome 0 receives

-- The table of no peers, with one added.
abbrev alone : Wg plain
alone = record {
  private = key_a;
  peers = record { public_key = key_a; endpoint = none; tunn = [] } ∷ [];
  by_key = (key_a, 0) ∷ [];
  limiter = tt;
  last_reset = 0;
}

adds : add_peer plain (new plain key_a key_a 0) key_a none none ≡ ok (alone, 0)
unfolding add_peer wg_wrapper.Wg.lookup new
adds = refl

add_peer-Added_example :
    Added plain
      (new plain key_a key_a 0)
      key_a
      (add_peer plain (new plain key_a key_a 0) key_a none none)
add_peer-Added_example =
    add_peer-Added plain (new plain key_a key_a 0) key_a none none
      (new-IsIndexed plain key_a key_a 0)

abbrev outcome_alone : Received plain
outcome_alone = record {
  wg = record {
    private = key_a;
    peers = record { public_key = key_a; endpoint = some home; tunn = [] } ∷ [];
    by_key = (key_a, 0) ∷ [];
    limiter = tt;
    last_reset = 0;
  };
  net_out = [];
  ip_out = packet ∷ [];
  peer = some 0;
}

receives_alone : recv_from_network plain 1 alone home datagram [] [] ≡ some outcome_alone
unfolding recv_from_network wg_wrapper.Wg.origin drain_loop
receives_alone = refl

alone-IsIndexed : IsIndexed plain alone
alone-IsIndexed =
    elim (add_peer-Added plain (new plain key_a key_a 0) key_a none none
      (new-IsIndexed plain key_a key_a 0)) [
        | inl (i, at, fails) ↦ absurd (differ (sym adds ∙ fails))
        | inr (wg, e, grown, v) ↦
            subst (IsIndexed plain) (sym (ap (λ p. p.0) (ok-eq (sym adds ∙ e)))) v
      ]
  where
    differ : {a : AddError} → ◌≡◌ {A = Result AddError (Wg plain × ℕ)} (ok (alone, 0)) (err a) → ⊥
    differ h = cc

recv_from_network-Outcome_example : Outcome plain alone (verified (packet_data 0)) outcome_alone
recv_from_network-Outcome_example =
    recv_from_network-Outcome plain 1 alone home datagram [] [] outcome_alone alone-IsIndexed
      receives_alone

recv_from_network-Ends_example :
    (enough : ℕ) × ((fuel : ℕ)
      → enough ≤ fuel
      → (r : Received plain) × (recv_from_network plain fuel alone home datagram [] [] ≡ some r))
recv_from_network-Ends_example = recv_from_network-Ends plain plain-Drains alone home datagram [] []
