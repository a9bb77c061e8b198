-- ===== src/Routing/Disjoint.antt =====
-- Where no address lies in the networks of two peers, each address is routed to its owner.
use wg_wrapper.Base.{ℕ, ◌≡◌, ◌∙◌, List, some, true, Memᴰ, ap}
use wg_wrapper.Addr.{IpAddr}
use wg_wrapper.IpNet.{NetOps}
use wg_wrapper.Routing.Longest.{peer_for-longest, peer_for-some}
use wg_wrapper.Routing.{peer_for}

module _ (ops : NetOps) where
  open ops use {Net, contains}

  -- No address lies in networks of two different peers.
  abbrev pub IsUnambiguous : List (Net × ℕ) → Type 0
  IsUnambiguous allowed =
      (n m : Net) (i j : ℕ) (ip : IpAddr)
      → Memᴰ (n, i) allowed
      → Memᴰ (m, j) allowed
      → contains n ip ≡ true
      → contains m ip ≡ true
      → i ≡ j

  -- Each address of a peer's network is routed to that peer, whatever the order of the table.
  pub peer_for-owner :
      (allowed : List (Net × ℕ)) (ip : IpAddr) (n : Net) (i : ℕ)
      → IsUnambiguous allowed
      → Memᴰ (n, i) allowed
      → contains n ip ≡ true
      → peer_for ops allowed ip ≡ some i
  peer_for-owner allowed ip n i apart at h =
      let (j, e) = peer_for-some ops allowed ip n i at h in
      let (m, stored, holds, _) = peer_for-longest ops allowed ip j e in
      e ∙ ap some (apart m n j i ip stored at holds h)
