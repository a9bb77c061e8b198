-- ===== src/Routing.antt =====
-- crates/server/src/net.rs: cryptokey routing, `peer_for`.
pub mod Longest
pub mod Disjoint
use wg_wrapper.Base.{ℕ, List, [], ◌∷◌, Option, none, some, filter, leb, if◌then◌else◌}
use wg_wrapper.Addr.{IpAddr}
use wg_wrapper.IpNet.{NetOps}

module _ {ℓ} {A : Type ℓ} where
  -- Iterator::max_by_key after the first element: of equal keys the last one wins.
  unfoldable pub max_from : (A → ℕ) → A → List A → A
  max_from key best [] = best
  max_from key best (x ∷ xs) = max_from key (if leb (key best) (key x) then x else best) xs

  unfoldable pub max_by_key : (A → ℕ) → List A → Option A
  max_by_key key [] = none
  max_by_key key (x ∷ xs) = some (max_from key x xs)

abbrev index_of {ℓ} : {A : Type ℓ} → Option (A × ℕ) → Option ℕ
index_of none = none
index_of (some (n, i)) = some i

module _ (ops : NetOps) where
  open ops use {Net, contains, prefix_len}

  -- Longest-prefix match of `ip` over (network, peer index) pairs.
  unfoldable pub peer_for : List (Net × ℕ) → IpAddr → Option ℕ
  peer_for allowed ip =
      index_of (max_by_key (λ e. prefix_len e.0) (filter (λ e. contains e.0 ip) allowed))
