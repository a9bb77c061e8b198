-- ===== src/IpNet.antt =====
-- The interface to the `ipnet` crate, which is not part of the repository: networks as an abstract
-- type, with the methods that the crates call and their documented behaviour.
use wg_wrapper.Base.{ℕ, Bool, true, Option, ◌≡◌, ◌⊎◌}
use wg_wrapper.Addr.{IpAddr}
use wg_wrapper.Text.{Text}

pub record NetOps : Type 1 where
  pub Net : Type 0
  -- IpNet::contains at an address, and at another network
  pub contains : Net → IpAddr → Bool
  pub includes : Net → Net → Bool
  pub addr : Net → IpAddr
  pub prefix_len : Net → ℕ

-- Networks are CIDR blocks: a network holds its own address, one network includes another when it
-- holds all its addresses, and two that share an address are nested, so that one of them holds
-- the address of the other.
module _ (ops : NetOps) where
  open ops use {Net, contains, includes, addr}

  pub record NetLaws : Type 0 where
    pub contains-addr : (n : Net) → contains n (addr n) ≡ true
    pub includes-contains :
        (m n : Net) (ip : IpAddr)
        → includes m n ≡ true
        → contains n ip ≡ true
        → contains m ip ≡ true
    pub nested :
        (m n : Net) (ip : IpAddr)
        → contains m ip ≡ true
        → contains n ip ≡ true
        → (contains m (addr n) ≡ true) ⊎ (contains n (addr m) ≡ true)

-- What only the client calls: networks read from a text, made from their parts, and printed.
module _ (ops : NetOps) where
  open ops use {Net}

  pub record NetText : Type 0 where
    -- str::parse::<IpNet>
    pub parse : Text → Option Net
    -- IpNet::new
    pub new : IpAddr → ℕ → Option Net
    pub netmask : Net → IpAddr
    pub network : Net → IpAddr
    pub to_string : Net → Text
    pub equal : Net → Net → Bool
