-- ===== src/WgClient.antt =====
-- crates/wgclient/src/lib.rs: the configuration of the client engine. Its children read the
-- configuration, resolve the endpoint, run the tunnel and set up the adapter.
pub mod Conf
pub mod Routes
pub mod Resolve
pub mod Tunnel
pub mod Connect
pub mod Adapter
use wg_wrapper.Base.{ℕ, Bool, List, Option}
use wg_wrapper.Addr.{IpAddr, SocketAddr}
use wg_wrapper.Text.{Text}

pub data Endpoint : Type 0 where
  udp : SocketAddr → Endpoint
  udp_host : Text → Endpoint
  ws : (url : Text) (insecure : Bool) → Endpoint

pub record ClientConfig (Net : Type 0) : Type 0 where
  pub private_key : Text
  pub peer_public_key : Text
  pub preshared_key : Option Text
  pub address : Net
  pub dns : List IpAddr
  pub endpoint : Endpoint
  pub allowed_ips : List Net
  pub mtu : ℕ
  pub keepalive : Option ℕ
