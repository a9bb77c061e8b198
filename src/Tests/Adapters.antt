-- ===== src/Tests/Adapters.antt =====
-- The theorems on the adapter and on the dial, on a system that carries out every command.
use wg_wrapper.Base.{
  none, length, if◌then◌else◌, true, false, Option, [], ◌∷◌, arith, ◌≡◌, refl, Bool, List, some, ok,
}
use wg_wrapper.Addr.{IpAddr, v4, v6, SocketAddr}
use wg_wrapper.ClientWin.Dial.{Dial, dial}
use wg_wrapper.ClientWin.Dial.Restored.{Settled, dial-Settled}
use wg_wrapper.Tests.Cidrs.{cidrs, cidrs_text}
use wg_wrapper.Tests.Confs.{plain_key, full_conf, full_config}
use wg_wrapper.Tests.Data.{endpoint_ab, home}
use wg_wrapper.Tests.Instances.{plain}
use wg_wrapper.Tests.Engine.{clock, sleeps, sockets, route_print}
use wg_wrapper.Text.{Text, codes}
use wg_wrapper.WgClient.Routes.{parse_routes}
use wg_wrapper.WgClient.Adapter.{Argv, Dev, Os}
use wg_wrapper.WgClient.Adapter.Inverse.{is_flush}
use wg_wrapper.WgClient.Adapter.Session.{Driver}
use wg_wrapper.WgClient.Adapter.Commands.{print_routes}
use wg_wrapper.WgClient.Adapter.FullTunnel.{Covered}
use wg_wrapper.WgClient.Adapter.Opened.{open_adapter-Covered}
use wg_wrapper.WgClient.Adapter.Open.{open_adapter}
use wg_wrapper.WgClient.Adapter.Undone.{fresh}

abbrev willing : Os
willing log c = some route_print

abbrev name : Text
name = codes "wg"

abbrev server : IpAddr
server = v4 0x01020304

abbrev opened : Dev
opened = (open_adapter willing name 7 cidrs cidrs_text full_config server fresh).1

opens : open_adapter willing name 7 cidrs cidrs_text full_config server fresh ≡ (ok tt, opened)
unfolding open_adapter wg_wrapper.Text.Pieces.starts_with wg_wrapper.Text.from_str_radix
    wg_wrapper.Text.split_once wg_wrapper.Addr.Parse.parse_ip
    wg_wrapper.Text.Pieces.eq_ignore_ascii_case
opens = refl

open_adapter-Covered_example :
    (log : List (Argv × Bool)) × (text : Text) × (willing log print_routes ≡ some text)
    × Covered willing name 7 cidrs cidrs_text full_config server (parse_routes text) opened
open_adapter-Covered_example =
    open_adapter-Covered willing name 7 cidrs cidrs_text full_config server fresh opened opens

-- the driver is there
abbrev driver : Driver
driver = record {
  loads = true;
  opens = false;
  creates = true;
  starts = true;
  name = some name;
  index = some 7;
}

abbrev found : Text → Option (List SocketAddr)
found host = some (home ∷ [])

-- The commands succeed, and no handshake is seen: the adapter is set up and restored.
dial-Settled_example :
    (r : Dial plain) × (dial plain cidrs cidrs_text plain_key
        (λ k. k)
        found
        (λ h p. found h)
        true
        driver
        willing
        sockets
        0
        0
        (λ k. endpoint_ab)
        clock
        401
        full_conf
      ≡ some r)
    × Settled plain cidrs cidrs_text plain_key
        (λ k. k)
        found
        (λ h p. found h)
        true
        driver
        willing
        sockets
        0
        0
        (λ k. endpoint_ab)
        clock
        (omega arith)
        sleeps
        r.result
        r.log
        r.adapter
dial-Settled_example =
    dial-Settled plain cidrs cidrs_text plain_key (λ k. k) found (λ h p. found h) true driver
      willing sockets 0 0 (λ k. endpoint_ab) clock (omega arith) sleeps full_conf

-- a system on which only the flush fails
abbrev unflushed : Os
unflushed log c = if is_flush c then none else some route_print

abbrev half_open : Dev
half_open = (open_adapter unflushed name 7 cidrs cidrs_text full_config server fresh).1

-- The servers of the adapter were set, and `Drop` does not reset them.
servers_stay : (half_open.dns ≡ false) × (length half_open.log ≡ 9)
unfolding open_adapter is_flush
servers_stay = (refl, refl)
