-- ===== src/WgClient/Adapter/Commands.antt =====
-- The commands that `open` runs, and those that undo them.
use wg_wrapper.Base.{ℕ, List, [], ◌∷◌, ◌++◌}
use wg_wrapper.Addr.Display.{decimal}
use wg_wrapper.Text.{Text, codes}
use wg_wrapper.WgClient.Adapter.{Argv}

abbrev pub name_text : Text
name_text = codes "wg-wrapper"

-- NRPT_CLEAR
abbrev pub nrpt_clear : Text
nrpt_clear =
    codes
      "Get-DnsClientNrptRule | Where-Object Comment -eq 'wg-wrapper' | Remove-DnsClientNrptRule -Force"

abbrev pub powershell : Text → Argv
powershell script =
    codes "powershell"
    ∷ codes "-NoProfile"
    ∷ codes "-NonInteractive"
    ∷ codes "-Command"
    ∷ script
    ∷ []

-- route, behind `add` or `delete`
abbrev pub route_add : (dest mask next : Text) → List Text → Argv
route_add dest mask next tail =
    codes "route" ∷ codes "add" ∷ dest ∷ codes "mask" ∷ mask ∷ next ∷ tail

abbrev pub route_delete : (dest mask next : Text) → Argv
route_delete dest mask next =
    codes "route" ∷ codes "delete" ∷ dest ∷ codes "mask" ∷ mask ∷ next ∷ []

abbrev pub route_v6 : (verb dest interface : Text) → List Text → Argv
route_v6 verb dest interface tail =
    codes "netsh"
    ∷ codes "interface"
    ∷ codes "ipv6"
    ∷ verb
    ∷ codes "route"
    ∷ dest
    ∷ interface
    ∷ tail

abbrev pub host_mask : Text
host_mask = codes "255.255.255.255"

-- metric 1, and metric 1 on this interface
abbrev pub metric_one : List Text
metric_one = codes "metric" ∷ codes "1" ∷ []

unfoldable pub metric_one_if : ℕ → List Text
unfolding decimal
metric_one_if index = codes "metric" ∷ codes "1" ∷ codes "if" ∷ decimal index ∷ []

unfoldable pub interface_text : ℕ → Text
unfolding decimal
interface_text index = codes "interface=" ++ decimal index

abbrev pub set_metric : (family name : Text) → Argv
set_metric family name =
    codes "netsh"
    ∷ codes "interface"
    ∷ family
    ∷ codes "set"
    ∷ codes "interface"
    ∷ name
    ∷ codes "metric=1"
    ∷ []

abbrev pub automatic_metric : (af name : Text) → Argv
automatic_metric af name = powershell (
    codes "Set-NetIPInterface -InterfaceAlias '"
    ++ name
    ++ codes "' -AddressFamily "
    ++ af
    ++ codes " -AutomaticMetric Enabled")

abbrev pub print_routes : Argv
print_routes = codes "route" ∷ codes "print" ∷ codes "-4" ∷ []
