-- ===== src/WgClient/Adapter/Setup.antt =====
-- The first part of `win::open`: the address, the metrics and the servers for names.
use wg_wrapper.Base.{ℕ, suc, Bool, true, false, List, [], ◌∷◌, ◌++◌, map, filter}
use wg_wrapper.Addr.{IpAddr, v4, v6}
use wg_wrapper.Addr.Display.{decimal, join, display}
use wg_wrapper.Text.{Text, codes}
use wg_wrapper.WgClient.Adapter.{Action, done, ◌>>◌, set_dns, Os, run_, run_undone, attempt}
use wg_wrapper.WgClient.Adapter.Commands.{
  name_text, nrpt_clear, powershell, set_metric, automatic_metric,
}

abbrev pub is_ipv4 : IpAddr → Bool
is_ipv4 (v4 _) = true
is_ipv4 (v6 _) = false

module _ (os : Os) (name : Text) (index : ℕ) where
  -- the address and the mtu
  unfoldable pub set_address : (ip mask : Text) → ℕ → Action (Unit {0})
  unfolding run_ decimal
  set_address ip mask mtu = do
    run_ os (
        codes "netsh"
        ∷ codes "interface"
        ∷ codes "ipv4"
        ∷ codes "set"
        ∷ codes "address"
        ∷ (codes "name=" ++ name)
        ∷ codes "static"
        ∷ ip
        ∷ mask
        ∷ [])
    run_ os (
        codes "netsh"
        ∷ codes "interface"
        ∷ codes "ipv4"
        ∷ codes "set"
        ∷ codes "subinterface"
        ∷ (codes "interface=" ++ name)
        ∷ (codes "mtu=" ++ decimal mtu)
        ∷ codes "store=persistent"
        ∷ [])

  -- The loop over the two families.
  unfoldable pub set_metrics : Action (Unit {0})
  unfolding run_undone
  set_metrics = do
    run_undone os (set_metric (codes "ipv4") name) (automatic_metric (codes "IPv4") name)
    run_undone os (set_metric (codes "ipv6") name) (automatic_metric (codes "IPv6") name)

  -- The loop over the other servers; the first of them has index 2.
  unfoldable pub add_servers : ℕ → List IpAddr → Action (Unit {0})
  unfolding run_ decimal display
  add_servers i [] = done
  add_servers i (d ∷ ds) = do
    run_ os (
        codes "netsh"
        ∷ codes "interface"
        ∷ codes "ipv4"
        ∷ codes "add"
        ∷ codes "dnsservers"
        ∷ (codes "name=" ++ name)
        ∷ display d
        ∷ (codes "index=" ++ decimal i)
        ∷ codes "validate=no"
        ∷ [])
    add_servers (suc i) ds

  abbrev pub nrpt_add : List Text → Text
  unfolding join
  nrpt_add servers =
      codes "Add-DnsClientNrptRule -Namespace '.' -NameServers "
      ++ join (codes ",") servers
      ++ codes " -Comment '"
      ++ name_text
      ++ codes "'"

  -- The rule for every name, unless no server is an IPv4 address.
  unfoldable pub add_rule : List Text → Action (Unit {0})
  unfolding run_undone attempt nrpt_add
  add_rule [] = done
  add_rule (s ∷ ss) = λ d.
      run_undone os (powershell (nrpt_add (s ∷ ss))) (powershell nrpt_clear)
        (attempt os (powershell nrpt_clear) d)

  -- The match on `cfg.dns.split_first()`.
  unfoldable pub configure_dns : List IpAddr → Action (Unit {0})
  unfolding run_ add_servers add_rule display
  configure_dns [] = done
  configure_dns (first ∷ rest) = do
    run_ os (
        codes "netsh"
        ∷ codes "interface"
        ∷ codes "ipv4"
        ∷ codes "set"
        ∷ codes "dnsservers"
        ∷ (codes "name=" ++ name)
        ∷ codes "static"
        ∷ display first
        ∷ codes "primary"
        ∷ codes "no"
        ∷ [])
    add_servers 2 rest
    add_rule (map display (filter is_ipv4 (first ∷ rest)))
    run_ os (codes "ipconfig" ∷ codes "/flushdns" ∷ [])
    set_dns
