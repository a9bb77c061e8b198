-- ===== src/WgClient/Adapter/Stable.antt =====
-- Properties of the state that every command keeps are kept by all of `open`.
use wg_wrapper.Base.{
  map, filter, ℕ, suc, ◌≡◌, refl, Bool, true, false, ◌&&◌, List, [], ◌∷◌, any, Option, none, some,
  if◌then◌else◌, bytes_eq, Result, ok, err,
}
use wg_wrapper.Addr.{IpAddr, v4, v6}
use wg_wrapper.Addr.Display.{display}
use wg_wrapper.IpNet.{NetOps, NetText}
use wg_wrapper.Text.{Text, codes, strip_prefix}
use wg_wrapper.Text.Pieces.{starts_with}
use wg_wrapper.WgClient.{ClientConfig}
use wg_wrapper.WgClient.Routes.{Routes, parse_routes}
use wg_wrapper.WgClient.Adapter.{
  Argv, OpenError, no_gateway, bad_half, Dev, Action, ok_or, done, return, continue, ◌>>=◌, ◌>>◌,
  set_dns, flush, Os, run, run_, run_undone, attempt,
}
use wg_wrapper.WgClient.Adapter.Commands.{nrpt_clear, powershell, metric_one_if}
use wg_wrapper.WgClient.Adapter.Open.{
  same_ip, pin_server, add_lan, add_dns_routes, is_default, halves, parts_of, add_part, add_parts,
  add_allowed, swallow_lan, block_half, add_routes, open_adapter, distinct,
}
use wg_wrapper.WgClient.Adapter.Setup.{
  is_ipv4, set_address, set_metrics, add_servers, nrpt_add, add_rule, configure_dns,
}
use wg_wrapper.WgClient.Adapter.Inverse.{inverse_of, is_flush}

module _ (P : Dev → Type 0) where
  pub record Stable {ℓ} {A : Type ℓ} (m : Action A) : Type 0 where
    pub kept : (d : Dev) → P d → P (m d).1

  continue-Stable {ℓ κ} :
      {A : Type ℓ} {B : Type κ} (next : A → Action B) (r : Result OpenError A × Dev)
      → ((a : A) → Stable (next a))
      → P r.1
      → P (continue next r).1
  continue-Stable next (err e, d) f h = h
  continue-Stable next (ok a, d) f h = (f a).kept d h

  Stable->>= {ℓ κ} :
      {A : Type ℓ} {B : Type κ} (m : Action A) (next : A → Action B)
      → Stable m
      → ((a : A) → Stable (next a))
      → Stable (m >>= next)
  Stable->>= m next k f = record { kept = λ d h. continue-Stable next (m d) f (k.kept d h) }

  ok_or-Stable {ℓ} : {A : Type ℓ} (o : Option A) (e : OpenError) → Stable (ok_or o e)
  ok_or-Stable none e = record { kept = λ d h. h }
  ok_or-Stable (some a) e = record { kept = λ d h. h }

  done-Stable : Stable done
  done-Stable = record { kept = λ d h. h }

  if-Stable {ℓ} :
      {A : Type ℓ} (b : Bool) (m n : Action A) → Stable m → Stable n → Stable (if b then m else n)
  if-Stable true m n h k = h
  if-Stable false m n h k = k

  module _ (os : Os) (flushes : (d : Dev) → P d → P ((run_ os flush >> set_dns) d).1)
      (runs : (c : Argv) (d : Dev)
        → inverse_of c ≡ none
        → is_flush c ≡ false
        → P d
        → P (run os c d).1)
      (undoes : (c undo : Argv) (d : Dev)
        → inverse_of c ≡ some undo
        → P d
        → P (run_undone os c undo d).1) where
    pub run-Stable : (c : Argv) → inverse_of c ≡ none → is_flush c ≡ false → Stable (run os c)
    run-Stable c e f = record { kept = λ d h. runs c d e f h }

    run_-Stable : (c : Argv) → inverse_of c ≡ none → is_flush c ≡ false → Stable (run_ os c)
    unfolding run_
    run_-Stable c e f =
        Stable->>= (run os c) (λ text. done) (run-Stable c e f) (λ text. done-Stable)

    pub run_undone-Stable :
        (c undo : Argv) → inverse_of c ≡ some undo → Stable (run_undone os c undo)
    run_undone-Stable c undo e = record { kept = λ d h. undoes c undo d e h }

    module _ (name : Text) (index : ℕ) where
      pub set_address-Stable :
          (ip mask : Text) (mtu : ℕ) → Stable (set_address os name index ip mask mtu)
      unfolding set_address is_flush inverse_of bytes_eq
      set_address-Stable ip mask mtu =
          Stable->>= _ _ (run_-Stable _ refl refl) (λ u. run_-Stable _ refl refl)

      pub set_metrics-Stable : Stable (set_metrics os name index)
      unfolding set_metrics inverse_of bytes_eq
      set_metrics-Stable =
          Stable->>= _ _ (run_undone-Stable _ _ refl) (λ u. run_undone-Stable _ _ refl)

      add_servers-Stable : (i : ℕ) (ds : List IpAddr) → Stable (add_servers os name index i ds)
      unfolding add_servers is_flush inverse_of bytes_eq
      add_servers-Stable i [] = done-Stable
      add_servers-Stable i (d ∷ ds) =
          Stable->>= _ _ (run_-Stable _ refl refl) (λ u. add_servers-Stable (suc i) ds)

      add_rule-Stable : (ss : List Text) → Stable (add_rule os name index ss)
      unfolding add_rule attempt is_flush inverse_of bytes_eq strip_prefix starts_with
      add_rule-Stable [] = done-Stable
      add_rule-Stable (s ∷ ss) = record {
        kept = λ d h.
            (run_undone-Stable (powershell (nrpt_add os name index (s ∷ ss)))
                (powershell nrpt_clear) refl).kept
              (attempt os (powershell nrpt_clear) d)
              ((run-Stable (powershell nrpt_clear) refl refl).kept d h);
      }

      pub configure_dns-Stable : (ds : List IpAddr) → Stable (configure_dns os name index ds)
      unfolding configure_dns is_flush inverse_of bytes_eq
      configure_dns-Stable [] = done-Stable
      configure_dns-Stable (d ∷ ds) = Stable->>= _ _ (run_-Stable _ refl refl) (λ u.
          Stable->>= _ _ (add_servers-Stable 2 ds) (λ u.
            Stable->>= (add_rule os name index (map display (filter is_ipv4 (d ∷ ds))))
              (λ u. run_ os flush >> set_dns) (add_rule-Stable _) (λ u. record { kept = flushes })))

      pub pin_server-Stable :
          (server gateway iface : Text) → Stable (pin_server os name index server gateway iface)
      unfolding pin_server inverse_of bytes_eq
      pin_server-Stable server gateway iface =
          Stable->>= _ _ (run_undone-Stable _ _ refl) (λ u. run_undone-Stable _ _ refl)

      pub add_lan-Stable :
          (ip : Text) (own own_mask : IpAddr) (lan : List (ℕ × ℕ))
          → Stable (add_lan os name index ip own own_mask lan)
      unfolding add_lan inverse_of bytes_eq metric_one_if
      add_lan-Stable ip own own_mask [] = done-Stable
      add_lan-Stable ip own own_mask ((dest, mask) ∷ lan) =
          if-Stable (same_ip (v4 dest) own && same_ip (v4 mask) own_mask) _ _
            (add_lan-Stable ip own own_mask lan)
            (Stable->>= _ _ (run_undone-Stable _ _ refl) (λ u. add_lan-Stable ip own own_mask lan))

      pub add_dns_routes-Stable :
          (ip : Text) (ds : List IpAddr) → Stable (add_dns_routes os name index ip ds)
      unfolding add_dns_routes inverse_of bytes_eq metric_one_if
      add_dns_routes-Stable ip [] = done-Stable
      add_dns_routes-Stable ip (v4 a ∷ ds) =
          Stable->>= _ _ (run_undone-Stable _ _ refl) (λ u. add_dns_routes-Stable ip ds)
      add_dns_routes-Stable ip (v6 a ∷ ds) =
          Stable->>= _ _ (run_undone-Stable _ _ refl) (λ u. add_dns_routes-Stable ip ds)

      module _ (ops : NetOps) (cidr : NetText ops) where
        open ops use {Net, addr, prefix_len}

        halves-Stable :
            (n : Net) (low high : Option Net) → Stable (halves os name index ops cidr n low high)
        halves-Stable n (some low) (some high) = record { kept = λ d h. h }
        halves-Stable n (some low) none = record { kept = λ d h. h }
        halves-Stable n none high = record { kept = λ d h. h }

        pub parts_of-Stable : (n : Net) → Stable (parts_of os name index ops cidr n)
        unfolding parts_of
        parts_of-Stable n =
            if-Stable (is_default os name index ops cidr n)
              (halves os name index ops cidr n (cidr.parse (codes "0.0.0.0/1"))
                (cidr.parse (codes "128.0.0.0/1")))
              (return (n ∷ []))
              (halves-Stable n (cidr.parse (codes "0.0.0.0/1")) (cidr.parse (codes "128.0.0.0/1")))
              (record { kept = λ d h. h })

        pub add_part-Stable :
            (ip : Text) (n : Net) (a : IpAddr) → Stable (add_part os name index ops cidr ip n a)
        unfolding add_part inverse_of bytes_eq metric_one_if
        add_part-Stable ip n (v4 a) = run_undone-Stable _ _ refl
        add_part-Stable ip n (v6 a) = run_undone-Stable _ _ refl

        pub add_parts-Stable :
            (ip : Text) (ns : List Net) → Stable (add_parts os name index ops cidr ip ns)
        unfolding add_parts
        add_parts-Stable ip [] = done-Stable
        add_parts-Stable ip (n ∷ ns) =
            Stable->>= _ _ (add_part-Stable ip n (addr n)) (λ u. add_parts-Stable ip ns)

        pub add_allowed-Stable :
            (ip : Text) (ns : List Net) → Stable (add_allowed os name index ops cidr ip ns)
        unfolding add_allowed
        add_allowed-Stable ip [] = done-Stable
        add_allowed-Stable ip (n ∷ ns) =
            Stable->>= _ _ (parts_of-Stable n)
              (λ parts. Stable->>= _ _ (add_parts-Stable ip parts) (λ u. add_allowed-Stable ip ns))

        pub block_half-Stable :
            (allowed : List Net) (half : Text)
            → Stable (block_half os name index ops cidr allowed half)
        unfolding block_half inverse_of bytes_eq
        block_half-Stable allowed half = Stable->>= _ _ (ok_or-Stable _ bad_half) (λ net.
            if-Stable (any (cidr.equal net) allowed) _ _ done-Stable (run_undone-Stable _ _ refl))

        pub swallow_lan-Stable :
            (ip : Text) (address : Net) (allowed : List Net) (lan : List (ℕ × ℕ))
            → Stable (swallow_lan os name index ops cidr ip address allowed lan)
        unfolding swallow_lan
        swallow_lan-Stable ip address allowed lan =
            if-Stable (any (is_default os name index ops cidr) allowed) _ _
              (add_lan-Stable ip (cidr.network address) (cidr.netmask address) lan) done-Stable

        add_routes-Stable :
            (cfg : ClientConfig Net) (server : IpAddr) (routes : Routes)
            → Stable (add_routes os name index ops cidr cfg server routes)
        unfolding add_routes
        add_routes-Stable cfg server routes =
            Stable->>= _ _ (ok_or-Stable routes.default no_gateway) (λ (gateway, iface).
              Stable->>= _ _ (pin_server-Stable _ _ _) (λ u.
                Stable->>= _ _ (add_allowed-Stable _ _) (λ u.
                  Stable->>= _ _
                    (swallow_lan-Stable (display (addr cfg.address)) cfg.address cfg.allowed_ips
                      routes.lan)
                    (λ u. Stable->>= _ _ (block_half-Stable cfg.allowed_ips (codes "::/1")) (λ u.
                      Stable->>= _ _ (block_half-Stable cfg.allowed_ips (codes "8000::/1")) (λ u.
                        add_dns_routes-Stable (display (addr cfg.address))
                          (distinct [] cfg.dns)))))))

        pub open_adapter-Stable :
            (cfg : ClientConfig Net) (server : IpAddr)
            → Stable (open_adapter os name index ops cidr cfg server)
        unfolding open_adapter is_flush inverse_of bytes_eq
        open_adapter-Stable cfg server =
            Stable->>= _ _
              (set_address-Stable (display (addr cfg.address)) (display (cidr.netmask cfg.address))
                cfg.mtu)
              (λ u. Stable->>= _ _ set_metrics-Stable (λ u.
                Stable->>= _ _ (configure_dns-Stable cfg.dns) (λ u.
                  Stable->>= _ _
                    (run-Stable (codes "route" ∷ codes "print" ∷ codes "-4" ∷ []) refl refl)
                    (λ text. add_routes-Stable cfg server (parse_routes text)))))
