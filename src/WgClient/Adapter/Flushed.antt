-- ===== src/WgClient/Adapter/Flushed.antt =====
-- `dns` of the adapter is set exactly if `open` got past its DNS commands, as the log tells it.
use wg_wrapper.Base.{ℕ, ◌≡◌, refl, Bool, true, false, arith, [], ◌∷◌, ◌++◌, Option, none, some}
use wg_wrapper.Addr.{IpAddr}
use wg_wrapper.IpNet.{NetOps, NetText}
use wg_wrapper.Text.{Text}
use wg_wrapper.WgClient.{ClientConfig}
use wg_wrapper.WgClient.Adapter.{
  Argv, Dev, done, ◌>>◌, continue, push, flush, set_dns, answered, Os, run, run_, run_undone,
}
use wg_wrapper.WgClient.Adapter.Inverse.{inverse_of, is_flush, flushed_by, flushed, flushed-append}
use wg_wrapper.WgClient.Adapter.Open.{open_adapter}
use wg_wrapper.WgClient.Adapter.Stable.{open_adapter-Stable}
use wg_wrapper.WgClient.Adapter.Undone.{fresh}

abbrev pub DnsKnown : Dev → Type 0
DnsKnown d = d.dns ≡ flushed d.log

-- a command that has an inverse is no flush
inverse-no_flush : (c undo : Argv) → inverse_of c ≡ some undo → is_flush c ≡ false
unfolding inverse_of is_flush
inverse-no_flush [] undo e = refl
inverse-no_flush (a ∷ []) undo e = refl
inverse-no_flush (a ∷ b ∷ []) undo e = cc
inverse-no_flush (a ∷ b ∷ c ∷ rest) undo e = refl

-- one more command in the log, which is no flush that succeeded
logged-DnsKnown :
    (d : Dev) (c : Argv) (b : Bool)
    → flushed_by (c, b) ≡ false
    → DnsKnown d
    → d.dns ≡ flushed (d.log ++ (c, b) ∷ [])
logged-DnsKnown d c b e h = ground (arith, flushed-append d.log (c, b))

answered-DnsKnown :
    (c : Argv) (o : Option Text) (d : Dev)
    → is_flush c ≡ false
    → DnsKnown d
    → DnsKnown (answered c o d).1
answered-DnsKnown c none d e h = logged-DnsKnown d c false refl h
answered-DnsKnown c (some text) d e h = logged-DnsKnown d c true e h

pushed-DnsKnown :
    (c undo : Argv) (o : Option Text) (d : Dev)
    → is_flush c ≡ false
    → DnsKnown d
    → DnsKnown (continue (λ (u : Unit {0}). push undo) (continue (λ text. done) (answered c o d))).1
pushed-DnsKnown c undo none d e h = logged-DnsKnown d c false refl h
pushed-DnsKnown c undo (some text) d e h = logged-DnsKnown d c true e h

flush-DnsKnown :
    (o : Option Text) (d : Dev)
    → DnsKnown d
    → DnsKnown
        (continue (λ (u : Unit {0}). set_dns) (continue (λ text. done) (answered flush o d))).1
unfolding is_flush
flush-DnsKnown none d h = logged-DnsKnown d flush false refl h
flush-DnsKnown (some text) d h = ground (arith, flushed-append d.log (flush, true))

module _ (os : Os) where
  run-DnsKnown :
      (c : Argv) (d : Dev)
      → inverse_of c ≡ none
      → is_flush c ≡ false
      → DnsKnown d
      → DnsKnown (run os c d).1
  unfolding run
  run-DnsKnown c d e f h = answered-DnsKnown c (os d.log c) d f h

  run_undone-DnsKnown :
      (c undo : Argv) (d : Dev)
      → inverse_of c ≡ some undo
      → DnsKnown d
      → DnsKnown (run_undone os c undo d).1
  unfolding run_undone run_ run
  run_undone-DnsKnown c undo d e h =
      pushed-DnsKnown c undo (os d.log c) d (inverse-no_flush c undo e) h

  flushes-DnsKnown : (d : Dev) → DnsKnown d → DnsKnown ((run_ os flush >> set_dns) d).1
  unfolding run_ run
  flushes-DnsKnown d h = flush-DnsKnown (os d.log flush) d h

  pub open_adapter-DnsKnown :
      (name : Text) (index : ℕ) (ops : NetOps) (cidr : NetText ops) (cfg : ClientConfig ops.Net)
      (server : IpAddr)
      → DnsKnown (open_adapter os name index ops cidr cfg server fresh).1
  unfolding flushed
  open_adapter-DnsKnown name index ops cidr cfg server =
      (open_adapter-Stable DnsKnown os flushes-DnsKnown run-DnsKnown run_undone-DnsKnown name index
          ops cidr cfg server).kept
        fresh refl
