-- ===== src/WgClient/Adapter/Undone.antt =====
-- What `Adapter` keeps for `Drop` undoes, in order, exactly the routes, metrics and rules that were
-- set; and `Drop` runs it backwards.
use mathlib.Core.List.{append-nil, append_assoc, map-append, reverse}
use wg_wrapper.Base.{
  ℕ, ◌≡◌, refl, sym, ap, ◌∙◌, Bool, true, false, List, [], ◌∷◌, ◌++◌, map, Option, none, some,
}
use wg_wrapper.Addr.{IpAddr}
use wg_wrapper.IpNet.{NetOps, NetText}
use wg_wrapper.Text.{Text, codes}
use wg_wrapper.WgClient.{ClientConfig}
use wg_wrapper.WgClient.Adapter.{
  Argv, Dev, done, continue, ◌>>◌, push, flush, set_dns, answered, Os, run, run_, run_undone,
  attempt, attempts, reset_dns, drop_adapter,
}
use wg_wrapper.WgClient.Adapter.Open.{open_adapter}
use wg_wrapper.WgClient.Adapter.Inverse.{
  inverse_of, is_flush, flushed, undone, undone-append, added, Matched,
}
use wg_wrapper.WgClient.Adapter.Stable.{open_adapter-Stable}

answered-Matched :
    (c : Argv) (o : Option Text) (d : Dev)
    → inverse_of c ≡ none
    → Matched d
    → Matched (answered c o d).1
unfolding undone
answered-Matched c none d e h =
    h ∙ sym (append-nil (undone d.log)) ∙ sym (undone-append d.log (c, false))
answered-Matched c (some text) d e h =
    h
    ∙ sym (append-nil (undone d.log))
    ∙ ap (λ o. undone d.log ++ added o []) (sym e)
    ∙ sym (undone-append d.log (c, true))

pushed-Matched :
    (c undo : Argv) (o : Option Text) (d : Dev)
    → inverse_of c ≡ some undo
    → Matched d
    → Matched (continue (λ (u : Unit {0}). push undo) (continue (λ text. done) (answered c o d))).1
unfolding undone
pushed-Matched c undo none d e h =
    h ∙ sym (append-nil (undone d.log)) ∙ sym (undone-append d.log (c, false))
pushed-Matched c undo (some text) d e h =
    ap (λ us. us ++ undo ∷ []) h
    ∙ ap (λ o. undone d.log ++ added o []) (sym e)
    ∙ sym (undone-append d.log (c, true))

abbrev pub commands : List (Argv × Bool) → List Argv
commands = map (λ (c, done). c)

abbrev pub fresh : Dev
fresh = record { log = []; undo = []; dns = false }

-- the commands that reset the adapter's DNS servers
abbrev pub resets : Text → Bool → List Argv
resets name false = []
resets name true =
    (codes "netsh"
      ∷ codes "interface"
      ∷ codes "ipv4"
      ∷ codes "set"
      ∷ codes "dnsservers"
      ∷ (codes "name=" ++ name)
      ∷ codes "dhcp"
      ∷ [])
    ∷ (codes "ipconfig" ∷ codes "/flushdns" ∷ [])
    ∷ []

-- The log is `before`, and behind it the commands `cs`, whatever became of them.
pub record Behind (before : List (Argv × Bool)) (cs : List Argv) (log : List (Argv × Bool))
    : Type 0 where
  pub after : List (Argv × Bool)
  pub follows : log ≡ before ++ after
  pub commanded : commands after ≡ cs

Behind-append :
    {l m n : List (Argv × Bool)} {cs ds : List Argv}
    → Behind l cs m
    → Behind m ds n
    → Behind l (cs ++ ds) n
Behind-append {l} {m} {n} {cs} a b = record {
  after = a.after ++ b.after;
  follows = b.follows ∙ ap (λ x. x ++ b.after) a.follows ∙ append_assoc l a.after b.after;
  commanded =
      map-append (λ (c, done). c) a.after b.after
      ∙ ap (λ x. x ++ commands b.after) a.commanded
      ∙ ap (λ y. cs ++ y) b.commanded;
}

unchanged : (log : List (Argv × Bool)) → Behind log [] log
unchanged log = record { after = []; follows = sym (append-nil log); commanded = refl }

-- The log of an adapter that was set up, perhaps in part, and dropped: behind what `open` ran come
-- the inverses of the routes, metrics and rules that had succeeded, the last first, and then the
-- reset of the DNS servers exactly if `open` had got past its DNS commands.
abbrev pub Restored : Text → List (Argv × Bool) → Type 0
Restored name log =
    (before : List (Argv × Bool)) × Behind before
      (reverse (undone before) ++ resets name (flushed before)) log

module _ (os : Os) where
  run-Matched :
      (c : Argv) (d : Dev)
      → inverse_of c ≡ none
      → is_flush c ≡ false
      → Matched d
      → Matched (run os c d).1
  unfolding run
  run-Matched c d e f h = answered-Matched c (os d.log c) d e h

  flushes-Matched : (d : Dev) → Matched d → Matched ((run_ os flush >> set_dns) d).1
  unfolding run_ run inverse_of
  flushes-Matched d h = answered_flush (os d.log flush)
    where
      answered_flush :
          (o : Option Text)
          → Matched
              (continue
                (λ (u : Unit {0}). set_dns)
                (continue (λ text. done) (answered flush o d))).1
      answered_flush none = answered-Matched flush none d refl h
      answered_flush (some text) = answered-Matched flush (some text) d refl h

  run_undone-Matched :
      (c undo : Argv) (d : Dev)
      → inverse_of c ≡ some undo
      → Matched d
      → Matched (run_undone os c undo d).1
  unfolding run_undone run_ run
  run_undone-Matched c undo d e h = pushed-Matched c undo (os d.log c) d e h

  attempt-Behind : (c : Argv) (d : Dev) → Behind d.log (c ∷ []) (attempt os c d).log
  unfolding attempt run
  attempt-Behind c d = answered-Behind (os d.log c)
    where
      answered-Behind : (o : Option Text) → Behind d.log (c ∷ []) (answered c o d).1.log
      answered-Behind none = record { after = (c, false) ∷ []; follows = refl; commanded = refl }
      answered-Behind (some t) = record { after = (c, true) ∷ []; follows = refl; commanded = refl }

  attempts-Behind : (cs : List Argv) (d : Dev) → Behind d.log cs (attempts os cs d).log
  unfolding attempts
  attempts-Behind [] d = unchanged d.log
  attempts-Behind (c ∷ cs) d =
      Behind-append (attempt-Behind c d) (attempts-Behind cs (attempt os c d))

  reset-Behind :
      (name : Text) (b : Bool) (d : Dev) → Behind d.log (resets name b) (reset_dns os name b d).log
  unfolding attempts
  reset-Behind name false d = unchanged d.log
  reset-Behind name true d = attempts-Behind (resets name true) d

  pub drop_adapter-Behind :
      (name : Text) (d : Dev)
      → Behind d.log (reverse d.undo ++ resets name d.dns) (drop_adapter os name d).log
  unfolding drop_adapter
  drop_adapter-Behind name d =
      Behind-append (attempts-Behind (reverse d.undo) d)
        (reset-Behind name d.dns (attempts os (reverse d.undo) d))

  module _ (name : Text) (index : ℕ) (ops : NetOps) (cidr : NetText ops) where
    open ops use {Net}

    pub open_adapter-Matched :
        (cfg : ClientConfig Net) (server : IpAddr)
        → Matched (open_adapter os name index ops cidr cfg server fresh).1
    unfolding undone
    open_adapter-Matched cfg server =
        (open_adapter-Stable Matched os flushes-Matched run-Matched run_undone-Matched name index
            ops cidr cfg server).kept
          fresh refl

    -- Whatever the system answers, and whether `open` succeeds or fails on the way, `Drop` then
    -- runs the inverses of the routes, metrics and rules that had succeeded, the last first, and after
    -- them the commands that reset the DNS servers if `open` got past them.
    pub drop_adapter-open :
        (cfg : ClientConfig Net) (server : IpAddr)
        → let d = (open_adapter os name index ops cidr cfg server fresh).1 in
          commands (drop_adapter os name d).log
          ≡ commands d.log ++ (reverse (undone d.log) ++ resets name d.dns)
    drop_adapter-open cfg server =
        let d = (open_adapter os name index ops cidr cfg server fresh).1 in
        let b = drop_adapter-Behind name d in
        ap commands b.follows
        ∙ map-append (λ (c, done). c) d.log b.after
        ∙ ap (λ x. commands d.log ++ x) b.commanded
        ∙ ap (λ us. commands d.log ++ (reverse us ++ resets name d.dns))
            (open_adapter-Matched cfg server)
