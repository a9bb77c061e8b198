-- ===== src/WgClient/Adapter/Session.antt =====
-- crates/wgclient/src/lib.rs, module `win`: `open` as a whole. The wintun driver's answers are a
-- record; an error behind the start of the session drops the adapter.
use mathlib.Core.List.{reverse}
use wg_wrapper.Base.{
  ℕ, ◌≡◌, refl, some, subst, >>=-eq-ok, ok_or-eq-ok, ok-eq, ap, ◌∙◌, ◌++◌, Bool, ◌||◌, Option,
  Result, ok, err, ◌>>=◌, ◌>>◌, ensure, ok_or,
}
use wg_wrapper.Addr.{IpAddr}
use wg_wrapper.IpNet.{NetOps, NetText}
use wg_wrapper.Text.{Text}
use wg_wrapper.WgClient.{ClientConfig}
use wg_wrapper.WgClient.Adapter.{OpenError, Dev, Os, drop_adapter}
use wg_wrapper.WgClient.Adapter.Flushed.{DnsKnown, open_adapter-DnsKnown}
use wg_wrapper.WgClient.Adapter.Inverse.{Matched, flushed}
use wg_wrapper.WgClient.Adapter.Open.{open_adapter}
use wg_wrapper.WgClient.Adapter.Undone.{
  fresh, resets, Behind, Restored, drop_adapter-Behind, open_adapter-Matched,
}

-- Whether the library loads, whether the adapter is there or can be made, whether its session
-- starts, and what it is called.
pub record Driver : Type 0 where
  pub loads : Bool
  pub opens : Bool
  pub creates : Bool
  pub starts : Bool
  pub name : Option Text
  pub index : Option ℕ

pub data DriverError : Type 0 where
  not_loaded not_created not_started no_name no_index : DriverError

unfoldable pub start_session : Driver → Result DriverError (Text × ℕ)
start_session d = do
  ensure d.loads not_loaded
  ensure (d.opens || d.creates) not_created
  ensure d.starts not_started
  name ← ok_or d.name no_name
  index ← ok_or d.index no_index
  ok (name, index)

-- What `open` comes to: no session; an error, with the adapter dropped; or the adapter.
pub data Opening : Type 0 where
  unstarted : DriverError → Opening
  dropped : OpenError → Dev → Opening
  opened : Text → Dev → Opening

module _ (ops : NetOps) (cidr : NetText ops) (os : Os) where
  -- an error leaves `open`, and so drops `dev`
  abbrev or_drop : Text → Result OpenError (Unit {0}) × Dev → Opening
  or_drop name (err e, d) = dropped e (drop_adapter os name d)
  or_drop name (ok _, d) = opened name d

  abbrev set_up : ClientConfig ops.Net → (server : IpAddr) → Result DriverError (Text × ℕ) → Opening
  set_up cfg server (err e) = unstarted e
  set_up cfg server (ok (name, index)) =
      or_drop name (open_adapter os name index ops cidr cfg server fresh)

  unfoldable pub win_open : Driver → ClientConfig ops.Net → (server : IpAddr) → Opening
  unfolding start_session open_adapter drop_adapter
  win_open driver cfg server = set_up cfg server (start_session driver)

  -- What the adapter keeps for `Drop` is what its log asks for.
  abbrev pub Ready : Dev → Type 0
  Ready d = Matched d × DnsKnown d

  -- Dropped and restored, or open with all that has to be undone; under the driver's name.
  abbrev pub Kept : Option Text → Opening → Type 0
  Kept called (unstarted e) = Unit {0}
  Kept called (dropped e d) = (name : Text) × (called ≡ some name) × Restored name d.log
  Kept called (opened name d) = (called ≡ some name) × Ready d

  pub drop_adapter-Restored :
      (name : Text) (d : Dev) → Ready d → Restored name (drop_adapter os name d).log
  drop_adapter-Restored name d (m, known) = (
    d.log,
    subst
        (λ us.
          Behind d.log (reverse us ++ resets name (flushed d.log)) (drop_adapter os name d).log)
        m
        (subst (λ b. Behind d.log (reverse d.undo ++ resets name b) (drop_adapter os name d).log)
          known (drop_adapter-Behind os name d)),
  )

  or_drop-Kept :
      (called : Option Text) (name : Text) (r : Result OpenError (Unit {0}) × Dev)
      → called ≡ some name
      → Ready r.1
      → Kept called (or_drop name r)
  or_drop-Kept called name (err e, d) h m = (name, h, drop_adapter-Restored name d m)
  or_drop-Kept called name (ok _, d) h m = (h, m)

  -- the name under which the session started
  start_session-name :
      (driver : Driver) (name : Text) (index : ℕ)
      → start_session driver ≡ ok (name, index)
      → driver.name ≡ some name
  unfolding start_session
  start_session-name driver name index e =
      let (_, _, e₁) = >>=-eq-ok (ensure driver.loads not_loaded) _ e in
      let (_, _, e₂) = >>=-eq-ok (ensure (driver.opens || driver.creates) not_created) _ e₁ in
      let (_, _, e₃) = >>=-eq-ok (ensure driver.starts not_started) _ e₂ in
      let (called, there, e₄) = >>=-eq-ok (ok_or driver.name no_name) _ e₃ in
      let (at, _, e₅) = >>=-eq-ok (ok_or driver.index no_index) _ e₄ in
      ok_or-eq-ok driver.name no_name there ∙ ap (λ (p : Text × ℕ). some p.0) (ok-eq e₅)

  set_up-Kept :
      (driver : Driver) (cfg : ClientConfig ops.Net) (server : IpAddr)
      (r : Result DriverError (Text × ℕ))
      → start_session driver ≡ r
      → Kept driver.name (set_up cfg server r)
  set_up-Kept driver cfg server (err e) s = tt
  set_up-Kept driver cfg server (ok (name, index)) s =
      or_drop-Kept driver.name name (open_adapter os name index ops cidr cfg server fresh)
        (start_session-name driver name index s)
        (
          open_adapter-Matched os name index ops cidr cfg server,
          open_adapter-DnsKnown os name index ops cidr cfg server,
        )

  pub win_open-Kept :
      (driver : Driver) (cfg : ClientConfig ops.Net) (server : IpAddr)
      → Kept driver.name (win_open driver cfg server)
  unfolding win_open
  win_open-Kept driver cfg server = set_up-Kept driver cfg server (start_session driver) refl
