-- ===== src/WgClient/Adapter.antt =====
-- crates/wgclient/src/lib.rs, module `win`: the commands that `open` runs once the adapter's
-- session has started, and what `Drop` runs. A command is its program and its arguments; what the
-- system answers to one depends on all that were run before. The state survives an error.
pub mod Commands
pub mod Setup
pub mod Open
pub mod Inverse
pub mod Stable
pub mod Undone
pub mod Flushed
pub mod Session
pub mod Succeeded
pub mod Covered
pub mod FullTunnel
pub mod Opened
use wg_wrapper.Base.{Bool, true, false, List, [], ◌∷◌, ◌++◌, Option, none, some, Result, ok, err}
use mathlib.Core.List.{reverse}
use wg_wrapper.Text.{Text, codes}

abbrev pub Argv : Type 0
Argv = List Text

pub data OpenError : Type 0 where
  failed : Argv → OpenError
  no_gateway bad_half : OpenError

-- The commands that were run, each with its success, and what `Adapter` keeps for `Drop`.
pub record Dev : Type 0 where
  pub log : List (Argv × Bool)
  pub undo : List Argv
  pub dns : Bool

abbrev pub Action {ℓ} : Type ℓ → Type ℓ
Action A = Dev → Result OpenError A × Dev

-- Option::ok_or, in an action
abbrev pub ok_or {ℓ} : {A : Type ℓ} → Option A → OpenError → Action A
ok_or none e d = (err e, d)
ok_or (some a) e d = (ok a, d)

abbrev pub return {ℓ} : {A : Type ℓ} → A → Action A
return a d = (ok a, d)

-- Ok(())
abbrev pub done : Action (Unit {0})
done d = (ok tt, d)

-- the `?` of the source
abbrev pub continue {ℓ κ} :
    {A : Type ℓ} {B : Type κ} → (A → Action B) → Result OpenError A × Dev → Result OpenError B × Dev
continue next (err e, d) = (err e, d)
continue next (ok a, d) = next a d

infixl 5 ◌>>=◌
abbrev pub ◌>>=◌ {ℓ κ} : {A : Type ℓ} {B : Type κ} (m : Action A) (next : A → Action B) → Action B
(m >>= next) d = continue next (m d)

infixl 5 ◌>>◌
abbrev pub ◌>>◌ {ℓ} : {B : Type ℓ} (m : Action (Unit {0})) (next : Action B) → Action B
m >> next = m >>= (λ u. next)

-- dev.undo.push(..)
abbrev pub push : Argv → Action (Unit {0})
push c d = (ok tt, record d { undo = d.undo ++ c ∷ [] })

-- ipconfig /flushdns, the last of the commands on DNS servers
abbrev pub flush : Argv
flush = codes "ipconfig" ∷ codes "/flushdns" ∷ []

-- dev.dns=true
abbrev pub set_dns : Action (Unit {0})
set_dns d = (ok tt, record d { dns = true })

abbrev pub answered : Argv → Option Text → Action Text
answered c none d = (err (failed c), record d { log = d.log ++ (c, false) ∷ [] })
answered c (some text) d = (ok text, record d { log = d.log ++ (c, true) ∷ [] })

-- What the system prints when it carries out a command; `none` when the command fails or does not start.
abbrev pub Os : Type 0
Os = List (Argv × Bool) → Argv → Option Text

module _ (os : Os) where
  unfoldable pub run : Argv → Action Text
  run c d = answered c (os d.log c) d

  -- run(..)?, without the output
  unfoldable pub run_ : Argv → Action (Unit {0})
  unfolding run
  run_ c = run c >>= (λ text. done)

  -- a command whose undoing is kept
  unfoldable pub run_undone : Argv → Argv → Action (Unit {0})
  unfolding run_
  run_undone c undo = do run_ c; push undo

  -- let _=run(..)
  unfoldable pub attempt : Argv → Dev → Dev
  unfolding run
  attempt c d = (run c d).1

  attempts : List Argv → Dev → Dev
  unfolding attempt
  attempts [] d = d
  attempts (c ∷ cs) d = attempts cs (attempt c d)

  abbrev reset_dns : Text → Bool → Dev → Dev
  unfolding attempt
  reset_dns name false d = d
  reset_dns name true d = attempt (codes "ipconfig" ∷ codes "/flushdns" ∷ []) (
      attempt
        (codes "netsh"
          ∷ codes "interface"
          ∷ codes "ipv4"
          ∷ codes "set"
          ∷ codes "dnsservers"
          ∷ (codes "name=" ++ name)
          ∷ codes "dhcp"
          ∷ [])
        d)

  -- Adapter::drop
  unfoldable pub drop_adapter : Text → Dev → Dev
  unfolding attempts reset_dns
  drop_adapter name d = reset_dns name d.dns (attempts (reverse d.undo) d)
