-- ===== src/WgClient/Adapter/Inverse.antt =====
-- How the system undoes a command, and the commands that undo a log.
use wg_wrapper.Base.{
  ◌≡◌, refl, ap, ◌∙◌, Bool, true, false, ◌&&◌, ◌||◌, arith, List, [], ◌∷◌, ◌++◌, Option, none, some,
  if◌then◌else◌, bytes_eq,
}
use wg_wrapper.Text.{Text, codes, strip_prefix}
use wg_wrapper.Text.Pieces.{starts_with}
use wg_wrapper.WgClient.Adapter.{Argv, Dev}
use wg_wrapper.WgClient.Adapter.Commands.{nrpt_clear, powershell, automatic_metric}

-- the family as PowerShell spells it
abbrev pub af_of : Text → Text
unfolding bytes_eq
af_of family = if bytes_eq family (codes "ipv4") then codes "IPv4" else codes "IPv6"

-- ipconfig /flushdns
unfoldable pub is_flush : Argv → Bool
unfolding bytes_eq
is_flush (program ∷ option ∷ []) =
    bytes_eq program (codes "ipconfig") && bytes_eq option (codes "/flushdns")
is_flush _ = false

abbrev pub flushed_by : Argv × Bool → Bool
flushed_by (c, true) = is_flush c
flushed_by (c, false) = false

-- The DNS commands were passed: the flush, which `open` runs last of them, has succeeded.
unfoldable pub flushed : List (Argv × Bool) → Bool
unfolding is_flush
flushed [] = false
flushed (entry ∷ log) = flushed_by entry || flushed log

pub flushed-append :
    (log : List (Argv × Bool)) (e : Argv × Bool)
    → flushed (log ++ e ∷ []) ≡ (flushed log || flushed_by e)
unfolding flushed
flushed-append [] e = ground arith
flushed-append (x ∷ log) e = ground (arith, flushed-append log e)

-- How the system undoes a command: a route is deleted, a fixed metric is made automatic, the rule
-- for names is cleared. The servers of the adapter are reset apart from these, by `Drop` itself, if
-- the log is `flushed`. The other commands set up the adapter itself or only ask.
unfoldable pub inverse_of : Argv → Option Argv
unfolding bytes_eq strip_prefix
inverse_of (program ∷ verb ∷ dest ∷ mask ∷ netmask ∷ next ∷ []) =
    if bytes_eq program (codes "route") && bytes_eq verb (codes "add")
    then some (program ∷ codes "delete" ∷ dest ∷ mask ∷ netmask ∷ next ∷ [])
    else none
inverse_of (program ∷ a ∷ b ∷ c ∷ script ∷ []) =
    if bytes_eq program (codes "powershell") && starts_with (codes "Add-DnsClientNrptRule") script
    then some (powershell nrpt_clear)
    else none
inverse_of (program ∷ a ∷ b ∷ c ∷ d ∷ e ∷ f ∷ rest) =
    if bytes_eq program (codes "route") && bytes_eq a (codes "add")
    then some (program ∷ codes "delete" ∷ b ∷ c ∷ d ∷ e ∷ [])
    else if bytes_eq program (codes "netsh")
        && bytes_eq c (codes "add")
        && bytes_eq d (codes "route")
    then some (program ∷ a ∷ b ∷ codes "delete" ∷ d ∷ e ∷ f ∷ [])
    else if bytes_eq program (codes "netsh")
        && bytes_eq c (codes "set")
        && bytes_eq d (codes "interface")
    then some (automatic_metric (af_of b) e)
    else none
inverse_of _ = none

abbrev pub added : Option Argv → List Argv → List Argv
added none cs = cs
added (some c) cs = c ∷ cs

abbrev pub undone_by : Argv × Bool → List Argv → List Argv
undone_by (c, true) cs = added (inverse_of c) cs
undone_by (c, false) cs = cs

-- the inverses of the commands that succeeded, in their order
unfoldable pub undone : List (Argv × Bool) → List Argv
unfolding inverse_of
undone [] = []
undone (entry ∷ log) = undone_by entry (undone log)

abbrev pub Matched : Dev → Type 0
Matched d = d.undo ≡ undone d.log

added-append : (o : Option Argv) (xs ys : List Argv) → added o (xs ++ ys) ≡ added o xs ++ ys
added-append none xs ys = refl
added-append (some c) xs ys = refl

undone_by-append :
    (e : Argv × Bool) (xs ys : List Argv) → undone_by e (xs ++ ys) ≡ undone_by e xs ++ ys
undone_by-append (c, true) xs ys = added-append (inverse_of c) xs ys
undone_by-append (c, false) xs ys = refl

pub undone-append :
    (log : List (Argv × Bool)) (e : Argv × Bool)
    → undone (log ++ e ∷ []) ≡ undone log ++ undone_by e []
unfolding undone
undone-append [] e = refl
undone-append (x ∷ log) e =
    ap (undone_by x) (undone-append log e) ∙ undone_by-append x (undone log) (undone_by e [])
