-- ===== src/Config/Overlap.antt =====
-- The test on network addresses against the sets of addresses.
use mathlib.Core.List.{append_assoc, append-nil}
use wg_wrapper.Base.{
  ◌≡◌, refl, sym, ap, subst, ◌∙◌, Bool, true, false, not, List, [], ◌∷◌, ◌++◌, All, All-append,
  All-middle, any, arith, ok, >>=-eq-ok, ensure, ensure-eq-ok, Bool-cases, inl, inr,
}
use wg_wrapper.Addr.{IpAddr}
use wg_wrapper.IpNet.{NetOps, NetLaws}
use wg_wrapper.Config.{outside_address, overlaps, overlapping, check_nets}

module _ (ops : NetOps) where
  open ops use {Net, contains, includes, addr}

  -- no address lies in both
  abbrev pub Disjoint : Net → Net → Type 0
  Disjoint n m = (ip : IpAddr) → contains n ip ≡ true → contains m ip ≡ true → ⊥

  abbrev pub Apart : List Net → Type 0
  Apart [] = Unit
  Apart (n ∷ ns) = All (Disjoint n) ns × Apart ns

  Apart-concat :
      (ns : List Net) (m : Net) → Apart ns → All (λ n. Disjoint n m) ns → Apart (ns ++ m ∷ [])
  Apart-concat [] m a d = (tt, tt)
  Apart-concat (n ∷ ns) m a d =
      (All-append (Disjoint n) ns (m ∷ []) a.0 (d.0, tt), Apart-concat ns m a.1 d.1)

  -- In a list of disjoint networks the ones in front are disjoint from a later one.
  Apart-front :
      (ns : List Net) (m : Net) (ms : List Net) → Apart (ns ++ m ∷ ms) → All (λ n. Disjoint n m) ns
  Apart-front [] m ms a = tt
  Apart-front (n ∷ ns) m ms a = (All-middle (Disjoint n) ns m ms a.0, Apart-front ns m ms a.1)

  not-true : (b : Bool) → not b ≡ true → b ≡ false
  not-true b h = ground arith

  module _ (laws : NetLaws ops) where
    overlapping-false : (net o : Net) → overlapping ops net o ≡ false → Disjoint o net
    overlapping-false net o e ip inside_o inside_net =
        ground (arith, laws.nested o net ip inside_o inside_net)

    overlapping-true : (net o : Net) → overlapping ops net o ≡ true → ¬ Disjoint o net
    overlapping-true net o e d =
        ground (arith, laws.contains-addr net, laws.contains-addr o, d (addr net), d (addr o))

    any-overlapping-false :
        (net : Net) (seen : List Net)
        → any (overlapping ops net) seen ≡ false
        → All (λ o. Disjoint o net) seen
    any-overlapping-false net [] e = tt
    any-overlapping-false net (o ∷ seen) e =
        (overlapping-false net o (ground arith), any-overlapping-false net seen (ground arith))

    All-Disjoint-any :
        (net : Net) (seen : List Net)
        → All (λ o. Disjoint o net) seen
        → any (overlapping ops net) seen ≡ false
    All-Disjoint-any net [] d = refl
    All-Disjoint-any net (o ∷ seen) d = elim (Bool-cases (overlapping ops net o)) [
      | inl e ↦ absurd (overlapping-true net o e d.0)
      | inr e ↦ rw e (All-Disjoint-any net seen d.1)
    ]

    -- The inner loop accepts networks inside the address that are disjoint from all others.
    pub check_nets_sound :
        (address : Net) (seen nets all : List Net)
        → check_nets ops address seen nets ≡ ok all
        → Apart seen
        → (all ≡ seen ++ nets) × Apart all × All (λ n. includes address n ≡ true) nets
    unfolding check_nets
    check_nets_sound address seen [] all e a =
        let same : seen ≡ all = ground arith in (rw (append-nil, same), subst Apart same a, tt)
    check_nets_sound address seen (net ∷ nets) all e a =
        let (_, inside, e₁) = >>=-eq-ok (ensure (includes address net) outside_address) _ e in
        let (_, clear, e₂) =
          >>=-eq-ok (ensure (not (any (overlapping ops net) seen)) overlaps) _ e₁ in
        let free = any-overlapping-false net seen (not-true _ (ensure-eq-ok _ overlaps clear)) in
        let (same, apart, later) =
          check_nets_sound address (seen ++ net ∷ []) nets all e₂ (Apart-concat seen net a free) in
        (
          same ∙ append_assoc seen (net ∷ []) nets,
          apart,
          (ensure-eq-ok _ outside_address inside, later),
        )

    pub check_nets_complete :
        (address : Net) (seen nets : List Net)
        → Apart (seen ++ nets)
        → All (λ n. includes address n ≡ true) nets
        → check_nets ops address seen nets ≡ ok (seen ++ nets)
    unfolding check_nets
    check_nets_complete address seen [] a i = rw append-nil
    check_nets_complete address seen (net ∷ nets) a i =
        let clear = All-Disjoint-any net seen (Apart-front seen net nets a) in
        let again = append_assoc seen (net ∷ []) nets in
        rw (i.0, clear)
          (check_nets_complete address (seen ++ net ∷ []) nets (subst Apart (sym again) a) i.1
            ∙ ap ok again)
