-- ===== src/Server/Setup/Outcome.antt =====
-- What becomes of a configuration that `validate` accepts: `validate` does not compare the keys of
-- the peers, `add_peer` does.
use wg_wrapper.Base.{
  ℕ, ◌≡◌, refl, sym, ap, ◌∙◌, List, [], ◌∷◌, ◌++◌, subst, Bytes, Option, none, some, some-eq, Memᴰ,
  All, get_elem?, ◌⊎◌, inl, inr, Result, ok, err, map_err, ◌>>=◌, zero, suc,
}
use wg_wrapper.Config.Accepts.{Whenever, IsKey, Parses, PeerFits}
use wg_wrapper.Config.Exact.{validate_iff}
use wg_wrapper.Config.{Config, PeerConfig, validate}
use wg_wrapper.IpNet.{NetOps, NetLaws}
use wg_wrapper.Keys.{decode_key}
use wg_wrapper.Noise.{Noise}
use wg_wrapper.Text.{Text}
use wg_wrapper.Upstream.{Upstream, parse_upstream}
use wg_wrapper.Wg.Peers.{IsIndexed, add_peer-Added, new-IsIndexed, keys}
use wg_wrapper.Wg.{Wg, duplicate_peer, new, add_peer}
use wg_wrapper.Server.Setup.Built.{
  Provides, nil, cons, Provides-append, add_one-Grows, Serves, setup-Serves,
}
use wg_wrapper.Server.Setup.{
  Tables, StartError, bad_key, bad_upstream, bad_peer, key_of, psk_of, upstream_of, add_one,
  add_all, setup,
}

bind-ok {ℓ κ} :
    {E : Type 0} {A : Type ℓ} {B : Type κ} (r : Result E A) (next : A → Result E B) {a : A}
    → r ≡ ok a
    → (r >>= next) ≡ next a
bind-ok r next e = ap (λ r. r >>= next) e

bind-err {ℓ κ} :
    {E : Type 0} {A : Type ℓ} {B : Type κ} (r : Result E A) (next : A → Result E B) {x : E}
    → r ≡ err x
    → (r >>= next) ≡ err x
bind-err r next e = ap (λ r. r >>= next) e

module _ (ops : NetOps) (noise : Noise) (decode_base64 : Text → Option Bytes) where
  open ops use {Net}

  -- a peer in front has the key of this one
  abbrev pub SameKey : List (PeerConfig Net) → PeerConfig Net → Type 0
  SameKey before q =
      (p : PeerConfig Net) × (k : Bytes) × Memᴰ p before
      × (decode_key decode_base64 p.public_key ≡ ok k)
      × (decode_key decode_base64 q.public_key ≡ ok k)

  -- some peer has the key of one in front of it
  abbrev pub Clash : List (PeerConfig Net) → List (PeerConfig Net) → Type 0
  Clash before [] = ⊥
  Clash before (q ∷ qs) = SameKey before q ⊎ Clash (before ++ q ∷ []) qs

  -- no key stands twice
  abbrev pub Distinct : List Bytes → Type 0
  Distinct ks = (i j : ℕ) (k : Bytes) → get_elem? ks i ≡ some k → get_elem? ks j ≡ some k → i ≡ j

  psk-ok :
      (o : Option Text)
      → Whenever (IsKey ops decode_base64) o
      → (x : Option Bytes) × (psk_of ops noise decode_base64 o ≡ ok x)
  unfolding psk_of key_of
  psk-ok none h = (none, refl)
  psk-ok (some s) (k, e) = (some k, rw e refl)

  upstream-ok :
      (global : Upstream) (o : Option Text)
      → Whenever Parses o
      → (u : Upstream) × (upstream_of ops noise decode_base64 global o ≡ ok u)
  unfolding upstream_of
  upstream-ok global none h = (global, refl)
  upstream-ok global (some s) (u, e) = (u, rw e refl)

  -- the peer whose key stands at an index
  provider :
      {global : Upstream} {ps : List (PeerConfig Net)} {ks : List Bytes} {us : List Upstream}
      (i : ℕ) (k : Bytes)
      → Provides ops noise decode_base64 global ps ks us
      → get_elem? ks i ≡ some k
      → (p : PeerConfig Net) × Memᴰ p ps × (decode_key decode_base64 p.public_key ≡ ok k)
  provider i k nil h = cc
  provider zero k (cons {p} d c l) h = (p, Memᴰ.head refl, d ∙ ap ok (some-eq h))
  provider (suc i) k (cons d c l) h = let (p, m, e) = provider i k l h in (p, Memᴰ.tail m, e)

  add_one-Ends :
      (global : Upstream) (t : Tables ops noise) (p : PeerConfig Net)
      → IsIndexed noise t.wg
      → PeerFits ops decode_base64 p
      → ((t' : Tables ops noise) × (add_one ops noise decode_base64 global t p ≡ ok t'))
        ⊎ ((add_one ops noise decode_base64 global t p ≡ err (bad_peer duplicate_peer))
            × (k : Bytes) × (i : ℕ) × (decode_key decode_base64 p.public_key ≡ ok k)
            × (get_elem? (keys noise t.wg.peers) i ≡ some k))
  unfolding add_one key_of
  add_one-Ends global t p v fits =
      let (psk, e₁) = psk-ok p.preshared_key fits.preshared_key in
      let (k, e₂) = fits.public_key in
      let (u, e₃) = upstream-ok global p.upstream fits.upstream in
      elim (add_peer-Added noise t.wg k psk none v) [
        | inl (i, found, fails) ↦ inr (
          bind-ok (psk_of ops noise decode_base64 p.preshared_key) _ e₁
              ∙ bind-ok (key_of ops noise decode_base64 p.public_key) _ (ap (map_err bad_key) e₂)
              ∙ bind-err (map_err bad_peer (add_peer noise t.wg k psk none)) _
                  (ap (map_err bad_peer) fails),
          k,
          i,
          e₂,
          found,
        )
        | inr (wg, added, _, _) ↦ inl (
          _,
          bind-ok (psk_of ops noise decode_base64 p.preshared_key) _ e₁
              ∙ bind-ok (key_of ops noise decode_base64 p.public_key) _ (ap (map_err bad_key) e₂)
              ∙ bind-ok (map_err bad_peer (add_peer noise t.wg k psk none)) _
                  (ap (map_err bad_peer) added)
              ∙ bind-ok (upstream_of ops noise decode_base64 global p.upstream) _ e₃,
        )
      ]

  add_all-Ends :
      (global : Upstream) (t : Tables ops noise) (before ps : List (PeerConfig Net))
      (us : List Upstream)
      → IsIndexed noise t.wg
      → Provides ops noise decode_base64 global before (keys noise t.wg.peers) us
      → All (PeerFits ops decode_base64) ps
      → ((t' : Tables ops noise) × (add_all ops noise decode_base64 global t ps ≡ ok t'))
        ⊎ ((add_all ops noise decode_base64 global t ps ≡ err (bad_peer duplicate_peer))
            × Clash before ps)
  unfolding add_all
  add_all-Ends global t before [] us v known fits = inl (t, refl)
  add_all-Ends global t before (p ∷ ps) us v known (fit, fits) =
      elim (add_one-Ends global t p v fit) [
        | inr (fails, k, i, decoded, found) ↦
            let (q, m, same) = provider i k known found in
            inr (
              bind-err (add_one ops noise decode_base64 global t p) _ fails,
              inl (q, k, m, same, decoded),
            )
        | inl (u, first) ↦
            let g = add_one-Grows ops noise decode_base64 global t u p v first in
            let more =
              subst
                (λ ks. Provides ops noise decode_base64 global (before ++ p ∷ []) ks (us ++ g.us))
                (sym g.peers) (Provides-append ops noise decode_base64 known g.provides) in
            elim (add_all-Ends global u (before ++ p ∷ []) ps (us ++ g.us) g.indexed more fits) [
              | inl (t', rest) ↦
                  inl (t', bind-ok (add_one ops noise decode_base64 global t p) _ first ∙ rest)
              | inr (fails, clash) ↦
                  inr (
                    bind-ok (add_one ops noise decode_base64 global t p) _ first ∙ fails,
                    inr clash,
                  )
            ]
      ]

  indexed-Distinct : (wg : Wg noise) → IsIndexed noise wg → Distinct (keys noise wg.peers)
  indexed-Distinct wg v i j k at_i at_j = some-eq (sym (v.listed k i at_i) ∙ v.listed k j at_j)

  module _ (public_of : Bytes → Bytes) (now : ℕ) (laws : NetLaws ops) where
    -- what `setup` comes to
    abbrev pub Outcome : Config Net → Result StartError (Tables ops noise) → Type 0
    Outcome c (ok t) = Serves ops noise decode_base64 c t × Distinct (keys noise t.wg.peers)
    Outcome c (err e) = (e ≡ bad_peer duplicate_peer) × Clash [] c.peers

    -- By the laws of CIDR blocks, and for a configuration that `validate` accepts: `setup` fails only
    -- if two of its peers have the same key, which `validate` does not look at, and then because of
    -- the second of them. Otherwise it builds an endpoint with the peers' keys in order, all
    -- distinct, the upstream of each peer, its own or the global one, and a table that routes each
    -- address in a network of a peer to that peer, and no address past the peers.
    pub setup-Outcome :
        (c : Config Net)
        → validate ops decode_base64 c ≡ ok tt
        → Outcome c (setup ops noise decode_base64 public_of now c)
    unfolding setup new key_of
    setup-Outcome c accepted =
        let v = (validate_iff ops decode_base64 laws c).0 accepted in
        let (global, e₁) = v.upstream in
        let (private, e₂) = v.private_key in
        let start =
          bind-ok (map_err bad_upstream (parse_upstream c.upstream)) _
            (ap (map_err bad_upstream) e₁)
          ∙ bind-ok (key_of ops noise decode_base64 c.private_key) _ (ap (map_err bad_key) e₂) in
        elim (add_all-Ends global
          (record { wg = new noise private (public_of private) now; allowed = []; upstreams = [] })
          [] c.peers [] (new-IsIndexed noise private (public_of private) now) nil v.peers) [
            | inr (fails, clash) ↦ subst (Outcome c) (sym (start ∙ fails)) (refl, clash)
            | inl (t, built) ↦
                let served =
                  setup-Serves ops noise decode_base64 public_of now c t laws accepted
                    (start ∙ built) in
                subst (Outcome c) (sym (start ∙ built))
                  (served, indexed-Distinct t.wg served.indexed)
          ]
