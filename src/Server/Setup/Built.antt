-- ===== src/Server/Setup/Built.antt =====
-- What `setup` builds from a configuration that `validate` accepts.
use mathlib.Core.List.{append_assoc, append-nil}
use wg_wrapper.Base.{
  ℕ, suc, ◌+◌, ◌≡◌, refl, sym, ap, ◌∙◌, subst, List, [], ◌∷◌, ◌++◌, map, Bytes, Option, none, some,
  arith, length, length-append, Result, ok, err, map_err, >>=-eq-ok, inl, inr, ok-eq,
}
use wg_wrapper.Config.Exact.{validate_iff}
use wg_wrapper.Config.{Config, PeerConfig, validate}
use wg_wrapper.IpNet.{NetOps, NetLaws}
use wg_wrapper.Keys.{decode_key}
use wg_wrapper.Noise.{Noise}
use wg_wrapper.Text.{Text}
use wg_wrapper.Upstream.{Upstream, parse_upstream}
use wg_wrapper.Wg.Peers.{IsIndexed, add_peer-Added, new-IsIndexed, keys}
use wg_wrapper.Wg.{Peer, Wg, AddError, new, add_peer}
use wg_wrapper.Server.Setup.Routes.{routes, RoutesTo, routes-RoutesTo}
use wg_wrapper.Server.Setup.{
  Tables, bad_key, bad_upstream, bad_peer, key_of, psk_of, upstream_of, add_one, add_all, setup,
}

-- the upstream of a peer
abbrev IsUpstreamOf : Upstream → Option Text → Upstream → Type 0
IsUpstreamOf global none u = u ≡ global
IsUpstreamOf global (some s) u = parse_upstream s ≡ ok u

map_err-eq-ok {ℓ} :
    {E F : Type 0} {A : Type ℓ} (f : E → F) (m : Result E A) {a : A} → map_err f m ≡ ok a → m ≡ ok a
map_err-eq-ok f (ok a) h = ground arith
map_err-eq-ok f (err e) h = cc

module _ (ops : NetOps) (noise : Noise) (decode_base64 : Text → Option Bytes) where
  open ops use {Net, contains}

  -- The keys and upstreams of the peers, in order.
  pub data Provides (global : Upstream)
      : List (PeerConfig Net) → List Bytes → List Upstream → Type 0 where
    nil : Provides global [] [] []
    cons :
        {p : PeerConfig Net} {ps : List (PeerConfig Net)} {k : Bytes} {ks : List Bytes}
        {u : Upstream} {us : List Upstream}
        → decode_key decode_base64 p.public_key ≡ ok k
        → IsUpstreamOf global p.upstream u
        → Provides global ps ks us
        → Provides global (p ∷ ps) (k ∷ ks) (u ∷ us)

  -- What the loop adds to the tables.
  pub record Grows (global : Upstream) (t t' : Tables ops noise) (ps : List (PeerConfig Net))
      : Type 0 where
    pub ks : List Bytes
    pub us : List Upstream
    pub provides : Provides global ps ks us
    pub peers : keys noise t'.wg.peers ≡ keys noise t.wg.peers ++ ks
    upstreams : t'.upstreams ≡ t.upstreams ++ us
    allowed : t'.allowed ≡ t.allowed ++ routes ops (length t.wg.peers) ps
    pub indexed : IsIndexed noise t'.wg
    count : length t'.wg.peers ≡ length t.wg.peers + length ps

  upstream-IsUpstreamOf :
      (global u : Upstream) (o : Option Text)
      → upstream_of ops noise decode_base64 global o ≡ ok u
      → IsUpstreamOf global o u
  unfolding upstream_of
  upstream-IsUpstreamOf global u none e = ground arith
  upstream-IsUpstreamOf global u (some s) e = map_err-eq-ok bad_upstream (parse_upstream s) e

  length-keys : (ps : List (Peer noise)) → length (keys noise ps) ≡ length ps
  length-keys [] = refl
  length-keys (p ∷ ps) = ap suc (length-keys ps)

  -- The next index, and one more key.
  add_peer-last :
      (wg wg' : Wg noise) (k : Bytes) (psk : Option Bytes) (idx : ℕ)
      → IsIndexed noise wg
      → add_peer noise wg k psk none ≡ ok (wg', idx)
      → (idx ≡ length wg.peers)
        × (keys noise wg'.peers ≡ keys noise wg.peers ++ k ∷ [])
        × IsIndexed noise wg'
  add_peer-last wg wg' k psk idx v e = elim (add_peer-Added noise wg k psk none v) [
    | inl (i, at, fails) ↦ absurd (ok≢err (sym e ∙ fails))
    | inr (wg₂, e₂, grown, ix) ↦
        let same : (wg' ≡ wg₂) × (idx ≡ length wg.peers) = ok-pair (sym e ∙ e₂) in
        (
          same.1,
          ap (λ w. keys noise w.peers) same.0 ∙ grown,
          subst (IsIndexed noise) (sym same.0) ix,
        )
  ]
    where
      ok≢err :
          {x : Wg noise × ℕ} {a : AddError}
          → ◌≡◌ {A = Result AddError (Wg noise × ℕ)} (ok x) (err a)
          → ⊥
      ok≢err h = cc

      ok-pair :
          {a b : Wg noise} {i j : ℕ}
          → ◌≡◌ {A = Result AddError (Wg noise × ℕ)} (ok (a, i)) (ok (b, j))
          → (a ≡ b) × (i ≡ j)
      ok-pair h = (ground arith, ground arith)

  grown_count :
      (ps qs : List (Peer noise)) (k : Bytes)
      → keys noise qs ≡ keys noise ps ++ k ∷ []
      → length qs ≡ length ps + 1
  grown_count ps qs k e =
      omega
        (arith, length-keys ps, length-keys qs, ap length e, length-append (keys noise ps) (k ∷ []))

  -- The tables after one round.
  abbrev extended : Tables ops noise → PeerConfig Net → Wg noise → ℕ → Upstream → Tables ops noise
  extended t p wg idx up = record {
    wg = wg;
    allowed = t.allowed ++ map (λ n. (n, idx)) p.allowed_ips;
    upstreams = t.upstreams ++ up ∷ [];
  }

  extended-Grows :
      (global : Upstream) (t : Tables ops noise) (p : PeerConfig Net) (wg : Wg noise) (idx : ℕ)
      (key : Bytes) (up : Upstream)
      → decode_key decode_base64 p.public_key ≡ ok key
      → IsUpstreamOf global p.upstream up
      → idx ≡ length t.wg.peers
      → keys noise wg.peers ≡ keys noise t.wg.peers ++ key ∷ []
      → IsIndexed noise wg
      → Grows global t (extended t p wg idx up) (p ∷ [])
  extended-Grows global t p wg idx key up decoded chosen last grown ix = record {
    ks = key ∷ [];
    us = up ∷ [];
    provides = cons decoded chosen nil;
    peers = grown;
    upstreams = refl;
    allowed =
        ap (◌++◌ t.allowed) (ap (λ i. map (λ n. (n, i)) p.allowed_ips) last ∙ sym (append-nil _));
    indexed = ix;
    count = grown_count t.wg.peers wg.peers key grown;
  }

  pub add_one-Grows :
      (global : Upstream) (t t' : Tables ops noise) (p : PeerConfig Net)
      → IsIndexed noise t.wg
      → add_one ops noise decode_base64 global t p ≡ ok t'
      → Grows global t t' (p ∷ [])
  unfolding add_one key_of
  add_one-Grows global t t' p v e =
      let (psk, _, e₁) = >>=-eq-ok (psk_of ops noise decode_base64 p.preshared_key) _ e in
      let (key, decoded, e₂) = >>=-eq-ok (key_of ops noise decode_base64 p.public_key) _ e₁ in
      let ((wg, idx), added, e₃) =
        >>=-eq-ok (map_err bad_peer (add_peer noise t.wg key psk none)) _ e₂ in
      let (up, chosen, e₄) =
        >>=-eq-ok (upstream_of ops noise decode_base64 global p.upstream) _ e₃ in
      let (last, grown, ix) =
        add_peer-last t.wg wg key psk idx v
          (map_err-eq-ok bad_peer (add_peer noise t.wg key psk none) added) in
      subst (λ t'. Grows global t t' (p ∷ [])) (ok-eq e₄)
        (extended-Grows global t p wg idx key up
          (map_err-eq-ok bad_key (decode_key decode_base64 p.public_key) decoded)
          (upstream-IsUpstreamOf global up p.upstream chosen) last grown ix)

  pub Provides-append :
      {global : Upstream} {ps qs : List (PeerConfig Net)} {ks ls : List Bytes}
      {us vs : List Upstream}
      → Provides global ps ks us
      → Provides global qs ls vs
      → Provides global (ps ++ qs) (ks ++ ls) (us ++ vs)
  Provides-append nil r = r
  Provides-append (cons a b l) r = cons a b (Provides-append l r)

  -- The rounds after the first one add the routes that come after its own.
  allowed-cons :
      (t : List (Net × ℕ)) (u w : List (Net × ℕ)) (i j : ℕ) (p : PeerConfig Net)
      (ps : List (PeerConfig Net))
      → u ≡ t ++ routes ops i (p ∷ [])
      → w ≡ u ++ routes ops j ps
      → j ≡ suc i
      → w ≡ t ++ routes ops i (p ∷ ps)
  allowed-cons t u w i j p ps e e' last =
      let mine : List (Net × ℕ) = map (λ n. (n, i)) p.allowed_ips in
      e'
      ∙ ap (λ l. l ++ routes ops j ps) (e ∙ ap (◌++◌ t) (append-nil mine))
      ∙ append_assoc t mine (routes ops j ps)
      ∙ ap (λ j. t ++ (mine ++ routes ops j ps)) last

  Grows-cons :
      (global : Upstream) (t u w : Tables ops noise) (p : PeerConfig Net)
      (ps : List (PeerConfig Net))
      → Grows global t u (p ∷ [])
      → Grows global u w ps
      → Grows global t w (p ∷ ps)
  Grows-cons global t u w p ps f g = record {
    ks = f.ks ++ g.ks;
    us = f.us ++ g.us;
    provides = Provides-append f.provides g.provides;
    peers = g.peers ∙ ap (λ l. l ++ g.ks) f.peers ∙ append_assoc (keys noise t.wg.peers) f.ks g.ks;
    upstreams = g.upstreams ∙ ap (λ l. l ++ g.us) f.upstreams ∙ append_assoc t.upstreams f.us g.us;
    allowed =
        allowed-cons t.allowed u.allowed w.allowed (length t.wg.peers) (length u.wg.peers) p ps
          f.allowed g.allowed (omega (arith, f.count));
    indexed = g.indexed;
    count = omega (arith, f.count, g.count);
  }

  add_all-Grows :
      (global : Upstream) (t t' : Tables ops noise) (ps : List (PeerConfig Net))
      → IsIndexed noise t.wg
      → add_all ops noise decode_base64 global t ps ≡ ok t'
      → Grows global t t' ps
  unfolding add_all
  add_all-Grows global t t' [] v e =
      let same : t ≡ t' = ok-eq e in
      record {
        ks = [];
        us = [];
        provides = nil;
        peers = rw (← same, append-nil);
        upstreams = rw (← same, append-nil);
        allowed = rw (← same, append-nil);
        indexed = subst (λ t. IsIndexed noise t.wg) same v;
        count = rw (← same) (omega arith);
      }
  add_all-Grows global t t' (p ∷ ps) v e =
      let (u, first, e₁) = >>=-eq-ok (add_one ops noise decode_base64 global t p) _ e in
      let f = add_one-Grows global t u p v first in
      Grows-cons global t u t' p ps f (add_all-Grows global u t' ps f.indexed e₁)

  -- The tables that the tasks get.
  pub record Serves (c : Config Net) (t : Tables ops noise) : Type 0 where
    pub global : Upstream
    pub global_is : parse_upstream c.upstream ≡ ok global
    pub provides : Provides global c.peers (keys noise t.wg.peers) t.upstreams
    pub indexed : IsIndexed noise t.wg
    pub routes_to : RoutesTo ops c.peers t.allowed

  -- From a configuration that `validate` accepts, `setup` builds an endpoint with the peers' keys in
  -- order, the upstream of each peer, its own or the global one, and a table that routes each address
  -- in a network of a peer to that peer, and no address past the peers.
  pub setup-Serves :
      (public_of : Bytes → Bytes) (now : ℕ) (c : Config Net) (t : Tables ops noise)
      → NetLaws ops
      → validate ops decode_base64 c ≡ ok tt
      → setup ops noise decode_base64 public_of now c ≡ ok t
      → Serves c t
  unfolding setup new
  setup-Serves public_of now c t laws accepted e =
      let (global, parsed, e₁) = >>=-eq-ok (map_err bad_upstream (parse_upstream c.upstream)) _ e in
      let (private, _, e₂) = >>=-eq-ok (key_of ops noise decode_base64 c.private_key) _ e₁ in
      let g =
        add_all-Grows global _ t c.peers (new-IsIndexed noise private (public_of private) now) e₂ in
      let v = (validate_iff ops decode_base64 laws c).0 accepted in
      record {
        global = global;
        global_is = map_err-eq-ok bad_upstream (parse_upstream c.upstream) parsed;
        provides = rw (g.peers, g.upstreams) g.provides;
        indexed = g.indexed;
        routes_to = rw g.allowed (routes-RoutesTo ops c.peers v.apart);
      }
