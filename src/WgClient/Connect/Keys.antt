-- ===== src/WgClient/Connect/Keys.antt =====
-- The endpoint of a configuration that `parse_conf` returned.
use wg_wrapper.Base.{inl, inr, ℕ, ◌≡◌, refl, Bytes, [], ◌∷◌, Option, none, some, ok}
use wg_wrapper.Config.Accepts.{Whenever, IsKey}
use wg_wrapper.IpNet.{NetOps, NetText}
use wg_wrapper.Keys.{decode_key}
use wg_wrapper.Noise.{Noise}
use wg_wrapper.Text.{Text}
use wg_wrapper.Wg.Peers.{keys, IsIndexed, new-IsIndexed, add_peer-Added}
use wg_wrapper.Wg.{Wg, new, add_peer}
use wg_wrapper.WgClient.{ClientConfig}
use wg_wrapper.WgClient.Conf.{parse_conf}
use wg_wrapper.WgClient.Conf.Fits.{parse_conf-Fits}
use wg_wrapper.WgClient.Connect.{decode_psk, wg_of}

module _ (ops : NetOps) (cidr : NetText ops) (decode_base64 : Text → Option Bytes) where
  psk-ok :
      (o : Option Text)
      → Whenever (IsKey ops decode_base64) o
      → (psk : Option Bytes) × (decode_psk decode_base64 o ≡ ok psk)
  unfolding decode_psk
  psk-ok none h = (none, refl)
  psk-ok (some psk) (k, e) = (some k, rw e refl)

  module _ (noise : Noise) (public_of : Bytes → Bytes) where
    fresh :
        (private : Bytes) (now : ℕ) (public : Bytes) (psk : Option Bytes) (keepalive : Option ℕ)
        → (wg : Wg noise) × (add_peer noise
              (new noise private (public_of private) now)
              public
              psk
              keepalive
            ≡ ok (wg, 0))
          × (keys noise wg.peers ≡ public ∷ [])
          × IsIndexed noise wg
    unfolding new
    fresh private now public psk keepalive =
        let empty = new noise private (public_of private) now in
        elim (add_peer-Added noise empty public psk keepalive
          (new-IsIndexed noise private (public_of private) now)) [
            | inl (i, found, _) ↦ absurd (nowhere i found)
            | inr (wg, e, ks, v) ↦ (wg, e, ks, v)
          ]
      where
        nowhere : (i : ℕ) → ◌≡◌ {A = Option Bytes} none (some public) → ⊥
        nowhere i h = cc

    -- For a configuration that `parse_conf` returned, `connect_to` gets past its keys: they decode
    -- again, and the endpoint has exactly one peer, the one with the configured public key.
    pub wg_of-parsed :
        (conf : Text) (c : ClientConfig ops.Net) (now : ℕ)
        → parse_conf ops cidr decode_base64 conf ≡ ok c
        → (wg : Wg noise) × (public : Bytes) × (wg_of noise decode_base64 public_of c now ≡ ok wg)
          × (decode_key decode_base64 c.peer_public_key ≡ ok public)
          × (keys noise wg.peers ≡ public ∷ [])
          × IsIndexed noise wg
    unfolding wg_of
    wg_of-parsed conf c now parsed =
        let (s, read, fits) = parse_conf-Fits ops cidr decode_base64 conf c parsed in
        let (private, e₁) = fits.private_key-IsKey in
        let (public, e₂) = fits.public_key-IsKey in
        let (psk, e₃) = psk-ok c.preshared_key fits.preshared_key-IsKey in
        let (wg, e₄, ks, v) = fresh private now public psk c.keepalive in
        (wg, public, rw (e₁, e₂, e₃, e₄) refl, e₂, ks, v)
