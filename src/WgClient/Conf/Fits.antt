-- ===== src/WgClient/Conf/Fits.antt =====
-- What a configuration has that `parse_conf` returns.
use wg_wrapper.Base.{
  ℕ, ◌<◌, ◌≤◌, ◌≡◌, refl, Bool, true, false, not, ◌||◌, List, [], ◌∷◌, Bytes, Option, none, some,
  ltb, ltb→lt, if◌then◌else◌, if-cases, Bool-cases, inl, inr, ok, >>=-eq-ok, ensure, ensure-eq-ok,
  ok_or, ok_or-eq-ok, ok-eq, done-eq-ok, subst, sym,
}
use wg_wrapper.Addr.{SocketAddr}
use wg_wrapper.Addr.Parse.{parse_socket}
use wg_wrapper.Config.Accepts.{IsKey, Whenever}
use wg_wrapper.IpNet.{NetOps, NetText}
use wg_wrapper.Keys.{decode_key}
use wg_wrapper.Text.{Text, codes, rsplit_once, parse_u16}
use wg_wrapper.Text.Numbers.{from_str_radix-Bounded}
use wg_wrapper.Text.Pieces.{to_ascii_lowercase, is_empty, lines}
use wg_wrapper.WgClient.{ClientConfig, Endpoint, udp, udp_host, ws}
use wg_wrapper.WgClient.Conf.{
  get, Sections, read_lines, no_sections, is_ws, is_none, udp_endpoint, parse_endpoint,
  insecure_tls, default_mtu, parse_mtu, parse_keepalive, parse_dns, parse_address,
  parse_allowed_ips, check_key, check_psk, config_of, parse_conf, bad_private_key, bad_public_key,
  bad_preshared_key, bad_mtu, bad_keepalive, bad_endpoint, no_private_key, no_public_key,
  no_address, no_endpoint,
}

-- a WebSocket url, an address, or a host and a port behind the last colon
abbrev pub EndpointFits : Text → Bool → Endpoint → Type 0
EndpointFits raw flag (ws url insecure) =
    (url ≡ raw) × (insecure ≡ flag) × (is_ws (to_ascii_lowercase url) ≡ true)
EndpointFits raw flag (udp a) = parse_socket raw ≡ some a
EndpointFits raw flag (udp_host h) =
    (h ≡ raw)
    × ((host : Text) × (port : Text) × (p : ℕ) × (rsplit_once b':' h ≡ some (host, port))
        × (is_empty host ≡ false)
        × (parse_u16 port ≡ some p))

udp_endpoint-Fits :
    (raw : Text) (flag : Bool) (o : Option SocketAddr) (e : Endpoint)
    → parse_socket raw ≡ o
    → udp_endpoint raw o ≡ ok e
    → EndpointFits raw flag e
unfolding udp_endpoint
udp_endpoint-Fits raw flag (some a) e same h = subst (EndpointFits raw flag) (ok-eq h) same
udp_endpoint-Fits raw flag none e same h =
    let ((host, port), split, h₁) =
      >>=-eq-ok (ok_or (rsplit_once b':' raw) (bad_endpoint raw)) _ h in
    let (_, good, h₂) =
      >>=-eq-ok (ensure (not (is_empty host || is_none (parse_u16 port))) (bad_endpoint raw)) _
        h₁ in
    let (some_host, (p, number)) =
      parts host (parse_u16 port) (ensure-eq-ok _ (bad_endpoint raw) good) in
    subst (EndpointFits raw flag) (ok-eq h₂)
      (refl, (host, port, p, ok_or-eq-ok _ (bad_endpoint raw) split, some_host, number))
  where
    parts :
        (host : Text) (o : Option ℕ)
        → not (is_empty host || is_none o) ≡ true
        → (is_empty host ≡ false) × ((p : ℕ) × (o ≡ some p))
    parts [] o g = cc
    parts (c ∷ host) none g = cc
    parts (c ∷ host) (some p) g = (refl, (p, refl))

parse_endpoint-Fits :
    (raw : Text) (flag : Bool) (e : Endpoint)
    → parse_endpoint raw flag ≡ ok e
    → EndpointFits raw flag e
unfolding parse_endpoint
parse_endpoint-Fits raw flag e h =
    elim (if-cases (λ r. r ≡ ok e) (is_ws (to_ascii_lowercase raw)) h) [
      | inl (t, h) ↦ subst (EndpointFits raw flag) (ok-eq h) (refl, refl, t)
      | inr (f, h) ↦ udp_endpoint-Fits raw flag (parse_socket raw) e refl h
    ]

-- the number given, or the default of the transport
abbrev pub MtuFits : Endpoint → ℕ → Option Text → Type 0
MtuFits e mtu none = mtu ≡ default_mtu e
MtuFits e mtu (some m) = (parse_u16 m ≡ some mtu) × (mtu ≤ 0xffff)

parse_mtu-Fits :
    (e : Endpoint) (o : Option Text) (mtu : ℕ) → parse_mtu e o ≡ ok mtu → MtuFits e mtu o
unfolding parse_mtu
parse_mtu-Fits e none mtu h = sym (ok-eq h)
parse_mtu-Fits e (some m) mtu h =
    let number = ok_or-eq-ok (parse_u16 m) bad_mtu h in
    (number, from_str_radix-Bounded 10 0xffff m mtu number)

abbrev pub IsKeepalive : ℕ → Type 0
IsKeepalive k = (0 < k) × (k ≤ 0xffff)

positive : (n : ℕ) → n ≤ 0xffff → Whenever IsKeepalive (if ltb 0 n then some n else none)
positive n h = elim (Bool-cases (ltb 0 n)) [ inl t ↦ rw t (ltb→lt 0 n t, h) | inr f ↦ rw f tt ]

parse_keepalive-Fits :
    (o : Option Text) (r : Option ℕ) → parse_keepalive o ≡ ok r → Whenever IsKeepalive r
unfolding parse_keepalive
parse_keepalive-Fits none r h = subst (Whenever IsKeepalive) (ok-eq h) tt
parse_keepalive-Fits (some s) r h =
    let (n, number, h₁) = >>=-eq-ok (ok_or (parse_u16 s) bad_keepalive) _ h in
    subst (Whenever IsKeepalive) (ok-eq h₁)
      (positive n (from_str_radix-Bounded 10 0xffff s n (ok_or-eq-ok _ bad_keepalive number)))

module _ (ops : NetOps) (cidr : NetText ops) (decode_base64 : Text → Option Bytes) where
  open ops use {Net}

  -- A configuration against the assignments of the two sections.
  pub record Fits (iface peer : List (Text × Text)) (c : ClientConfig Net) : Type 0 where
    pub private_key : get (codes "privatekey") iface ≡ some c.private_key
    pub private_key-IsKey : IsKey ops decode_base64 c.private_key
    pub public_key : get (codes "publickey") peer ≡ some c.peer_public_key
    pub public_key-IsKey : IsKey ops decode_base64 c.peer_public_key
    pub preshared_key : get (codes "presharedkey") peer ≡ c.preshared_key
    pub preshared_key-IsKey : Whenever (IsKey ops decode_base64) c.preshared_key
    pub address :
        (a : Text) × (get (codes "address") iface ≡ some a)
        × (parse_address ops cidr a ≡ ok c.address)
    pub dns : c.dns ≡ parse_dns (get (codes "dns") iface)
    pub allowed_ips : parse_allowed_ips ops cidr (get (codes "allowedips") peer) ≡ ok c.allowed_ips
    pub endpoint :
        (raw : Text) × (get (codes "endpoint") peer ≡ some raw)
        × EndpointFits raw (insecure_tls (get (codes "insecuretls") peer)) c.endpoint
    pub mtu : MtuFits c.endpoint c.mtu (get (codes "mtu") iface)
    pub keepalive : Whenever IsKeepalive c.keepalive

  check_psk_sound :
      (o : Option Text)
      → check_psk ops cidr decode_base64 o ≡ ok tt
      → Whenever (IsKey ops decode_base64) o
  unfolding check_psk check_key
  check_psk_sound none h = tt
  check_psk_sound (some psk) h = done-eq-ok bad_preshared_key (decode_key decode_base64 psk) h

  pub config_of-Fits :
      (iface peer : List (Text × Text)) (c : ClientConfig Net)
      → config_of ops cidr decode_base64 iface peer ≡ ok c
      → Fits iface peer c
  unfolding config_of check_key
  config_of-Fits iface peer c h =
      let (private, e₁, h₁) =
        >>=-eq-ok (ok_or (get (codes "privatekey") iface) no_private_key) _ h in
      let (_, k₁, h₂) = >>=-eq-ok (check_key ops cidr decode_base64 bad_private_key private) _ h₁ in
      let (public, e₂, h₃) = >>=-eq-ok (ok_or (get (codes "publickey") peer) no_public_key) _ h₂ in
      let (_, k₂, h₄) = >>=-eq-ok (check_key ops cidr decode_base64 bad_public_key public) _ h₃ in
      let (_, k₃, h₅) =
        >>=-eq-ok (check_psk ops cidr decode_base64 (get (codes "presharedkey") peer)) _ h₄ in
      let (a, e₃, h₆) = >>=-eq-ok (ok_or (get (codes "address") iface) no_address) _ h₅ in
      let (net, e₄, h₇) = >>=-eq-ok (parse_address ops cidr a) _ h₆ in
      let (nets, e₅, h₈) =
        >>=-eq-ok (parse_allowed_ips ops cidr (get (codes "allowedips") peer)) _ h₇ in
      let (raw, e₆, h₉) = >>=-eq-ok (ok_or (get (codes "endpoint") peer) no_endpoint) _ h₈ in
      let (e, e₇, g₁) =
        >>=-eq-ok (parse_endpoint raw (insecure_tls (get (codes "insecuretls") peer))) _ h₉ in
      let (mtu, e₈, g₂) = >>=-eq-ok (parse_mtu e (get (codes "mtu") iface)) _ g₁ in
      let (k, e₉, g₃) = >>=-eq-ok (parse_keepalive (get (codes "persistentkeepalive") peer)) _ g₂ in
      subst (Fits iface peer) (ok-eq g₃) (record {
        private_key = ok_or-eq-ok _ no_private_key e₁;
        private_key-IsKey = done-eq-ok bad_private_key (decode_key decode_base64 private) k₁;
        public_key = ok_or-eq-ok _ no_public_key e₂;
        public_key-IsKey = done-eq-ok bad_public_key (decode_key decode_base64 public) k₂;
        preshared_key = refl;
        preshared_key-IsKey = check_psk_sound _ k₃;
        address = (a, ok_or-eq-ok _ no_address e₃, e₄);
        dns = refl;
        allowed_ips = e₅;
        endpoint = (raw, ok_or-eq-ok _ no_endpoint e₆, parse_endpoint-Fits raw _ e e₇);
        mtu = parse_mtu-Fits e _ mtu e₈;
        keepalive = parse_keepalive-Fits _ k e₉;
      })

  -- `parse_conf` returns a configuration only if the four required keys are given; its keys then
  -- decode, its endpoint is a WebSocket url, an address or a host with a port, its MTU is the one
  -- given or the default of the transport, and a keepalive is a positive 16-bit number.
  pub parse_conf-Fits :
      (conf : Text) (c : ClientConfig Net)
      → parse_conf ops cidr decode_base64 conf ≡ ok c
      → (s : Sections) × (read_lines no_sections (lines conf) ≡ ok s) × Fits s.iface s.peer c
  unfolding parse_conf
  parse_conf-Fits conf c h =
      let (s, read, h₁) = >>=-eq-ok (read_lines no_sections (lines conf)) _ h in
      (s, read, config_of-Fits s.iface s.peer c h₁)
