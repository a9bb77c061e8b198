-- ===== src/WgClient/Resolve/Parsed.antt =====
-- A WebSocket endpoint that `parse_conf` accepts resolves without an error on its scheme.
use wg_wrapper.Base.{
  ℕ, ◌≡◌, subst, Bool, true, false, List, Bytes, Option, none, some, Result, ok, err, ◌>>=◌, ok_or,
  ensure, not, head?,
}
use wg_wrapper.IpNet.{NetOps, NetText}
use wg_wrapper.Addr.{SocketAddr}
use wg_wrapper.Text.{Text, codes, strip_prefix, split_once, rsplit_once, parse_u16}
use wg_wrapper.Text.Pieces.{is_empty, first_piece}
use wg_wrapper.WgClient.{ClientConfig, Endpoint, ws, udp, udp_host}
use wg_wrapper.WgClient.Conf.{parse_conf}
use wg_wrapper.WgClient.Conf.Fits.{EndpointFits, parse_conf-Fits}
use wg_wrapper.WgClient.Resolve.Schemes.{KnownScheme, is_ws-KnownScheme}
use wg_wrapper.WgClient.Resolve.{
  ResolveError, not_a_url, unsupported_scheme, host_of_authority, url_target, host_port, plain_host,
  bracket_port, first_found, resolve_endpoint, ends_authority, server_of, bad_port,
  unterminated_host, no_host, resolved_to_nothing,
}

-- the errors on the scheme
abbrev pub IsSchemeError : ResolveError → Type 0
IsSchemeError not_a_url = Unit
IsSchemeError (unsupported_scheme s) = Unit
IsSchemeError _ = ⊥

-- no error on the scheme
abbrev Settled {ℓ} : {A : Type ℓ} → Result ResolveError A → Type 0
Settled (ok a) = Unit
Settled (err e) = ¬ IsSchemeError e

Settled->>= {ℓ κ} :
    {A : Type ℓ} {B : Type κ} (r : Result ResolveError A) (next : A → Result ResolveError B)
    → Settled r
    → ((a : A) → Settled (next a))
    → Settled (r >>= next)
Settled->>= (ok a) next h f = f a
Settled->>= (err e) next h f = h

ok_or-Settled {ℓ} :
    {A : Type ℓ} (o : Option A) (e : ResolveError) → ¬ IsSchemeError e → Settled (ok_or o e)
ok_or-Settled none e h = h
ok_or-Settled (some a) e h = tt

ensure-Settled : (b : Bool) (e : ResolveError) → ¬ IsSchemeError e → Settled (ensure b e)
ensure-Settled true e h = tt
ensure-Settled false e h = h

bracket_port-Settled : (default : ℕ) (o : Option Text) → Settled (bracket_port default o)
bracket_port-Settled default none = tt
bracket_port-Settled default (some p) = ok_or-Settled (parse_u16 p) bad_port (λ h. h)

plain_host-Settled :
    (a : Text) (default : ℕ) (o : Option (Text × Text)) → Settled (plain_host a default o)
plain_host-Settled a default none = tt
plain_host-Settled a default (some (h, p)) =
    Settled->>= (ok_or (parse_u16 p) bad_port) _ (ok_or-Settled (parse_u16 p) bad_port (λ h. h))
      (λ port. tt)

host_port-Settled : (a : Text) (default : ℕ) (o : Option Text) → Settled (host_port a default o)
unfolding host_port
host_port-Settled a default none = plain_host-Settled a default (rsplit_once b':' a)
host_port-Settled a default (some r) =
    Settled->>= (ok_or (split_once b']' r) unterminated_host) _
      (ok_or-Settled (split_once b']' r) unterminated_host (λ h. h))
      (λ (h, tail).
        Settled->>= (bracket_port default (strip_prefix (codes ":") tail)) _
          (bracket_port-Settled default (strip_prefix (codes ":") tail)) (λ port. tt))

url_target-Settled : (url : Text) → KnownScheme url → Settled (url_target url)
unfolding url_target host_of_authority
url_target-Settled url k =
    rw (k.split, k.known)
      (Settled->>= (host_of_authority (first_piece ends_authority k.rest k.rest) k.default) _
        (host_port-Settled (server_of (first_piece ends_authority k.rest k.rest)) k.default
          (strip_prefix (codes "[") (server_of (first_piece ends_authority k.rest k.rest))))
        (λ (host, port).
          Settled->>= (ensure (not (is_empty host)) no_host) _
            (ensure-Settled (not (is_empty host)) no_host (λ h. h)) (λ u. tt)))

first_found-Settled : (host : Text) (o : Option (List SocketAddr)) → Settled (first_found host o)
first_found-Settled host none = λ h. h
first_found-Settled host (some found) =
    ok_or-Settled (head? found) (resolved_to_nothing host) (λ h. h)

module _ (lookup_text : Text → Option (List SocketAddr))
    (lookup_host : Text → ℕ → Option (List SocketAddr)) where
  resolve-Settled :
      (raw : Text) (flag : Bool) (e : Endpoint)
      → EndpointFits raw flag e
      → Settled (resolve_endpoint lookup_text lookup_host e)
  unfolding resolve_endpoint
  resolve-Settled raw flag (udp a) h = tt
  resolve-Settled raw flag (udp_host h) v = first_found-Settled h (lookup_text h)
  resolve-Settled raw flag (ws url i) v =
      Settled->>= (url_target url) _ (url_target-Settled url (is_ws-KnownScheme url v.2))
        (λ (host, port). first_found-Settled host (lookup_host host port))

  module _ (ops : NetOps) (cidr : NetText ops) (decode_base64 : Text → Option Bytes) where
    -- Resolving the endpoint of a configuration that `parse_conf` returned never fails on the
    -- scheme of the url, whatever the resolver answers.
    pub resolve_endpoint-parsed :
        (conf : Text) (c : ClientConfig ops.Net) (e : ResolveError)
        → parse_conf ops cidr decode_base64 conf ≡ ok c
        → resolve_endpoint lookup_text lookup_host c.endpoint ≡ err e
        → ¬ IsSchemeError e
    resolve_endpoint-parsed conf c e parsed failed =
        let (s, read, fits) = parse_conf-Fits ops cidr decode_base64 conf c parsed in
        let (raw, given, v) = fits.endpoint in
        subst Settled failed (resolve-Settled raw _ c.endpoint v)
