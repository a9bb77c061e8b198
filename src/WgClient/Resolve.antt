-- ===== src/WgClient/Resolve.antt =====
-- crates/wgclient/src/lib.rs: `resolve_endpoint`. The resolver is an argument: `none` stands for
-- an error, a list for the addresses found.
pub mod Urls
pub mod Schemes
pub mod Parsed
use wg_wrapper.Base.{
  ℕ, Bool, true, false, not, List, [], ◌∷◌, Option, none, some, head?, ◌||◌, ◌==◌, if◌then◌else◌,
  bytes_eq, Result, ok, err, ◌>>=◌, ◌>>◌, ensure, ok_or,
}
use wg_wrapper.Addr.{SocketAddr}
use wg_wrapper.Text.{Text, codes, strip_prefix, split_once, rsplit_once, parse_u16}
use wg_wrapper.Text.Pieces.{to_ascii_lowercase, is_empty, first_piece}
use wg_wrapper.WgClient.{Endpoint, udp, udp_host, ws}

pub data ResolveError : Type 0 where
  not_resolved resolved_to_nothing : Text → ResolveError
  not_a_url unterminated_host bad_port no_host : ResolveError
  unsupported_scheme : Text → ResolveError

abbrev pub scheme_here : ℕ → Option Text → Option (Text × Text) → Option (Text × Text)
scheme_here c (some rest) later = some ([], rest)
scheme_here c none none = none
scheme_here c none (some (scheme, rest)) = some (c ∷ scheme, rest)

-- str::split_once at "://"
unfoldable pub split_scheme : Text → Option (Text × Text)
unfolding strip_prefix
split_scheme [] = none
split_scheme (c ∷ s) = scheme_here c (strip_prefix (codes "://") (c ∷ s)) (split_scheme s)

unfoldable pub default_port : Text → Result ResolveError ℕ
unfolding bytes_eq
default_port scheme =
    if bytes_eq scheme (codes "wss")
    then ok 443
    else if bytes_eq scheme (codes "ws")
    then ok 80
    else err (unsupported_scheme scheme)

-- the end of an authority
abbrev pub ends_authority : ℕ → Bool
ends_authority c = c == b'/' || c == b'?' || c == b'#'

-- map_or(authority, |(_, h)| h)
abbrev pub without_user : Text → Option (Text × Text) → Text
without_user authority none = authority
without_user authority (some (_, h)) = h

-- transpose()?.unwrap_or(default), on the port behind a bracket
abbrev pub bracket_port : ℕ → Option Text → Result ResolveError ℕ
bracket_port default none = ok default
bracket_port default (some p) = ok_or (parse_u16 p) bad_port

abbrev pub plain_host : Text → ℕ → Option (Text × Text) → Result ResolveError (Text × ℕ)
plain_host authority default none = ok (authority, default)
plain_host authority default (some (h, p)) = do port ← ok_or (parse_u16 p) bad_port; ok (h, port)

-- The match on the opening bracket of an IPv6 host.
unfoldable pub host_port : Text → ℕ → Option Text → Result ResolveError (Text × ℕ)
unfolding strip_prefix
host_port authority default none = plain_host authority default (rsplit_once b':' authority)
host_port authority default (some r) = do
  (h, tail) ← ok_or (split_once b']' r) unterminated_host
  port ← bracket_port default (strip_prefix (codes ":") tail)
  ok (h, port)

-- the first address found, if any
abbrev pub first_found : Text → Option (List SocketAddr) → Result ResolveError SocketAddr
first_found host none = err (not_resolved host)
first_found host (some found) = ok_or (head? found) (resolved_to_nothing host)

-- The authority without the user's part.
abbrev pub server_of : Text → Text
server_of authority = without_user authority (rsplit_once b'@' authority)

unfoldable pub host_of_authority : Text → ℕ → Result ResolveError (Text × ℕ)
unfolding host_port strip_prefix rsplit_once
host_of_authority authority default =
    host_port (server_of authority) default (strip_prefix (codes "[") (server_of authority))

-- The host and the port that a url names.
unfoldable pub url_target : Text → Result ResolveError (Text × ℕ)
unfolding split_scheme default_port host_of_authority first_piece
url_target url = do
  (scheme, rest) ← ok_or (split_scheme url) not_a_url
  default ← default_port (to_ascii_lowercase scheme)
  (host, port) ← host_of_authority (first_piece ends_authority rest rest) default
  ensure (not (is_empty host)) no_host
  ok (host, port)

module _ (lookup_text : Text → Option (List SocketAddr)) where
  module _ (lookup_host : Text → ℕ → Option (List SocketAddr)) where
    unfoldable pub resolve_endpoint : Endpoint → Result ResolveError SocketAddr
    unfolding url_target
    resolve_endpoint (udp a) = ok a
    resolve_endpoint (udp_host h) = first_found h (lookup_text h)
    resolve_endpoint (ws url _) = do
      (host, port) ← url_target url
      first_found host (lookup_host host port)
