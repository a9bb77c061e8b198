-- ===== src/WgClient/Resolve/Urls.antt =====
-- Urls put together from their parts, and the host and port that are read back.
use mathlib.Core.List.{append_assoc}
use wg_wrapper.Base.{
  ℕ, ◌≡◌, refl, ap, ◌∙◌, false, [], ◌∷◌, ◌++◌, Option, none, some, All-append, arith, ◌==◌, ok,
  if◌then◌else◌,
}
use wg_wrapper.Text.{Text, codes, strip_prefix, parse_u16}
use wg_wrapper.Text.Split.{
  Lacks, Lacks-append, split_once-append, rsplit_once-append, rsplit_once-none,
}
use wg_wrapper.Text.Pieces.{to_ascii_lowercase, is_empty}
use wg_wrapper.Text.Pieces.Whole.{Free, EndsAt, first_piece-append}
use wg_wrapper.WgClient.Resolve.{
  scheme_here, split_scheme, default_port, ends_authority, server_of, host_port, host_of_authority,
  url_target,
}

-- The ways to write a server: a number behind a colon, an IPv6 address in brackets.
pub data Server : Type 0 where
  plain bracketed : (host : Text) → Server
  plain_port bracketed_port : (host port : Text) (number : ℕ) → Server

abbrev pub server_text : Server → Text
server_text (plain h) = h
server_text (plain_port h p n) = h ++ b':' ∷ p
server_text (bracketed h) = b'[' ∷ h ++ b']' ∷ []
server_text (bracketed_port h p n) = b'[' ∷ h ++ b']' ∷ b':' ∷ p

-- host, and port or the default of the scheme
abbrev pub target : ℕ → Server → Text × ℕ
target default (plain h) = (h, default)
target default (plain_port h p n) = (h, n)
target default (bracketed h) = (h, default)
target default (bracketed_port h p n) = (h, n)

-- nothing that ends an authority, and no `@`
abbrev pub Clean : Text → Type 0
Clean s = Free ends_authority s × Lacks b'@' s

abbrev pub IsPlain : Text → Type 0
IsPlain h = (is_empty h ≡ false) × (strip_prefix (codes "[") h ≡ none) × Clean h

abbrev pub IsBracketed : Text → Type 0
IsBracketed h = (is_empty h ≡ false) × Lacks b']' h × Clean h

abbrev pub IsPort : Text → ℕ → Type 0
IsPort p n = (parse_u16 p ≡ some n) × Clean p

abbrev pub IsServer : Server → Type 0
IsServer (plain h) = IsPlain h × Lacks b':' h
IsServer (plain_port h p n) = IsPlain h × IsPort p n × Lacks b':' p
IsServer (bracketed h) = IsBracketed h
IsServer (bracketed_port h p n) = IsBracketed h × IsPort p n

Clean-append : (s t : Text) → Clean s → Clean t → Clean (s ++ t)
Clean-append s t hs ht = (All-append _ s t hs.0 ht.0, Lacks-append b'@' s t hs.1 ht.1)

server_text-Clean : (a : Server) → IsServer a → Clean (server_text a)
server_text-Clean (plain h) v = v.0.2
server_text-Clean (plain_port h p n) v =
    Clean-append h (b':' ∷ p) v.0.2 ((refl, v.1.1.0), (refl, v.1.1.1))
server_text-Clean (bracketed h) v =
    Clean-append (b'[' ∷ h) (b']' ∷ []) ((refl, v.2.0), (refl, v.2.1)) ((refl, tt), (refl, tt))
server_text-Clean (bracketed_port h p n) v =
    Clean-append (b'[' ∷ h) (b']' ∷ b':' ∷ p) ((refl, v.0.2.0), (refl, v.0.2.1))
      ((refl, (refl, v.1.1.0)), (refl, (refl, v.1.1.1)))

no_bracket :
    (h t : Text)
    → is_empty h ≡ false
    → strip_prefix (codes "[") h ≡ none
    → strip_prefix (codes "[") (h ++ t) ≡ none
unfolding strip_prefix
no_bracket [] t e h = cc
no_bracket (c ∷ s) t e h = ground arith

host_port-server :
    (d : ℕ) (a : Server)
    → IsServer a
    → host_port (server_text a) d (strip_prefix (codes "[") (server_text a)) ≡ ok (target d a)
unfolding host_port
host_port-server d (plain h) v = rw (v.0.1, rsplit_once-none b':' h v.1)
host_port-server d (plain_port h p n) v =
    rw (no_bracket h (b':' ∷ p) v.0.0 v.0.1, rsplit_once-append b':' h p v.2, v.1.0)
host_port-server d (bracketed h) v = rw (split_once-append b']' h [] v.1) refl
host_port-server d (bracketed_port h p n) v =
    rw (split_once-append b']' h (b':' ∷ p) v.0.1, v.1.0) refl

some_host : (d : ℕ) (a : Server) → IsServer a → is_empty (target d a).0 ≡ false
some_host d (plain h) v = v.0.0
some_host d (plain_port h p n) v = v.0.0
some_host d (bracketed h) v = v.0
some_host d (bracketed_port h p n) v = v.0.0

-- the user's part with its `@`
abbrev pub user_text : Option Text → Text
user_text none = []
user_text (some u) = u ++ b'@' ∷ []

abbrev pub IsUser : Option Text → Type 0
IsUser none = Unit
IsUser (some u) = Free ends_authority u

server_of-user : (u : Option Text) (s : Text) → Lacks b'@' s → server_of (user_text u ++ s) ≡ s
server_of-user none s h = rw (rsplit_once-none b'@' s h)
server_of-user (some u) s h = ap server_of (append_assoc u (b'@' ∷ []) s) ∙ behind u s h
  where
    behind : (u s : Text) → Lacks b'@' s → server_of (u ++ b'@' ∷ s) ≡ s
    behind u s h = rw (rsplit_once-append b'@' u s h)

user_text-Free : (u : Option Text) → IsUser u → Free ends_authority (user_text u)
user_text-Free none h = tt
user_text-Free (some u) h = All-append _ u (b'@' ∷ []) h (refl, tt)

pub split_scheme-append :
    (s r : Text) → Lacks b':' s → split_scheme (s ++ (codes "://" ++ r)) ≡ some (s, r)
unfolding split_scheme strip_prefix
split_scheme-append [] r h = refl
split_scheme-append (c ∷ s) r h =
    elsewhere c (s ++ (codes "://" ++ r)) s r h.0 (split_scheme-append s r h.1)
  where
    other : (c : ℕ) (t : Text) → (c == b':') ≡ false → (b':' == c) ≡ false
    other c t h = ground arith

    elsewhere :
        (c : ℕ) (t s r : Text)
        → (c == b':') ≡ false
        → split_scheme t ≡ some (s, r)
        → scheme_here c (if b':' == c then strip_prefix (codes "//") t else none) (split_scheme t)
          ≡ some (c ∷ s, r)
    elsewhere c t s r h e = rw (other c t h, e) refl

-- A url of a known scheme leads to the server it names, at the port it names or the default of
-- the scheme, whatever user, path, query or fragment it has.
pub url_target-server :
    (scheme : Text) (default : ℕ) (user : Option Text) (a : Server) (rest : Text)
    → Lacks b':' scheme
    → default_port (to_ascii_lowercase scheme) ≡ ok default
    → IsUser user
    → IsServer a
    → EndsAt ends_authority rest
    → url_target (scheme ++ (codes "://" ++ (user_text user ++ server_text a ++ rest)))
      ≡ ok (target default a)
unfolding url_target host_of_authority
url_target-server scheme default user a rest hs hd hu ha hr =
    let whole = user_text user ++ server_text a in
    rw (
      split_scheme-append scheme (whole ++ rest) hs,
      hd,
      first_piece-append ends_authority (whole ++ rest) whole rest
          (All-append _ (user_text user) (server_text a) (user_text-Free user hu)
            (server_text-Clean a ha).0)
          hr,
      server_of-user user (server_text a) (server_text-Clean a ha).1,
      host_port-server default a ha,
      some_host default a ha,
    )
