-- ===== src/WgClient/Resolve/Schemes.antt =====
-- A text that `parse_conf` takes for a WebSocket url has a scheme that `resolve_endpoint` knows.
use wg_wrapper.Base.{
  ℕ, ◌≡◌, ◌⊎◌, inl, inr, refl, sym, ap, ◌∙◌, Bool, true, false, ◌||◌, [], ◌∷◌, ◌++◌, Option, none,
  some, some-eq, arith, ◌==◌, if◌then◌else◌, ok,
}
use wg_wrapper.Text.{Text, codes, strip_prefix}
use wg_wrapper.Text.Split.{strip_prefix_sound}
use wg_wrapper.Text.Pieces.{to_ascii_lowercase, lower_char, starts_with}
use wg_wrapper.Text.Pieces.Whole.{starts_with_sound}
use wg_wrapper.WgClient.Conf.{is_ws}
use wg_wrapper.WgClient.Resolve.Urls.{split_scheme-append}
use wg_wrapper.WgClient.Resolve.{scheme_here, split_scheme, default_port}

abbrev lower_text : Option Text → Option Text
lower_text none = none
lower_text (some s) = some (to_ascii_lowercase s)

abbrev lower_both : Option (Text × Text) → Option (Text × Text)
lower_both none = none
lower_both (some (s, t)) = some (to_ascii_lowercase s, to_ascii_lowercase t)

-- Lower-casing makes neither a colon nor a slash.
lower_colon : (c : ℕ) → (b':' == lower_char c) ≡ (b':' == c)
lower_colon c = ground arith

lower_slash : (c : ℕ) → (b'/' == lower_char c) ≡ (b'/' == c)
lower_slash c = ground arith

strip_slashes-lower :
    (s : Text)
    → strip_prefix (codes "//") (to_ascii_lowercase s) ≡ lower_text (strip_prefix (codes "//") s)
unfolding strip_prefix
strip_slashes-lower [] = refl
strip_slashes-lower (c ∷ []) = rw (lower_slash c) (two (b'/' == c))
  where
    two :
        (b : Bool)
        → ◌≡◌ {A = Option Text} (if b then none else none) (lower_text (if b then none else none))
    two true = refl
    two false = refl
strip_slashes-lower (c ∷ d ∷ s) = rw (lower_slash c, lower_slash d) (both (b'/' == c) (b'/' == d))
  where
    both :
        (a b : Bool)
        → (if a then (if b then some (to_ascii_lowercase s) else none) else none)
          ≡ lower_text (if a then (if b then some s else none) else none)
    both true true = refl
    both true false = refl
    both false b = refl

strip_scheme-lower :
    (s : Text)
    → strip_prefix (codes "://") (to_ascii_lowercase s) ≡ lower_text (strip_prefix (codes "://") s)
unfolding strip_prefix
strip_scheme-lower [] = refl
strip_scheme-lower (c ∷ s) = rw (lower_colon c) (
    ap (λ r. if b':' == c then r else none) (strip_slashes-lower s)
    ∙ inside (b':' == c) (strip_prefix (codes "//") s))
  where
    inside :
        (b : Bool) (o : Option Text)
        → (if b then lower_text o else none) ≡ lower_text (if b then o else none)
    inside true o = refl
    inside false o = refl

scheme_here-lower :
    (c : ℕ) (o : Option Text) (later : Option (Text × Text))
    → scheme_here (lower_char c) (lower_text o) (lower_both later)
      ≡ lower_both (scheme_here c o later)
scheme_here-lower c none none = refl
scheme_here-lower c none (some x) = refl
scheme_here-lower c (some s) later = refl

split_scheme-lower : (s : Text) → split_scheme (to_ascii_lowercase s) ≡ lower_both (split_scheme s)
unfolding split_scheme
split_scheme-lower [] = refl
split_scheme-lower (c ∷ s) =
    rw (strip_scheme-lower (c ∷ s), split_scheme-lower s)
      (scheme_here-lower c (strip_prefix (codes "://") (c ∷ s)) (split_scheme s))

-- a scheme whose lower-case form is known
pub record KnownScheme (url : Text) : Type 0 where
  pub scheme : Text
  pub rest : Text
  pub default : ℕ
  pub split : split_scheme url ≡ some (scheme, rest)
  pub known : default_port (to_ascii_lowercase scheme) ≡ ok default

known_lower :
    (o : Option (Text × Text)) (s r : Text)
    → lower_both o ≡ some (s, r)
    → (scheme : Text) × (rest : Text) × (o ≡ some (scheme, rest)) × (to_ascii_lowercase scheme ≡ s)
known_lower none s r h = cc
known_lower (some (scheme, rest)) s r h =
    (scheme, rest, refl, ap (λ (p : Text × Text). p.0) (some-eq h))

of_prefix :
    (url s r : Text) (default : ℕ)
    → split_scheme (to_ascii_lowercase url) ≡ some (s, r)
    → default_port s ≡ ok default
    → KnownScheme url
of_prefix url s r default e k =
    let (scheme, rest, split, same) =
      known_lower (split_scheme url) s r (sym (split_scheme-lower url) ∙ e) in
    record {
      scheme = scheme;
      rest = rest;
      default = default;
      split = split;
      known = ap default_port same ∙ k;
    }

or_true : (a b : Bool) → (a || b) ≡ true → (a ≡ true) ⊎ (b ≡ true)
or_true a b h = ground arith

pub is_ws-KnownScheme : (url : Text) → is_ws (to_ascii_lowercase url) ≡ true → KnownScheme url
unfolding default_port split_scheme
is_ws-KnownScheme url h =
    let lower = to_ascii_lowercase url in
    elim (or_true (starts_with (codes "wss://") lower) (starts_with (codes "ws://") lower) h) [
      | inl t ↦
          let (r, e) = starts_with_sound (codes "wss://") lower t in
          of_prefix url (codes "wss") r 443
            (ap split_scheme (strip_prefix_sound (codes "wss://") lower r e) ∙ wss r) refl
      | inr t ↦
          let (r, e) = starts_with_sound (codes "ws://") lower t in
          of_prefix url (codes "ws") r 80
            (ap split_scheme (strip_prefix_sound (codes "ws://") lower r e) ∙ plain r) refl
    ]
  where
    wss : (r : Text) → split_scheme (codes "wss://" ++ r) ≡ some (codes "wss", r)
    wss r = split_scheme-append (codes "wss") r (refl, (refl, (refl, tt)))

    plain : (r : Text) → split_scheme (codes "ws://" ++ r) ≡ some (codes "ws", r)
    plain r = split_scheme-append (codes "ws") r (refl, (refl, tt))
