-- ===== src/ClientWin/Names.antt =====
-- crates/client-win/src-tauri/src/main.rs: the ring of log lines, and the file name of a profile.
pub mod Slugs
use wg_wrapper.Base.{
  ℕ, ◌+◌, ◌≤◌, Bool, Bool-cases, ◌||◌, List, [], ◌∷◌, ◌++◌, map, arith, inl, inr, length,
  length-append, leb, ◌==◌, between, if◌then◌else◌,
}
use wg_wrapper.Text.{Text, codes, trim_start_matches, trim_end_matches}

abbrev log_keep : ℕ
log_keep = 200

-- The loop that drops the oldest lines of a full ring.
make_room : List Text → List Text
make_room [] = []
make_room (l ∷ buf) =
    let rest = make_room buf in if leb log_keep (length (l ∷ buf)) then rest else l ∷ buf

unfoldable pub push_log : Text → List Text → List Text
unfolding make_room
push_log line buf = make_room buf ++ line ∷ []

length-make_room : (buf : List Text) → length (make_room buf) + 1 ≤ log_keep
unfolding make_room
length-make_room [] = omega arith
length-make_room (l ∷ buf) = elim (Bool-cases (leb log_keep (length (l ∷ buf)))) [
  | inl full ↦ rw full (length-make_room buf)
  | inr free ↦ rw free ground arith
]

-- The ring never holds more than 200 lines.
pub length-push_log : (line : Text) (buf : List Text) → length (push_log line buf) ≤ log_keep
unfolding push_log
length-push_log line buf =
    omega (arith, length-append (make_room buf) (line ∷ []), length-make_room buf)

is_upper : ℕ → Bool
is_upper c = between b'A' b'Z' c

-- char::is_ascii_alphanumeric, char::to_ascii_lowercase
slug_char : ℕ → ℕ
unfolding is_upper
slug_char c =
    if is_upper c then c + 32 else if between b'a' b'z' c || between b'0' b'9' c then c else b'-'

name_or_default : Text → Text
name_or_default [] = codes "profile"
name_or_default (c ∷ s) = c ∷ s

unfoldable pub slug : Text → Text
unfolding slug_char name_or_default
slug name =
    name_or_default
      (trim_end_matches (λ c. c == b'-') (trim_start_matches (λ c. c == b'-') (map slug_char name)))
