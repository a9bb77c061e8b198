-- ===== src/Tests/Stored.antt =====
-- Profiles that are saved, and two names that share a file.
use wg_wrapper.Base.{
  ◌≡◌, refl, sym, ap, ◌∙◌, [], ◌∷◌, ◌++◌, length, take, drop, take-length_append,
  drop-length_append, Option, none, some, Result, ok, ok-eq,
}
use wg_wrapper.ClientWin.Profiles.{Profile, Files, list_profiles, save_profile}
use wg_wrapper.ClientWin.Profiles.Saved.{Saved, save_profile-Saved}
use wg_wrapper.Text.{Text, codes, trim}
use wg_wrapper.Text.Pieces.{to_ascii_lowercase}

-- a printed profile: the length of the name in front of the name and the configuration
abbrev to_string : Profile → Result Text Text
to_string p = ok (length p.name ∷ p.name ++ p.conf)

abbrev from_str : Text → Option Profile
from_str [] = none
from_str (n ∷ s) = some (record { name = take n s; conf = drop n s })

reads : (p : Profile) (body : Text) → to_string p ≡ ok body → from_str body ≡ some p
reads p body e =
    ap from_str (sym (ok-eq e))
    ∙ ap (λ n. some (record { name = n; conf = drop (length p.name) (p.name ++ p.conf) }))
        (take-length_append p.name p.conf)
    ∙ ap (λ c. some (record { name = p.name; conf = c })) (drop-length_append p.name p.conf)

abbrev work : Files
work = (codes "work.json", some (4 ∷ codes "WorkC")) ∷ []

abbrev after : Files
after = (save_profile to_string (ok tt) none (codes " Home 1 ") (codes "conf") work).1

saves : save_profile to_string (ok tt) none (codes " Home 1 ") (codes "conf") work ≡ (ok tt, after)
unfolding save_profile wg_wrapper.ClientWin.Profiles.write wg_wrapper.Text.trim
saves = refl

save_profile-Saved_example :
    Saved to_string from_str to_ascii_lowercase reads
      (record { name = trim (codes " Home 1 "); conf = codes "conf" })
      work
      after
save_profile-Saved_example =
    save_profile-Saved to_string from_str to_ascii_lowercase reads (ok tt) (codes " Home 1 ")
      (codes "conf") work after saves

abbrev replaced : Files
replaced = (save_profile to_string (ok tt) none (codes "home-1") (codes "other") after).1

-- Two names with one file: the second profile replaces the first.
shared_file_is_replaced :
    list_profiles from_str to_ascii_lowercase (ok tt) replaced
    ≡ ok (
        record { name = codes "home-1"; conf = codes "other" }
        ∷ record { name = codes "Work"; conf = codes "C" }
        ∷ [])
unfolding list_profiles save_profile
shared_file_is_replaced = refl
