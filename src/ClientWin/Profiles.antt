-- ===== src/ClientWin/Profiles.antt =====
-- crates/client-win/src-tauri/src/main.rs: the profiles, as files of one directory. serde_json and
-- the lower-casing of names, which needs the tables of Unicode, are arguments; so are the errors
-- of the file system, and what a failed write leaves behind.
pub mod Order
pub mod Saved
use wg_wrapper.Base.{
  ℕ, Bool, true, false, not, ◌&&◌, List, [], ◌∷◌, ◌++◌, filter, Option, none, some, ltb, ◌==◌,
  bytes_eq, if◌then◌else◌, Result, ok, err, ◌>>=◌, ◌>>◌, ensure,
}
use wg_wrapper.ClientWin.Names.{slug}
use wg_wrapper.Text.{Text, codes, trim, rsplit_once}
use wg_wrapper.Text.Pieces.{is_empty}

pub record Profile : Type 0 where
  pub name : Text
  pub conf : Text

-- The files of the directory; a text is `none` if it cannot be read.
abbrev pub Files : Type 0
Files = List (Text × Option Text)

abbrev pub at : Text → Text × Option Text → Bool
at path file = bytes_eq file.0 path

-- fs::write: the file is made or replaced
unfoldable pub write : Text → Text → Files → Files
unfolding bytes_eq
write path body files = filter (λ f. not (at path f)) files ++ (path, some body) ∷ []

unfoldable pub remove : Text → Files → Files
unfolding bytes_eq
remove path files = filter (λ f. not (at path f)) files

unfoldable pub file_of : Text → Text
unfolding slug
file_of name = slug name ++ codes ".json"

-- the extension is json, behind a stem
abbrev json_behind : Option (Text × Text) → Bool
json_behind none = false
json_behind (some (stem, extension)) = not (is_empty stem) && bytes_eq extension (codes "json")

unfoldable pub is_json : Text → Bool
unfolding bytes_eq rsplit_once
is_json path = json_behind (rsplit_once b'.' path)

-- the order of texts, of their code points as of their bytes
unfoldable pub text_le : Text → Text → Bool
text_le [] t = true
text_le (c ∷ s) [] = false
text_le (c ∷ s) (d ∷ t) =
    let rest = text_le s t in if ltb c d then true else (if c == d then rest else false)

module _ (to_lowercase : Text → Text) where
  abbrev pub before : Profile → Profile → Bool
  before p q = text_le (to_lowercase p.name) (to_lowercase q.name)

  -- One step of a stable sort: in front of the first that is not smaller.
  unfoldable pub insert : Profile → List Profile → List Profile
  unfolding text_le
  insert p [] = p ∷ []
  insert p (q ∷ qs) = let rest = insert p qs in if before p q then p ∷ q ∷ qs else q ∷ rest

  -- slice::sort_by, on the names in lower case
  unfoldable pub sort_by : List Profile → List Profile
  unfolding insert
  sort_by [] = []
  sort_by (p ∷ ps) = insert p (sort_by ps)

abbrev or_skip : Option Profile → List Profile → List Profile
or_skip none ps = ps
or_skip (some p) ps = p ∷ ps

module _ (from_str : Text → Option Profile) where
  abbrev read : Option Text → Option Profile
  read none = none
  read (some text) = from_str text

  -- The loop over the directory.
  unfoldable pub profiles_of : Files → List Profile
  unfolding is_json
  profiles_of [] = []
  profiles_of ((path, text) ∷ files) =
      let rest = profiles_of files in if is_json path then or_skip (read text) rest else rest

  module _ (to_lowercase : Text → Text) where
    -- `dir` is an error of profiles_dir or of read_dir.
    unfoldable pub list_profiles :
        (dir : Result Text (Unit {0})) → Files → Result Text (List Profile)
    unfolding sort_by profiles_of
    list_profiles dir files = do dir; ok (sort_by to_lowercase (profiles_of files))

module _ (to_string : Profile → Result Text Text) where
  -- an error of fs::write, with what it left behind
  abbrev written :
      Option (Text × Files) → Text → Result Text Text → Files → Result Text (Unit {0}) × Files
  written failure path (err e) files = (err e, files)
  written none path (ok body) files = (ok tt, write path body files)
  written (some (e, left)) path (ok body) files = (err e, left)

  abbrev checked :
      Option (Text × Files)
      → Profile
      → Result Text (Unit {0})
      → Files
      → Result Text (Unit {0}) × Files
  checked failure p (err e) files = (err e, files)
  checked failure p (ok _) files = written failure (file_of p.name) (to_string p) files

  unfoldable pub save_profile :
      (dir : Result Text (Unit {0})) (failure : Option (Text × Files)) (name conf : Text)
      → Files
      → Result Text (Unit {0}) × Files
  unfolding file_of write trim
  save_profile dir failure name conf =
      checked failure (record { name = trim name; conf = conf })
        (do
          ensure (not (is_empty (trim name))) (codes "Name the profile before saving it")
          ensure (not (is_empty (trim conf))) (codes "Paste a WireGuard config before saving")
          dir)

-- an error of fs::remove_file, and path.exists()
abbrev removed : Option Text → Bool → Text → Files → Result Text (Unit {0}) × Files
removed failure false path files = (ok tt, files)
removed none true path files = (ok tt, remove path files)
removed (some e) true path files = (err e, files)

unfoldable pub exists : Text → Files → Bool
unfolding bytes_eq
exists path [] = false
exists path (f ∷ files) = let rest = exists path files in if at path f then true else rest

abbrev found : Option Text → Result Text (Unit {0}) → Text → Files → Result Text (Unit {0}) × Files
found failure (err e) path files = (err e, files)
found failure (ok _) path files = removed failure (exists path files) path files

unfoldable pub delete_profile :
    (dir : Result Text (Unit {0})) (failure : Option Text) (name : Text)
    → Files
    → Result Text (Unit {0}) × Files
unfolding file_of exists remove
delete_profile dir failure name files = found failure dir (file_of name) files
