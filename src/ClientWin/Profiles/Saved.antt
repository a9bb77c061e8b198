-- ===== src/ClientWin/Profiles/Saved.antt =====
-- A saved profile is listed, until it is deleted.
use mathlib.Core.List.{Perm}
use wg_wrapper.Base.{
  ◌≡◌, refl, sym, ap, ◌∙◌, subst, Bool, Bool-cases, true, false, not, List, [], ◌∷◌, ◌++◌, filter,
  Memᴰ, Option, none, some, inl, inr, bytes_eq_refl, Result, ok, err, ◌>>◌, ensure,
}
use wg_wrapper.ClientWin.Profiles.Order.{Sorted, sort_by-Sorted, sort_by-perm}
use wg_wrapper.ClientWin.Names.{slug}
use wg_wrapper.ClientWin.Names.Slugs.{Filled, slug-Filled}
use wg_wrapper.ClientWin.Profiles.{
  Profile, Files, at, write, remove, file_of, is_json, json_behind, insert, sort_by, or_skip, read,
  profiles_of, list_profiles, written, checked, removed, save_profile, exists, delete_profile,
  before,
}
use wg_wrapper.Text.{Text, codes, trim, rsplit_once}
use wg_wrapper.Text.Pieces.{is_empty}
use wg_wrapper.Text.Split.{any-Lacks, rsplit_once-append}

-- the files besides the one at a path
others-others :
    (path : Text) (files : Files) (new : Text × Option Text)
    → at path new ≡ true
    → filter (λ f. not (at path f)) (filter (λ f. not (at path f)) files ++ new ∷ [])
      ≡ filter (λ f. not (at path f)) files
others-others path [] new h = rw h refl
others-others path (f ∷ files) new h = elim (Bool-cases (at path f)) [
  | inl here ↦ rw here (others-others path files new h)
  | inr other ↦ rw (other, other) (ap (λ fs. f ∷ fs) (others-others path files new h))
]

exists-append :
    (path : Text) (files : Files) (new : Text × Option Text)
    → at path new ≡ true
    → exists path (files ++ new ∷ []) ≡ true
unfolding exists
exists-append path [] new h = rw h refl
exists-append path (f ∷ files) new h = elim (Bool-cases (at path f)) [
  | inl here ↦ rw here refl
  | inr other ↦ rw other (exists-append path files new h)
]

file_of-is_json : (name : Text) → is_json (file_of name) ≡ true
unfolding is_json file_of
file_of-is_json name =
    let (c, t, e, _) = slug-Filled name in
    subst (λ s. json_behind (rsplit_once b'.' (s ++ codes ".json")) ≡ true) (sym e)
      (rw (rsplit_once-append b'.' (c ∷ t) (codes "json") (any-Lacks b'.' (codes "json") refl))
        refl)

module _ (to_lowercase : Text → Text) where
  mem-insert : (p : Profile) (ps : List Profile) → Memᴰ p (insert to_lowercase p ps)
  unfolding insert
  mem-insert p [] = Memᴰ.head refl
  mem-insert p (q ∷ ps) = elim (Bool-cases (before to_lowercase p q)) [
    | inl first ↦ rw first (Memᴰ.head refl)
    | inr later ↦ rw later (Memᴰ.tail (mem-insert p ps))
  ]

  mem-insert_other :
      (p : Profile) (ps : List Profile) {q : Profile}
      → Memᴰ q ps
      → Memᴰ q (insert to_lowercase p ps)
  unfolding insert
  mem-insert_other p [] m = Memᴰ.tail m
  mem-insert_other p (r ∷ ps) (Memᴰ.head e) = elim (Bool-cases (before to_lowercase p r)) [
    | inl first ↦ rw first (Memᴰ.tail (Memᴰ.head e))
    | inr later ↦ rw later (Memᴰ.head e)
  ]
  mem-insert_other p (r ∷ ps) (Memᴰ.tail m) = elim (Bool-cases (before to_lowercase p r)) [
    | inl first ↦ rw first (Memᴰ.tail (Memᴰ.tail m))
    | inr later ↦ rw later (Memᴰ.tail (mem-insert_other p ps m))
  ]

  mem-sort_by : (ps : List Profile) {q : Profile} → Memᴰ q ps → Memᴰ q (sort_by to_lowercase ps)
  unfolding sort_by
  mem-sort_by [] m = m
  mem-sort_by (p ∷ ps) (Memᴰ.head e) =
      subst (λ x. Memᴰ x (insert to_lowercase p (sort_by to_lowercase ps))) (sym e)
        (mem-insert p (sort_by to_lowercase ps))
  mem-sort_by (p ∷ ps) (Memᴰ.tail m) =
      mem-insert_other p (sort_by to_lowercase ps) (mem-sort_by ps m)

mem-last : (ps : List Profile) (p : Profile) → Memᴰ p (ps ++ p ∷ [])
mem-last [] p = Memᴰ.head refl
mem-last (q ∷ ps) p = Memᴰ.tail (mem-last ps p)

module _ (from_str : Text → Option Profile) where
  profiles_of-append :
      (files more : Files)
      → profiles_of from_str (files ++ more)
        ≡ profiles_of from_str files ++ profiles_of from_str more
  unfolding profiles_of
  profiles_of-append [] more = refl
  profiles_of-append ((path, text) ∷ files) more = elim (Bool-cases (is_json path)) [
    | inl json ↦ rw (json, profiles_of-append files more) (or_skip-append (read from_str text))
    | inr other ↦ rw other (profiles_of-append files more)
  ]
    where
      or_skip-append :
          (o : Option Profile)
          → or_skip o (profiles_of from_str files ++ profiles_of from_str more)
            ≡ or_skip o (profiles_of from_str files) ++ profiles_of from_str more
      or_skip-append none = refl
      or_skip-append (some p) = refl

  profiles_of-file :
      (name body : Text) (p : Profile)
      → from_str body ≡ some p
      → profiles_of from_str ((file_of name, some body) ∷ []) ≡ p ∷ []
  unfolding profiles_of
  profiles_of-file name body p h = rw (file_of-is_json name, h) refl

module _ (to_string : Profile → Result Text Text) (from_str : Text → Option Profile)
    (to_lowercase : Text → Text)
    (reads : (p : Profile) (body : Text) → to_string p ≡ ok body → from_str body ≡ some p) where
  -- What saving a profile does to the directory.
  pub record Saved (p : Profile) (files after : Files) : Type 0 where
    pub file_name : Filled (slug p.name)
    pub name : is_empty p.name ≡ false
    pub listed :
        list_profiles from_str to_lowercase (ok tt) after
        ≡ ok (sort_by to_lowercase (profiles_of from_str (remove (file_of p.name) files) ++ p ∷ []))
    pub member :
        Memᴰ p
          (sort_by to_lowercase (profiles_of from_str (remove (file_of p.name) files) ++ p ∷ []))
    pub sorted :
        Sorted to_lowercase
          (sort_by to_lowercase (profiles_of from_str (remove (file_of p.name) files) ++ p ∷ []))
    pub same :
        Perm
          (sort_by to_lowercase (profiles_of from_str (remove (file_of p.name) files) ++ p ∷ []))
          (profiles_of from_str (remove (file_of p.name) files) ++ p ∷ [])
    pub deleted : delete_profile (ok tt) none p.name after ≡ (ok tt, remove (file_of p.name) files)

  write-Saved :
      (p : Profile) (body : Text) (files : Files)
      → is_empty p.name ≡ false
      → to_string p ≡ ok body
      → Saved p files (write (file_of p.name) body files)
  unfolding write list_profiles delete_profile remove exists
  write-Saved p body files named e = record {
    file_name = slug-Filled p.name;
    name = named;
    listed =
        ap (λ ps. ok (sort_by to_lowercase ps))
          (profiles_of-append from_str (remove (file_of p.name) files)
              ((file_of p.name, some body) ∷ [])
            ∙ ap (λ ps. profiles_of from_str (remove (file_of p.name) files) ++ ps)
                (profiles_of-file from_str p.name body p (reads p body e)));
    member =
        mem-sort_by to_lowercase (profiles_of from_str (remove (file_of p.name) files) ++ p ∷ [])
          (mem-last (profiles_of from_str (remove (file_of p.name) files)) p);
    sorted =
        sort_by-Sorted to_lowercase
          (profiles_of from_str (remove (file_of p.name) files) ++ p ∷ []);
    same =
        sort_by-perm to_lowercase (profiles_of from_str (remove (file_of p.name) files) ++ p ∷ []);
    deleted =
        ap
          (λ there.
            removed none there (file_of p.name)
              (remove (file_of p.name) files ++ (file_of p.name, some body) ∷ []))
          (exists-append (file_of p.name) (remove (file_of p.name) files)
            (file_of p.name, some body) (bytes_eq_refl (file_of p.name)))
        ∙ ap (λ fs. (ok tt, fs))
            (others-others (file_of p.name) files (file_of p.name, some body)
              (bytes_eq_refl (file_of p.name)));
  }

  written-Saved :
      (p : Profile) (r : Result Text Text) (files after : Files)
      → is_empty p.name ≡ false
      → to_string p ≡ r
      → written to_string none (file_of p.name) r files ≡ (ok tt, after)
      → Saved p files after
  written-Saved p (err e) files after named h saved = cc
  written-Saved p (ok body) files after named h saved =
      subst (Saved p files) (ap (λ x. x.1) saved) (write-Saved p body files named h)

  checked-Saved :
      (p : Profile) (unnamed blank : Bool) (dir : Result Text (Unit {0})) (e₁ e₂ : Text)
      (files after : Files)
      → is_empty p.name ≡ unnamed
      → checked to_string none p (do ensure (not unnamed) e₁; ensure (not blank) e₂; dir) files
        ≡ (ok tt, after)
      → Saved p files after
  checked-Saved p true blank dir e₁ e₂ files after named saved = cc
  checked-Saved p false true dir e₁ e₂ files after named saved = cc
  checked-Saved p false false (err e) e₁ e₂ files after named saved = cc
  checked-Saved p false false (ok _) e₁ e₂ files after named saved =
      written-Saved p (to_string p) files after named refl saved

  -- If a profile is saved, in a directory where the write succeeds and by a printer whose text the
  -- parser reads back, then its file has a name of lower-case letters, digits and dashes, and
  -- listing gives the profiles of the other files and the saved one, under its trimmed name, each as
  -- often as it is there and sorted by the name in lower case; deleting it by that name leaves
  -- exactly the other files.
  pub save_profile-Saved :
      (dir : Result Text (Unit {0})) (name conf : Text) (files after : Files)
      → save_profile to_string dir none name conf files ≡ (ok tt, after)
      → Saved (record { name = trim name; conf = conf }) files after
  unfolding save_profile
  save_profile-Saved dir name conf files after saved =
      checked-Saved (record { name = trim name; conf = conf }) (is_empty (trim name))
        (is_empty (trim conf)) dir (codes "Name the profile before saving it")
        (codes "Paste a WireGuard config before saving") files after refl saved
