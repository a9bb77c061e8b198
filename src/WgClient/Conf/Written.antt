-- ===== src/WgClient/Conf/Written.antt =====
-- A configuration that is written as text, and what the loop of `parse_conf` reads back.
use wg_wrapper.Base.{
  ℕ, ◌≡◌, refl, ap, ◌∙◌, true, false, List, [], ◌∷◌, ◌++◌, map, Option, none, some, All, All-append,
  Bool-cases, inl, inr, if◌then◌else◌, bytes_eq, arith, ok, ◌>>=◌,
}
use wg_wrapper.Text.{Text, codes, strip_prefix, is_whitespace}
use wg_wrapper.Text.Split.{Lacks, any-Lacks, Lacks-append, split_once-append}
use wg_wrapper.Text.Pieces.{to_ascii_lowercase, lines, at_char, is_empty}
use wg_wrapper.Text.Pieces.Trimmed.{Trimmed, trim-Trimmed, Trimmed-append}
use wg_wrapper.Text.Pieces.Whole.{first_piece-whole, unlines, IsLine, lines-unlines}
use wg_wrapper.WgClient.Conf.{Sections, get, assign, read_entry, read_line, read_lines, no_sections}

-- A key and a value that a line can hold.
pub record IsEntry (e : Text × Text) : Type 0 where
  pub key : is_empty e.0 ≡ false
  pub key-Trimmed : Trimmed e.0
  pub value-Trimmed : Trimmed e.1
  pub no_equals : Lacks b'=' e.0
  pub no_bracket : strip_prefix (codes "[") e.0 ≡ none
  pub key_no_comment : Lacks b'#' e.0
  pub value_no_comment : Lacks b'#' e.1
  pub key_no_feed : Lacks 10 e.0
  pub value_no_feed : Lacks 10 e.1

abbrev pub entry_line : Text × Text → Text
entry_line (k, v) = k ++ b'=' ∷ v

-- the lines of a configuration
abbrev pub written : List (Text × Text) → List (Text × Text) → List Text
written iface peer =
    codes "[Interface]" ∷ map entry_line iface ++ codes "[Peer]" ∷ map entry_line peer

abbrev later : Option Text → Option Text → Option Text
later none o = o
later (some v) o = some v

-- the value that the last assignment of a key, in letters of either case, gives it
unfoldable pub last_value : Text → List (Text × Text) → Option Text
last_value k [] = none
last_value k ((j, v) ∷ es) =
    later (last_value k es) (if bytes_eq (to_ascii_lowercase j) k then some v else none)

-- The map after these assignments.
assigned : List (Text × Text) → List (Text × Text) → List (Text × Text)
assigned m [] = m
assigned m ((k, v) ∷ es) = assigned ((to_ascii_lowercase k, v) ∷ m) es

get-cons :
    (k j v : Text) (m : List (Text × Text)) (o : Option Text)
    → later o (get k ((j, v) ∷ m))
      ≡ later (later o (if bytes_eq j k then some v else none)) (get k m)
unfolding get
get-cons k j v m none = elim (Bool-cases (bytes_eq j k)) [ inl t ↦ rw t refl | inr f ↦ rw f refl ]
get-cons k j v m (some w) = refl

get-assigned :
    (k : Text) (m es : List (Text × Text))
    → get k (assigned m es) ≡ later (last_value k es) (get k m)
unfolding assigned last_value
get-assigned k m [] = refl
get-assigned k m ((j, v) ∷ es) =
    get-assigned k ((to_ascii_lowercase j, v) ∷ m) es
    ∙ get-cons k (to_ascii_lowercase j) v m (last_value k es)

later-none : (o : Option Text) → later o none ≡ o
later-none none = refl
later-none (some v) = refl

get-assigned_nil : (k : Text) (es : List (Text × Text)) → get k (assigned [] es) ≡ last_value k es
unfolding get
get-assigned_nil k es = get-assigned k [] es ∙ later-none (last_value k es)

no_bracket_front :
    (c : ℕ) (k r : Text)
    → strip_prefix (codes "[") (c ∷ k) ≡ none
    → strip_prefix (codes "[") (c ∷ r) ≡ none
unfolding strip_prefix
no_bracket_front c k r h = ground arith

-- An entry's line is read as the assignment.
read_line-entry :
    (s : Sections) (k v : Text)
    → IsEntry (k, v)
    → read_line s (entry_line (k, v)) ≡ assign s (to_ascii_lowercase k) v
unfolding read_line read_entry strip_prefix
read_line-entry s [] v e = absurd (nonempty e.key)
  where
    nonempty : true ≡ false → ⊥
    nonempty h = cc
read_line-entry s (c ∷ k) v e = rw (
  first_piece-whole (at_char b'#') [] (c ∷ k ++ b'=' ∷ v)
      (Lacks-append b'#' (c ∷ k) (b'=' ∷ v) e.key_no_comment (refl, e.value_no_comment)),
  trim-Trimmed (c ∷ k ++ b'=' ∷ v) (Trimmed-append c k b'=' v e.key-Trimmed refl e.value-Trimmed),
  no_bracket_front c k (k ++ b'=' ∷ v) e.no_bracket,
  split_once-append b'=' (c ∷ k) v e.no_equals,
  trim-Trimmed (c ∷ k) e.key-Trimmed,
  trim-Trimmed v e.value-Trimmed,
)

entries-IsLine : (es : List (Text × Text)) → All IsEntry es → All IsLine (map entry_line es)
unfolding is_whitespace
entries-IsLine [] h = tt
entries-IsLine (([], v) ∷ es) h = absurd (nonempty h.0.key)
  where
    nonempty : true ≡ false → ⊥
    nonempty h = cc
entries-IsLine ((c ∷ k, v) ∷ es) h = (
  (
    Lacks-append 10 (c ∷ k) (b'=' ∷ v) h.0.key_no_feed (refl, h.0.value_no_feed),
    (Trimmed-append c k b'=' v h.0.key-Trimmed refl h.0.value-Trimmed).1,
  ),
  entries-IsLine es h.1,
)

abbrev in_interface : List (Text × Text) → Sections
in_interface m = record { section = codes "interface"; iface = m; peer = [] }

abbrev in_peer : List (Text × Text) → List (Text × Text) → Sections
in_peer iface m = record { section = codes "peer"; iface = iface; peer = m }

read_interface :
    (m es : List (Text × Text)) (rest : List Text)
    → All IsEntry es
    → read_lines (in_interface m) (map entry_line es ++ rest)
      ≡ read_lines (in_interface (assigned m es)) rest
unfolding read_lines assigned assign bytes_eq
read_interface m [] rest h = refl
read_interface m ((k, v) ∷ es) rest h =
    ap (λ r. r >>= λ s. read_lines s (map entry_line es ++ rest))
      (read_line-entry (in_interface m) k v h.0)
    ∙ read_interface ((to_ascii_lowercase k, v) ∷ m) es rest h.1

read_peer :
    (iface m es : List (Text × Text))
    → All IsEntry es
    → read_lines (in_peer iface m) (map entry_line es) ≡ ok (in_peer iface (assigned m es))
unfolding read_lines assigned assign bytes_eq
read_peer iface m [] h = refl
read_peer iface m ((k, v) ∷ es) h =
    ap (λ r. r >>= λ s. read_lines s (map entry_line es))
      (read_line-entry (in_peer iface m) k v h.0)
    ∙ read_peer iface ((to_ascii_lowercase k, v) ∷ m) es h.1

read_written :
    (iface peer : List (Text × Text))
    → All IsEntry iface
    → All IsEntry peer
    → read_lines no_sections (written iface peer)
      ≡ ok (in_peer (assigned [] iface) (assigned [] peer))
unfolding read_lines read_line read_entry is_whitespace
read_written iface peer hi hp =
    read_interface [] iface (codes "[Peer]" ∷ map entry_line peer) hi
    ∙ read_peer (assigned [] iface) [] peer hp

-- Assignments written below the headings of their sections are read back from the text: each key,
-- in letters of either case, has the value of its last assignment in its section.
pub read_lines-written :
    (iface peer : List (Text × Text))
    → All IsEntry iface
    → All IsEntry peer
    → (s : Sections) × (read_lines no_sections (lines (unlines (written iface peer))) ≡ ok s)
      × ((k : Text) → get k s.iface ≡ last_value k iface)
      × ((k : Text) → get k s.peer ≡ last_value k peer)
unfolding is_whitespace
read_lines-written iface peer hi hp =
    let whole : All IsLine (written iface peer) = (
      (any-Lacks 10 (codes "[Interface]") refl, refl),
      All-append IsLine (map entry_line iface) (codes "[Peer]" ∷ map entry_line peer)
          (entries-IsLine iface hi)
          ((any-Lacks 10 (codes "[Peer]") refl, refl), entries-IsLine peer hp),
    ) in
    (
      in_peer (assigned [] iface) (assigned [] peer),
      ap (read_lines no_sections) (lines-unlines (written iface peer) whole)
          ∙ read_written iface peer hi hp,
      (λ k. get-assigned_nil k iface),
      (λ k. get-assigned_nil k peer),
    )
