-- ===== src/WgClient/Routes/Rows.antt =====
-- The destinations of the table that the loop over the lines reads.
use wg_wrapper.Base.{
  ℕ, ◌^◌, ◌<◌, ◌≡◌, refl, subst, Bool, true, false, not, ◌||◌, List, [], ◌∷◌, Option, none, some,
  if◌then◌else◌, some-eq, All,
}
use wg_wrapper.Addr.Parse.{parse_ipv4}
use wg_wrapper.Addr.Parse.Bounds.{parse_ipv4-IsAddr}
use wg_wrapper.Text.{Text, codes, trim}
use wg_wrapper.Text.Pieces.{starts_with, split_whitespace}
use wg_wrapper.WgClient.Routes.{Row, row, row_of, push, rows_of, parse_u32}

-- The destinations of the table are addresses.
row-dest :
    (dest mask : Option ℕ) (gateway : Text) (iface metric : Option ℕ) (r : Row)
    → ((a : ℕ) → dest ≡ some a → a < 2 ^ 32)
    → row dest mask gateway iface metric ≡ some r
    → r.dest < 2 ^ 32
row-dest (some a) (some m) gateway (some i) (some k) r h e =
    subst (λ (o : Row). o.dest < 2 ^ 32) (some-eq e) (h a refl)
row-dest none mask gateway iface metric r h e = cc
row-dest (some a) none gateway iface metric r h e = cc
row-dest (some a) (some m) gateway none metric r h e = cc
row-dest (some a) (some m) gateway (some i) none r h e = cc

row_of-dest : (fields : List Text) (r : Row) → row_of fields ≡ some r → r.dest < 2 ^ 32
unfolding row_of
row_of-dest (d ∷ m ∷ g ∷ i ∷ k ∷ []) r e =
    row-dest (parse_ipv4 d) (parse_ipv4 m) g (parse_ipv4 i) (parse_u32 k) r (parse_ipv4-IsAddr d) e
row_of-dest [] r e = cc
row_of-dest (d ∷ []) r e = cc
row_of-dest (d ∷ m ∷ []) r e = cc
row_of-dest (d ∷ m ∷ g ∷ []) r e = cc
row_of-dest (d ∷ m ∷ g ∷ i ∷ []) r e = cc
row_of-dest (d ∷ m ∷ g ∷ i ∷ k ∷ x ∷ rest) r e = cc

abbrev pub IsInet : Row → Type 0
IsInet r = r.dest < 2 ^ 32

push-IsInet :
    (o : Option Row) (rows : List Row)
    → ((r : Row) → o ≡ some r → IsInet r)
    → All IsInet rows
    → All IsInet (push o rows)
push-IsInet none rows h hs = hs
push-IsInet (some r) rows h hs = (h r refl, hs)

line-IsInet :
    (a b c : Bool) (o : Option Row) (rows : List Row)
    → ((r : Row) → o ≡ some r → IsInet r)
    → All IsInet rows
    → All IsInet (if a then rows else if b then [] else if c then rows else push o rows)
line-IsInet true b c o rows h hs = hs
line-IsInet false true c o rows h hs = tt
line-IsInet false false true o rows h hs = hs
line-IsInet false false false o rows h hs = push-IsInet o rows h hs

pub rows_of-IsInet : (active : Bool) (raws : List Text) → All IsInet (rows_of active raws)
unfolding rows_of
rows_of-IsInet active [] = tt
rows_of-IsInet active (raw ∷ raws) =
    line-IsInet (starts_with (codes "Active Routes:") (trim raw))
      (starts_with (codes "Persistent Routes:") (trim raw)) (not active)
      (row_of (split_whitespace (trim raw))) _
      (λ r e. row_of-dest (split_whitespace (trim raw)) r e)
      (rows_of-IsInet (starts_with (codes "Active Routes:") (trim raw) || active) raws)
