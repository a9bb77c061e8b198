-- ===== src/Flow/Dns/Clip.antt =====
-- Answers are framed, read back, and clipped to the tunnel with the truncation flag.
use wg_wrapper.Base.{
  ℕ, zero, suc, ◌%◌, ◌^◌, ◌<◌, ◌≤◌, ◌≡◌, ◌≢◌, refl, sym, ap, ◌∙◌, Bool, Bool-cases, true, false,
  List, [], ◌∷◌, ◌++◌, Bytes, Option, none, some, arith, All, Memᴰ, inl, inr, get_elem?, length,
  take, length-take, ltb, ltb→lt, leb, bit_or, if◌then◌else◌,
}
use wg_wrapper.Base.BigEndian.{
  from_be_bytes, to_be_bytes, from_be_bytes-to_be_bytes, length-to_be_bytes,
}
use mathlib.Core.List.{append_assoc}
use wg_wrapper.Flow.Associate.Transcript.{split_at?-complete}
use wg_wrapper.Flow.Associate.{split_at?}
use wg_wrapper.Flow.Dns.{
  frame, read_answer, length_read, body_read, flag_truncated, clip, Round, Lookups, answer_of,
  conclude, dns_over_tcp,
}
use wg_wrapper.Flow.{cap}

-- A framed message is read back, whatever comes behind it.
pub read_answer-frame :
    (message rest : Bytes)
    → length message < 2 ^ 16
    → read_answer (frame message ++ rest) ≡ some message
unfolding read_answer length_read body_read frame
read_answer-frame message rest h =
    let len : Bytes = to_be_bytes 2 (length message % 2 ^ 16) in
    let whole : (len ++ message) ++ rest ≡ len ++ (message ++ rest) =
      append_assoc len message rest in
    ap (λ bs. length_read (split_at? 2 bs)) whole
    ∙ ap length_read (split_at?-complete 2 len (message ++ rest) (length-to_be_bytes 2 _))
    ∙ ap body_read (
        split_at?-complete (from_be_bytes len 0) message rest
          (sym (from_be_bytes-to_be_bytes 2 (length message % 2 ^ 16) (omega arith) ∙ omega arith)))

-- What a clipped answer is.
pub record Clipped (limit : ℕ) (answer written : Bytes) : Type 0 where
  pub fits : length written ≤ limit
  pub whole : length answer ≤ limit → written ≡ answer
  pub flagged :
      (b : ℕ)
      → limit < length answer
      → 3 ≤ limit
      → get_elem? answer 2 ≡ some b
      → get_elem? written 2 ≡ some (bit_or b 2)
  pub kept : (i : ℕ) → i < limit → i ≢ 2 → get_elem? written i ≡ get_elem? answer i

get_elem?-take : (n i : ℕ) (xs : Bytes) → i < n → get_elem? (take n xs) i ≡ get_elem? xs i
get_elem?-take zero i xs h = absurd (omega arith)
get_elem?-take (suc n) i [] h = refl
get_elem?-take (suc n) zero (x ∷ xs) h = refl
get_elem?-take (suc n) (suc i) (x ∷ xs) h = get_elem?-take n i xs (omega arith)

-- The flag changes the third octet alone.
length-flag_truncated : (a : Bytes) → length (flag_truncated a) ≡ length a
unfolding flag_truncated
length-flag_truncated [] = refl
length-flag_truncated (x ∷ []) = refl
length-flag_truncated (x ∷ y ∷ []) = refl
length-flag_truncated (x ∷ y ∷ z ∷ a) = refl

flag_truncated_other : (a : Bytes) (i : ℕ) → i ≢ 2 → get_elem? (flag_truncated a) i ≡ get_elem? a i
unfolding flag_truncated
flag_truncated_other [] i h = refl
flag_truncated_other (x ∷ []) i h = refl
flag_truncated_other (x ∷ y ∷ []) i h = refl
flag_truncated_other (x ∷ y ∷ z ∷ a) zero h = refl
flag_truncated_other (x ∷ y ∷ z ∷ a) (suc zero) h = refl
flag_truncated_other (x ∷ y ∷ z ∷ a) (suc (suc zero)) h = absurd (h (omega arith))
flag_truncated_other (x ∷ y ∷ z ∷ a) (suc (suc (suc i))) h = refl

flag_truncated_third :
    (a : Bytes) (b : ℕ)
    → get_elem? a 2 ≡ some b
    → get_elem? (flag_truncated a) 2 ≡ some (bit_or b 2)
unfolding flag_truncated
flag_truncated_third [] b e = cc
flag_truncated_third (x ∷ []) b e = cc
flag_truncated_third (x ∷ y ∷ []) b e = cc
flag_truncated_third (x ∷ y ∷ z ∷ a) b e = cc

-- the answer before it is cut
abbrev marked : Bytes → Bytes
marked answer = if leb 3 (length answer) then flag_truncated answer else answer

marked_other : (a : Bytes) (i : ℕ) → i ≢ 2 → get_elem? (marked a) i ≡ get_elem? a i
marked_other a i h = elim (Bool-cases (leb 3 (length a))) [
  | inl long ↦ rw long (flag_truncated_other a i h)
  | inr short ↦ rw short refl
]

marked_third :
    (a : Bytes) (b : ℕ)
    → get_elem? a 2 ≡ some b
    → 3 ≤ length a
    → get_elem? (marked a) 2 ≡ some (bit_or b 2)
marked_third a b e long =
    let test : leb 3 (length a) ≡ true = ground arith in rw test (flag_truncated_third a b e)

cut-Clipped :
    (limit : ℕ) (answer : Bytes)
    → limit < length answer
    → Clipped limit answer (take limit (marked answer))
cut-Clipped limit answer h = record {
  fits = omega (arith, length-take limit (marked answer));
  whole = λ short. absurd (omega arith);
  flagged = λ b long three e.
      get_elem?-take limit 2 (marked answer) (omega arith) ∙ marked_third answer b e (omega arith);
  kept = λ i lt ne. get_elem?-take limit i (marked answer) lt ∙ marked_other answer i ne;
}

-- What the peer gets of an answer fits the tunnel; it is the answer itself if that fits, and else
-- its front with the truncation bit set and nothing else changed.
pub clip-Clipped : (limit : ℕ) (answer : Bytes) → Clipped limit answer (clip limit answer)
unfolding clip
clip-Clipped limit answer = elim (Bool-cases (ltb limit (length answer))) [
  | inl long ↦ rw long (cut-Clipped limit answer (ltb→lt limit (length answer) long))
  | inr short ↦
      let fits : length answer ≤ limit = ground arith in
      rw short (record {
        fits = fits;
        whole = λ h. refl;
        flagged = λ b h three e. absurd (omega arith);
        kept = λ i lt ne. refl;
      })
]

-- An answer in a round of the loop, and what is written of it.
pub record Relayed (mtu : ℕ) (rounds : List Round) (written : Bytes) : Type 0 where
  pub round : Round
  pub answer : Bytes
  pub among : Memᴰ round rounds
  pub answered : answer_of round.remote ≡ some answer
  pub clipped : Clipped (cap mtu) answer written

later_Relayed :
    (mtu : ℕ) (r : Round) (rs : List Round) (ws : List Bytes)
    → All (Relayed mtu rs) ws
    → All (Relayed mtu (r ∷ rs)) ws
later_Relayed mtu r rs [] h = tt
later_Relayed mtu r rs (w ∷ ws) (x, h) = (
  record {
    round = x.round;
    answer = x.answer;
    among = Memᴰ.tail x.among;
    answered = x.answered;
    clipped = x.clipped;
  },
  later_Relayed mtu r rs ws h,
)

conclude-Relayed :
    (mtu : ℕ) (r : Round) (rs : List Round) (taken : Bool) (o : Option Bytes) (asked : List Bytes)
    (rest : Lookups)
    → answer_of r.remote ≡ o
    → All (Relayed mtu rs) rest.written
    → All (Relayed mtu (r ∷ rs)) (conclude (cap mtu) taken o asked rest).written
unfolding conclude
conclude-Relayed mtu r rs taken none asked rest e h = later_Relayed mtu r rs rest.written h
conclude-Relayed mtu r rs true (some a) asked rest e h = (
  record {
    round = r;
    answer = a;
    among = Memᴰ.head refl;
    answered = e;
    clipped = clip-Clipped (cap mtu) a;
  },
  later_Relayed mtu r rs rest.written h,
)
conclude-Relayed mtu r rs false (some a) asked rest e h = (
  record {
    round = r;
    answer = a;
    among = Memᴰ.head refl;
    answered = e;
    clipped = clip-Clipped (cap mtu) a;
  },
  tt,
)

-- Everything that the peer gets from the loop is the clipped answer to one of its queries.
pub dns_over_tcp-Relayed :
    (mtu : ℕ) (rounds : List Round) → All (Relayed mtu rounds) (dns_over_tcp mtu rounds).written
unfolding dns_over_tcp
dns_over_tcp-Relayed mtu [] = tt
dns_over_tcp-Relayed mtu (r ∷ rs) =
    conclude-Relayed mtu r rs r.taken (answer_of r.remote) _ (dns_over_tcp mtu rs) refl
      (dns_over_tcp-Relayed mtu rs)
