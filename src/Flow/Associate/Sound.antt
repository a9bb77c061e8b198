-- ===== src/Flow/Associate/Sound.antt =====
-- An association is opened only by a whole exchange.
use mathlib.Core.List.{append-nil, append_assoc}
use wg_wrapper.Base.{
  ℕ, ◌+◌, ◌≡◌, refl, sym, ap, ◌∙◌, subst, true, List, [], ◌∷◌, ◌++◌, Bytes, Option, none, some,
  arith, length, ltb, ltb→lt, ◌==◌, ==_iff, take, drop, take-drop, length-take, length-append,
  if-cases, and-true, Result, ok, err, ensure, >>=-eq-ok, ensure-eq-ok, ok-eq, inl, inr,
}
use wg_wrapper.Addr.{IpAddr, v4, v6, SocketAddr}
use wg_wrapper.Base.BigEndian.{from_be_bytes}
use wg_wrapper.Text.Utf8.{as_bytes}
use wg_wrapper.Text.{Text}
use wg_wrapper.Flow.Associate.Transcript.{
  Negotiates, anonymous, password, Binds, binds_v4, binds_v6, Opens, Reads, read_exact_sound,
  two_of, four_of,
}
use wg_wrapper.Flow.Associate.{
  AssociateError, Conn, write, read_exact, nth, greeting, udp_associate, password_request,
  authenticate, choose, read_bound, relay_addr, associate,
}

-- What the choice of a method adds to an exchange that began with the proxy's pick.
record Chooses (auth : Option (Text × Text)) (m : ℕ) (c c' : Conn) : Type 0 where
  more : Bytes
  sent : List Bytes
  negotiates : Negotiates auth (5 ∷ m ∷ more) (greeting ∷ sent)
  reads : c.incoming ≡ more ++ c'.incoming
  writes : c'.written ≡ c.written ++ sent

authenticate-Chooses :
    (auth : Option (Text × Text)) (c c' : Conn) → authenticate auth c ≡ ok c' → Chooses auth 2 c c'
unfolding authenticate
authenticate-Chooses none c c' e = cc
authenticate-Chooses (some (user, pass)) c c' e =
    let (_, fits, e₁) = >>=-eq-ok (ensure _ _) _ e in
    let (short_user, short_pass) =
      and-true (ltb (length (as_bytes user)) 256) (ltb (length (as_bytes pass)) 256)
        (ensure-eq-ok _ _ fits) in
    let ((answer, d), got, e₂) =
      >>=-eq-ok (read_exact 2 (write c (password_request (as_bytes user) (as_bytes pass)))) _ e₁ in
    let (_, accepted, e₃) = >>=-eq-ok (ensure _ _) _ e₂ in
    let r = read_exact_sound 2 _ d answer got in
    let zero_ : nth answer 1 ≡ 0 = (==_iff (nth answer 1) 0).0 (ensure-eq-ok _ _ accepted) in
    let two : answer ≡ nth answer 0 ∷ 0 ∷ [] =
      two_of answer r.long ∙ ap (λ z. nth answer 0 ∷ z ∷ []) zero_ in
    let same : d ≡ c' = ok-eq e₃ in
    record {
      more = nth answer 0 ∷ 0 ∷ [];
      sent = password_request (as_bytes user) (as_bytes pass) ∷ [];
      negotiates =
          password user pass (nth answer 0) refl (ltb→lt _ _ short_user) (ltb→lt _ _ short_pass);
      reads =
          r.parts
          ∙ ap (λ a. a ++ d.incoming) two
          ∙ ap (λ (c : Conn). nth answer 0 ∷ 0 ∷ c.incoming) same;
      writes = ap (λ c. c.written) (sym same) ∙ r.kept;
    }

choose-Chooses :
    (m : ℕ) (auth : Option (Text × Text)) (c c' : Conn)
    → choose m auth c ≡ ok c'
    → Chooses auth m c c'
unfolding choose
choose-Chooses m auth c c' e =
    let P : Result AssociateError Conn → Type 0 = λ r. r ≡ ok c' in
    elim (if-cases P (m == 0) e) [
      | inl (is, kept) ↦
          let same : c ≡ c' = ok-eq kept in
          subst (λ m. Chooses auth m c c') (sym ((==_iff m 0).0 is))
            (record {
              more = [];
              sent = [];
              negotiates = anonymous;
              reads = ap (λ (c : Conn). c.incoming) same;
              writes = ap (λ (c : Conn). c.written) (sym same) ∙ sym (append-nil c.written);
            })
      | inr (_, e₁) ↦ elim (if-cases P (m == 2) e₁) [
        | inl (is, e₂) ↦
            subst (λ m. Chooses auth m c c') (sym ((==_iff m 2).0 is))
              (authenticate-Chooses auth c c' e₂)
        | inr (_, e₂) ↦ absurd (err≢ok e₂)
      ]
    ]
  where
    err≢ok : {e : AssociateError} → ◌≡◌ {A = Result AssociateError Conn} (err e) (ok c') → ⊥
    err≢ok h = cc

-- A block of octets is an address and a port.
split_block :
    (n : ℕ) (b : Bytes)
    → length b ≡ n + 2
    → (length (take n b) ≡ n) × (length (drop n b) ≡ 2) × (take n b ++ drop n b ≡ b)
split_block n b h =
    let front : length (take n b) ≡ n = omega (arith, length-take n b) in
    (
      front,
      omega (arith, front, length-append (take n b) (drop n b), ap length (take-drop n b)),
      take-drop n b,
    )

-- What reading the bound address adds.
abbrev Bound : ℕ → ℕ → Conn → SocketAddr → Conn → Type 0
Bound r kind c bound c' =
    (more : Bytes) × Binds (5 ∷ 0 ∷ r ∷ kind ∷ more) bound
    × (c.incoming ≡ more ++ c'.incoming)
    × (c'.written ≡ c.written)

Bound-read :
    (r kind n : ℕ) (family : ℕ → IpAddr) (c d c' : Conn) (b : Bytes) (bound : SocketAddr)
    → ((octets port : Bytes)
        → length octets ≡ n
        → length port ≡ 2
        → Binds
            (5 ∷ 0 ∷ r ∷ kind ∷ (octets ++ port))
            (record { ip = family (from_be_bytes octets 0); port = from_be_bytes port 0 }))
    → Reads (n + 2) c b d
    → ◌≡◌ {A = Result AssociateError (SocketAddr × Conn)}
        (ok (
          record { ip = family (from_be_bytes (take n b) 0); port = from_be_bytes (drop n b) 0 },
          d,
        ))
        (ok (bound, c'))
    → Bound r kind c bound c'
Bound-read r kind n family c d c' b bound binds reads e =
    let (front, back, whole) = split_block n b reads.long in
    let same = ok-eq e in
    (
      take n b ++ drop n b,
      subst (Binds (5 ∷ 0 ∷ r ∷ kind ∷ (take n b ++ drop n b))) (ap (λ p. p.0) same)
          (binds (take n b) (drop n b) front back),
      reads.parts
          ∙ ap (λ b. b ++ d.incoming) (sym whole)
          ∙ ap (λ (p : SocketAddr × Conn). (take n b ++ drop n b) ++ p.1.incoming) same,
      ap (λ (p : SocketAddr × Conn). p.1.written) (sym same) ∙ reads.kept,
    )

read_bound-Bound :
    (r kind : ℕ) (c c' : Conn) (bound : SocketAddr)
    → read_bound kind c ≡ ok (bound, c')
    → Bound r kind c bound c'
unfolding read_bound
read_bound-Bound r kind c c' bound e =
    let P : Result AssociateError (SocketAddr × Conn) → Type 0 = λ r. r ≡ ok (bound, c') in
    elim (if-cases P (kind == 1) e) [
      | inl (is, e₁) ↦
          let ((b, d), got, e₂) = >>=-eq-ok (read_exact 6 c) _ e₁ in
          subst (λ k. Bound r k c bound c') (sym ((==_iff kind 1).0 is))
            (Bound-read r 1 4 v4 c d c' b bound (binds_v4 r) (read_exact_sound 6 c d b got) e₂)
      | inr (_, e₁) ↦ elim (if-cases P (kind == 4) e₁) [
        | inl (is, e₂) ↦
            let ((b, d), got, e₃) = >>=-eq-ok (read_exact 18 c) _ e₂ in
            subst (λ k. Bound r k c bound c') (sym ((==_iff kind 4).0 is))
              (Bound-read r 4 16 v6 c d c' b bound (binds_v6 r) (read_exact_sound 18 c d b got) e₃)
        | inr (_, e₂) ↦ absurd (err≢ok e₂)
      ]
    ]
  where
    err≢ok :
        {e : AssociateError}
        → ◌≡◌ {A = Result AssociateError (SocketAddr × Conn)} (err e) (ok (bound, c'))
        → ⊥
    err≢ok h = cc

written_append :
    (w sent : List Bytes)
    → ((w ++ greeting ∷ []) ++ sent) ++ udp_associate ∷ []
      ≡ w ++ ((greeting ∷ sent) ++ udp_associate ∷ [])
written_append w sent =
    ap (λ l. l ++ udp_associate ∷ []) (append_assoc w (greeting ∷ []) sent)
    ∙ append_assoc w (greeting ∷ sent) (udp_associate ∷ [])

-- The parts of an exchange, put together.
exchange-Opens :
    (proxy : IpAddr) (auth : Option (Text × Text)) (c c₁ c₂ c₃ c₄ : Conn) (m r kind : ℕ)
    (chosen head more : Bytes) (bound : SocketAddr)
    → Reads 2 (write c greeting) chosen c₁
    → chosen ≡ 5 ∷ m ∷ []
    → Chooses auth m c₁ c₂
    → Reads 4 (write c₂ udp_associate) head c₃
    → head ≡ 5 ∷ 0 ∷ r ∷ kind ∷ []
    → Binds (5 ∷ 0 ∷ r ∷ kind ∷ more) bound
    → c₃.incoming ≡ more ++ c₄.incoming
    → c₄.written ≡ c₃.written
    → Opens proxy auth c (relay_addr proxy bound) c₄
exchange-Opens proxy auth c c₁ c₂ c₃ c₄ m r kind chosen head more bound q chosen_is h a head_is
      binds rest kept =
    record {
      negotiation = 5 ∷ m ∷ h.more;
      sent = greeting ∷ h.sent;
      reply = 5 ∷ 0 ∷ r ∷ kind ∷ more;
      bound = bound;
      negotiates = h.negotiates;
      binds = binds;
      reads =
          q.parts
          ∙ ap (λ a. a ++ c₁.incoming) chosen_is
          ∙ ap (λ a. 5 ∷ m ∷ a)
              (h.reads
                ∙ ap (◌++◌ h.more) (
                    a.parts
                    ∙ ap (λ a. a ++ c₃.incoming) head_is
                    ∙ ap (λ a. 5 ∷ 0 ∷ r ∷ kind ∷ a) rest));
      writes =
          kept
          ∙ a.kept
          ∙ ap (λ w. w ++ udp_associate ∷ []) (h.writes ∙ ap (λ w. w ++ h.sent) q.kept)
          ∙ written_append c.written h.sent;
      target = refl;
    }

is_greeting : (b : Bytes) → length b ≡ 2 → (nth b 0 == 5) ≡ true → b ≡ 5 ∷ nth b 1 ∷ []
is_greeting b long five = two_of b long ∙ ap (λ z. z ∷ nth b 1 ∷ []) ((==_iff (nth b 0) 5).0 five)

is_grant :
    (b : Bytes)
    → length b ≡ 4
    → (nth b 0 == 5) ≡ true
    → (nth b 1 == 0) ≡ true
    → b ≡ 5 ∷ 0 ∷ nth b 2 ∷ nth b 3 ∷ []
is_grant b long five granted =
    four_of b long
    ∙ ap (λ z. z ∷ nth b 1 ∷ nth b 2 ∷ nth b 3 ∷ []) ((==_iff (nth b 0) 5).0 five)
    ∙ ap (λ z. 5 ∷ z ∷ nth b 2 ∷ nth b 3 ∷ []) ((==_iff (nth b 1) 0).0 granted)

-- `associate` succeeds only by a whole exchange: the proxy picked no authentication, or a password
-- that we have and that fits RFC 1929 and that it accepted; it bound an address of a family we speak;
-- we sent exactly the greeting, that password and the request. The result is the bound address, with
-- the proxy's own in place of a wildcard.
pub associate-Opens :
    (proxy : IpAddr) (auth : Option (Text × Text)) (c c' : Conn) (to : SocketAddr)
    → associate proxy auth c ≡ ok (to, c')
    → Opens proxy auth c to c'
unfolding associate
associate-Opens proxy auth c c' to e =
    let ((chosen, c₁), got, e₁) = >>=-eq-ok (read_exact 2 (write c greeting)) _ e in
    let (_, five, e₂) = >>=-eq-ok (ensure _ _) _ e₁ in
    let (c₂, chose, e₃) = >>=-eq-ok (choose (nth chosen 1) auth c₁) _ e₂ in
    let ((head, c₃), got_head, e₄) = >>=-eq-ok (read_exact 4 (write c₂ udp_associate)) _ e₃ in
    let (_, five', e₅) = >>=-eq-ok (ensure _ _) _ e₄ in
    let (_, granted, e₆) = >>=-eq-ok (ensure _ _) _ e₅ in
    let ((bound, c₄), got_bound, e₇) = >>=-eq-ok (read_bound (nth head 3) c₃) _ e₆ in
    let r = read_exact_sound 2 _ c₁ chosen got in
    let h = choose-Chooses (nth chosen 1) auth c₁ c₂ chose in
    let q = read_exact_sound 4 _ c₃ head got_head in
    let (more, binds, rest, kept) =
      read_bound-Bound (nth head 2) (nth head 3) c₃ c₄ bound got_bound in
    subst (λ (p : SocketAddr × Conn). Opens proxy auth c p.0 p.1) (ok-eq e₇)
      (exchange-Opens proxy auth c c₁ c₂ c₃ c₄ (nth chosen 1) (nth head 2) (nth head 3) chosen head
        more bound r (is_greeting chosen r.long (ensure-eq-ok _ _ five)) h q
        (is_grant head q.long (ensure-eq-ok _ _ five') (ensure-eq-ok _ _ granted)) binds rest kept)
