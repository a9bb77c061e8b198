-- ===== src/WsRelay/Conn/Pumped.antt =====
-- What a connection forwards, and how many there are.
use mathlib.Core.List.{append_assoc, append-nil}
use wg_wrapper.Base.{
  All-append, ℕ, zero, suc, ◌+◌, ◌≤◌, ◌≡◌, refl, sym, ap, ◌∙◌, subst, Bool-cases, List, [], ◌∷◌,
  ◌++◌, Bytes, arith, inl, inr, All, Memᴰ, length, leb, leb→le, if◌then◌else◌,
}
use wg_wrapper.WsRelay.Conn.{
  Event, binary, other_message, closed, udp_failed, timed_out, datagram, ping_due, Conn, forwarded,
  step, run, Limit, LimitEvent, accepts, finishes, accept, finish, serve_limited,
}
use wg_wrapper.WsRelay.{max_datagram}

-- A datagram for the target is a binary message of the peer that is not too long.
pub record FromPeer (es : List (ℕ × Event)) (b : Bytes) : Type 0 where
  pub at : ℕ
  pub came : Memᴰ {A = ℕ × Event} (at, binary b) es
  pub fits : length b ≤ max_datagram

-- What the steps of a run add, in front of what was sent before.
pub record Adds (c c' : Conn) (es : List (ℕ × Event)) : Type 0 where
  pub added : List Bytes
  pub grows : c'.to_target ≡ c.to_target ++ added
  pub from_peer : All (FromPeer es) added

later_FromPeer :
    (e : ℕ × Event) (es : List (ℕ × Event)) (bs : List Bytes)
    → All (FromPeer es) bs
    → All (FromPeer (e ∷ es)) bs
later_FromPeer e es [] h = tt
later_FromPeer e es (b ∷ bs) (x, h) =
    (record { at = x.at; came = Memᴰ.tail x.came; fits = x.fits }, later_FromPeer e es bs h)

forwarded-FromPeer :
    (now : ℕ) (b : Bytes) (es : List (ℕ × Event))
    → All (FromPeer ((now, binary b) ∷ es)) (forwarded b)
forwarded-FromPeer now b es = elim (Bool-cases (leb (length b) max_datagram)) [
  | inl short ↦
      rw short (
        record { at = now; came = Memᴰ.head refl; fits = leb→le (length b) max_datagram short },
        tt,
      )
  | inr long ↦ rw long tt
]

nothing-Adds : (c c' : Conn) (es : List (ℕ × Event)) → c'.to_target ≡ c.to_target → Adds c c' es
nothing-Adds c c' es e = record {
  added = [];
  grows = e ∙ sym (append-nil c.to_target);
  from_peer = tt;
}

step-Adds :
    (now : ℕ) (c : Conn) (e : Event) (es : List (ℕ × Event)) → Adds c (step now c e) ((now, e) ∷ es)
unfolding step
step-Adds now c (binary b) es = record {
  added = forwarded b;
  grows = refl;
  from_peer = forwarded-FromPeer now b es;
}
step-Adds now c other_message es = nothing-Adds c _ _ refl
step-Adds now c closed es = nothing-Adds c _ _ refl
step-Adds now c udp_failed es = nothing-Adds c _ _ refl
step-Adds now c (datagram b sent) es = nothing-Adds c _ _ refl
step-Adds now c (ping_due sent) es = nothing-Adds c _ _ refl
step-Adds now c timed_out es = elim (Bool-cases (leb c.deadline now)) [
  | inl late ↦ rw late (nothing-Adds c _ _ refl)
  | inr early ↦ rw early (nothing-Adds c _ _ refl)
]

Adds-trans :
    (c d f : Conn) (e : ℕ × Event) (es : List (ℕ × Event))
    → Adds c d (e ∷ es)
    → Adds d f es
    → Adds c f (e ∷ es)
Adds-trans c d f e es x y = record {
  added = x.added ++ y.added;
  grows = y.grows ∙ ap (λ l. l ++ y.added) x.grows ∙ append_assoc c.to_target x.added y.added;
  from_peer = All-append _ x.added y.added x.from_peer (later_FromPeer e es y.added y.from_peer);
}

-- Whatever a connection forwards to the target is a binary message that its peer sent, and is not
-- longer than a datagram may be; what was forwarded before stays in front.
pub run-Adds : (es : List (ℕ × Event)) (c : Conn) → Adds c (run c es) es
unfolding run
run-Adds [] c = nothing-Adds c c [] refl
run-Adds ((now, e) ∷ es) c = elim (Bool-cases c.ended) [
  | inl over ↦
      subst (λ b. Adds c (if b then c else run (step now c e) es) ((now, e) ∷ es)) (sym over)
        (nothing-Adds c c _ refl)
  | inr open_ ↦
      subst (λ b. Adds c (if b then c else run (step now c e) es) ((now, e) ∷ es)) (sym open_)
        (Adds-trans c (step now c e) (run (step now c e) es) (now, e) es (step-Adds now c e es)
          (run-Adds es (step now c e)))
]

-- Every sequence of accepted and finished connections keeps to the limit: permits and tasks add up.
pub serve_limited-Conserves :
    (es : List LimitEvent) (l : Limit)
    → (serve_limited l es).permits + (serve_limited l es).tasks ≡ l.permits + l.tasks
unfolding serve_limited
serve_limited-Conserves [] l = refl
serve_limited-Conserves (accepts ∷ es) l =
    serve_limited-Conserves es (accept l.permits l) ∙ accepted l l.permits refl
  where
    accepted :
        (l : Limit) (n : ℕ)
        → l.permits ≡ n
        → (accept n l).permits + (accept n l).tasks ≡ l.permits + l.tasks
    accepted l zero e = refl
    accepted l (suc n) e = omega (arith, e)
serve_limited-Conserves (finishes ∷ es) l =
    serve_limited-Conserves es (finish l.tasks l) ∙ finished l l.tasks refl
  where
    finished :
        (l : Limit) (n : ℕ)
        → l.tasks ≡ n
        → (finish n l).permits + (finish n l).tasks ≡ l.permits + l.tasks
    finished l zero e = refl
    finished l (suc n) e = omega (arith, e)
