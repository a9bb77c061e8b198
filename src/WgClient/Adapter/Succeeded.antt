-- ===== src/WgClient/Adapter/Succeeded.antt =====
-- What has succeeded stays in the log.
use wg_wrapper.Base.{
  ◌≡◌, refl, ap, subst, true, false, [], ◌∷◌, Option, none, some, Memᴰ, mem-left, mem-right, Result,
  ok, err,
}
use wg_wrapper.Text.{Text}
use wg_wrapper.WgClient.Adapter.{
  Argv, OpenError, failed, Dev, Action, ok_or, done, continue, push, flush, set_dns, ◌>>◌, answered,
  Os, run, run_, run_undone,
}
use wg_wrapper.WgClient.Adapter.Inverse.{inverse_of, is_flush}
use wg_wrapper.WgClient.Adapter.Stable

-- the command has succeeded
abbrev pub Ran : Argv → Dev → Type 0
Ran c d = Memᴰ (c, true) d.log

pub continue-ok {ℓ κ} :
    {A : Type ℓ} {B : Type κ} (next : A → Action B) (r : Result OpenError A × Dev) (b : B) (t : Dev)
    → continue next r ≡ (ok b, t)
    → (a : A) × (s : Dev) × (r ≡ (ok a, s)) × (next a s ≡ (ok b, t))
continue-ok next (err e, d) b t h = absurd (failed (ap (λ (p : Result OpenError _ × Dev). p.0) h))
  where
    failed : err e ≡ ok b → ⊥
    failed h = cc
continue-ok next (ok a, d) b t h = (a, d, refl, h)

pub ok_or-ok {ℓ} :
    {A : Type ℓ} (o : Option A) (e : OpenError) (d t : Dev) (a : A)
    → ok_or o e d ≡ (ok a, t)
    → o ≡ some a
ok_or-ok none e d t a h = cc
ok_or-ok (some b) e d t a h = cc

module _ (os : Os) where
  answered-Ran : (c k : Argv) (o : Option Text) (d : Dev) → Ran k d → Ran k (answered c o d).1
  answered-Ran c k none d h = mem-left ((c, false) ∷ []) h
  answered-Ran c k (some text) d h = mem-left ((c, true) ∷ []) h

  undoes-Ran :
      (c undo k : Argv) (o : Option Text) (d : Dev)
      → Ran k d
      → Ran k (continue (λ (u : Unit {0}). push undo) (continue (λ text. done) (answered c o d))).1
  undoes-Ran c undo k none d h = mem-left ((c, false) ∷ []) h
  undoes-Ran c undo k (some text) d h = mem-left ((c, true) ∷ []) h

  pub run-Ran :
      (k c : Argv) (d : Dev)
      → inverse_of c ≡ none
      → is_flush c ≡ false
      → Ran k d
      → Ran k (run os c d).1
  unfolding run
  run-Ran k c d e f h = answered-Ran c k (os d.log c) d h

  pub run_undone-Ran :
      (k c undo : Argv) (d : Dev)
      → inverse_of c ≡ some undo
      → Ran k d
      → Ran k (run_undone os c undo d).1
  unfolding run_undone run_ run
  run_undone-Ran k c undo d e h = undoes-Ran c undo k (os d.log c) d h

  pub flushes-Ran : (k : Argv) (d : Dev) → Ran k d → Ran k ((run_ os flush >> set_dns) d).1
  unfolding run_ run
  flushes-Ran k d h = answered_flush (os d.log flush)
    where
      answered_flush :
          (o : Option Text)
          → Ran k
              (continue
                (λ (u : Unit {0}). set_dns)
                (continue (λ text. done) (answered flush o d))).1
      answered_flush none = mem-left ((flush, false) ∷ []) h
      answered_flush (some text) = mem-left ((flush, true) ∷ []) h

  newest :
      (c undo : Argv) (o : Option Text) (d t : Dev)
      → continue (λ (u : Unit {0}). push undo) (continue (λ text. done) (answered c o d))
        ≡ (ok tt, t)
      → Ran c t
  newest c undo none d t h = absurd (never (ap (λ (p : Result OpenError (Unit {0}) × Dev). p.0) h))
    where
      never : ◌≡◌ {A = Result OpenError (Unit {0})} (err (failed c)) (ok tt) → ⊥
      never h = cc
  newest c undo (some text) d t h =
      subst (Ran c) (ap (λ (p : Result OpenError (Unit {0}) × Dev). p.1) h)
        (mem-right d.log (Memᴰ.head refl))

  pub run_undone-ok : (c undo : Argv) (d t : Dev) → run_undone os c undo d ≡ (ok tt, t) → Ran c t
  unfolding run_undone run_ run
  run_undone-ok c undo d t h = newest c undo (os d.log c) d t h

  -- A command that has succeeded stays so.
  pub stays :
      {A : Type 0} (m : Action A) (k : Argv) (d t : Dev) (a : A)
      → Stable.Stable (Ran k) m
      → m d ≡ (ok a, t)
      → Ran k d
      → Ran k t
  stays {A} m k d t a v h r =
      subst (Ran k) (ap (λ (p : Result OpenError A × Dev). p.1) h) (v.kept d r)
