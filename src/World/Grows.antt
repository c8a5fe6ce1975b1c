-- ===== src/World/Grows.antt =====
-- Actions that only add to the trace: one rule for each way to build one.
use pegaprox_plugin_opnsense.Prelude.{
  ℕ, Bool, true, false, if◌then◌else◌, List, [], ◌∷◌, ◌++◌, ◌≡◌, refl, ap, sym, ◌∙◌, append_assoc,
  inl, inr,
}
use pegaprox_plugin_opnsense.Exec.{
  Exn, Result, ok, raised, Exec, pure, raise, gets, catch, attempt, recover, continue, ◌>>=◌,
}
use pegaprox_plugin_opnsense.World.{Event, Trace, sleep, slept}

-- The trace `t` has the trace `u` as its older part.
abbrev pub Later : Trace → Trace → Type 0
Later u t = (es : List Event) × (t ≡ es ++ u)

pub next-Later : (u t : Trace) (e : Event) → Later u t → Later u (e ∷ t)
next-Later u t e (es, p) = (e ∷ es, ap (λ x. e ∷ x) p)

pub here-Later : (t : Trace) → Later t t
here-Later t = ([], refl)

pub trans-Later : (a b c : Trace) → Later a b → Later b c → Later a c
trans-Later a b c (es, p) (fs, q) = (fs ++ es, q ∙ ap (λ x. fs ++ x) p ∙ sym (append_assoc fs es a))

-- However `m` ends, the trace `log` of its state only grows.
pub record Grows {S A : Type 0} (log : S → Trace) (m : Exec S A) : Type 0 where
  pub later : (u : Trace) (s : S) → Later u (log s) → Later u (log (m s).1)

module _ {S A : Type 0} {log : S → Trace} where
  pub Grows-pure : (a : A) → Grows log (pure a)
  unfolding pure
  Grows-pure a = record { later = λ u s h. h }

  pub Grows-gets : (f : S → A) → Grows log (gets f)
  unfolding gets
  Grows-gets f = record { later = λ u s h. h }

  pub Grows-if :
      (b : Bool) (m n : Exec S A) → Grows log m → Grows log n → Grows log (if b then m else n)
  Grows-if true m n gm gn = gm
  Grows-if false m n gm gn = gn

  pub Grows-catch :
      (test : Exn → Bool) (m : Exec S A) (h : Exn → Exec S A)
      → Grows log m
      → ((e : Exn) → Grows log (h e))
      → Grows log (catch test m h)
  unfolding catch raise
  Grows-catch test m h gm gh = record {
    later = λ u s l. let (r, s') = m s in ended u r s' (gm.later u s l);
  }
    where
      handled :
          (u : Trace) (b : Bool) (e : Exn) (s : S)
          → Later u (log s)
          → Later u (log ((if b then h e else raise e) s).1)
      handled u true e s l = (gh e).later u s l
      handled u false e s l = l

      ended :
          (u : Trace) (r : Result A) (s : S)
          → Later u (log s)
          → Later u (log (recover test h r s).1)
      ended u (ok a) s l = l
      ended u (raised e) s l = handled u (test e) e s l

module _ {S A B : Type 0} {log : S → Trace} where
  pub Grows-bind :
      (m : Exec S A) (f : A → Exec S B)
      → Grows log m
      → ((a : A) → Grows log (f a))
      → Grows log (m >>= f)
  unfolding ◌>>=◌
  Grows-bind m f gm gf = record {
    later = λ u s l. let (r, s') = m s in ended u r s' (gm.later u s l);
  }
    where
      ended :
          (u : Trace) (r : Result A) (s : S) → Later u (log s) → Later u (log (continue r f s).1)
      ended u (ok a) s l = (gf a).later u s l
      ended u (raised e) s l = l

module _ {S A : Type 0} {log : S → Trace} where
  pub Grows-attempt : (test : Exn → Bool) (m : Exec S A) → Grows log m → Grows log (attempt test m)
  unfolding attempt
  Grows-attempt test m g =
      Grows-catch test _ _ (Grows-bind m _ g (λ a. Grows-pure (inr a))) (λ e. Grows-pure (inl e))

abbrev pub itself : Trace → Trace
itself t = t

pub sleep-Grows : (ms : ℕ) → Grows itself (sleep ms)
unfolding sleep
sleep-Grows ms = record { later = λ u t l. next-Later u t (slept ms) l }
