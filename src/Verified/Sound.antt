-- ===== src/Verified/Sound.antt =====
-- What the report that `_execute` of `src/writers/verified.py` returns rests on.
use mathlib.Core.Path.{subst}
use pegaprox_plugin_opnsense.Prelude.{
  String, ◌≡◌, refl, Bool, true, false, Option, some, inl, inr, ◌⊎◌, if◌then◌else◌, ◌&&◌,
  Bool-cases,
}
use pegaprox_plugin_opnsense.Value.{Fields}
use pegaprox_plugin_opnsense.Exec.{Exn, Result, ok, raised, pure, is_os_error, ◌>>=◌}
use pegaprox_plugin_opnsense.Exec.Hoare.{
  Ends, Hoare, Hoare-pure, Hoare-gets, Hoare-catch, Hoare-bind, Hoare-weaken,
}
use pegaprox_plugin_opnsense.World.Grows.{here-Later, Grows, itself, Grows-attempt}
use pegaprox_plugin_opnsense.Verified.Growth.{now-Grows, append-Grows}
use pegaprox_plugin_opnsense.World.{Env, AuditEntry, Trace, M}
use pegaprox_plugin_opnsense.Verified.Preflight.{Net}
use pegaprox_plugin_opnsense.Verified.Sync.{Writer, is_opnsense_or_os}
use pegaprox_plugin_opnsense.Verified.Report.{
  Action, is_create, is_rejected, Report, Run, Op, on_wire, error_of,
}
use pegaprox_plugin_opnsense.Verified.Execute.{
  rollback_steps, roll_back, handle, keep_entry, close, operate, start, result_of, execute_run,
}
use pegaprox_plugin_opnsense.Verified.Pending.{Pending, wire_keeps}
use pegaprox_plugin_opnsense.Verified.Settled.{Backed, Settled, Settled-Later, perform-Settled}

-- The run has raised, and the report says so.
abbrev Failed : Run → Type 0
Failed s = (s.report.ok_flag ≡ false) × ((m : String) × (s.report.error ≡ some m))

wire-Failed : {A : Type 0} (m : M A) → Hoare Failed (on_wire m) (λ _ s. Failed s) (λ _ s. Failed s)
wire-Failed m = record { ends = λ s p. kept s (m s.trace).0 (m s.trace).1 p }
  where
    kept :
        {A : Type 0} (s : Run) (r : Result A) (t : Trace)
        → Failed s
        → Ends {S = Run} {A = A} (λ _ s. Failed s) (λ _ s. Failed s) r (record s { trace = t })
    kept s (ok a) t p = p
    kept s (raised e) t p = p

module _ (env : Env) (net : Net) (w : Writer) where
  failing :
      {A B : Type 0} (m : Op A) (f : A → Op B)
      → Hoare Failed m (λ _ s. Failed s) (λ _ s. Failed s)
      → ((a : A) → Hoare Failed (f a) (λ _ s. Failed s) (λ _ s. Failed s))
      → Hoare Failed (m >>= f) (λ _ s. Failed s) (λ _ s. Failed s)
  failing m f hm hf = Hoare-bind (λ _ s. Failed s) m f hm hf

  rollback_steps-Failed :
      Hoare Failed (rollback_steps env net w) (λ _ s. Failed s) (λ _ s. Failed s)
  unfolding rollback_steps
  rollback_steps-Failed = failing _ _ (Hoare-gets _ (λ s p. p)) (λ x.
      failing _ _ (wire-Failed _) (λ _. failing _ _ (wire-Failed _) (λ _.
        failing _ _ (wire-Failed _) (λ gone.
          failing _ _ (record { ends = λ s p. p })
            (λ _. failing _ _ (wire-Failed _) (λ done. record { ends = λ s p. p }))))))

  roll_back-Failed : Hoare Failed (roll_back env net w) (λ _ s. Failed s) (λ _ s. Failed s)
  unfolding roll_back
  roll_back-Failed =
      failing _ _ (record { ends = λ s p. p })
        (λ _.
          Hoare-catch (λ _ s. Failed s) _ _ _ rollback_steps-Failed
            (λ e _. record { ends = λ s p. p }) (λ e s _ p. p))

  module _ (begin : Trace) (action : Action) (expected : Option Fields) where
    failed :
        (b : Bool) (s : Run)
        → Failed s
        → (s.report.rollback.attempted ≡ true → b ≡ true)
        → (b ≡ true → is_create action ≡ true)
        → Settled env w begin expected action s.report s.trace
    failed b s p r c = ((λ t. cc), (λ _. p.1), (λ t. c (r t)))

    -- A failure before any rollback.
    abbrev Unrolled : Run → Type 0
    Unrolled s = Failed s × (s.report.rollback.attempted ≡ false)

    handled :
        (b : Bool)
        → (b ≡ true → is_create action ≡ true)
        → Hoare Unrolled
            (if b then roll_back env net w else pure tt)
            (λ _ s. Settled env w begin expected action s.report s.trace)
            (λ _ s. Settled env w begin expected action s.report s.trace)
    handled true c = record {
      ends = λ s p.
          ended (roll_back env net w s).0 (roll_back env net w s).1 (roll_back-Failed.ends s p.0);
    }
      where
        ended :
            (r : Result (Unit {0})) (s : Run)
            → Ends {S = Run} {A = Unit {0}} (λ _ s. Failed s) (λ _ s. Failed s) r s
            → Ends {S = Run} {A = Unit {0}}
                (λ _ s. Settled env w begin expected action s.report s.trace)
                (λ _ s. Settled env w begin expected action s.report s.trace)
                r
                s
        ended (ok u) s q = failed true s q (λ _. refl) c
        ended (raised e) s q = failed true s q (λ _. refl) c
    handled false c = Hoare-pure tt (λ s p. failed false s p.0 (λ t. cc) c)

    both : (a b c : Bool) → (a && b && c) ≡ true → b ≡ true
    both true true c h = refl
    both true false c h = h
    both false b c h = cc

    handle-Settled :
        (e : Exn)
        → Hoare
            (Pending begin)
            (handle env net w action e)
            (λ _ s. Settled env w begin expected action s.report s.trace)
            (λ _ s. Settled env w begin expected action s.report s.trace)
    unfolding handle
    handle-Settled e =
        Hoare-bind (λ _ s. Unrolled s) _ _
          (record { ends = λ s p. ((p.0, (error_of e, refl)), p.2) })
          (λ _.
            Hoare-bind (λ _ s. Unrolled s) _ _ (Hoare-gets _ (λ s p. p))
              (λ accepted.
                handled (accepted && is_create action && is_rejected e)
                  (both accepted (is_create action) (is_rejected e))))

module _ (env : Env) (net : Net) (w : Writer) (begin : Trace) (action : Action)
    (expected : Option Fields) where
  abbrev Closing : Run → Type 0
  Closing s = Settled env w begin expected action s.report s.trace

  keep_entry-Sound :
      (entry : AuditEntry) (written : Exn ⊎ Unit {0})
      → Hoare Closing
          (keep_entry env net w entry written)
          (λ _ s.
            Closing s × (s.report.ok_flag ≡ true → (e : AuditEntry) × (s.report.audit ≡ some e)))
          (λ _ _. Unit {0})
  unfolding keep_entry
  keep_entry-Sound entry (inr u) = record { ends = λ s p. (p, λ _. (entry, refl)) }
  keep_entry-Sound entry (inl e) = record {
    ends = λ s p. (((λ f. cc), (λ _. ("audit", refl)), p.2), λ f. cc);
  }

  wire-Closing :
      {A : Type 0} (m : M A)
      → Grows itself m
      → Hoare Closing (on_wire m) (λ _ s. Closing s) (λ _ _. Unit {0})
  wire-Closing m g =
      Hoare-weaken (on_wire m) (λ a s p. p) (λ e s p. tt)
        (wire_keeps Closing
          (λ s t l p. Settled-Later env w begin expected action s.report s.trace t l p) m g)

  -- The report of a run and the entry of the audit log that it names, at the trace `t`.
  abbrev pub IsSound : Report → Trace → Type 0
  IsSound r t =
      Settled env w begin expected action r t
      × (r.ok_flag ≡ true → (e : AuditEntry) × (r.audit ≡ some e))

  close-IsSound :
      (started : Trace)
      → Hoare Closing
          (close env net w action expected started)
          (λ _ s. IsSound s.report s.trace)
          (λ _ _. Unit {0})
  unfolding close
  close-IsSound started =
      Hoare-bind (λ _ s. Closing s) _ _ (Hoare-gets _ (λ s p. p))
        (λ x.
          Hoare-bind (λ _ s. Closing s) _ _ (wire-Closing _ (now-Grows env _ _ _ _ _ _ _ _))
            (λ entry.
              Hoare-bind (λ _ s. Closing s) _ _
                (wire-Closing _ (Grows-attempt is_os_error _ (append-Grows env entry)))
                (λ written. keep_entry-Sound entry written)))

  operate-IsSound :
      (revision : String) (started : Trace)
      → Hoare
          (Pending begin)
          (operate env net w action expected revision started)
          (λ _ s. IsSound s.report s.trace)
          (λ _ _. Unit {0})
  unfolding operate
  operate-IsSound revision started =
      Hoare-bind (λ _ s. Closing s) _ _
        (Hoare-catch (λ _ s. Pending begin s) is_opnsense_or_os _ _
          (perform-Settled env net w begin action expected revision)
          (λ e _.
            Hoare-weaken _ (λ u s p. p) (λ x s p. tt)
              (handle-Settled env net w begin action expected e))
          (λ e s _ p. tt))
        (λ _. close-IsSound started)

module _ (env : Env) (net : Net) (w : Writer) (action : Action) (expected : Option Fields)
    (uuid revision : String) (t : Trace) (r : Report)
    (returned : (execute_run env net w action expected uuid revision t).0 ≡ ok r) where
  -- The trace at the end of the run.
  abbrev done : Trace
  done = (execute_run env net w action expected uuid revision t).1

  -- Every report is sound.
  execute_run-IsSound : IsSound env net w t action expected r done
  unfolding execute_run
  execute_run-IsSound =
      given (operate env net w action expected revision t (start env net w uuid t)).0
        (operate env net w action expected revision t (start env net w uuid t)).1
        ((operate-IsSound env net w t action expected revision t).ends (start env net w uuid t)
          (refl, refl, refl, refl, here-Later t))
        returned
    where
      given :
          (o : Result (Unit {0})) (s : Run)
          → Ends {S = Run} {A = Unit {0}}
              (λ _ s. IsSound env net w t action expected s.report s.trace)
              (λ _ _. Unit {0})
              o
              s
          → (result_of env net w o s).0 ≡ ok r
          → IsSound env net w t action expected r (result_of env net w o s).1
      given (ok u) s q f =
          let same : s.report ≡ r = cc in
          subst (λ x. IsSound env net w t action expected x s.trace) same q
      given (raised x) s q f = cc

  -- A report of a create, an update or a delete that says `ok` has no error and no rollback, says
  -- that the change was applied and verified, and names its entry of the audit log; and in the run a
  -- read of the firewall showed the object as it is expected, which is that it is gone after a
  -- delete, and so did a read of the peer, where there is a peer.
  pub execute_run-Backed :
      r.ok_flag ≡ true
      → Backed env w t expected r (execute_run env net w action expected uuid revision t).1
        × ((e : AuditEntry) × (r.audit ≡ some e))
  execute_run-Backed f = (execute_run-IsSound.0.0 f, execute_run-IsSound.1 f)

  -- A report that does not say `ok` names an error.
  pub execute_run_failed : r.ok_flag ≡ false → (m : String) × (r.error ≡ some m)
  execute_run_failed f = execute_run-IsSound.0.1 f

  -- A report that says that a rollback was attempted is one of a create that failed, and names an
  -- error.
  pub execute_run_rolled_back :
      r.rollback.attempted ≡ true
      → (is_create action ≡ true) × (r.ok_flag ≡ false) × ((m : String) × (r.error ≡ some m))
  execute_run_rolled_back f = elim (Bool-cases r.ok_flag) [
    | inl yes_ ↦ let q = execute_run-IsSound.0.0 yes_ in cc q.3
    | inr no_ ↦ (execute_run-IsSound.0.2 f, no_, execute_run-IsSound.0.1 no_)
  ]
