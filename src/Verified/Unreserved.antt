-- ===== src/Verified/Unreserved.antt =====
-- `_execute` of `src/writers/verified.py` where the audit log cannot be written.
use pegaprox_plugin_opnsense.Prelude.{
  String, Bool, true, false, Option, some, if◌then◌else◌, ◌&&◌, ◌≡◌, refl, inl, inr, ◌⊎◌,
}
use pegaprox_plugin_opnsense.Value.{Fields}
use pegaprox_plugin_opnsense.Exec.{
  Exn, ok, raised, Result, os_error, is_os_error, pure, attempt, ◌>>=◌,
}
use pegaprox_plugin_opnsense.Exec.Hoare.{
  Ends, Hoare, Hoare-pure, Hoare-gets, Hoare-catch, Hoare-bind, Hoare-weaken,
}
use pegaprox_plugin_opnsense.World.{Env, AuditEntry, Trace}
use pegaprox_plugin_opnsense.Audit.{append, now}
use pegaprox_plugin_opnsense.Verified.Preflight.{Net}
use pegaprox_plugin_opnsense.Verified.Sync.{Writer, is_opnsense_or_os}
use pegaprox_plugin_opnsense.Verified.Report.{Action, is_create, is_rejected, Report, Run, on_wire}
use pegaprox_plugin_opnsense.Verified.Perform.{reserve, perform}
use pegaprox_plugin_opnsense.Verified.Execute.{
  handle, roll_back, keep_entry, close, operate, start, result_of, execute_run,
}

module _ (env : Env) (net : Net) (w : Writer) (why : String)
    (full : (u : Trace) (e : AuditEntry) → env.append u e ≡ some why) (t : Trace) where
  -- Nothing was done since the trace was `t`.
  abbrev Untouched : Run → Type 0
  Untouched s = (s.trace ≡ t) × (s.accepted ≡ false)

  append_fails : (e : AuditEntry) (u : Trace) → append env e u ≡ (raised (os_error why), u)
  unfolding append
  append_fails e u = rw (full u e)

  append-Untouched :
      (e : AuditEntry)
      → Hoare Untouched
          (on_wire (append env e))
          (λ _ _. ⊥)
          (λ x s. (x ≡ os_error why) × Untouched s)
  append-Untouched e = record {
    ends = λ s p. ended s (append env e s.trace) (append_fails e s.trace) p;
  }
    where
      ended :
          (s : Run) (o : Result (Unit {0}) × Trace)
          → o ≡ (raised (os_error why), s.trace)
          → Untouched s
          → Ends {S = Run} {A = Unit {0}}
              (λ _ _. ⊥)
              (λ x s. (x ≡ os_error why) × Untouched s)
              o.0
              (record s { trace = o.1 })
      ended s (ok u, t') e p = cc
      ended s (raised x, t') e p = (cc, (cc, p.1))

  reserve-Untouched :
      (action : Action) (payload : Option Fields)
      → Hoare Untouched
          (reserve env net w action payload)
          (λ _ _. ⊥)
          (λ x s. (x ≡ os_error why) × Untouched s)
  unfolding reserve now
  reserve-Untouched action payload =
      Hoare-bind (λ _ s. Untouched s) _ _ (Hoare-gets _ (λ s p. p))
        (λ i.
          Hoare-bind (λ _ s. Untouched s) _ _ (record { ends = λ s p. p })
            (λ entry. append-Untouched entry))

  perform-Untouched :
      (action : Action) (expected : Option Fields) (revision : String)
      → Hoare Untouched
          (perform env net w action expected revision)
          (λ _ _. ⊥)
          (λ x s. (x ≡ os_error why) × Untouched s)
  unfolding perform
  perform-Untouched action expected revision =
      Hoare-bind (λ _ _. ⊥) _ _ (reserve-Untouched action expected)
        (λ _. record { ends = λ s p. elim p [ ] })

  unaccepted :
      (a b c : Bool)
      → Hoare
          (λ s. Untouched s × (a ≡ false))
          (if a && b && c then roll_back env net w else pure tt)
          (λ _ s. Untouched s)
          (λ _ _. ⊥)
  unaccepted true b c = record { ends = λ s p. cc }
  unaccepted false b c = Hoare-pure tt (λ s p. p.0)

  handle-Untouched :
      (action : Action) (e : Exn)
      → Hoare Untouched (handle env net w action e) (λ _ s. Untouched s) (λ _ _. ⊥)
  unfolding handle
  handle-Untouched action e =
      Hoare-bind (λ _ s. Untouched s) _ _ (record { ends = λ s p. p })
        (λ _.
          Hoare-bind (λ a s. Untouched s × (a ≡ false)) _ _ (Hoare-gets _ (λ s p. (p, p.1)))
            (λ accepted. unaccepted accepted (is_create action) (is_rejected e)))

  -- What the last entry of the audit log leaves behind.
  abbrev Unkept : Run → Type 0
  Unkept s = (s.trace ≡ t) × (s.report.ok_flag ≡ false) × (s.report.error ≡ some "audit")

  attempt_fails :
      (e : AuditEntry) (u : Trace)
      → attempt is_os_error (append env e) u ≡ (ok (inl (os_error why)), u)
  unfolding attempt ◌>>=◌
  attempt_fails e u = rw (append_fails e u)

  attempt-Untouched :
      (e : AuditEntry)
      → Hoare Untouched
          (on_wire (attempt is_os_error (append env e)))
          (λ o s. (o ≡ inl (os_error why)) × Untouched s)
          (λ _ _. ⊥)
  attempt-Untouched e = record {
    ends = λ s p. ended s (attempt is_os_error (append env e) s.trace) (attempt_fails e s.trace) p;
  }
    where
      ended :
          (s : Run) (o : Result (Exn ⊎ Unit {0}) × Trace)
          → o ≡ (ok (inl (os_error why)), s.trace)
          → Untouched s
          → Ends {S = Run} {A = Exn ⊎ Unit {0}}
              (λ o s. (o ≡ inl (os_error why)) × Untouched s)
              (λ _ _. ⊥)
              o.0
              (record s { trace = o.1 })
      ended s (ok u, t') e p = (cc, (cc, p.1))
      ended s (raised x, t') e p = cc

  keep_entry-Unkept :
      (entry : AuditEntry) (o : Exn ⊎ Unit {0})
      → Hoare
          (λ s. (o ≡ inl (os_error why)) × Untouched s)
          (keep_entry env net w entry o)
          (λ _ s. Unkept s)
          (λ _ _. ⊥)
  unfolding keep_entry
  keep_entry-Unkept entry (inr u) = record { ends = λ s p. cc }
  keep_entry-Unkept entry (inl e) = record { ends = λ s p. (p.1.0, refl, refl) }

  close-Unkept :
      (action : Action) (expected : Option Fields) (started : Trace)
      → Hoare Untouched (close env net w action expected started) (λ _ s. Unkept s) (λ _ _. ⊥)
  unfolding close now
  close-Unkept action expected started =
      Hoare-bind (λ _ s. Untouched s) _ _ (Hoare-gets _ (λ s p. p))
        (λ s.
          Hoare-bind (λ _ s. Untouched s) _ _ (record { ends = λ s p. p })
            (λ entry.
              Hoare-bind (λ o s. (o ≡ inl (os_error why)) × Untouched s) _ _
                (attempt-Untouched entry) (λ o. keep_entry-Unkept entry o)))

  operate-Unkept :
      (action : Action) (expected : Option Fields) (revision : String) (started : Trace)
      → Hoare Untouched
          (operate env net w action expected revision started)
          (λ _ s. Unkept s)
          (λ _ _. ⊥)
  unfolding operate
  operate-Unkept action expected revision started =
      Hoare-bind (λ _ s. Untouched s) _ _
        (Hoare-catch (λ x s. (x ≡ os_error why) × Untouched s) is_opnsense_or_os _ _
          (Hoare-weaken _ (λ u s p. elim p [ ]) (λ x s p. p)
            (perform-Untouched action expected revision))
          (λ e _. record { ends = λ s p. (handle-Untouched action e).ends s p.1 })
          (λ e s f p. passed e f p.0))
        (λ _. close-Unkept action expected started)
    where
      passed : (e : Exn) → is_opnsense_or_os e ≡ false → e ≡ os_error why → ⊥
      passed e f p = cc

-- Where the audit log cannot be written, an operation does nothing: no request is sent, no entry is
-- written, and it returns a report that does not say `ok` and names the audit log as its error.
pub execute_run_unreserved :
    (env : Env) (net : Net) (w : Writer) (action : Action) (expected : Option Fields)
    (uuid revision why : String) (t : Trace)
    → ((u : Trace) (e : AuditEntry) → env.append u e ≡ some why)
    → (r : Report) × (r.ok_flag ≡ false)
      × (r.error ≡ some "audit")
      × (execute_run env net w action expected uuid revision t ≡ (ok r, t))
unfolding execute_run
execute_run_unreserved env net w action expected uuid revision why t full =
    given (operate env net w action expected revision t (start env net w uuid t)).0
      (operate env net w action expected revision t (start env net w uuid t)).1
      ((operate-Unkept env net w why full t action expected revision t).ends
        (start env net w uuid t) (refl, refl))
  where
    given :
        (o : Result (Unit {0})) (s : Run)
        → Ends {S = Run} {A = Unit {0}}
            (λ _ s. (s.trace ≡ t) × (s.report.ok_flag ≡ false) × (s.report.error ≡ some "audit"))
            (λ _ _. ⊥)
            o
            s
        → (r : Report) × (r.ok_flag ≡ false)
          × (r.error ≡ some "audit")
          × (result_of env net w o s ≡ (ok r, t))
    given (ok u) s q = (s.report, q.1, q.2, λ i. (ok s.report, q.0 i))
    given (raised x) s q = elim q [ ]
