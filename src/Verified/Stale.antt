-- ===== src/Verified/Stale.antt =====
-- `_execute` of `src/writers/verified.py` on an object that changed since it was loaded, and without
-- an audit log.
use mathlib.Core.Path.{subst}
use pegaprox_plugin_opnsense.Prelude.{
  ℕ, String, Bool, true, false, Option, arith, if◌then◌else◌, ◌&&◌, ◌≡◌, refl, inl, inr, ◌⊎◌, ◌==◌,
}
use pegaprox_plugin_opnsense.Value.{Value, Fields}
use pegaprox_plugin_opnsense.Exec.{
  Exn, ok, raised, Result, conflict, is_os_error, pure, ◌>>=◌, ◌>>◌,
}
use pegaprox_plugin_opnsense.Exec.Costs.{Costs, Costs-attempt}
use pegaprox_plugin_opnsense.Exec.Hoare.{
  Ends, Hoare, Hoare-pure, Hoare-gets, Hoare-if, Hoare-catch, Hoare-bind, Hoare-weaken,
}
use pegaprox_plugin_opnsense.World.{Env, AuditEntry, Trace, M}
use pegaprox_plugin_opnsense.Client.Posts.{posts}
use pegaprox_plugin_opnsense.Audit.{hash_payload}
use pegaprox_plugin_opnsense.Verified.Reads.{get_object}
use pegaprox_plugin_opnsense.Verified.Preflight.{Net}
use pegaprox_plugin_opnsense.Verified.Sync.{Writer, is_opnsense_or_os, require}
use pegaprox_plugin_opnsense.Verified.Report.{
  Action, is_create, is_rejected, Report, Run, Op, on_wire,
}
use pegaprox_plugin_opnsense.Verified.Perform.{reserve, compare_revision, peer_check, perform}
use pegaprox_plugin_opnsense.Verified.Execute.{
  handle, keep_entry, roll_back, close, operate, start, result_of, execute_run,
}
use pegaprox_plugin_opnsense.Verified.Posts.{now-Costs, append-Costs, get_object-Costs}
use pegaprox_plugin_opnsense.Verified.SyncPosts.{sync_preflight-Costs}

module _ (n : ℕ) (uuid : String) where
  -- No POST was sent since there were `n`, the change was not accepted, and nothing says `ok`.
  abbrev Quiet : Run → Type 0
  Quiet s =
      (posts s.trace ≡ n) × (s.accepted ≡ false) × (s.report.ok_flag ≡ false) × (s.uuid ≡ uuid)

  -- What a read gave, it gave at some trace.
  wire_quiet :
      {A : Type 0} (m : M A)
      → Costs posts 0 m
      → Hoare Quiet (on_wire m) (λ a s. Quiet s × ((u : Trace) × ((m u).0 ≡ ok a))) (λ _ s. Quiet s)
  wire_quiet {A} m c = record {
    ends = λ s p. kept s (m s.trace).0 (m s.trace).1 refl (level s p.0) p;
  }
    where
      level : (s : Run) → posts s.trace ≡ n → posts (m s.trace).1 ≡ n
      level s e = omega (arith, c.above s.trace, c.below s.trace)

      kept :
          (s : Run) (r : Result A) (t : Trace)
          → (m s.trace).0 ≡ r
          → posts t ≡ n
          → Quiet s
          → Ends {S = Run} {A = A}
              (λ a s. Quiet s × ((u : Trace) × ((m u).0 ≡ ok a)))
              (λ _ s. Quiet s)
              r
              (record s { trace = t })
      kept s (ok a) t e l p = ((l, p.1, p.2, p.3), (s.trace, e))
      kept s (raised x) t e l p = (l, p.1, p.2, p.3)

  still_quiet :
      {A : Type 0} (m : M A)
      → Costs posts 0 m
      → Hoare Quiet (on_wire m) (λ _ s. Quiet s) (λ _ s. Quiet s)
  still_quiet m c = Hoare-weaken (on_wire m) (λ a s p. p.0) (λ e s p. p) (wire_quiet m c)

  onward :
      {A B : Type 0} {Good : B → Run → Type 0} (m : Op A) (f : A → Op B)
      → Hoare Quiet m (λ _ s. Quiet s) (λ _ s. Quiet s)
      → ((a : A) → Hoare Quiet (f a) Good (λ _ s. Quiet s))
      → Hoare Quiet (m >>= f) Good (λ _ s. Quiet s)
  onward m f hm hf = Hoare-bind (λ _ s. Quiet s) m f hm hf

  module _ (env : Env) (net : Net) (w : Writer) where
    reserve-Quiet :
        (action : Action) (payload : Option Fields)
        → Hoare Quiet (reserve env net w action payload) (λ _ s. Quiet s) (λ _ s. Quiet s)
    unfolding reserve
    reserve-Quiet action payload = onward _ _ (Hoare-gets _ (λ s p. p)) (λ u.
        onward _ _ (still_quiet _ (now-Costs env _ _ _ _ _ _ _ _))
          (λ entry. still_quiet _ (append-Costs env entry)))

    refused :
        (b : Bool) (e : Exn) (f : Unit {0} → Op (Unit {0}))
        → b ≡ false
        → Hoare Quiet (on_wire (require b e) >>= f) (λ _ _. ⊥) (λ _ s. Quiet s)
    unfolding ◌>>=◌
    refused true e f h = cc
    refused false e f h = record { ends = λ s p. p }

    module _ (revision : String)
        (stale : (u : Trace) (v : Value)
          → (get_object env w.kind uuid w.client u).0 ≡ ok v
          → (hash_payload env v == revision) ≡ false) where
      compare_revision-Quiet :
          (action : Action)
          → Hoare Quiet (compare_revision env net w action revision) (λ _ _. ⊥) (λ _ s. Quiet s)
      unfolding compare_revision
      compare_revision-Quiet action =
          Hoare-bind (λ i s. Quiet s × (i ≡ uuid)) _ _ (Hoare-gets _ (λ s p. (p, p.3)))
            (λ i. record { ends = λ s p. (compared i p.1).ends s p.0 })
        where
          compared :
              (i : String)
              → i ≡ uuid
              → Hoare Quiet
                  (do
                    current ← on_wire (get_object env w.kind i w.client)
                    on_wire (
                        require (hash_payload env current == revision) (
                          conflict
                            "Configuration changed since it was loaded; refresh before editing or deleting"))
                    peer_check env net w action i revision w.peer)
                  (λ _ _. ⊥)
                  (λ _ s. Quiet s)
          compared i e =
              Hoare-bind (λ v s. Quiet s × ((hash_payload env v == revision) ≡ false)) _ _
                (Hoare-weaken _
                  (λ v s p. (
                    p.0,
                    stale p.1.0 v
                        (subst (λ j. (get_object env w.kind j w.client p.1.0).0 ≡ ok v) e p.1.1),
                  ))
                  (λ x s p. p) (wire_quiet _ (get_object-Costs env w.kind i w.client)))
                (λ v. record {
                  ends = λ s p. (refused (hash_payload env v == revision) _ _ p.1).ends s p.0;
                })

      module _ (action : Action) (no_create : is_create action ≡ false)
          (expected : Option Fields) where
        perform-Quiet :
            Hoare Quiet (perform env net w action expected revision) (λ _ _. ⊥) (λ _ s. Quiet s)
        unfolding perform
        perform-Quiet = onward _ _ (reserve-Quiet action expected) (λ _.
            onward _ _ (still_quiet _ (sync_preflight-Costs env net w)) (λ plan.
              onward _ _ (record { ends = λ s p. p })
                (λ _.
                  Hoare-bind (λ _ _. ⊥) _ _
                    (Hoare-if (is_create action) _ _ (λ c. absurd_create c)
                      (λ _. compare_revision-Quiet action))
                    (λ _. record { ends = λ s p. elim p [ ] }))))
          where
            absurd_create :
                is_create action ≡ true → Hoare Quiet (pure tt) (λ _ _. ⊥) (λ _ s. Quiet s)
            absurd_create c = cc

        handled :
            (b : Bool)
            → b ≡ false
            → Hoare Quiet
                (if b then roll_back env net w else pure tt)
                (λ _ s. Quiet s)
                (λ _ s. Quiet s)
        handled b e = Hoare-if b _ _ (λ t. cc) (λ _. Hoare-pure tt (λ s p. p))

        no_rollback : (a c : Bool) → (a && is_create action && c) ≡ false
        no_rollback true c = rw no_create
        no_rollback false c = refl

        handle-Quiet :
            (e : Exn) → Hoare Quiet (handle env net w action e) (λ _ s. Quiet s) (λ _ s. Quiet s)
        unfolding handle
        handle-Quiet e =
            onward _ _ (record { ends = λ s p. p })
              (λ _. onward _ _ (Hoare-gets _ (λ s p. p)) (λ accepted.
                handled (accepted && is_create action && is_rejected e)
                  (no_rollback accepted (is_rejected e))))

        close-Quiet :
            (started : Trace)
            → Hoare Quiet
                (close env net w action expected started)
                (λ _ s. Quiet s)
                (λ _ s. Quiet s)
        unfolding close
        close-Quiet started = onward _ _ (Hoare-gets _ (λ s p. p)) (λ s.
            onward _ _ (still_quiet _ (now-Costs env _ _ _ _ _ _ _ _)) (λ entry.
              onward _ _ (still_quiet _ (Costs-attempt is_os_error _ 0 (append-Costs env entry)))
                (λ written. kept entry written)))
          where
            kept :
                (entry : AuditEntry) (written : Exn ⊎ Unit {0})
                → Hoare Quiet (keep_entry env net w entry written) (λ _ s. Quiet s) (λ _ s. Quiet s)
            kept entry (inr u) = record { ends = λ s p. p }
            kept entry (inl e) = record { ends = λ s p. (p.0, p.1, refl, p.3) }

        operate-Quiet :
            (started : Trace)
            → Hoare Quiet
                (operate env net w action expected revision started)
                (λ _ s. Quiet s)
                (λ _ s. Quiet s)
        unfolding operate
        operate-Quiet started =
            onward _ _
              (Hoare-catch (λ _ s. Quiet s) is_opnsense_or_os _ _
                (Hoare-weaken _ (λ u s p. elim p [ ]) (λ e s p. p) perform-Quiet)
                (λ e _. handle-Quiet e) (λ e s _ p. p))
              (λ _. close-Quiet started)

module _ (env : Env) (net : Net) (w : Writer) (action : Action) (expected : Option Fields)
    (uuid revision : String) (t : Trace) (no_create : is_create action ≡ false)
    (stale : (u : Trace) (v : Value)
      → (get_object env w.kind uuid w.client u).0 ≡ ok v
      → (hash_payload env v == revision) ≡ false) where
  execute_run-Quiet :
      Ends {S = Run} {A = Unit {0}}
        (λ _ s. Quiet (posts t) uuid s)
        (λ _ s. Quiet (posts t) uuid s)
        (operate env net w action expected revision t (start env net w uuid t)).0
        (operate env net w action expected revision t (start env net w uuid t)).1
  execute_run-Quiet =
      (operate-Quiet (posts t) uuid env net w revision stale action no_create expected t).ends
        (start env net w uuid t) (refl, refl, refl, refl)

  -- An update or a delete of an object that changed since it was loaded (whenever it is read,
  -- its hash is not the revision that the operation names) sends no POST.
  pub execute_run_stale : posts (execute_run env net w action expected uuid revision t).1 ≡ posts t
  unfolding execute_run
  execute_run_stale =
      given (operate env net w action expected revision t (start env net w uuid t)).0
        (operate env net w action expected revision t (start env net w uuid t)).1 execute_run-Quiet
    where
      given :
          (o : Result (Unit {0})) (s : Run)
          → Ends {S = Run} {A = Unit {0}}
              (λ _ s. Quiet (posts t) uuid s)
              (λ _ s. Quiet (posts t) uuid s)
              o
              s
          → posts (result_of env net w o s).1 ≡ posts t
      given (ok u) s q = q.0
      given (raised x) s q = q.0

  -- A report of such an update or delete, of an object that changed since it was loaded, does not say
  -- `ok`.
  pub execute_run_stale_refused :
      (r : Report)
      → (execute_run env net w action expected uuid revision t).0 ≡ ok r
      → r.ok_flag ≡ false
  unfolding execute_run
  execute_run_stale_refused r e =
      given (operate env net w action expected revision t (start env net w uuid t)).0
        (operate env net w action expected revision t (start env net w uuid t)).1 execute_run-Quiet
        e
    where
      given :
          (o : Result (Unit {0})) (s : Run)
          → Ends {S = Run} {A = Unit {0}}
              (λ _ s. Quiet (posts t) uuid s)
              (λ _ s. Quiet (posts t) uuid s)
              o
              s
          → (result_of env net w o s).0 ≡ ok r
          → r.ok_flag ≡ false
      given (ok u) s q e = cc
      given (raised x) s q e = cc
