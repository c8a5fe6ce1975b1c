-- ===== src/Verified/Execute.antt =====
-- `execute` and `_execute` of `src/writers/verified.py`. The lock that serializes the writers of one
-- process is not modelled: a run is one operation from its first step to its last.
use pegaprox_plugin_opnsense.Prelude.{
  String, ◌<>◌, Bool, true, false, ◌&&◌, ◌||◌, Option, none, some, ◌⊎◌, inl, inr, if◌then◌else◌,
}
use pegaprox_plugin_opnsense.Value.{Value, dict, Fields, end}
use pegaprox_plugin_opnsense.Exec.{
  Exn, Result, ok, raised, message, is_opnsense, is_os_error, pure, raise, gets, catch, attempt,
  ◌>>=◌, ◌>>◌,
}
use pegaprox_plugin_opnsense.World.{Env, AuditEntry, Trace, M}
use pegaprox_plugin_opnsense.Client.{Client}
use pegaprox_plugin_opnsense.Audit.{hash_payload, now, append}
use pegaprox_plugin_opnsense.Verified.Checks.{validate_uuid, validate_revision}
use pegaprox_plugin_opnsense.Verified.Reads.{kind_name, base, suffix, verify, post_checked, apply}
use pegaprox_plugin_opnsense.Verified.Preflight.{Net}
use pegaprox_plugin_opnsense.Verified.Sync.{Writer, SyncReport, is_opnsense_or_os, sync}
use pegaprox_plugin_opnsense.Verified.Report.{
  Action, action_name, is_create, Rollback, Report, Run, Op, on_wire, set_report, payload_value,
  initial_report, error_of, validations_of, is_rejected, rollback_value, cleanup_value, create,
  update, delete,
}
use pegaprox_plugin_opnsense.Verified.Perform.{perform}

module _ (env : Env) (net : Net) (w : Writer) where
  abbrev pub set_rollback : (Rollback → Rollback) → Op (Unit {0})
  set_rollback f = set_report (λ r. record r { rollback = f r.rollback })

  abbrev peer_verdict : Option SyncReport → Option Bool
  peer_verdict none = none
  peer_verdict (some s) = some s.verified

  abbrev is_true : Option Bool → Bool
  is_true (some true) = true
  is_true _ = false

  abbrev no_peer : Option Client → Bool
  no_peer none = true
  no_peer (some c) = false

  abbrev peer_note : Option SyncReport → String
  peer_note none = ""
  peer_note (some s) = "; peer: " <> s.detail

  -- The end of the rollback, once the row was deleted and the peer was asked.
  unfoldable pub conclude_rollback : Bool → Option SyncReport → Rollback → Rollback
  conclude_rollback gone peer r =
      let all = gone && (no_peer w.peer || is_true (peer_verdict peer)) in
      record r {
        local_verified = gone;
        peer_verified = peer_verdict peer;
        verified = all;
        detail =
            (if all
              then "Deleted and applied; absence verified on all configured nodes"
              else "Rollback absence not verified on all configured nodes")
            <> peer_note peer;
      }

  -- The `try` of the rollback
  unfoldable pub rollback_steps : Op (Unit {0})
  unfolding conclude_rollback
  rollback_steps = do
    s ← gets (λ (s : Run). s)
    on_wire (
        post_checked env w.kind w.client (base w.kind <> "/del" <> suffix w.kind <> "/" <> s.uuid)
          (dict end) "rollback delete")
    on_wire (apply env w.kind w.client)
    gone ← on_wire (verify env w.kind s.uuid none w.client)
    set_rollback (λ r. record r { local_verified = gone })
    done ← on_wire (sync env net w s.uuid none s.plan s.peer_revision)
    set_rollback (conclude_rollback gone done)

  -- The rollback of a create
  unfoldable pub roll_back : Op (Unit {0})
  unfolding rollback_steps
  roll_back = do
    set_rollback (λ r. record r { attempted = true })
    catch is_opnsense rollback_steps (λ e. set_rollback (λ r. record r { detail = message e }))

  -- The `except` of `_execute`
  unfoldable pub handle : Action → Exn → Op (Unit {0})
  unfolding roll_back error_of
  handle action e = do
    set_report (λ r. record r {
      error = some (error_of e);
      detail = message e;
      validations = validations_of e;
      rollback = record r.rollback {
        detail = "Not attempted; inspect current configuration before retrying";
      };
    })
    accepted ← gets (λ (s : Run). s.accepted)
    if accepted && is_create action && is_rejected e then roll_back else pure tt

module _ (env : Env) (net : Net) (w : Writer) where
  cleanup_note : Option SyncReport → String
  cleanup_note none = ""
  cleanup_note (some s) = elim s.peer_cleanup [
    | none ↦ ""
    | some c ↦ "; peer_cleanup=" <> env.repr (cleanup_value c)
  ]

  -- The detail of the last audit entry
  unfoldable pub audit_detail : Report → String
  unfolding cleanup_note rollback_value cleanup_value
  audit_detail r =
      r.detail
      <> (if r.rollback.attempted
          then "; rollback=" <> env.repr (rollback_value r.rollback)
          else "")
      <> cleanup_note r.sync_report

  -- The last audit entry is kept, or makes the result a failure.
  unfoldable pub keep_entry : AuditEntry → Exn ⊎ Unit {0} → Op (Unit {0})
  keep_entry entry (inr _) = set_report (λ r. record r { audit = some entry })
  keep_entry entry (inl e) = set_report (λ r. record r {
    ok_flag = false;
    error = some "audit";
    detail = r.detail <> "; audit persistence failed";
  })

  -- The end of `_execute`; `started` is the trace at its beginning.
  unfoldable pub close : Action → Option Fields → Trace → Op (Unit {0})
  unfolding audit_detail keep_entry
  close action expected started = do
    s ← gets (λ (s : Run). s)
    entry ← on_wire (
        now env w.actor (kind_name w.kind <> "." <> action_name action) s.uuid w.client.host.name
          (if s.report.ok_flag then "ok" else "error") (env.elapsed_ms started s.trace)
          (audit_detail s.report) (hash_payload env (payload_value w.kind expected)))
    written ← on_wire (attempt is_os_error (append env entry))
    keep_entry entry written

  -- `_execute` as a run: the `try` with its handler, and the end.
  unfoldable pub operate : Action → Option Fields → (revision : String) → Trace → Op (Unit {0})
  unfolding close
  operate action expected revision started = do
    catch is_opnsense_or_os (perform env net w action expected revision) (handle env net w action)
    close action expected started

  abbrev pub start : String → Trace → Run
  start uuid t = record {
    trace = t;
    uuid = uuid;
    accepted = false;
    plan = none;
    peer_revision = none;
    report = initial_report uuid;
  }

  abbrev pub result_of : Result (Unit {0}) → Run → Result Report × Trace
  result_of (ok _) s = (ok s.report, s.trace)
  result_of (raised e) s = (raised e, s.trace)

  -- `_execute`
  unfoldable pub execute_run : Action → Option Fields → (uuid revision : String) → M Report
  unfolding operate
  execute_run action expected uuid revision t =
      let (r, s) = operate action expected revision t (start uuid t) in result_of r s

  -- The uuid and the revision of an update or a delete, checked before anything else.
  unfoldable pub execute_checked : Action → Option Fields → Result String → Result String → M Report
  unfolding execute_run
  execute_checked action expected (raised e) revision = raise e
  execute_checked action expected (ok uuid) (raised e) = raise e
  execute_checked action expected (ok uuid) (ok revision) =
      execute_run action expected uuid revision

  -- `execute`; a create has the uuid `""` that is its default.
  unfoldable pub execute : Action → Option Fields → (uuid revision : Value) → M Report
  unfolding execute_checked
  execute create expected uuid revision = execute_run create expected "" ""
  execute update expected uuid revision =
      execute_checked update expected (validate_uuid uuid) (validate_revision revision)
  execute delete expected uuid revision =
      execute_checked delete expected (validate_uuid uuid) (validate_revision revision)
