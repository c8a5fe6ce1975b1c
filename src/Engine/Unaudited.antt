-- ===== src/Engine/Unaudited.antt =====
-- `mutate` of `src/management/engine.py` where the audit log cannot be written.
use pegaprox_plugin_opnsense.Prelude.{
  String, ◌<>◌, Bool, true, false, ◌&&◌, not, Option, some, if◌then◌else◌, ℤ, ◌≡◌, refl,
}
use pegaprox_plugin_opnsense.Value.{Value, null, Fields, fields_of, get_or, dict, end}
use pegaprox_plugin_opnsense.Exec.{
  Exn, Result, ok, raised, continue, raise, gets, catch, is_os_error, ◌>>=◌, ◌>>◌,
}
use pegaprox_plugin_opnsense.World.{Env, Trace, M, AuditEntry}
use pegaprox_plugin_opnsense.Client.Posts.{posts}
use pegaprox_plugin_opnsense.Audit.{hash_payload, now, append}
use pegaprox_plugin_opnsense.Engine.{Action, action_name, Spec, refusal}
use pegaprox_plugin_opnsense.Engine.Replies.{selected}
use pegaprox_plugin_opnsense.Engine.Service.{given, raw, audit}
use pegaprox_plugin_opnsense.Engine.Scan.{Service}
use pegaprox_plugin_opnsense.Engine.Change.{note, attempt_change, payload_of}
use pegaprox_plugin_opnsense.Engine.Mutate.{
  admitted, has_peer, refuse_stale, expected_of, mutate_locked, mutate,
}
use pegaprox_plugin_opnsense.Engine.Stale.{raw-posts}

module _ (env : Env) (truncated : String → ℤ) (service : Service) (spec : Spec) where
  abbrev unwritten : Result (Unit {0})
  unwritten = raised (refusal "audit" "No se pudo persistir la auditoría." 503)

  -- A note that cannot be written is an error, and leaves everything as it was.
  note_fails :
      (action : Action) (uuid result : String) (payload : Value) (started t : Trace)
      → ((entry : AuditEntry) → (why : String) × (env.append t entry ≡ some why))
      → note env truncated service spec action uuid result payload started t ≡ (unwritten, t)
  unfolding note audit ◌>>=◌ gets catch raise append now
  note_fails action uuid result payload started t full = with_log service.has_log
    where
      entry : AuditEntry
      entry = record {
        ts = env.utc_iso t;
        user = service.actor;
        action = spec.id <> "." <> action_name action;
        target = uuid;
        host = service.client.host.name;
        result = result;
        duration_ms = env.elapsed_ms started t;
        detail = "";
        payload_sha256 = hash_payload env payload;
      }

      with_log :
          (b : Bool)
          → (if b
                then catch is_os_error
                    (append env entry)
                    (λ e. raise (refusal "audit" "No se pudo persistir la auditoría." 503))
                else raise (refusal "audit" "No se pudo persistir la auditoría." 503))
              t
            ≡ (unwritten, t)
      with_log true = let (why, e) = full entry in rw e refl
      with_log false = refl

  module _ (action : Action) (body : Fields) (uuid revision : String) (t : Trace)
      (full : (u : Trace) (entry : AuditEntry)
        → (why : String) × (env.append u entry ≡ some why)) where
    abbrev Nothing : Result Fields × Trace → Type 0
    Nothing (r, u) = ((e : Exn) × (r ≡ raised e)) × (posts u ≡ posts t)

    noted :
        (u : Trace) (expected : Option Value)
        → posts u ≡ posts t
        → Nothing (
            (do
              note env truncated service spec action uuid "started" (payload_of spec expected) t
              attempt_change env truncated service spec action uuid
                  (get_or "values" (dict end) body)
                  expected
                  (payload_of spec expected)
                  t)
              u)
    unfolding ◌>>=◌
    noted u expected e =
        rw (note_fails action uuid "started" (payload_of spec expected) t u (full u))
          ((refusal "audit" "No se pudo persistir la auditoría." 503, refl), e)

    wanted :
        (r : Result (Option Value)) (u : Trace)
        → posts u ≡ posts t
        → Nothing (
            continue r
              (λ expected. do
                note env truncated service spec action uuid "started" (payload_of spec expected) t
                attempt_change env truncated service spec action uuid
                    (get_or "values" (dict end) body)
                    expected
                    (payload_of spec expected)
                    t)
              u)
    wanted (ok expected) u e = noted u expected e
    wanted (raised x) u e = ((x, refl), e)

    -- What follows the read of the object
    abbrev rest : Value → M Fields
    rest object = do
      given (refuse_stale env truncated service spec action (selected env.repr object) revision)
      expected ← given (
          expected_of env truncated service spec action (get_or "values" null body)
            (selected env.repr object))
      note env truncated service spec action uuid "started" (payload_of spec expected) t
      attempt_change env truncated service spec action uuid (get_or "values" (dict end) body)
          expected (payload_of spec expected) t

    rest_unaudited : (object : Value) (u : Trace) → posts u ≡ posts t → Nothing (rest object u)
    unfolding ◌>>=◌
    rest_unaudited object u e =
        fresh _ (refuse_stale env truncated service spec action (selected env.repr object) revision)
          (wanted
            (expected_of env truncated service spec action (get_or "values" null body)
              (selected env.repr object))
            u e)
      where
        fresh :
            (f : Unit {0} → M Fields) (r : Result (Unit {0}))
            → Nothing (f tt u)
            → Nothing (continue r f u)
        fresh f (ok done) h = h
        fresh f (raised x) h = ((x, refl), e)

    mutate_locked_unaudited :
        Nothing (mutate_locked env truncated service spec action body uuid revision t)
    unfolding mutate_locked ◌>>=◌ gets
    mutate_locked_unaudited =
        read (raw env truncated service.client spec uuid t)
          (raw-posts env truncated service spec uuid t)
      where
        read : (p : Result Value × Trace) → posts p.1 ≡ posts t → Nothing (continue p.0 rest p.1)
        read (ok object, u) e = rest_unaudited object u e
        read (raised x, u) e = ((x, refl), e)

  abbrev go : Value → Result (Action × String × String) → M Fields
  go body r = do
    plan ← given r
    mutate_locked env truncated service spec plan.0 (fields_of body) plan.1 plan.2

  -- Where the audit log cannot be written, a change raises and sends no POST.
  pub mutate_unaudited :
      (body : Value) (t : Trace)
      → ((u : Trace) (entry : AuditEntry) → (why : String) × (env.append u entry ≡ some why))
      → ((e : Exn) × ((mutate env truncated service spec body t).0 ≡ raised e))
        × (posts (mutate env truncated service spec body t).1 ≡ posts t)
  unfolding mutate ◌>>=◌ raise
  mutate_unaudited body t full =
      gated (has_peer service.peer && not spec.ha_safe) (admitted env truncated service spec body)
    where
      planned :
          (r : Result (Action × String × String))
          → ((e : Exn) × ((go body r t).0 ≡ raised e)) × (posts (go body r t).1 ≡ posts t)
      planned (ok (action, uuid, revision)) =
          mutate_locked_unaudited action (fields_of body) uuid revision t full
      planned (raised x) = ((x, refl), refl)

      gated :
          (b : Bool) (r : Result (Action × String × String))
          → ((e : Exn) × (((if b
                    then raise (
                        refusal "ha_unqualified" "Este módulo aún no tiene escritura HA verificada."
                          409)
                    else go body r)
                  t).0
                ≡ raised e))
            × (posts
                  ((if b
                      then raise (
                          refusal "ha_unqualified"
                            "Este módulo aún no tiene escritura HA verificada." 409)
                      else go body r)
                    t).1
                ≡ posts t)
      gated true r = ((_, refl), refl)
      gated false r = planned r
