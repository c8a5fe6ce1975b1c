-- ===== src/Engine/Mutate.antt =====
-- `mutate` and `_mutate` of `src/management/engine.py`. The lock that keeps two changes of one
-- resource apart is not modelled.
use pegaprox_plugin_opnsense.Prelude.{
  String, Bool, true, false, ◌&&◌, not, Option, none, some, if◌then◌else◌, ◌==◌, ℤ,
}
use pegaprox_plugin_opnsense.Value.{Value, null, str, dict, Fields, end, get_or, fields_of}
use pegaprox_plugin_opnsense.Exec.{Result, ok, raised, raise, gets, ◌>>=◌, ◌>>◌}
use pegaprox_plugin_opnsense.World.{Env, M}
use pegaprox_plugin_opnsense.Client.{Client}
use pegaprox_plugin_opnsense.Audit.{hash_payload}
use pegaprox_plugin_opnsense.Verified.Checks.{validate_uuid, validate_revision}
use pegaprox_plugin_opnsense.Engine.{
  Action, create, update, delete, action_name, is_create, Spec, refusal,
}
use pegaprox_plugin_opnsense.Engine.Replies.{selected, path_of}
use pegaprox_plugin_opnsense.Engine.Values.{values_of, refuse, and_then}
use pegaprox_plugin_opnsense.Engine.Service.{singleton_uuid, given, raw}
use pegaprox_plugin_opnsense.Engine.Scan.{Service}
use pegaprox_plugin_opnsense.Engine.Readback.{prepared}
use pegaprox_plugin_opnsense.Engine.Change.{operation, has_apply, payload_of, note, attempt_change}

abbrev pub has_peer : Option Client → Bool
has_peer none = false
has_peer (some c) = true

module _ (env : Env) (truncated : String → ℤ) (service : Service) (spec : Spec) where
  -- The object that is to be, `none` for a delete
  unfoldable pub expected_of : Action → Value → Value → Result (Option Value)
  unfolding values_of
  expected_of delete values current = ok none
  expected_of action values current =
      and_then (values_of env.repr spec values current (is_create action))
        (λ expected. and_then (prepared spec expected current action) (λ final. ok (some final)))

  unfoldable pub refuse_stale : Action → Value → String → Result (Unit {0})
  refuse_stale create current revision = ok tt
  refuse_stale action current revision =
      if hash_payload env current == revision
      then ok tt
      else raised (refusal "conflict" "El objeto cambió; vuelve a cargarlo." 409)

  -- `_mutate`
  unfoldable pub mutate_locked : Action → (body : Fields) → (uuid revision : String) → M Fields
  unfolding refuse_stale expected_of raw payload_of note attempt_change
  mutate_locked action body uuid revision = do
    started ← gets (λ t. t)
    object ← raw env truncated service.client spec uuid
    let current = selected env.repr object
    given (refuse_stale action current revision)
    expected ← given (expected_of action (get_or "values" null body) current)
    let payload = payload_of spec expected
    note env truncated service spec action uuid "started" payload started
    attempt_change env truncated service spec action uuid (get_or "values" (dict end) body) expected
        payload started

  action_in : Value → Option Action
  action_in (str s) =
      if s == "create"
      then some create
      else if s == "update"
      then some update
      else if s == "delete"
      then some delete
      else none
  action_in _ = none

  -- The uuid and the revision that the request names, empty for a create
  target_of : Action → Fields → Result (String × String)
  target_of create body = ok ("", "")
  target_of action body = elim (validate_uuid (get_or "uuid" null body)) [
    | raised e ↦ refuse "UUID o revisión inválidos."
    | ok uuid ↦ elim (validate_revision (get_or "revision" null body)) [
      | raised e ↦ refuse "UUID o revisión inválidos."
      | ok revision ↦
          if spec.singleton && not (uuid == singleton_uuid)
          then refuse "Identificador de configuración inválido."
          else ok (uuid, revision)
    ]
  ]

  -- The checks of `mutate` before it takes the lock
  unfoldable pub admitted : Value → Result (Action × String × String)
  unfolding action_in target_of
  admitted (dict body) = elim (action_in (get_or "action" null body)) [
    | none ↦ refuse "Acción inválida."
    | some action ↦
        if spec.singleton && not (action_name action == "update")
        then raised (refusal "unsupported" "Esta configuración solo admite actualización." 405)
        else and_then (target_of action body) (λ target.
          and_then (path_of spec (operation spec action) target.0) (λ _.
            if not (has_apply spec.apply) && not spec.persistence_only
            then raised (refusal "unsupported" "No hay acción de aplicación verificada." 405)
            else ok (action, target.0, target.1)))
  ]
  admitted _ = refuse "Acción inválida."

  -- `mutate`
  unfoldable pub mutate : Value → M Fields
  unfolding admitted mutate_locked
  mutate body =
      if has_peer service.peer && not spec.ha_safe
      then raise (refusal "ha_unqualified" "Este módulo aún no tiene escritura HA verificada." 409)
      else (do plan ← given (admitted body); mutate_locked plan.0 (fields_of body) plan.1 plan.2)
