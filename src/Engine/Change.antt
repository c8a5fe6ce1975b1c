-- ===== src/Engine/Change.antt =====
-- The change itself in `_mutate` of `src/management/engine.py`, after its first audit entry: the POST,
-- the apply actions, the reading back, and the handler of errors.
use pegaprox_plugin_opnsense.Prelude.{
  ◌⊎◌, String, Bool, true, false, ◌&&◌, ◌||◌, not, Option, none, some, List, [], ◌∷◌, if◌then◌else◌,
  ◌==◌, ℤ, inl, inr,
}
use pegaprox_plugin_opnsense.Value
use pegaprox_plugin_opnsense.Value.{
  Value, null, bool, int, str, dict, Fields, end, field, get_or, get, has_key, fields_of, text_of,
  entries,
}
use pegaprox_plugin_opnsense.Exec.{
  Exec, Exn, Result, ok, raised, attribute_error, ManagementError, management, is_management, pure,
  raise, gets, modify, catch, attempt, ◌>>=◌, ◌>>◌,
}
use pegaprox_plugin_opnsense.World.{Env, Trace, M}
use pegaprox_plugin_opnsense.Client.{Client}
use pegaprox_plugin_opnsense.Audit.{hash_payload}
use pegaprox_plugin_opnsense.Verified.Checks.{validate_uuid}
use pegaprox_plugin_opnsense.Engine.{
  Action, create, update, delete, action_name, Spec, Field, refusal,
}
use pegaprox_plugin_opnsense.Engine.Names.{put_name}
use pegaprox_plugin_opnsense.Engine.Replies.{selected, path_of, ack}
use pegaprox_plugin_opnsense.Engine.Values.{is_blank, and_then}
use pegaprox_plugin_opnsense.Engine.Service.{given, call_post, raw, audit}
use pegaprox_plugin_opnsense.Engine.Scan.{Service, scan}
use pegaprox_plugin_opnsense.Engine.Readback.{compare_fields, hook}

-- The names of the operation that an action is
abbrev pub operation : Spec → Action → Option String
operation spec create = spec.add
operation spec update = spec.set
operation spec delete = spec.delete

-- The state of `_mutate`: what was sent, and its variables.
pub record Run : Type 0 where
  pub trace : Trace
  pub uuid : String
  pub stage : String
  pub is_partial : Bool
  pub confirmed_uuid : Option String

abbrev pub Op : Type 0 → Type 0
Op A = Exec Run A

unfoldable pub on_wire : {A : Type 0} → M A → Op A
on_wire m s = let (r, t) = m s.trace in (r, record s { trace = t })

unfoldable pub at_stage : String → Op (Unit {0})
at_stage stage s = (ok tt, record s { stage = stage })

-- `uuid = validate_uuid(response.get("uuid"))` after a create
unfoldable pub confirmed_by : Action → String → Value → Result String
confirmed_by create uuid response = elim (validate_uuid (get_or "uuid" null (fields_of response))) [
  | ok created ↦ ok created
  | raised e ↦
      raised (refusal "invalid_response" "Creación sin UUID confirmado; revisa el estado." 502)
]
confirmed_by _ uuid response = ok uuid

-- `any(…)` of the fields that are sent and never read back: whether one was set. `values` need not
-- be an object where a delete names it.
unfoldable pub secret_set : Value → List Field → Result Bool
secret_set values [] = ok false
secret_set (dict fs) (f ∷ rest) =
    let more = secret_set (dict fs) rest in
    if f.write_only && not (is_blank (get_or f.name null fs)) then ok true else more
secret_set values (f ∷ rest) =
    let more = secret_set values rest in
    if f.write_only then raised (attribute_error "object has no attribute 'get'") else more

abbrev pub has_apply : List String → Bool
has_apply [] = false
has_apply (p ∷ ps) = true

-- `result`
unfoldable pub result_of : Spec → Value → Action → String → Result Fields
unfolding secret_set
result_of spec values action uuid =
    let result = entries (
      ("ok", bool true)
      ∷ ("uuid", str uuid)
      ∷ ("action", str (action_name action))
      ∷ ("applied", bool (has_apply spec.apply))
      ∷ ("config_saved", bool true)
      ∷ ("verified", bool true)
      ∷ []) in
    let secret =
      entries (("secret_change_acknowledged", bool true) ∷ ("secret_verified", bool false) ∷ []) in
    and_then (secret_set values spec.fields)
      (λ set. ok (if set then Value.update result secret else result))

-- `payload`
unfoldable pub payload_of : Spec → Option Value → Value
unfolding put_name
payload_of spec none = dict end
payload_of spec (some expected) = dict (put_name spec.key expected end)

module _ (env : Env) (truncated : String → ℤ) (service : Service) (spec : Spec) where
  -- The apply actions in their order
  unfoldable pub apply_all : List String → M (Unit {0})
  unfolding call_post ack
  apply_all [] = pure tt
  apply_all (path ∷ paths) = do
    response ← call_post env truncated service.client spec path (dict end)
    given (ack env.repr spec true response)
    apply_all paths

  -- The reading back: what was read, or nothing where the object is to be absent.
  unfoldable pub read_back : Action → (values : Fields) → Option Value → String → M (Option Value)
  unfolding scan raw compare_fields
  read_back action values none uuid = do
    scan env truncated spec service.client
        (refusal "unverified" "El objeto sigue presente tras eliminarlo." 502)
        (refusal "unverified" "No se pudo verificar la lista completa." 502)
        (refusal "unverified" "No se pudo verificar la lista completa." 502) uuid 1 0 1000
    pure none
  read_back action values (some expected) uuid = do
    object ← raw env truncated service.client spec uuid
    let actual = selected env.repr object
    given (compare_fields env.repr values actual expected spec.fields)
    given (hook spec actual expected action)
    pure (some actual)

  -- The check of the peer, with what was read of the object
  unfoldable pub check_peer : Option Client → String → Option Value → M (Unit {0})
  unfolding scan raw
  check_peer none uuid actual = pure tt
  check_peer (some peer) uuid none =
      scan env truncated spec peer
        (refusal "ha_unverified" "El peer todavía contiene el objeto." 409)
        (refusal "ha_unverified" "No se verificó la lista completa del peer." 409)
        (refusal "ha_unverified" "No se verificó la lista completa del peer." 409) uuid 1 0 1000
  check_peer (some peer) uuid (some actual) = do
    object ← raw env truncated peer spec uuid
    if hash_payload env (selected env.repr object) == hash_payload env actual
        then pure tt
        else raise (refusal "ha_unverified" "El objeto del peer no coincide." 409)

  unfoldable pub note : Action → String → String → Value → Trace → M (Unit {0})
  unfolding audit
  note action uuid result payload started =
      audit env truncated service.client spec service.has_log service.actor (action_name action)
        uuid result payload started

  -- The POST and its acknowledgement
  unfoldable pub submit : Action → Value → Op String
  unfolding on_wire call_post ack confirmed_by
  submit action payload = do
    modify (λ s. record s { is_partial = true })
    s ← gets (λ s. s)
    path ← on_wire (given (path_of spec (operation spec action) s.uuid))
    response ← on_wire (call_post env truncated service.client spec path payload)
    on_wire (given (ack env.repr spec false response))
    uuid ← on_wire (given (confirmed_by action s.uuid response))
    modify (λ s. record s { uuid = uuid; confirmed_uuid = some uuid })
    pure uuid

  -- The apply actions, if the specification has any or needs none
  unfoldable pub activate : Op (Unit {0})
  unfolding on_wire apply_all at_stage
  activate = do
    at_stage "apply"
    if has_apply spec.apply || spec.persistence_only
        then on_wire (apply_all spec.apply)
        else raise (refusal "unsupported" "No hay acción de aplicación verificada." 502)

  -- The body of the `try`
  unfoldable pub perform : Action → (values : Value) → Option Value → Value → Trace → Op Fields
  unfolding submit activate on_wire at_stage read_back check_peer note result_of
  perform action values expected payload started = do
    uuid ← submit action payload
    activate
    at_stage "verify"
    actual ← on_wire (read_back action (fields_of values) expected uuid)
    on_wire (check_peer service.peer uuid actual)
    on_wire (note action uuid "ok" payload started)
    on_wire (given (result_of spec values action uuid))

  -- What the handler makes of an error
  unfoldable pub concluded : ManagementError → Run → ManagementError
  concluded e s = record e {
    partial = if e.error == "validation" && s.stage == "save" then false else s.is_partial;
    stage = some s.stage;
    uuid = s.confirmed_uuid;
  }

  -- The error that is raised again, by whether the audit entry could be written
  unfoldable pub told : ManagementError → Run → Exn ⊎ Unit {0} → Exn
  unfolding concluded
  told e s (inr done) = management (concluded e s)
  told e s (inl x) = management (record (concluded e s) { audit_failure = true })

  -- `except ManagementError as exc`
  unfoldable pub handle : Action → Value → Trace → Exn → Op Fields
  unfolding told on_wire note
  handle action payload started (management e) = do
    s ← gets (λ s. s)
    written ← on_wire (attempt is_management (note action s.uuid "error" payload started))
    raise (told e s written)
  handle action payload started e = raise e

  unfoldable pub first_run : String → Trace → Run
  first_run uuid t = record {
    trace = t;
    uuid = uuid;
    stage = "save";
    is_partial = false;
    confirmed_uuid = none;
  }

  -- What follows the first audit entry, from the trace on that it leaves
  unfoldable pub attempt_change :
      Action → (uuid : String) (values : Value) → Option Value → Value → Trace → M Fields
  unfolding perform handle first_run
  attempt_change action uuid values expected payload started t =
      let (r, s) =
        catch is_management (perform action values expected payload started)
          (handle action payload started) (first_run uuid t) in
      (r, s.trace)
