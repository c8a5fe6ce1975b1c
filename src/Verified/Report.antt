-- ===== src/Verified/Report.antt =====
-- The state and the report of `_execute` of `src/writers/verified.py`.
use pegaprox_plugin_opnsense.Prelude.{
  String, Bool, true, false, Option, none, some, [], ◌∷◌, if◌then◌else◌,
}
use pegaprox_plugin_opnsense.Value.{
  Value, null, bool, str, dict, Fields, end, field, truthy, entries,
}
use pegaprox_plugin_opnsense.Exec.{Exec, Exn, ok, auth, timeout, rejected, conflict, unsafe_sync}
use pegaprox_plugin_opnsense.World.{AuditEntry, Trace, M}
use pegaprox_plugin_opnsense.Verified.Reads.{Kind, key}
use pegaprox_plugin_opnsense.Verified.Preflight.{Plan}
use pegaprox_plugin_opnsense.Verified.Sync.{Cleanup, SyncReport}

pub data Action : Type 0 where
  create update delete : Action

abbrev pub action_name : Action → String
action_name create = "create"
action_name update = "update"
action_name delete = "delete"

abbrev pub verb : Action → String
verb create = "add"
verb update = "set"
verb delete = "del"

abbrev pub is_create : Action → Bool
is_create create = true
is_create _ = false

abbrev pub is_delete : Action → Bool
is_delete delete = true
is_delete _ = false

-- `result["rollback"]`
pub record Rollback : Type 0 where
  pub attempted : Bool
  pub verified : Bool
  pub local_verified : Bool
  pub peer_verified : Option Bool
  pub detail : String

-- The `result` of `_execute`
pub record Report : Type 0 where
  pub ok_flag : Bool
  pub uuid : String
  pub detail : String
  pub verified : Bool
  pub applied : Bool
  pub sync_report : Option SyncReport
  pub rollback : Rollback
  pub audit : Option AuditEntry
  pub error : Option String
  pub validations : Value

-- The state of `_execute`: what was sent, the variables `uuid` and `accepted`, the two attributes of
-- the writer that it sets, and the result so far. What is written before an exception stays.
pub record Run : Type 0 where
  pub trace : Trace
  pub uuid : String
  pub accepted : Bool
  pub plan : Option Plan
  pub peer_revision : Option String
  pub report : Report

abbrev pub Op : Type 0 → Type 0
Op A = Exec Run A

abbrev pub on_wire : {A : Type 0} → M A → Op A
on_wire m s = ((m s.trace).0, record s { trace = (m s.trace).1 })

abbrev pub set_report : (Report → Report) → Op (Unit {0})
set_report f s = (ok tt, record s { report = f s.report })

-- `{self.key: expected}`, which is what the routes pass as `payload`.
abbrev pub payload_value : Kind → Option Fields → Value
payload_value k none = null
payload_value k (some expected) = dict (field (key k) (dict expected) end)

-- `payload or {}`
abbrev pub payload_body : Kind → Option Fields → Value
payload_body k none = dict end
payload_body k (some expected) = payload_value k (some expected)

abbrev pub initial_report : String → Report
initial_report uuid = record {
  ok_flag = false;
  uuid = uuid;
  detail = "";
  verified = false;
  applied = false;
  sync_report = none;
  rollback = record {
    attempted = false;
    verified = false;
    local_verified = false;
    peer_verified = none;
    detail = "Not required";
  };
  audit = none;
  error = none;
  validations = null;
}

-- `result["ok"]`, and the error of a peer that was not verified.
unfoldable pub conclude_sync : Option SyncReport → Report → Report
conclude_sync none r = record r { sync_report = none; ok_flag = true }
conclude_sync (some s) r =
    if s.verified then record r { sync_report = some s; ok_flag = true } else record r {
      sync_report = some s;
      error = some "ha_unverified";
      detail = "Saved locally; HA verification failed";
    }

-- The `error` of an exception
unfoldable pub error_of : Exn → String
error_of (unsafe_sync m) = "ha_unsafe"
error_of (conflict m) = "conflict"
error_of (auth m) = "auth"
error_of (timeout m) = "timeout"
error_of (rejected m v) = if truthy v then "validation" else "upstream"
error_of _ = "upstream"

abbrev pub validations_of : Exn → Value
validations_of (rejected m v) = if truthy v then v else null
validations_of _ = null

abbrev pub is_rejected : Exn → Bool
is_rejected (rejected m v) = true
is_rejected _ = false

-- `str(result["rollback"])` and `str(…["peer_cleanup"])` print these dictionaries.
option_bool : Option Bool → Value
option_bool none = null
option_bool (some b) = bool b

unfoldable pub rollback_value : Rollback → Value
unfolding option_bool
rollback_value r = dict (
    entries (
      ("attempted", bool r.attempted)
      ∷ ("verified", bool r.verified)
      ∷ ("local_verified", bool r.local_verified)
      ∷ ("peer_verified", option_bool r.peer_verified)
      ∷ ("detail", str r.detail)
      ∷ []))

unfoldable pub cleanup_value : Cleanup → Value
cleanup_value c = dict (
    entries (
      ("attempted", bool c.attempted)
      ∷ ("deleted", bool c.deleted)
      ∷ ("applied", bool c.applied)
      ∷ ("verified", bool c.verified)
      ∷ []))
