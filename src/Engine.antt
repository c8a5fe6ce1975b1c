-- ===== src/Engine.antt =====
-- `src/management/engine.py`: the changes that the management pages make, by the specification of a
-- resource. This file has the specifications and the errors.
pub mod Names
pub mod Replies
pub mod Values
pub mod Items
pub mod Service
pub mod Scan
pub mod Readback
pub mod Change
pub mod Mutate
pub mod Posts
pub mod Pages
pub mod Stale
pub mod Unaudited
pub mod Bounds
pub mod Requests
pub mod Returned
pub mod Confirmed
pub mod Changed
pub mod Stopped
pub mod Failed
pub mod Paths
pub mod Forms
pub mod Selections
pub mod Returns
use pegaprox_plugin_opnsense.Prelude.{
  ℕ, String, Bool, true, false, Option, none, some, List, [], ◌∷◌, ◌==◌, if◌then◌else◌, ℤ,
}
use pegaprox_plugin_opnsense.Value.{Value, end}
use pegaprox_plugin_opnsense.Exec.{Exn, Result, ManagementError, management}

pub data Action : Type 0 where
  create update delete : Action

abbrev pub action_name : Action → String
action_name create = "create"
action_name update = "update"
action_name delete = "delete"

abbrev pub is_create : Action → Bool
is_create create = true
is_create _ = false

-- One of the `fields` of a specification; a key that is missing is `none`, false or empty. `options`
-- has the values, as texts, with their labels.
pub record Field : Type 0 where
  pub name : String
  pub label : String
  pub kind : String
  pub required : Bool
  pub secret : Bool
  pub write_only : Bool
  pub readonly : Bool
  pub generated : Bool
  pub volatile : Bool
  pub multiple : Bool
  pub min : Option ℤ
  pub max : Option ℤ
  pub options : List (String × String)
  pub default : Option Value
  pub create_default : Option Value
  pub edit_default : Option Value

-- A specification, with the functions that it may have.
pub record Spec : Type 0 where
  pub id : String
  pub label : String
  pub group : String
  pub base : String
  pub search : Option String
  pub get : Option String
  pub add : Option String
  pub set : Option String
  pub delete : Option String
  pub key : String
  pub apply : List String
  pub apply_ack : List (String × List String)
  pub fields : List Field
  pub columns : List String
  pub qualification : String
  pub singleton : Bool
  pub ha_safe : Bool
  pub persistence_only : Bool
  pub prepare : Option (Value → Value → Action → Result Value)
  pub verify : Option (Value → Value → Action → Result (Unit {0}))

-- `ManagementError(error, detail, status)`
unfoldable pub refusal : String → String → ℕ → Exn
refusal error detail status = management (record {
  error = error;
  detail = detail;
  status = status;
  partial = false;
  stage = none;
  audit_failure = false;
  validations = end;
  uuid = none;
})

-- `{field['name']: field for field in spec['fields']}`: a later field takes the place of an earlier
-- one of its name.
unfoldable pub put_field : Field → List Field → List Field
put_field f [] = f ∷ []
put_field f (g ∷ gs) = if g.name == f.name then f ∷ gs else g ∷ put_field f gs

unfoldable pub put_fields : List Field → List Field → List Field
unfolding put_field
put_fields [] gs = gs
put_fields (f ∷ fs) gs = put_fields fs (put_field f gs)

unfoldable pub by_name : List Field → List Field
unfolding put_fields
by_name fs = put_fields fs []

-- `fields[name]`
unfoldable pub field_named : String → List Field → Option Field
field_named name [] = none
field_named name (f ∷ fs) = if f.name == name then some f else field_named name fs
