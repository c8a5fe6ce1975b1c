-- ===== src/Examples/Management.antt =====
-- Changes by `src/management/engine.py` on concrete firewalls.
use pegaprox_plugin_opnsense.Prelude.{
  ◌+◌, String, true, false, none, some, [], ◌∷◌, ◌≡◌, refl, pos, ℤ, if◌then◌else◌, ◌==◌, length,
  ◌⊎◌,
}
use pegaprox_plugin_opnsense.Value.{
  Value, null, bool, int, str, list, dict, nil, cons, Fields, end, field, entries,
}
use pegaprox_plugin_opnsense.Exec.{Exn, Result, ok, raised, ManagementError, management}
use pegaprox_plugin_opnsense.World.{Env, Trace, response}
use pegaprox_plugin_opnsense.Prelude.{
  lower, join_comma, all_chars, count_chars, split_on, has_char, digits_onto, rstrip_char, strip,
  parse_int,
}
use pegaprox_plugin_opnsense.Value
use pegaprox_plugin_opnsense.Exec.{attempt}
use pegaprox_plugin_opnsense.Client
use pegaprox_plugin_opnsense.Audit.{hash_payload, now, append}
use pegaprox_plugin_opnsense.Verified.Checks.{validate_uuid, validate_revision}
use pegaprox_plugin_opnsense.Verified.Reads.{rows_of}
use pegaprox_plugin_opnsense.Engine.{refusal, by_name, field_named}
use pegaprox_plugin_opnsense.Engine.Names.{get_name, get_of, put_of}
use pegaprox_plugin_opnsense.Engine.Replies.{path_of, selected, selected_fields}
use pegaprox_plugin_opnsense.Engine.Items.{checked_page, total_in, enough, public_rows}
use pegaprox_plugin_opnsense.Engine.Service.{raw, list_objects}
use pegaprox_plugin_opnsense.Engine.Scan.{scan}
use pegaprox_plugin_opnsense.Engine.Mutate.{admitted, mutate}
use pegaprox_plugin_opnsense.Engine.{update, Field, Spec}
use pegaprox_plugin_opnsense.Engine.Scan.{Service}
use pegaprox_plugin_opnsense.Exec.Costs.{Costs}
use pegaprox_plugin_opnsense.Client.Posts.{posts}
use pegaprox_plugin_opnsense.Engine.Changed.{ChangedBy, mutate_changed}
use pegaprox_plugin_opnsense.Engine.Bounds.{mutate-Costs}
use pegaprox_plugin_opnsense.Engine.Stale.{mutate_stale}
use pegaprox_plugin_opnsense.Engine.Unaudited.{mutate_unaudited}
use pegaprox_plugin_opnsense.Engine.Failed.{Told, mutate_failed}
use pegaprox_plugin_opnsense.Engine.Pages.{Absent, scan-Absent, scan_ends}
use pegaprox_plugin_opnsense.Examples.{good_env, client, peer, the_uuid}

abbrev pub digest : String
digest = "0123456789abcdef0123456789abcdef0123456789abcdef0123456789abcdef"

-- A resource with one field that must have a value, and one apply action.
abbrev pub name_field : Field
name_field = record {
  name = "name";
  label = "Name";
  kind = "text";
  required = true;
  secret = false;
  write_only = false;
  readonly = false;
  generated = false;
  volatile = false;
  multiple = false;
  min = none;
  max = none;
  options = [];
  default = none;
  create_default = none;
  edit_default = none;
}

abbrev pub things : Spec
things = record {
  id = "things";
  label = "Things";
  group = "Test";
  base = "/api/things/";
  search = some "search";
  get = some "get";
  add = some "add";
  set = some "set";
  delete = some "del";
  key = "thing";
  apply = "/api/things/apply" ∷ [];
  apply_ack = [];
  fields = name_field ∷ [];
  columns = "name" ∷ [];
  qualification = "contract_only";
  singleton = false;
  ha_safe = true;
  persistence_only = false;
  prepare = none;
  verify = none;
}

abbrev pub reply : Value
reply = dict (
    entries (
      ("thing", dict (field "name" (str "b") end))
      ∷ ("rows", list nil)
      ∷ ("total", int 0)
      ∷ ("result", str "saved")
      ∷ ("uuid", str the_uuid)
      ∷ []))

-- A firewall that answers as a change that succeeds needs it.
abbrev pub fair_env : Env
fair_env = record good_env {
  request = λ t h. response 200 "" (some reply);
  sha256_hex = λ s. digest;
}

abbrev pub truncated : String → ℤ
truncated s = pos 0

abbrev pub service : Service
service = record { client = client; has_log = true; actor = "root"; peer = some peer }

abbrev pub rename : Value
rename = dict (
    entries (
      ("action", str "update")
      ∷ ("uuid", str the_uuid)
      ∷ ("revision", str digest)
      ∷ ("values", dict (field "name" (str "b") end))
      ∷ []))

abbrev fields_or : Result Fields → Fields
fields_or (ok fs) = fs
fields_or (raised e) = end

abbrev error_or : ManagementError → Result Fields → ManagementError
error_or e (raised (management x)) = x
error_or e _ = e

abbrev run : Result Fields × Trace
run = mutate fair_env truncated service things rename []

renamed : mutate fair_env truncated service things rename [] ≡ (ok (fields_or run.0), run.1)
unfolding lower all_chars count_chars split_on has_char Value.get_or Value.truthy Value.text_of
    attempt Client.judge Client.transmit Client.get Client.post hash_payload now append
    validate_uuid validate_revision by_name field_named get_of put_of path_of selected_fields mutate
renamed = refl

mutate_changed_example :
    ChangedBy fair_env truncated service things rename (fields_or run.0) [] run.1
mutate_changed_example =
    mutate_changed fair_env truncated service things rename (fields_or run.0) [] run.1 renamed

mutate-Costs_example :
    Costs posts (1 + length things.apply) (mutate fair_env truncated service things rename)
mutate-Costs_example = mutate-Costs fair_env truncated service things rename

-- An audit file that cannot be written
abbrev full_log : Env
full_log = record fair_env { append = λ t e. some "disk full" }

mutate_unaudited_example :
    ((e : Exn) × ((mutate full_log truncated service things rename []).0 ≡ raised e))
    × (posts (mutate full_log truncated service things rename []).1 ≡ posts [])
mutate_unaudited_example =
    mutate_unaudited full_log truncated service things rename [] (λ u entry. ("disk full", refl))

-- A firewall whose object has another hash than the request names
abbrev moved_env : Env
moved_env = record fair_env { sha256_hex = λ s. "moved" }

abbrev value_or : Result Value → Value
value_or (ok v) = v
value_or (raised e) = null

abbrev loaded : Result Value × Trace
loaded = raw moved_env truncated client things the_uuid []

accepted : admitted moved_env truncated service things rename ≡ ok (update, the_uuid, digest)
unfolding lower all_chars count_chars split_on Value.get_or validate_uuid validate_revision path_of
    mutate
accepted = refl

read : raw moved_env truncated client things the_uuid [] ≡ (ok (value_or loaded.0), loaded.1)
unfolding attempt Client.judge Client.transmit Client.get get_name path_of mutate
read = refl

differs : (hash_payload moved_env (selected moved_env.repr (value_or loaded.0)) == digest) ≡ false
unfolding attempt Client.judge Client.transmit Client.get hash_payload get_of path_of
    selected_fields mutate
differs = refl

mutate_stale_example :
    (mutate moved_env truncated service things rename []
      ≡ (raised (refusal "conflict" "El objeto cambió; vuelve a cargarlo." 409), loaded.1))
    × (posts loaded.1 ≡ posts [])
mutate_stale_example =
    mutate_stale moved_env truncated service things rename update the_uuid digest
      (value_or loaded.0) [] loaded.1 accepted refl refl read differs

-- A firewall that refuses the apply action
abbrev stuck_env : Env
stuck_env = record fair_env {
  request = λ t h. response 200 "" (
      some (
        if h.path == "/api/things/apply" then dict (field "result" (str "failed") end) else reply));
}

abbrev failed_run : Result Fields × Trace
failed_run = mutate stuck_env truncated service things rename []

abbrev unknown : ManagementError
unknown = record {
  error = "";
  detail = "";
  status = 0;
  partial = false;
  stage = none;
  audit_failure = false;
  validations = end;
  uuid = none;
}

unapplied :
    (mutate stuck_env truncated service things rename []).0
    ≡ raised (management (error_or unknown failed_run.0))
unfolding lower join_comma all_chars count_chars split_on has_char rstrip_char Value.get_or
    Value.truthy Value.text_of attempt Client.rooted Client.judge Client.transmit Client.get
    Client.post hash_payload now append validate_uuid validate_revision refusal by_name field_named
    get_of put_of path_of selected_fields mutate
unapplied = refl

mutate_failed_example :
    (posts (mutate stuck_env truncated service things rename []).1 ≡ posts [])
    ⊎ Told stuck_env truncated service things
        (posts [])
        (error_or unknown failed_run.0)
        (mutate stuck_env truncated service things rename []).1
mutate_failed_example =
    mutate_failed stuck_env truncated service things rename (error_or unknown failed_run.0) []
      unapplied

abbrev there : Exn
there = refusal "unverified" "El objeto sigue presente tras eliminarlo." 502

abbrev incomplete : Exn
incomplete = refusal "unverified" "No se pudo verificar la lista completa." 502

-- A firewall that lists one other object
abbrev listing_env : Env
listing_env = record fair_env {
  request = λ t h. response 200 "" (
      some (
        dict (
          field "rows"
            (list (cons (dict (field "uuid" (str "other") (field "name" (str "a") end))) nil))
            (field "total" (str "1") end))));
}

gone :
    (scan listing_env truncated things client there incomplete incomplete the_uuid 1 0 1000 []).0
    ≡ ok tt
unfolding lower all_chars count_chars has_char digits_onto strip parse_int Value.get_or attempt
    Client.judge Client.transmit Client.get rows_of get_of path_of selected_fields checked_page
    total_in enough public_rows list_objects mutate
gone = refl

scan-Absent_example :
    Absent listing_env truncated things client the_uuid 1 0 []
      (scan listing_env truncated things client there incomplete incomplete the_uuid 1 0 1000 []).1
scan-Absent_example =
    scan-Absent listing_env truncated things client there incomplete incomplete the_uuid [] gone

scan_ends_example :
    scan listing_env truncated things client there incomplete incomplete the_uuid 1 0 1000 []
    ≡ scan listing_env truncated things client there incomplete there the_uuid 1 0 (1000 + 7) []
scan_ends_example =
    scan_ends listing_env truncated things client there incomplete incomplete there the_uuid 7 []
