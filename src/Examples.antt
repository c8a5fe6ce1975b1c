-- ===== src/Examples.antt =====
-- Concrete firewalls, clients and writers, with which the properties are tried.
use pegaprox_plugin_opnsense.Prelude.{
  ℕ, String, Bool, true, false, Option, none, some, List, [], ◌∷◌, ends_with_char, ◌==◌,
  if◌then◌else◌, pos,
}
use pegaprox_plugin_opnsense.Value.{
  Value, null, bool, int, str, list, dict, Items, nil, cons, Fields, end, field, entries,
}
use pegaprox_plugin_opnsense.World.{Env, Http, Transport, failed, response}
use pegaprox_plugin_opnsense.Client.{Client, Host, default_retry}
use pegaprox_plugin_opnsense.Verified.Preflight.{Net}
use pegaprox_plugin_opnsense.Verified.Reads.{Kind, rules}
use pegaprox_plugin_opnsense.Verified.Sync
use pegaprox_plugin_opnsense.Verified.Sync.{Mode, automatic}
use pegaprox_plugin_opnsense.Writers
use pegaprox_plugin_opnsense.Ha.{HaVerifier}
mod Operations
mod Reads
mod Roles
mod Requests
mod Creates
mod Management
mod Forms
mod Resources
mod Returns

-- The outside with the given firewall and audit file; every hash is `h`.
abbrev pub env_with : (Http → Transport) → Option String → Env
env_with answer why = record {
  request = λ t h. answer h;
  append = λ t e. why;
  utc_iso = λ t. "2026-01-01";
  elapsed_ms = λ s t. 5;
  canonical_json = λ v. "";
  spaced_json = λ v. "";
  sha256_hex = λ s. "h";
  repr = λ v. "";
}

abbrev pub the_uuid : String
the_uuid = "12345678-1234-1234-1234-123456789abc"

-- A reply that serves for every request of an operation that succeeds.
abbrev pub good_reply : Value
good_reply = dict (
    entries (
      ("rule", dict (field "action" (str "pass") end))
      ∷ ("rows", list nil)
      ∷ ("total", int 0)
      ∷ ("result", str "saved")
      ∷ ("uuid", str the_uuid)
      ∷ []))

abbrev pub good_env : Env
good_env = env_with (λ h. response 200 "" (some good_reply)) none

-- A firewall that cannot be reached.
abbrev pub down_env : Env
down_env = env_with (λ h. failed "down") none

-- An audit file that cannot be written.
abbrev pub full_env : Env
full_env = env_with (λ h. response 200 "" (some good_reply)) (some "disk full")

abbrev pub bad_reply : Value
bad_reply = dict (field "result" (str "failed") end)

-- A firewall that refuses the apply action.
abbrev pub stuck_env : Env
stuck_env =
    env_with
      (λ h.
        response 200 ""
          (some (if h.path == "/api/firewall/filter/apply" then bad_reply else good_reply)))
      none

-- A firewall whose apply action fails.
abbrev pub broken_env : Env
broken_env =
    env_with
      (λ h.
        if h.path == "/api/firewall/filter/apply"
        then response 500 "broken" none
        else response 200 "" (some good_reply))
      none

-- A firewall whose listing cannot be read.
abbrev pub blind_env : Env
blind_env =
    env_with
      (λ h.
        if h.path == "/api/firewall/filter/searchRule"
        then response 404 "missing" none
        else response 200 "" (some good_reply))
      none

-- A firewall that answers every request with the given value.
abbrev pub env_of : Value → Env
env_of v = env_with (λ h. response 200 "" (some v)) none

abbrev pub client : Client
client = record { host = record { name = "fw1"; url = "https://fw1" }; retry = default_retry }

abbrev pub peer : Client
peer = record { host = record { name = "fw2"; url = "https://fw2" }; retry = default_retry }

abbrev pub net : Net
net = record {
  ip_address = λ v. none;
  is_reserved = λ s. false;
  urlsplit = λ s. none;
  truncated = λ s. pos 0;
}

abbrev pub writer_with : Option Client → Sync.Writer
writer_with p = record {
  client = client;
  kind = rules;
  actor = "root";
  peer = p;
  ha_verify_attempts = 3;
  ha_verify_backoff = 100;
  ha_sync_mode = automatic;
}

abbrev pub ha : HaVerifier
ha = record { local = client; peer = some peer }

abbrev pub rule_writer : Option HaVerifier → Writers.Writer
rule_writer h = record { client = client; ha = h; actor = "root"; host_name = "fw1" }
