-- ===== src/World.antt =====
-- What the program reads and what it does: the firewalls behind HTTPS, the audit file, the clock.
-- The state of an action is the list of what was done so far, newest first; an answer of the outside
-- may depend on all of it.
pub mod Grows
use pegaprox_plugin_opnsense.Prelude.{
  ℕ, ◌+◌, String, Bool, true, false, ◌&&◌, Option, List, [], ◌∷◌, if◌then◌else◌, ◌==◌,
}
use pegaprox_plugin_opnsense.Value.{Value, Fields}
use pegaprox_plugin_opnsense.Exec.{Exec, ok}

pub data Method : Type 0 where
  get post : Method

-- The arguments of `session.request`; `url` is the host's, before `urljoin`.
pub record Http : Type 0 where
  pub method : Method
  pub url : String
  pub path : String
  pub params : Fields
  pub json : Option Value

-- `failed` is a `RequestException`; a response has its body as JSON, if it is JSON.
pub data Transport : Type 0 where
  failed : String → Transport
  response : ℕ → String → Option Value → Transport

-- `class AuditEntry`
pub record AuditEntry : Type 0 where
  pub ts : String
  pub user : String
  pub action : String
  pub target : String
  pub host : String
  pub result : String
  pub duration_ms : ℕ
  pub detail : String
  pub payload_sha256 : String

-- A request sent, a sleep in milliseconds, an entry written to the audit file.
pub data Event : Type 0 where
  sent : Http → Event
  slept : ℕ → Event
  audited : AuditEntry → Event

abbrev pub Trace : Type 0
Trace = List Event

abbrev pub M : Type 0 → Type 0
M A = Exec Trace A

-- The outside, as the code calls it: `requests`, the file system, the clock, `json.dumps`,
-- `hashlib.sha256` and Python's `str` of an array or an object. `append` gives the text of the
-- `OSError`, if the file cannot be written.
pub record Env : Type 0 where
  pub request : Trace → Http → Transport
  pub append : Trace → AuditEntry → Option String
  pub utc_iso : Trace → String
  pub elapsed_ms : Trace → Trace → ℕ
  pub canonical_json : Value → String
  pub spaced_json : Value → String
  pub sha256_hex : String → String
  pub repr : Value → String

unfoldable pub sleep : ℕ → M (Unit {0})
sleep ms t = (ok tt, slept ms ∷ t)

-- How many of the events of a trace pass a test.
unfoldable pub number_of : (Event → Bool) → Trace → ℕ
number_of p [] = 0
number_of p (e ∷ t) = (if p e then 1 else 0) + number_of p t

abbrev pub is_post : Event → Bool
is_post (sent h) = elim (h.method) [ get ↦ false | post ↦ true ]
is_post _ = false

abbrev pub is_get : Event → Bool
is_get (sent h) = elim (h.method) [ get ↦ true | post ↦ false ]
is_get _ = false

abbrev pub is_sleep : Event → Bool
is_sleep (slept n) = true
is_sleep _ = false

abbrev pub is_audit : Event → Bool
is_audit (audited a) = true
is_audit _ = false

-- A POST to one path of one host.
abbrev pub is_post_to : String → String → Event → Bool
is_post_to url path (sent h) = is_post (sent h) && h.url == url && h.path == path
is_post_to url path _ = false
