-- ===== src/Client.antt =====
-- `src/client/opnsense_client.py`: the HTTP client of one firewall.
pub mod Attempts
pub mod Verbs
pub mod Posts
pub mod Later
use pegaprox_plugin_opnsense.Prelude.{
  ℕ, zero, suc, ◌+◌, ◌-◌, ◌*◌, ◌^◌, ◌≤◌, min, String, ◌<>◌, Bool, true, false, ◌&&◌, ◌||◌, not,
  Option, none, some, List, [], ◌∷◌, if◌then◌else◌, ◌==◌, leb, ltb, eqb, any_of, decimal,
  take_chars,
}
use text.Mathlib.Text.{starts_with}
use pegaprox_plugin_opnsense.Value.{Value, dict, Fields, end, truthy}
use pegaprox_plugin_opnsense.Exec.{
  Exec, Exn, Result, ok, raised, opnsense, auth, timeout, value_error, pure, raise, ◌>>=◌, ◌>>◌,
}
use pegaprox_plugin_opnsense.World.{
  Env, Method, Http, Transport, failed, response, Event, sent, Trace, M, sleep,
}

-- `class OPNsenseHost`; the timeouts and the TLS settings only reach `requests`.
pub record Host : Type 0 where
  pub name : String
  pub url : String

-- `class _RetryPolicy`, the delays in milliseconds.
pub record RetryPolicy : Type 0 where
  pub attempts : ℕ
  pub base_delay : ℕ
  pub max_delay : ℕ
  pub retry_status : List ℕ

abbrev pub default_retry : RetryPolicy
default_retry = record {
  attempts = 3;
  base_delay = 500;
  max_delay = 4000;
  retry_status = 502 ∷ 503 ∷ 504 ∷ [];
}

pub record Client : Type 0 where
  pub host : Host
  pub retry : RetryPolicy

-- `OPNsenseClient.__init__`
unfoldable pub new_client : Host → Option RetryPolicy → Result Client
new_client host retry =
    if starts_with host.url "https://"
    then ok (record { host = host; retry = elim retry [ none ↦ default_retry | some r ↦ r ] })
    else raised (value_error "OPNsense API requires HTTPS")

-- `_url`, before `urljoin` with the host's
unfoldable pub rooted : String → String
rooted path = if starts_with path "/" then path else "/" <> path

-- `_sleep_backoff`
unfoldable pub backoff : RetryPolicy → ℕ → ℕ
backoff r i = min (r.base_delay * 2 ^ i) r.max_delay

-- `resp.ok`
abbrev pub ok_status : ℕ → Bool
ok_status status = not (leb 400 status && ltb status 600)

abbrev pub method_name : Method → String
method_name Method.get = "GET"
method_name Method.post = "POST"

-- `method path`, with which the messages begin.
abbrev pub what : Http → String → String
what h path = method_name h.method <> " " <> path

-- The body of the loop of `_request` in round `i` on a reply: the result, or `none` if the loop
-- sleeps and goes on. `path` is the argument, from which `h.path` is rooted.
unfoldable pub judge : Client → Http → String → Bool → ℕ → ℕ → Transport → Option (Result Value)
judge c h path retry attempts i (failed e) =
    if eqb i (attempts - 1)
    then some (
        raised
          (timeout (what h path <> " failed after " <> decimal attempts <> " attempt(s): " <> e)))
    else none
judge c h path retry attempts i (response status text body) =
    if eqb status 401 || eqb status 403
    then some (
        raised (
          auth (
            what h path
            <> " → "
            <> decimal status
            <> " (check api_key/api_secret + user privileges on host "
            <> c.host.name
            <> ")")))
    else if any_of (λ s. eqb status s) c.retry.retry_status && retry && ltb i (attempts - 1)
    then none
    else if not (ok_status status)
    then some (
        raised
          (opnsense (what h path <> " → HTTP " <> decimal status <> ": " <> take_chars 200 text)))
    else elim body [
      | some v ↦ some (ok v)
      | none ↦
          some (raised (opnsense (what h path <> " → non-JSON response: " <> take_chars 200 text)))
    ]

-- `last_exc` after a round
abbrev pub last_failure : String → Transport → String
last_failure last (failed e) = e
last_failure last (response status text body) = last

-- The result of a round that ends the loop, or else what follows.
abbrev pub settled_or : Option (Result Value) → M Value → M Value
settled_or (some r) rest t = (r, t)
settled_or none rest t = rest t

module _ (env : Env) where
  -- `self._session.request(…)`
  unfoldable pub transmit : Http → M Transport
  transmit h t = (ok (env.request t h), sent h ∷ t)

  -- The loop of `_request` from round `i`, with `left` rounds to go.
  unfoldable pub attempt_loop : Client → Http → String → Bool → ℕ → String → ℕ → ℕ → M Value
  attempt_loop c h path retry attempts last i zero =
      raise (opnsense (what h path <> " exhausted retries: " <> last))
  attempt_loop c h path retry attempts last i (suc left) = do
    reply ← transmit h
    let rest = attempt_loop c h path retry attempts (last_failure last reply) (i + 1) left
    settled_or (judge c h path retry attempts i reply) (sleep (backoff c.retry i) >> rest)

  -- `_request`; `h` has the argument `path` as it came.
  unfoldable pub request : Client → Http → Bool → M Value
  unfolding attempt_loop
  request c h retry =
      let attempts = if retry then c.retry.attempts else 1 in
      attempt_loop c (record h { path = rooted h.path }) h.path retry attempts "None" 0 attempts

  -- `get`
  unfoldable pub get : Client → String → Fields → M Value
  unfolding request
  get c path params =
      request c
        (record {
          method = Method.get;
          url = c.host.url;
          path = path;
          params = params;
          json = none;
        })
        true

  -- `post`; an empty payload is sent as `{}`.
  unfoldable pub post : Client → String → Value → M Value
  unfolding request
  post c path payload =
      request c
        (record {
          method = Method.post;
          url = c.host.url;
          path = path;
          params = end;
          json = some (if truthy payload then payload else dict end);
        })
        false
