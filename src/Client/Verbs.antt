-- ===== src/Client/Verbs.antt =====
-- `get` and `post`: what they send, and which answer they give.
use pegaprox_plugin_opnsense.Prelude.{
  ◌+◌, ◌≤◌, ◌<◌, String, ◌≡◌, refl, true, false, none, some, ◌∷◌, if◌then◌else◌,
}
use pegaprox_plugin_opnsense.Value.{Value, dict, Fields, end, truthy}
use pegaprox_plugin_opnsense.Exec.{Exn, raised, is_opnsense, ok, ◌>>=◌}
use pegaprox_plugin_opnsense.World.{
  Env, Method, Http, sent, Trace, number_of, is_post, is_get, is_sleep, is_audit,
}
use pegaprox_plugin_opnsense.Client.{Client, rooted, transmit, attempt_loop, request, get, post}
use pegaprox_plugin_opnsense.Client.Attempts.{
  Answered, judge_single, attempt_loop-requests, attempt_loop-posts, attempt_loop-audits,
  attempt_loop-pauses_all, attempt_loop-answer, attempt_loop-raised,
}

-- The request that `post` sends.
abbrev pub post_http : Client → String → Value → Http
post_http c path payload = record {
  method = Method.post;
  url = c.host.url;
  path = rooted path;
  params = end;
  json = some (if truthy payload then payload else dict end);
}

-- A POST sends its one request, whatever the reply, and adds nothing else to the trace.
pub post-one_request :
    (env : Env) (c : Client) (path : String) (payload : Value) (t : Trace)
    → (post env c path payload t).1 ≡ sent (post_http c path payload) ∷ t
unfolding post request attempt_loop transmit ◌>>=◌
post-one_request env c path payload t =
    let h = post_http c path payload in let (r, e) = judge_single c h path (env.request t h) in rw e

-- The request that `get` sends.
abbrev pub get_http : Client → String → Fields → Http
get_http c path params = record {
  method = Method.get;
  url = c.host.url;
  path = rooted path;
  params = params;
  json = none;
}

module _ (env : Env) (c : Client) (path : String) (params : Fields) (t : Trace) where
  -- A GET is tried at most `attempts` times.
  pub get-requests :
      number_of is_get (get env c path params t).1 ≤ number_of is_get t + c.retry.attempts
  unfolding get request
  get-requests =
      attempt_loop-requests env c (get_http c path params) path true c.retry.attempts "None" 0
        c.retry.attempts t

  -- It sends no POST.
  pub get-posts : number_of is_post (get env c path params t).1 ≡ number_of is_post t
  unfolding get request
  get-posts =
      attempt_loop-posts env c (get_http c path params) path true c.retry.attempts "None" 0
        c.retry.attempts t refl

  -- It writes no audit entry.
  pub get-audits : number_of is_audit (get env c path params t).1 ≡ number_of is_audit t
  unfolding get request
  get-audits =
      attempt_loop-audits env c (get_http c path params) path true c.retry.attempts "None" 0
        c.retry.attempts t

  -- If the policy has at least one attempt, a GET sleeps once between each two of its requests, and
  -- not after the last one.
  pub get-pauses :
      0 < c.retry.attempts
      → number_of is_sleep (get env c path params t).1 + number_of is_get t + 1
        ≡ number_of is_get (get env c path params t).1 + number_of is_sleep t
  unfolding get request
  get-pauses h =
      attempt_loop-pauses_all env c (get_http c path params) path true c.retry.attempts "None"
        c.retry.attempts t refl h refl

  -- If a GET returns a value, its last event is the request, and the reply to that had the value as
  -- its JSON body, under a status that is no error.
  pub get-answer :
      (v : Value)
      → (get env c path params t).0 ≡ ok v
      → Answered env (get_http c path params) v (get env c path params t).1
  unfolding get request
  get-answer v p =
      attempt_loop-answer env c (get_http c path params) path true c.retry.attempts "None" 0
        c.retry.attempts t v p

-- If a POST returns a value, its one request is the last event, and the reply to that had the value
-- as its JSON body, under a status that is no error.
pub post-answer :
    (env : Env) (c : Client) (path : String) (payload : Value) (t : Trace) (v : Value)
    → (post env c path payload t).0 ≡ ok v
    → Answered env (post_http c path payload) v (post env c path payload t).1
unfolding post request
post-answer env c path payload t v p =
    attempt_loop-answer env c (post_http c path payload) path false 1 "None" 0 1 t v p

-- Whatever a GET raises is an `OPNsenseError`.
pub get-raised :
    (env : Env) (c : Client) (path : String) (params : Fields) (t : Trace) (e : Exn)
    → (get env c path params t).0 ≡ raised e
    → is_opnsense e ≡ true
unfolding get request
get-raised env c path params t e p =
    attempt_loop-raised env c (get_http c path params) path true c.retry.attempts "None" 0
      c.retry.attempts t e p

-- Whatever a POST raises is an `OPNsenseError`.
pub post-raised :
    (env : Env) (c : Client) (path : String) (payload : Value) (t : Trace) (e : Exn)
    → (post env c path payload t).0 ≡ raised e
    → is_opnsense e ≡ true
unfolding post request
post-raised env c path payload t e p =
    attempt_loop-raised env c (post_http c path payload) path false 1 "None" 0 1 t e p
