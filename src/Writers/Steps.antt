-- ===== src/Writers/Steps.antt =====
-- The steps of the writers' life cycle, as equations: what a POST under `try` gives, what a note
-- leaves in the audit log.
use pegaprox_plugin_opnsense.Prelude.{ℕ, String, ◌≡◌, refl, true, ◌⊎◌, inl, inr, ◌∷◌, arith}
use pegaprox_plugin_opnsense.Value.{Value}
use pegaprox_plugin_opnsense.Exec.{
  Exn, Result, ok, raised, is_opnsense, catch, attempt, pure, ◌>>=◌,
}
use pegaprox_plugin_opnsense.World.{Env, AuditEntry, sent, Trace, M, number_of}
use pegaprox_plugin_opnsense.Client.{Client, post}
use pegaprox_plugin_opnsense.Client.Verbs.{post_http, post-one_request, post-raised}
use pegaprox_plugin_opnsense.Exec.Costs.{Costs}
use pegaprox_plugin_opnsense.Client.Posts.{posts}
use pegaprox_plugin_opnsense.Audit.{now, append, append_result, record_outcome}

-- What was raised, or the value.
abbrev pub outcome : {A : Type 0} → Result A → Exn ⊎ A
outcome (ok a) = inr a
outcome (raised e) = inl e

-- A run under `except OPNsenseError` that raises nothing else.
pub attempt_lem :
    (m : M Value) (t : Trace) (r : Result Value) (u : Trace)
    → m t ≡ (r, u)
    → ((e : Exn) → r ≡ raised e → is_opnsense e ≡ true)
    → attempt is_opnsense m t ≡ (ok (outcome r), u)
unfolding attempt ◌>>=◌
attempt_lem m t (ok v) u p h = rw p
attempt_lem m t (raised e) u p h = rw (p, h e refl)

module _ (env : Env) (c : Client) (path : String) (payload : Value) (t : Trace) where
  -- A POST as a pair of its result and the trace after it.
  pub post_pair :
      (r : Result Value)
      → (post env c path payload t).0 ≡ r
      → post env c path payload t ≡ (r, sent (post_http c path payload) ∷ t)
  post_pair r p = λ i. (p i, post-one_request env c path payload t i)

  -- A POST under `except OPNsenseError` never raises, and sends its one request.
  pub attempt-post :
      attempt is_opnsense (post env c path payload) t
      ≡ (ok (outcome (post env c path payload t).0), sent (post_http c path payload) ∷ t)
  attempt-post =
      attempt_lem (post env c path payload) t (post env c path payload t).0
        (sent (post_http c path payload) ∷ t) (post_pair (post env c path payload t).0 refl)
        (post-raised env c path payload t)

-- The trace after an attempt to append an entry.
abbrev pub logged : Env → AuditEntry → Trace → Trace
logged env entry t = (append_result entry (env.append t entry) t).1

module _ (env : Env) where
  -- The entry that a note makes at a trace.
  abbrev pub entry_at :
      (actor host_name action target result : String) (duration_ms : ℕ)
      (detail payload_sha256 : String)
      → Trace
      → AuditEntry
  entry_at actor host_name action target result duration_ms detail payload_sha256 t = record {
    ts = env.utc_iso t;
    user = actor;
    action = action;
    target = target;
    host = host_name;
    result = result;
    duration_ms = duration_ms;
    detail = detail;
    payload_sha256 = payload_sha256;
  }

  -- A note never raises: it returns its entry, which is in the log if the log can be written.
  pub record_outcome_lem :
      (actor host_name action target result : String) (duration_ms : ℕ)
      (detail payload_sha256 : String) (t : Trace)
      → record_outcome env actor host_name action target result duration_ms detail payload_sha256 t
        ≡ (
          ok (entry_at actor host_name action target result duration_ms detail payload_sha256 t),
          logged env
              (entry_at actor host_name action target result duration_ms detail payload_sha256 t)
              t,
        )
  unfolding record_outcome append now ◌>>=◌ pure catch
  record_outcome_lem actor host_name action target result duration_ms detail payload_sha256 t =
      ground arith

  -- A note sends nothing.
  pub record_outcome-Costs :
      (actor host_name action target result : String) (duration_ms : ℕ)
      (detail payload_sha256 : String)
      → Costs posts 0 (
          record_outcome env actor host_name action target result duration_ms detail payload_sha256)
  unfolding number_of
  record_outcome-Costs a h c g o d x s = record {
    above = λ t. rw record_outcome_lem (ground arith);
    below = λ t. rw record_outcome_lem (ground arith);
  }
