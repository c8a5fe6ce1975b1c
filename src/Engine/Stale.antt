-- ===== src/Engine/Stale.antt =====
-- `mutate` of `src/management/engine.py` on an object that changed since it was loaded.
use pegaprox_plugin_opnsense.Prelude.{
  String, false, ◌&&◌, not, arith, ◌==◌, ℤ, ◌≡◌, refl, sym, ap, ◌∙◌,
}
use pegaprox_plugin_opnsense.Value.{Value, Fields, fields_of}
use pegaprox_plugin_opnsense.Exec.{ok, raised, gets, ◌>>=◌}
use pegaprox_plugin_opnsense.World.{Env, Trace}
use pegaprox_plugin_opnsense.Client.Posts.{posts}
use pegaprox_plugin_opnsense.Audit.{hash_payload}
use pegaprox_plugin_opnsense.Engine.{Action, create, update, delete, is_create, Spec, refusal}
use pegaprox_plugin_opnsense.Engine.Replies.{selected}
use pegaprox_plugin_opnsense.Engine.Service.{raw}
use pegaprox_plugin_opnsense.Engine.Scan.{Service}
use pegaprox_plugin_opnsense.Engine.Mutate.{admitted, has_peer, refuse_stale, mutate_locked, mutate}
use pegaprox_plugin_opnsense.Engine.Posts.{raw-Costs}

module _ (env : Env) (truncated : String → ℤ) (service : Service) (spec : Spec) where
  refuse_stale-stale :
      (action : Action) (current : Value) (revision : String)
      → is_create action ≡ false
      → (hash_payload env current == revision) ≡ false
      → refuse_stale env truncated service spec action current revision
        ≡ raised (refusal "conflict" "El objeto cambió; vuelve a cargarlo." 409)
  unfolding refuse_stale
  refuse_stale-stale create current revision h e = cc
  refuse_stale-stale update current revision h e = rw e
  refuse_stale-stale delete current revision h e = rw e

  module _ (body : Value) (action : Action) (uuid revision : String)
      (accepted : admitted env truncated service spec body ≡ ok (action, uuid, revision))
      (qualified : (has_peer service.peer && not spec.ha_safe) ≡ false) where
    pub mutate_admitted :
        (t : Trace)
        → mutate env truncated service spec body t
          ≡ mutate_locked env truncated service spec action (fields_of body) uuid revision t
    unfolding mutate ◌>>=◌
    mutate_admitted t = rw qualified (rw accepted refl)

  mutate_locked_stale :
      (action : Action) (body : Fields) (uuid revision : String) (object : Value) (t u : Trace)
      → is_create action ≡ false
      → raw env truncated service.client spec uuid t ≡ (ok object, u)
      → (hash_payload env (selected env.repr object) == revision) ≡ false
      → mutate_locked env truncated service spec action body uuid revision t
        ≡ (raised (refusal "conflict" "El objeto cambió; vuelve a cargarlo." 409), u)
  unfolding mutate_locked ◌>>=◌ gets
  mutate_locked_stale action body uuid revision object t u change read stale =
      rw read (rw (refuse_stale-stale action (selected env.repr object) revision change stale) refl)

  pub raw-posts :
      (uuid : String) (t : Trace) → posts (raw env truncated service.client spec uuid t).1 ≡ posts t
  raw-posts uuid t =
      let c = raw-Costs env truncated service.client spec uuid in
      omega (arith, c.above t, c.below t)

  -- A change of an object whose hash, when it is read, is not the revision that the request names is
  -- refused right after the read, with no POST sent.
  pub mutate_stale :
      (body : Value) (action : Action) (uuid revision : String) (object : Value) (t u : Trace)
      → admitted env truncated service spec body ≡ ok (action, uuid, revision)
      → (has_peer service.peer && not spec.ha_safe) ≡ false
      → is_create action ≡ false
      → raw env truncated service.client spec uuid t ≡ (ok object, u)
      → (hash_payload env (selected env.repr object) == revision) ≡ false
      → (mutate env truncated service spec body t
          ≡ (raised (refusal "conflict" "El objeto cambió; vuelve a cargarlo." 409), u))
        × (posts u ≡ posts t)
  mutate_stale body action uuid revision object t u accepted qualified change read stale = (
    mutate_admitted body action uuid revision accepted qualified t
        ∙ mutate_locked_stale action (fields_of body) uuid revision object t u change read stale,
    sym (ap (λ p. posts p.1) read) ∙ raw-posts uuid t,
  )
