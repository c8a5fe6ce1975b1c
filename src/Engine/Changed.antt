-- ===== src/Engine/Changed.antt =====
-- `mutate` of `src/management/engine.py` where it returns: the steps that it took, in their order.
use pegaprox_plugin_opnsense.Prelude.{
  String, Bool, true, false, ◌&&◌, not, Option, arith, if◌then◌else◌, ◌==◌, ℤ, ◌≡◌, refl, ap, ◌∙◌,
  ◌⊎◌, inl, inr,
}
use mathlib.Core.Path.{subst}
use pegaprox_plugin_opnsense.Value.{Value, null, dict, end, Fields, fields_of, get_or}
use pegaprox_plugin_opnsense.Exec.{Result, ok, raise, gets, catch, is_management, ◌>>=◌}
use pegaprox_plugin_opnsense.Exec.Inversion.{bind-ok, given-ok, catch-ok}
use pegaprox_plugin_opnsense.World.{Env, Trace}
use pegaprox_plugin_opnsense.Audit.{hash_payload}
use pegaprox_plugin_opnsense.Engine.{Action, create, update, delete, is_create, Spec, refusal}
use pegaprox_plugin_opnsense.Engine.Replies.{selected}
use pegaprox_plugin_opnsense.Engine.Service.{given, raw}
use pegaprox_plugin_opnsense.Engine.Scan.{Service}
use pegaprox_plugin_opnsense.Engine.Change.{
  Run, payload_of, perform, handle, first_run, attempt_change,
}
use pegaprox_plugin_opnsense.Engine.Mutate.{
  admitted, has_peer, refuse_stale, expected_of, mutate_locked, mutate,
}
use pegaprox_plugin_opnsense.Engine.Returned.{Noted, note-ok, handle-raises}
use pegaprox_plugin_opnsense.Engine.Confirmed.{Done, perform-Done}

module _ (env : Env) (truncated : String → ℤ) (service : Service) (spec : Spec) where
  attempt_change-Done :
      (action : Action) (uuid : String) (values : Value) (expected : Option Value) (payload : Value)
      (started : Trace) (result : Fields) (t u : Trace)
      → attempt_change env truncated service spec action uuid values expected payload started t
        ≡ (ok result, u)
      → Done env truncated service spec action uuid (fields_of values) expected payload result t u
  unfolding attempt_change first_run
  attempt_change-Done action uuid values expected payload started result t u e =
      ended
        (catch is_management
          (perform env truncated service spec action values expected payload started)
          (handle env truncated service spec action payload started)
          (first_run env truncated service spec uuid t))
        refl e
    where
      ended :
          (p : Result Fields × Run)
          → catch is_management
              (perform env truncated service spec action values expected payload started)
              (handle env truncated service spec action payload started)
              (first_run env truncated service spec uuid t)
            ≡ p
          → ◌≡◌ {A = Result Fields × Trace} (p.0, p.1.trace) (ok result, u)
          → Done env truncated service spec action uuid
              (fields_of values)
              expected
              payload
              result
              t
              u
      ended (r, s) h e =
          let returned = given-ok r result s.trace u e in
          subst
            (λ x.
              Done env truncated service spec action uuid (fields_of values) expected payload result
                t x)
            returned.1
            (perform-Done env truncated service spec action values expected payload started result
              (first_run env truncated service spec uuid t) s
              (catch-ok is_management _ _ (first_run env truncated service spec uuid t) s result
                (handle-raises env truncated service spec action payload started)
                (h ∙ ap (λ x. (x, s)) returned.0)))

  -- A change from `t` to `u`: the object was read, and for an update or a delete its hash was the
  -- revision; what is to be was computed; an audit entry was written, and then the change of the same
  -- object was made with that as its payload.
  pub record Changed (action : Action) (body : Fields) (uuid revision : String) (result : Fields)
      (t u : Trace) : Type 0 where
    pub object : Value
    pub expected : Option Value
    pub read : Trace
    pub reserved : Trace
    pub loaded : raw env truncated service.client spec uuid t ≡ (ok object, read)
    pub fresh :
        (is_create action ≡ true)
        ⊎ ((hash_payload env (selected env.repr object) == revision) ≡ true)
    pub wanted :
        expected_of env truncated service spec action
          (get_or "values" null body)
          (selected env.repr object)
        ≡ ok expected
    pub noted : Noted env truncated service spec uuid "started" read reserved
    pub done :
        Done env truncated service spec action uuid
          (fields_of (get_or "values" (dict end) body))
          expected
          (payload_of spec expected)
          result
          reserved
          u

  refuse_stale-fresh :
      (action : Action) (current : Value) (revision : String)
      → refuse_stale env truncated service spec action current revision ≡ ok tt
      → (is_create action ≡ true) ⊎ ((hash_payload env current == revision) ≡ true)
  unfolding refuse_stale
  refuse_stale-fresh create current revision e = inl refl
  refuse_stale-fresh update current revision e = inr (ground arith)
  refuse_stale-fresh delete current revision e = inr (ground arith)

  mutate_locked-Changed :
      (action : Action) (body : Fields) (uuid revision : String) (result : Fields) (t u : Trace)
      → mutate_locked env truncated service spec action body uuid revision t ≡ (ok result, u)
      → Changed action body uuid revision result t u
  unfolding mutate_locked gets
  mutate_locked-Changed action body uuid revision result t u e =
      let (started, (t0, (p0, q0))) = bind-ok _ _ t u result e in
      let (object, (t1, (p1, q1))) = bind-ok _ _ t0 u result q0 in
      let (_, (t2, (p2, q2))) = bind-ok _ _ t1 u result q1 in
      let (expected, (t3, (p3, q3))) = bind-ok _ _ t2 u result q2 in
      let (_, (t4, (p4, q4))) = bind-ok _ _ t3 u result q3 in
      let start = ap (λ x. x.1) p0 in
      let fresh = given-ok _ tt t1 t2 p2 in
      let wanted = given-ok _ expected t2 t3 p3 in
      record {
        object = object;
        expected = expected;
        read = t3;
        reserved = t4;
        loaded =
            ap (raw env truncated service.client spec uuid) start
            ∙ p1
            ∙ ap (λ x. (ok object, x)) (fresh.1 ∙ wanted.1);
        fresh = refuse_stale-fresh action (selected env.repr object) revision fresh.0;
        wanted = wanted.0;
        noted = note-ok env truncated service spec action uuid "started" _ started t3 t4 p4;
        done = attempt_change-Done action uuid _ expected _ started result t4 u q4;
      }

  -- A change that the request asks for, qualified for HA if there is a peer
  abbrev pub ChangedBy : Value → Fields → Trace → Trace → Type 0
  ChangedBy body result t u =
      (action : Action) × ((uuid : String) × ((revision : String) × ((admitted env truncated service
                spec body
              ≡ ok (action, uuid, revision))
            × ((has_peer service.peer && not spec.ha_safe) ≡ false)
            × Changed action (fields_of body) uuid revision result t u)))

  -- A change that returns was admitted, and it is qualified for HA if there is a peer. The object that
  -- the request names was read and was as it was loaded, or it is new; the audit log noted the start.
  -- Then one POST went to the path of the action for that object, with what is to be as its payload,
  -- and after it one to each apply action, in their order; each was acknowledged, and nothing else was
  -- sent. After these the firewall showed the change of the object, which for a create is the one whose
  -- uuid the reply to the POST gave, and the peer, if there is one, the same; at last the audit log
  -- noted the success for that object, and its uuid is in what is returned.
  pub mutate_changed :
      (body : Value) (result : Fields) (t u : Trace)
      → mutate env truncated service spec body t ≡ (ok result, u)
      → ChangedBy body result t u
  unfolding mutate raise
  mutate_changed body result t u e = gated (has_peer service.peer && not spec.ha_safe) refl e
    where
      gated :
          (b : Bool)
          → (has_peer service.peer && not spec.ha_safe) ≡ b
          → (if b
                then raise (
                    refusal "ha_unqualified" "Este módulo aún no tiene escritura HA verificada."
                      409)
                else (do
                  plan ← given (admitted env truncated service spec body)
                  mutate_locked env truncated service spec plan.0 (fields_of body) plan.1 plan.2))
              t
            ≡ (ok result, u)
          → ChangedBy body result t u
      gated true h e = cc
      gated false h e =
          let (plan, (t1, (p, q))) = bind-ok _ _ t u result e in
          let accepted = given-ok (admitted env truncated service spec body) plan t t1 p in
          (
            plan.0,
            (
              plan.1,
              (
                plan.2,
                (
                  accepted.0,
                  h,
                  mutate_locked-Changed plan.0 (fields_of body) plan.1 plan.2 result t u (
                      ap
                        (λ x.
                          mutate_locked env truncated service spec plan.0 (fields_of body) plan.1
                            plan.2 x)
                        accepted.1
                      ∙ q),
                ),
              ),
            ),
          )
