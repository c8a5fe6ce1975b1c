-- ===== src/Engine/Returns.antt =====
-- An update of `src/management/engine.py` on a firewall that does what it is asked for.
use pegaprox_plugin_opnsense.Prelude.{
  ◌+◌, ◌≤◌, ◌<◌, length, arith, sym, String, Bool, true, false, ◌&&◌, ◌||◌, not, none, some, List,
  [], ◌∷◌, if◌then◌else◌, ◌==◌, ℤ, ◌≡◌, refl, ap, ◌∙◌,
}
use pegaprox_plugin_opnsense.Value.{Value, null, dict, end, Fields, get, get_or}
use pegaprox_plugin_opnsense.Exec.{Result, ok, pure, gets, modify, catch, ◌>>=◌}
use pegaprox_plugin_opnsense.Exec.Inversion.{bind-runs}
use pegaprox_plugin_opnsense.World.{Env, Trace, M, AuditEntry}
use pegaprox_plugin_opnsense.Audit.{hash_payload, now, append}
use pegaprox_plugin_opnsense.Engine.{Action, update, Field, Spec}
use pegaprox_plugin_opnsense.Engine.Values.{and_then, is_blank}
use pegaprox_plugin_opnsense.Engine.Replies.{selected, path_of, ack}
use pegaprox_plugin_opnsense.Engine.Readback.{compare_fields, hook}
use pegaprox_plugin_opnsense.Engine.Service.{given, call_post, raw, audit}
use pegaprox_plugin_opnsense.Engine.Scan.{Service}
use pegaprox_plugin_opnsense.Engine.Change.{
  Run, on_wire, at_stage, has_apply, payload_of, confirmed_by, apply_all, read_back, check_peer,
  note, submit, activate, perform, first_run, attempt_change, result_of, secret_set,
}
use pegaprox_plugin_opnsense.Engine.Mutate.{
  admitted, has_peer, refuse_stale, expected_of, mutate_locked, mutate,
}
use pegaprox_plugin_opnsense.Client.Posts.{posts}
use pegaprox_plugin_opnsense.Engine.Stale.{mutate_admitted, raw-posts}
use pegaprox_plugin_opnsense.Engine.Posts.{note-Costs}
use pegaprox_plugin_opnsense.Engine.Returned.{submit-posts, activate-posts}
use mathlib.Core.Path.{subst}

secret_set_runs :
    (values : Fields) (fs : List Field) → (b : Bool) × (secret_set (dict values) fs ≡ ok b)
unfolding secret_set
secret_set_runs values [] = (false, refl)
secret_set_runs values (f ∷ fs) =
    chosen (f.write_only && not (is_blank (get_or f.name null values))) (secret_set_runs values fs)
  where
    chosen :
        (c : Bool)
        → (b : Bool) × (secret_set (dict values) fs ≡ ok b)
        → (b : Bool) × ((if c then ok true else secret_set (dict values) fs) ≡ ok b)
    chosen true h = (true, refl)
    chosen false h = h

mapped :
    {A B : Type 0} (r : Result A) (g : A → B)
    → (a : A) × (r ≡ ok a)
    → (b : B) × (and_then r (λ x. ok (g x)) ≡ ok b)
mapped r g (a, h) = (g a, ap (λ r. and_then r (λ x. ok (g x))) h)

result_runs :
    (spec : Spec) (values : Fields) (action : Action) (uuid : String)
    → (result : Fields) × (result_of spec (dict values) action uuid ≡ ok result)
unfolding result_of
result_runs spec values action uuid =
    mapped (secret_set (dict values) spec.fields) _ (secret_set_runs values spec.fields)

-- An action that returns from the state `s`
abbrev pub Returns : {S A : Type 0} → Result A × S → A → Type 0
Returns {S} p a = (t : S) × (p ≡ (ok a, t))

wire_runs :
    {A : Type 0} (m : M A) (s : Run) (a : A) (t : Trace)
    → m s.trace ≡ (ok a, t)
    → on_wire m s ≡ (ok a, record s { trace = t })
unfolding on_wire
wire_runs m s a t e = ap (λ p. (p.0, record s { trace = p.1 })) e

module _ (env : Env) (truncated : String → ℤ) (service : Service) (spec : Spec)
    (logged : service.has_log ≡ true)
    (written : (u : Trace) (entry : AuditEntry) → env.append u entry ≡ none)
    (acked : (path : String) (payload : Value) (u : Trace)
      → (response : Value) × ((v : Trace) × ((call_post env truncated service.client spec path
                payload u
              ≡ (ok response, v))
            × (ack env.repr spec false response ≡ ok tt)
            × (ack env.repr spec true response ≡ ok tt)))) where
  note_runs :
      (action : Action) (uuid result : String) (payload : Value) (started t : Trace)
      → Returns (note env truncated service spec action uuid result payload started t) tt
  unfolding note audit ◌>>=◌ gets now catch append
  note_runs action uuid result payload started t = rw logged (rw (written t _) (_, refl))

  apply_all_runs :
      (paths : List String) (t : Trace) → Returns (apply_all env truncated service spec paths t) tt
  unfolding apply_all pure
  apply_all_runs [] t = (t, refl)
  apply_all_runs (path ∷ paths) t =
      let (response, (v, h)) = acked path (dict end) t in
      let (u, rest) = apply_all_runs paths v in
      (u, bind-runs _ _ t v response _ h.0 (bind-runs _ _ v v tt _ (ap (λ r. (r, v)) h.2) rest))

  submit_runs :
      (path : String) (payload : Value) (s : Run)
      → path_of spec spec.set s.uuid ≡ ok path
      → (t : Trace) × (submit env truncated service spec update payload s
          ≡ (ok s.uuid, record s { trace = t; is_partial = true; confirmed_uuid = some s.uuid }))
  unfolding submit modify gets pure confirmed_by on_wire ◌>>=◌
  submit_runs path payload s located =
      let (response, (t, h)) = acked path payload s.trace in (t, rw located (rw h.0 (rw h.1 refl)))

  module _ (uuid path : String) (values : Fields) (before object expected : Value) (t : Trace)
      (located : path_of spec spec.set uuid ≡ ok path)
      (applied : (has_apply spec.apply || spec.persistence_only) ≡ true)
      (loaded : Returns (raw env truncated service.client spec uuid t) before)
      (reads : (u : Trace)
        → posts t < posts u
        → Returns (raw env truncated service.client spec uuid u) object)
      (set : compare_fields env.repr values (selected env.repr object) expected spec.fields ≡ ok tt)
      (hooked : hook spec (selected env.repr object) expected update ≡ ok tt)
      (agreed : (u : Trace)
        → Returns
            (check_peer env truncated service spec service.peer uuid
              (some (selected env.repr object))
              u)
            tt) where
    activate_runs :
        (s : Run)
        → (u : Trace) × (activate env truncated service spec s
            ≡ (ok tt, record s { trace = u; stage = "apply" }))
    unfolding activate at_stage on_wire ◌>>=◌
    activate_runs s = let (u, h) = apply_all_runs spec.apply s.trace in (u, rw applied (rw h refl))

    read_back_runs :
        (u : Trace)
        → posts t < posts u
        → Returns
            (read_back env truncated service spec update values (some expected) uuid u)
            (some (selected env.repr object))
    unfolding read_back ◌>>=◌ pure
    read_back_runs u later = let (v, h) = reads u later in (v, rw h (rw set (rw hooked refl)))

    perform_runs :
        (payload : Value) (started start : Trace)
        → posts t ≤ posts start
        → (result : Fields) × Returns
            (perform env truncated service spec update
              (dict values)
              (some expected)
              payload
              started
              (first_run env truncated service spec uuid start))
            result
    unfolding perform at_stage first_run
    perform_runs payload started start enough =
        let s0 = first_run env truncated service spec uuid start in
        let (t1, h1) = submit_runs path payload s0 located in
        let s1 : Run = record s0 { trace = t1; is_partial = true; confirmed_uuid = some uuid } in
        let (t2, h2) = activate_runs s1 in
        let s2 : Run = record s1 { trace = t2; stage = "apply" } in
        let s3 : Run = record s2 { stage = "verify" } in
        let sent : posts t1 ≡ 1 + posts start =
          submit-posts env truncated service spec update payload s0 s1 uuid h1 in
        let activated : posts t2 ≡ length spec.apply + posts t1 =
          activate-posts env truncated service spec s1 s2 h2 in
        let (t4, h4) = read_back_runs t2 (omega (arith, sent, activated, enough)) in
        let (t5, h5) = agreed t4 in
        let (t6, h6) = note_runs update uuid "ok" payload started t5 in
        let (result, h7) = result_runs spec values update uuid in
        let s4 : Run = record s3 { trace = t4 } in
        let s5 : Run = record s4 { trace = t5 } in
        let s6 : Run = record s5 { trace = t6 } in
        (
          result,
          (
            s6,
            bind-runs _ _ s0 s1 uuid _ h1 (
                bind-runs _ _ s1 s2 tt _ h2 (
                  bind-runs _ _ s2 s3 tt _ refl (
                    bind-runs _ _ s3 s4 (some (selected env.repr object)) _
                      (wire_runs
                        (read_back env truncated service spec update values (some expected) uuid) s3
                        (some (selected env.repr object)) t4 h4)
                      (bind-runs _ _ s4 s5 tt _
                        (wire_runs
                          (check_peer env truncated service spec service.peer uuid
                            (some (selected env.repr object)))
                          s4 tt t5 h5)
                        (bind-runs _ _ s5 s6 tt _
                          (wire_runs
                            (note env truncated service spec update uuid "ok" payload started) s5 tt
                            t6 h6)
                          (wire_runs (given (result_of spec (dict values) update uuid)) s6 result t6
                            (ap (λ r. (r, t6)) h7))))))),
          ),
        )

    attempt_change_runs :
        (payload : Value) (started start : Trace)
        → posts t ≤ posts start
        → (result : Fields) × Returns
            (attempt_change env truncated service spec update uuid
              (dict values)
              (some expected)
              payload
              started
              start)
            result
    unfolding attempt_change catch
    attempt_change_runs payload started start enough =
        let (result, (s, h)) = perform_runs payload started start enough in
        (result, (s.trace, rw h refl))

    module _ (body : Fields) (revision : String) (entered : get "values" body ≡ some (dict values))
        (fresh : (hash_payload env (selected env.repr before) == revision) ≡ true)
        (wanted : expected_of env truncated service spec update
            (dict values)
            (selected env.repr before)
          ≡ ok (some expected)) where
      mutate_locked_runs :
          (result : Fields) × Returns
            (mutate_locked env truncated service spec update body uuid revision t)
            result
      unfolding mutate_locked gets get_or refuse_stale
      mutate_locked_runs =
          let (t1, h1) = loaded in
          let payload = payload_of spec (some expected) in
          let (t2, h2) = note_runs update uuid "started" payload t t1 in
          let read : posts t1 ≡ posts t =
            sym (ap (λ p. posts p.1) h1) ∙ raw-posts env truncated service spec uuid t in
          let noted : posts t1 ≤ posts t2 =
            subst (λ p. posts t1 ≤ posts p.1) h2
              ((note-Costs env truncated service spec update uuid "started" payload t).below t1) in
          let (result, (t3, h3)) = attempt_change_runs payload t t2 (omega (arith, read, noted)) in
          let unchanged : refuse_stale env truncated service spec update (selected env.repr before)
                revision
              ≡ ok tt =
            rw fresh refl in
          let computed : expected_of env truncated service spec update (get_or "values" null body)
                (selected env.repr before)
              ≡ ok (some expected) =
            ap
              (λ o.
                expected_of env truncated service spec update (elim o [ none ↦ null | some v ↦ v ])
                  (selected env.repr before))
              entered
            ∙ wanted in
          let changed =
            ap
              (λ o.
                attempt_change env truncated service spec update uuid
                  (elim o [ none ↦ dict end | some v ↦ v ]) (some expected) payload t t2)
              entered
            ∙ h3 in
          (
            result,
            (
              t3,
              bind-runs _ _ t t t _ refl (
                  bind-runs _ _ t t1 before _ h1 (
                    bind-runs _ _ t1 t1 tt _ (ap (λ r. (r, t1)) unchanged) (
                      bind-runs _ _ t1 t1 (some expected) _ (ap (λ r. (r, t1)) computed)
                        (bind-runs _ _ t1 t2 tt _ h2 changed)))),
            ),
          )

      -- An update whose request is admitted returns, if all of these hold: there is no peer or the
      -- resource is qualified for HA; the log is there and can always be written; every POST is
      -- answered and acknowledged; the specification has the path to set the object and has an apply
      -- action or needs none; the object is first read with the hash that the request names; its
      -- values are an object, and from them and what was read what is to be is computed with no error;
      -- every read after a further POST gives one object, which passes the comparison with what is to
      -- be and the hook; and the check of the peer with that object, at whatever trace, passes.
      pub mutate-Returns :
          admitted env truncated service spec (dict body) ≡ ok (update, uuid, revision)
          → (has_peer service.peer && not spec.ha_safe) ≡ false
          → (result : Fields) × Returns (mutate env truncated service spec (dict body) t) result
      mutate-Returns accepted qualified =
          let (result, (u, h)) = mutate_locked_runs in
          (
            result,
            (
              u,
              mutate_admitted env truncated service spec (dict body) update uuid revision accepted
                    qualified t
                  ∙ h,
            ),
          )
