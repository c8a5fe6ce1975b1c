-- ===== src/Engine/Returned.antt =====
-- The steps of a change of `src/management/engine.py` that returned: the POSTs sent, and the audit
-- entry written.
use pegaprox_plugin_opnsense.Prelude.{
  ◌+◌, String, ◌<>◌, Bool, true, false, ◌||◌, Option, none, some, List, [], ◌∷◌, length, arith,
  if◌then◌else◌, ℤ, ◌≡◌, refl, sym, ap, ◌∙◌, ◌⊎◌,
}
use pegaprox_plugin_opnsense.Value.{Value, Fields}
use pegaprox_plugin_opnsense.Exec.{
  Exn, Result, ok, raised, raise, gets, modify, catch, attempt, recover, continue, management,
  is_opnsense, is_os_error, is_management, ◌>>=◌,
}
use pegaprox_plugin_opnsense.Exec.Inversion.{bind-ok, pure-ok, given-ok}
use pegaprox_plugin_opnsense.World.{Env, Trace, M, AuditEntry, audited}
use pegaprox_plugin_opnsense.Client
use pegaprox_plugin_opnsense.Client.{Client}
use pegaprox_plugin_opnsense.Client.Posts.{posts, post-posts}
use pegaprox_plugin_opnsense.Audit.{hash_payload, now, append, append_result}
use pegaprox_plugin_opnsense.Engine.{Action, action_name, Spec, refusal}
use pegaprox_plugin_opnsense.Engine.Service.{given, call_error, call_post, audit}
use pegaprox_plugin_opnsense.Engine.Scan.{Service}
use pegaprox_plugin_opnsense.Engine.Change.{
  Run, on_wire, at_stage, has_apply, apply_all, note, submit, activate, handle,
}

module _ {A : Type 0} where
  -- A step on the wire that returned did so at the trace of the state.
  pub wire-ok :
      (m : M A) (s u : Run) (a : A) → on_wire m s ≡ (ok a, u) → m s.trace ≡ (ok a, u.trace)
  unfolding on_wire
  wire-ok m s u a e = ended (m s.trace) refl e
    where
      ended :
          (p : Result A × Trace)
          → m s.trace ≡ p
          → ◌≡◌ {A = Result A × Run} (p.0, record s { trace = p.1 }) (ok a, u)
          → m s.trace ≡ (ok a, u.trace)
      ended (r, t) h e =
          let first : r ≡ ok a = ap (λ x. x.0) e in
          let second : t ≡ u.trace = ap (λ x. x.1.trace) e in cc

  given_wire :
      (r : Result A) (s u : Run) (a : A) → on_wire (given r) s ≡ (ok a, u) → s.trace ≡ u.trace
  given_wire r s u a e = (given-ok r a s.trace u.trace (wire-ok (given r) s u a e)).1

module _ (env : Env) (truncated : String → ℤ) (c : Client) (spec : Spec) where
  pub call_post-posts :
      (path : String) (payload : Value) (t : Trace)
      → posts (call_post env truncated c spec path payload t).1 ≡ 1 + posts t
  unfolding call_post catch raise
  call_post-posts path payload t =
      ended (Client.post env c path payload t) (post-posts env c path payload t)
    where
      ended :
          (p : Result Value × Trace)
          → posts p.1 ≡ 1 + posts t
          → posts (recover is_opnsense (λ e. raise (call_error e)) p.0 p.1).1 ≡ 1 + posts t
      ended (ok v, u) h = h
      ended (raised x, u) h = passed (is_opnsense x)
        where
          passed :
              (b : Bool)
              → posts ((if b then raise {A = Value} (call_error x) else raise x) u).1 ≡ 1 + posts t
          passed true = h
          passed false = h

module _ (env : Env) (truncated : String → ℤ) (service : Service) (spec : Spec) where
  -- The audit entry that a note writes
  abbrev pub Noted : String → String → Trace → Trace → Type 0
  Noted uuid result t u =
      (entry : AuditEntry) × ((u ≡ audited entry ∷ t)
        × (entry.result ≡ result)
        × (entry.target ≡ uuid))

  pub note-ok :
      (action : Action) (uuid result : String) (payload : Value) (started t u : Trace)
      → note env truncated service spec action uuid result payload started t ≡ (ok tt, u)
      → Noted uuid result t u
  unfolding note audit ◌>>=◌ gets now catch raise append
  note-ok action uuid result payload started t u e = logged service.has_log e
    where
      entry : AuditEntry
      entry = record {
        ts = env.utc_iso t;
        user = service.actor;
        action = spec.id <> "." <> action_name action;
        target = uuid;
        host = service.client.host.name;
        result = result;
        duration_ms = env.elapsed_ms started t;
        detail = "";
        payload_sha256 = hash_payload env payload;
      }

      written :
          (o : Option String)
          → recover is_os_error
              (λ e. raise (refusal "audit" "No se pudo persistir la auditoría." 503))
              (append_result entry o t).0
              (append_result entry o t).1
            ≡ (ok tt, u)
          → Noted uuid result t u
      written none e = (entry, (sym (ap (λ p. p.1) e), refl, refl))
      written (some why) e = cc

      logged :
          (b : Bool)
          → (if b
                then catch is_os_error
                    (append env entry)
                    (λ e. raise (refusal "audit" "No se pudo persistir la auditoría." 503))
                else raise (refusal "audit" "No se pudo persistir la auditoría." 503))
              t
            ≡ (ok tt, u)
          → Noted uuid result t u
      logged true e = written (env.append t entry) e
      logged false e = cc

  apply_all-posts :
      (paths : List String) (t u : Trace)
      → apply_all env truncated service spec paths t ≡ (ok tt, u)
      → posts u ≡ length paths + posts t
  unfolding apply_all
  apply_all-posts [] t u e =
      let same = (pure-ok tt tt t u e).1 in omega (arith, ap (λ x. posts x) same)
  apply_all-posts (path ∷ paths) t u e =
      let (v, (t1, (p, q))) = bind-ok _ _ t u tt e in
      let (w, (t2, (r, s))) = bind-ok _ _ t1 u tt q in
      let same = (given-ok _ w t1 t2 r).1 in
      let sent : posts t1 ≡ 1 + posts t =
        sym (ap (λ x. posts x.1) p) ∙ call_post-posts env truncated service.client spec path _ t in
      omega (arith, sent, ap (λ x. posts x) same, apply_all-posts paths t2 u s)

  pub activate-posts :
      (s u : Run)
      → activate env truncated service spec s ≡ (ok tt, u)
      → posts u.trace ≡ length spec.apply + posts s.trace
  unfolding activate at_stage raise
  activate-posts s u e =
      let (v, (s1, (p, q))) = bind-ok _ _ s u tt e in
      omega (
        arith,
        ap (λ x. posts x.1.trace) p,
        run (has_apply spec.apply || spec.persistence_only) s1 q,
      )
    where
      run :
          (b : Bool) (s1 : Run)
          → (if b
                then on_wire (apply_all env truncated service spec spec.apply)
                else raise (refusal "unsupported" "No hay acción de aplicación verificada." 502))
              s1
            ≡ (ok tt, u)
          → posts u.trace ≡ length spec.apply + posts s1.trace
      run true s1 e =
          apply_all-posts spec.apply s1.trace u.trace
            (wire-ok (apply_all env truncated service spec spec.apply) s1 u tt e)
      run false s1 e = cc

  pub submit-posts :
      (action : Action) (payload : Value) (s u : Run) (uuid : String)
      → submit env truncated service spec action payload s ≡ (ok uuid, u)
      → posts u.trace ≡ 1 + posts s.trace
  unfolding submit modify gets
  submit-posts action payload s u uuid e =
      let (_, (s1, (p1, q1))) = bind-ok _ _ s u uuid e in
      let (_, (s2, (p2, q2))) = bind-ok _ _ s1 u uuid q1 in
      let (path, (s3, (p3, q3))) = bind-ok _ _ s2 u uuid q2 in
      let (_, (s4, (p4, q4))) = bind-ok _ _ s3 u uuid q3 in
      let (_, (s5, (p5, q5))) = bind-ok _ _ s4 u uuid q4 in
      let (_, (s6, (p6, q6))) = bind-ok _ _ s5 u uuid q5 in
      let (_, (s7, (p7, q7))) = bind-ok _ _ s6 u uuid q6 in
      let read : s.trace ≡ s3.trace =
        ap (λ x. x.1.trace) p1 ∙ ap (λ x. x.1.trace) p2 ∙ given_wire _ s2 s3 _ p3 in
      let kept : s4.trace ≡ u.trace =
        given_wire _ s4 s5 _ p5
        ∙ given_wire _ s5 s6 _ p6
        ∙ ap (λ x. x.1.trace) p7
        ∙ ap (λ x. x.trace) (pure-ok _ uuid s7 u q7).1 in
      let sent : posts s4.trace ≡ 1 + posts s3.trace =
        sym (
          ap (λ x. posts x.1)
            (wire-ok (call_post env truncated service.client spec path payload) s3 s4 _ p4))
        ∙ call_post-posts env truncated service.client spec path payload s3.trace in
      omega (arith, sent, ap (λ x. posts x) read, ap (λ x. posts x) kept)

  -- The handler of errors does not return.
  pub handle-raises :
      (action : Action) (payload : Value) (started : Trace) (e : Exn) (s : Run)
      → (x : Exn) × ((handle env truncated service spec action payload started e s).0 ≡ raised x)
  unfolding handle ◌>>=◌ gets raise
  handle-raises action payload started (management e) s = noted _ (
      on_wire
        (attempt is_management
          (note env truncated service spec action s.uuid "error" payload started))
        s)
    where
      noted :
          (f : Exn ⊎ Unit {0} → Exn) (p : Result (Exn ⊎ Unit {0}) × Run)
          → (x : Exn) × ((continue {B = Fields} p.0 (λ w. raise (f w)) p.1).0 ≡ raised x)
      noted f (ok w, t) = (f w, refl)
      noted f (raised x, t) = (x, refl)
  handle-raises action payload started _ s = (_, refl)
