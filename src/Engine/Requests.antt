-- ===== src/Engine/Requests.antt =====
-- The POSTs of a change of `src/management/engine.py` that returned, each as the request it sent and
-- the reply it got.
use pegaprox_plugin_opnsense.Prelude.{
  String, Bool, true, false, List, [], ◌∷◌, ◌||◌, if◌then◌else◌, ℤ, ◌≡◌, refl, sym, ap, ◌∙◌,
}
use mathlib.Core.Path.{subst}
use pegaprox_plugin_opnsense.Value.{Value, null, dict, end, fields_of, get_or}
use pegaprox_plugin_opnsense.Exec.{Result, ok, raised, raise, pure, gets, modify, is_opnsense}
use pegaprox_plugin_opnsense.Exec.Inversion.{bind-ok, pure-ok, given-ok, catch-ok}
use pegaprox_plugin_opnsense.World.{Env, Trace, sent}
use pegaprox_plugin_opnsense.Client
use pegaprox_plugin_opnsense.Client.{Client}
use pegaprox_plugin_opnsense.Client.Verbs.{post_http, post-one_request}
use pegaprox_plugin_opnsense.Verified.Checks.{validate_uuid}
use pegaprox_plugin_opnsense.Engine.{Action, create, update, delete, Spec, refusal}
use pegaprox_plugin_opnsense.Engine.Replies.{path_of, ack}
use pegaprox_plugin_opnsense.Engine.Service.{given, call_error, call_post}
use pegaprox_plugin_opnsense.Engine.Scan.{Service}
use pegaprox_plugin_opnsense.Engine.Change.{
  Run, operation, on_wire, at_stage, has_apply, confirmed_by, apply_all, submit, activate,
}
use pegaprox_plugin_opnsense.Engine.Returned.{wire-ok}

-- A result taken on the wire, where it is no error
given_wire-ok :
    {A : Type 0} (r : Result A) (s u : Run) (a : A)
    → on_wire (given r) s ≡ (ok a, u)
    → (r ≡ ok a) × (s.trace ≡ u.trace)
given_wire-ok r s u a e = given-ok r a s.trace u.trace (wire-ok (given r) s u a e)

-- The uuid that a change is about: that of the reply to a create, or else the one that was asked for.
abbrev pub Names : Action → (requested : String) → Value → (uuid : String) → Type 0
Names create requested reply uuid = validate_uuid (get_or "uuid" null (fields_of reply)) ≡ ok uuid
Names _ requested reply uuid = uuid ≡ requested

confirmed_by-Names :
    (action : Action) (requested : String) (reply : Value) (uuid : String)
    → confirmed_by action requested reply ≡ ok uuid
    → Names action requested reply uuid
unfolding confirmed_by
confirmed_by-Names create requested reply uuid e =
    checked (validate_uuid (get_or "uuid" null (fields_of reply))) e
  where
    checked :
        (r : Result String)
        → (elim r [
          | ok created ↦ ok created
          | raised e ↦
              raised
                (refusal "invalid_response" "Creación sin UUID confirmado; revisa el estado." 502)
        ])
          ≡ ok uuid
        → r ≡ ok uuid
    checked (ok created) e = e
    checked (raised x) e = cc
confirmed_by-Names update requested reply uuid e = cc
confirmed_by-Names delete requested reply uuid e = cc

module _ (env : Env) (truncated : String → ℤ) (service : Service) (spec : Spec) where
  -- The trace after a POST to the firewall
  abbrev pub posting : (path : String) → Value → Trace → Trace
  posting path payload t = sent (post_http service.client path payload) ∷ t

  -- A POST that was answered, and what it adds to the trace: itself.
  abbrev pub Answers : (path : String) → Value → Value → Trace → Trace → Type 0
  Answers path payload reply t u =
      ((Client.post env service.client path payload t).0 ≡ ok reply) × (u ≡ posting path payload t)

  call_post-Answers :
      (path : String) (payload reply : Value) (t u : Trace)
      → call_post env truncated service.client spec path payload t ≡ (ok reply, u)
      → Answers path payload reply t u
  unfolding call_post raise
  call_post-Answers path payload reply t u e =
      let p =
        catch-ok is_opnsense (Client.post env service.client path payload)
          (λ x. raise (call_error x)) t u reply (λ x s. (_, refl)) e in
      (ap (λ x. x.0) p, sym (ap (λ x. x.1) p) ∙ post-one_request env service.client path payload t)

  -- The save: one POST to the path of the action for the uuid that was asked for, which the firewall
  -- acknowledged.
  pub record Saved (action : Action) (requested : String) (payload : Value) (uuid : String)
      (t u : Trace) : Type 0 where
    pub path : String
    pub reply : Value
    pub addressed : path_of spec (operation spec action) requested ≡ ok path
    pub answers : Answers path payload reply t u
    pub accepted : ack env.repr spec false reply ≡ ok tt
    pub names : Names action requested reply uuid

  pub submit-Saved :
      (action : Action) (payload : Value) (s u : Run) (uuid : String)
      → submit env truncated service spec action payload s ≡ (ok uuid, u)
      → Saved action s.uuid payload uuid s.trace u.trace
  unfolding submit modify gets pure
  submit-Saved action payload s u uuid e =
      let (_, (s1, (p1, q1))) = bind-ok _ _ s u uuid e in
      let (got, (s2, (p2, q2))) = bind-ok _ _ s1 u uuid q1 in
      let (path, (s3, (p3, q3))) = bind-ok _ _ s2 u uuid q2 in
      let (reply, (s4, (p4, q4))) = bind-ok _ _ s3 u uuid q3 in
      let (_, (s5, (p5, q5))) = bind-ok _ _ s4 u uuid q4 in
      let (named, (s6, (p6, q6))) = bind-ok _ _ s5 u uuid q5 in
      let (_, (s7, (p7, q7))) = bind-ok _ _ s6 u uuid q6 in
      let asked : s.uuid ≡ got.uuid =
        ap (λ x. x.1.uuid) p1 ∙ ap (λ x. x.uuid) (pure-ok s1 got s1 s2 p2).0 in
      let addressed = given_wire-ok (path_of spec (operation spec action) got.uuid) s2 s3 path p3 in
      let answers =
        call_post-Answers path payload reply s3.trace s4.trace
          (wire-ok (call_post env truncated service.client spec path payload) s3 s4 reply p4) in
      let accepted = given_wire-ok (ack env.repr spec false reply) s4 s5 tt p5 in
      let confirmed = given_wire-ok (confirmed_by action got.uuid reply) s5 s6 named p6 in
      let last = pure-ok named uuid s7 u q7 in
      let read : s.trace ≡ s3.trace =
        ap (λ x. x.1.trace) p1 ∙ ap (λ x. x.1.trace) p2 ∙ addressed.1 in
      let kept : s4.trace ≡ u.trace =
        accepted.1 ∙ confirmed.1 ∙ ap (λ x. x.1.trace) p7 ∙ ap (λ x. x.trace) last.1 in
      record {
        path = path;
        reply = reply;
        addressed = ap (λ x. path_of spec (operation spec action) x) asked ∙ addressed.0;
        answers = (
          ap (λ x. (Client.post env service.client path payload x).0) read ∙ answers.0,
          sym kept ∙ answers.1 ∙ ap (posting path payload) (sym read),
        );
        accepted = accepted.0;
        names =
            confirmed_by-Names action s.uuid reply uuid
              (ap (λ x. confirmed_by action x reply) asked ∙ confirmed.0 ∙ ap (λ x. ok x) last.0);
      }

  -- The apply actions: one POST to each of the paths in their order, each acknowledged, and nothing
  -- else.
  pub data Applied : List String → Trace → Trace → Type 0 where
    all_applied : (t u : Trace) → u ≡ t → Applied [] t u
    applied :
        (path : String) (paths : List String) (reply : Value) (t u v : Trace)
        → Answers path (dict end) reply t u
        → ack env.repr spec true reply ≡ ok tt
        → Applied paths u v
        → Applied (path ∷ paths) t v

  apply_all-Applied :
      (paths : List String) (t u : Trace)
      → apply_all env truncated service spec paths t ≡ (ok tt, u)
      → Applied paths t u
  unfolding apply_all
  apply_all-Applied [] t u e = all_applied t u (sym (pure-ok tt tt t u e).1)
  apply_all-Applied (path ∷ paths) t u e =
      let (reply, (t1, (p, q))) = bind-ok _ _ t u tt e in
      let (w, (t2, (r, s))) = bind-ok _ _ t1 u tt q in
      let accepted = given-ok (ack env.repr spec true reply) w t1 t2 r in
      applied path paths reply t t1 u (call_post-Answers path (dict end) reply t t1 p) accepted.0 (
        apply_all-Applied paths t1 u
          (ap (apply_all env truncated service spec paths) accepted.1 ∙ s))

  pub activate-Applied :
      (s u : Run)
      → activate env truncated service spec s ≡ (ok tt, u)
      → Applied spec.apply s.trace u.trace
  unfolding activate at_stage raise
  activate-Applied s u e =
      let (v, (s1, (p, q))) = bind-ok _ _ s u tt e in
      subst (λ x. Applied spec.apply x u.trace) (sym (ap (λ x. x.1.trace) p))
        (run (has_apply spec.apply || spec.persistence_only) s1 q)
    where
      run :
          (b : Bool) (s1 : Run)
          → (if b
                then on_wire (apply_all env truncated service spec spec.apply)
                else raise (refusal "unsupported" "No hay acción de aplicación verificada." 502))
              s1
            ≡ (ok tt, u)
          → Applied spec.apply s1.trace u.trace
      run true s1 e =
          apply_all-Applied spec.apply s1.trace u.trace
            (wire-ok (apply_all env truncated service spec spec.apply) s1 u tt e)
      run false s1 e = cc
