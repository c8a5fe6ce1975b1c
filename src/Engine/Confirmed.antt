-- ===== src/Engine/Confirmed.antt =====
-- A change of `src/management/engine.py` that returns: what was sent, and what the firewall and its
-- peer showed afterwards.
use pegaprox_plugin_opnsense.Prelude.{
  String, Bool, true, false, Option, none, some, [], ◌∷◌, if◌then◌else◌, ◌==◌, ℤ, ◌≡◌, refl, ap,
  ◌∙◌,
}
use mathlib.Core.Path.{subst}
use pegaprox_plugin_opnsense.Value
use pegaprox_plugin_opnsense.Value.{Value, bool, str, Fields, get, put, entries, fields_of}
use pegaprox_plugin_opnsense.Exec.{Result, ok, raised, pure, raise}
use pegaprox_plugin_opnsense.Exec.Inversion.{bind-ok, pure-ok, given-ok}
use pegaprox_plugin_opnsense.World.{Env, Trace}
use pegaprox_plugin_opnsense.Client.{Client}
use pegaprox_plugin_opnsense.Audit.{hash_payload}
use pegaprox_plugin_opnsense.Engine.{Action, action_name, Spec, refusal}
use pegaprox_plugin_opnsense.Engine.Replies.{selected}
use pegaprox_plugin_opnsense.Engine.Values.{and_then}
use pegaprox_plugin_opnsense.Engine.Readback.{compare_fields, hook}
use pegaprox_plugin_opnsense.Engine.Service.{given, raw}
use pegaprox_plugin_opnsense.Engine.Scan.{Service}
use pegaprox_plugin_opnsense.Engine.Change.{
  Run, read_back, check_peer, note, at_stage, perform, has_apply, secret_set, result_of,
}
use pegaprox_plugin_opnsense.Engine.Pages.{Absent, scanned}
use pegaprox_plugin_opnsense.Engine.Requests.{Saved, Applied, submit-Saved, activate-Applied}
use pegaprox_plugin_opnsense.Engine.Returned.{wire-ok, Noted, note-ok}

module _ (env : Env) (truncated : String → ℤ) (service : Service) (spec : Spec) where
  -- What a read of the firewall shows of the object: nothing, in all pages of the listing, or an
  -- object whose fields are as they were set.
  pub data Shown (action : Action) (values : Fields) (uuid : String)
      : Option Value → Option Value → Trace → Trace → Type 0 where
    absent :
        (t u : Trace)
        → Absent env truncated spec service.client uuid 1 0 t u
        → Shown action values uuid none none t u
    present :
        (expected object : Value) (t u : Trace)
        → raw env truncated service.client spec uuid t ≡ (ok object, u)
        → compare_fields env.repr values (selected env.repr object) expected spec.fields ≡ ok tt
        → hook spec (selected env.repr object) expected action ≡ ok tt
        → Shown action values uuid (some expected) (some (selected env.repr object)) t u

  -- What a read of the peer shows: that there is none, nothing of the object, or an object with the
  -- hash of the firewall's.
  pub data PeerShown (uuid : String) : Option Client → Option Value → Trace → Trace → Type 0 where
    alone : (actual : Option Value) (t : Trace) → PeerShown uuid none actual t t
    absent_there :
        (peer : Client) (t u : Trace)
        → Absent env truncated spec peer uuid 1 0 t u
        → PeerShown uuid (some peer) none t u
    same_there :
        (peer : Client) (actual object : Value) (t u : Trace)
        → raw env truncated peer spec uuid t ≡ (ok object, u)
        → (hash_payload env (selected env.repr object) == hash_payload env actual) ≡ true
        → PeerShown uuid (some peer) (some actual) t u

  read_back-Shown :
      (action : Action) (values : Fields) (expected : Option Value) (uuid : String) (t u : Trace)
      (actual : Option Value)
      → read_back env truncated service spec action values expected uuid t ≡ (ok actual, u)
      → Shown action values uuid expected actual t u
  unfolding read_back
  read_back-Shown action values none uuid t u actual e =
      let (_, (v, (p, q))) = bind-ok _ _ t u actual e in
      let done = pure-ok none actual v u q in
      subst (λ x. Shown action values uuid none x t u) done.0
        (absent t u (
          scanned env truncated spec service.client _ _ _ uuid t u
            (p ∙ ap (λ x. (ok tt, x)) done.1)))
  read_back-Shown action values (some expected) uuid t u actual e =
      let (object, (t1, (p1, q1))) = bind-ok _ _ t u actual e in
      let (_, (t2, (p2, q2))) = bind-ok _ _ t1 u actual q1 in
      let (_, (t3, (p3, q3))) = bind-ok _ _ t2 u actual q2 in
      let fields = given-ok _ _ t1 t2 p2 in
      let hooked = given-ok _ _ t2 t3 p3 in
      let done = pure-ok (some (selected env.repr object)) actual t3 u q3 in
      subst (λ x. Shown action values uuid (some expected) x t u) done.0
        (present expected object t u (p1 ∙ ap (λ x. (ok object, x)) (fields.1 ∙ hooked.1 ∙ done.1))
          fields.0 hooked.0)

  check_peer-PeerShown :
      (peer : Option Client) (uuid : String) (actual : Option Value) (t u : Trace)
      → check_peer env truncated service spec peer uuid actual t ≡ (ok tt, u)
      → PeerShown uuid peer actual t u
  unfolding check_peer raise
  check_peer-PeerShown none uuid actual t u e =
      subst (λ x. PeerShown uuid none actual t x) (pure-ok tt tt t u e).1 (alone actual t)
  check_peer-PeerShown (some peer) uuid none t u e =
      absent_there peer t u (scanned env truncated spec peer _ _ _ uuid t u e)
  check_peer-PeerShown (some peer) uuid (some actual) t u e =
      let (object, (t1, (p, q))) = bind-ok _ _ t u tt e in
      compared object t1 p (hash_payload env (selected env.repr object) == hash_payload env actual)
        refl q
    where
      compared :
          (object : Value) (t1 : Trace)
          → raw env truncated peer spec uuid t ≡ (ok object, t1)
          → (b : Bool)
          → (hash_payload env (selected env.repr object) == hash_payload env actual) ≡ b
          → (if b
                then pure tt
                else raise (refusal "ha_unverified" "El objeto del peer no coincide." 409))
              t1
            ≡ (ok tt, u)
          → PeerShown uuid (some peer) (some actual) t u
      compared object t1 p true h q =
          same_there peer actual object t u (p ∙ ap (λ x. (ok object, x)) (pure-ok tt tt t1 u q).1)
            h
      compared object t1 p false h q = cc

  -- What a change returns names its object.
  result_of-uuid :
      (values : Value) (action : Action) (uuid : String) (result : Fields)
      → result_of spec values action uuid ≡ ok result
      → get "uuid" result ≡ some (str uuid)
  unfolding result_of get put Value.update
  result_of-uuid values action uuid result e = told (secret_set values spec.fields) e
    where
      plain : Fields
      plain = entries (
          ("ok", bool true)
          ∷ ("uuid", str uuid)
          ∷ ("action", str (action_name action))
          ∷ ("applied", bool (has_apply spec.apply))
          ∷ ("config_saved", bool true)
          ∷ ("verified", bool true)
          ∷ [])

      secret : Fields
      secret =
          entries (("secret_change_acknowledged", bool true) ∷ ("secret_verified", bool false) ∷ [])

      told :
          (r : Result Bool)
          → and_then r (λ set. ok (if set then Value.update plain secret else plain)) ≡ ok result
          → get "uuid" result ≡ some (str uuid)
      told (ok true) q = cc
      told (ok false) q = cc
      told (raised x) q = cc

  -- What a change of the object `requested` did that returned: from `t` on the save was one POST,
  -- which the firewall acknowledged, and after it each apply action was one POST, acknowledged; nothing
  -- else was sent up to `posted`. From there on the object of the save was read at the firewall and
  -- its peer, an audit entry for it was written with the result `ok`, and its uuid was returned.
  pub record Done (action : Action) (requested : String) (values : Fields) (expected : Option Value)
      (payload : Value) (result : Fields) (t u : Trace) : Type 0 where
    pub uuid : String
    pub actual : Option Value
    pub sent : Trace
    pub posted : Trace
    pub read : Trace
    pub compared : Trace
    pub saved : Saved env truncated service spec action requested payload uuid t sent
    pub activated : Applied env truncated service spec spec.apply sent posted
    pub shown : Shown action values uuid expected actual posted read
    pub peer_shown : PeerShown uuid service.peer actual read compared
    pub noted : Noted env truncated service spec uuid "ok" compared u
    pub returned : get "uuid" result ≡ some (str uuid)

  pub perform-Done :
      (action : Action) (values : Value) (expected : Option Value) (payload : Value)
      (started : Trace) (result : Fields) (s u : Run)
      → perform env truncated service spec action values expected payload started s ≡ (ok result, u)
      → Done action s.uuid (fields_of values) expected payload result s.trace u.trace
  unfolding perform at_stage
  perform-Done action values expected payload started result s u e =
      let (uuid, (s1, (p1, q1))) = bind-ok _ _ s u result e in
      let (_, (s2, (p2, q2))) = bind-ok _ _ s1 u result q1 in
      let (_, (s3, (p3, q3))) = bind-ok _ _ s2 u result q2 in
      let (actual, (s4, (p4, q4))) = bind-ok _ _ s3 u result q3 in
      let (_, (s5, (p5, q5))) = bind-ok _ _ s4 u result q4 in
      let (_, (s6, (p6, q6))) = bind-ok _ _ s5 u result q5 in
      let last =
        given-ok _ result s6.trace u.trace
          (wire-ok (given (result_of spec values action uuid)) s6 u result q6) in
      record {
        uuid = uuid;
        actual = actual;
        sent = s1.trace;
        posted = s3.trace;
        read = s4.trace;
        compared = s5.trace;
        saved = submit-Saved env truncated service spec action payload s s1 uuid p1;
        activated =
            subst (λ x. Applied env truncated service spec spec.apply s1.trace x)
              (ap (λ x. x.1.trace) p3) (activate-Applied env truncated service spec s1 s2 p2);
        shown = read_back-Shown action (fields_of values) expected uuid s3.trace s4.trace actual (
            wire-ok (read_back env truncated service spec action (fields_of values) expected uuid)
              s3 s4 actual p4);
        peer_shown =
            check_peer-PeerShown service.peer uuid actual s4.trace s5.trace (
              wire-ok (check_peer env truncated service spec service.peer uuid actual) s4 s5 tt p5);
        noted =
            note-ok env truncated service spec action uuid "ok" payload started s5.trace u.trace (
              wire-ok (note env truncated service spec action uuid "ok" payload started) s5 s6 tt p6
              ∙ ap (λ x. (ok tt, x)) last.1);
        returned = result_of-uuid values action uuid result last.0;
      }
