-- ===== src/Engine/Failed.antt =====
-- What a `ManagementError` of `src/management/engine.py` says of the change that it ended.
use pegaprox_plugin_opnsense.Prelude.{
  and_true, ℕ, ◌+◌, ◌≤◌, String, true, false, ◌&&◌, not, Option, some, arith, ◌==◌, ℤ, ◌≡◌, refl,
  ap, ◌⊎◌, inl, inr, eq_iff, Bool-cases,
}
use mathlib.Core.Path.{subst}
use pegaprox_plugin_opnsense.Value.{Value, Fields, fields_of}
use pegaprox_plugin_opnsense.Exec.{
  Exn, Result, ok, raised, ManagementError, management, raise, gets, catch, attempt, is_management,
  continue, ◌>>=◌,
}
use pegaprox_plugin_opnsense.Exec.Costs.{Costs, Costs-gets}
use pegaprox_plugin_opnsense.Exec.Hoare.{
  Ends, Hoare, Hoare-pure, Hoare-raise, Hoare-if, Hoare-catch, Hoare-bind,
}
use pegaprox_plugin_opnsense.World.{Env, Trace, M}
use pegaprox_plugin_opnsense.Client.Posts.{posts}
use pegaprox_plugin_opnsense.Verified.Posts.{still}
use pegaprox_plugin_opnsense.Engine.{Action, Spec}
use pegaprox_plugin_opnsense.Engine.Scan.{Service}
use pegaprox_plugin_opnsense.Engine.Change.{
  Run, on_wire, note, perform, concluded, handle, told, first_run, attempt_change,
}
use pegaprox_plugin_opnsense.Engine.Mutate.{has_peer, mutate_locked, mutate}
use pegaprox_plugin_opnsense.Engine.Posts.{note-Costs, raw-Costs}
use pegaprox_plugin_opnsense.Engine.Stopped.{Stopped, perform-Stopped}

module _ (env : Env) (truncated : String → ℤ) (service : Service) (spec : Spec) (n : ℕ) where
  -- The error says that the change may be partial, unless the firewall rejected the values at the
  -- save; and it names an object, unless it ended the save, with at most one POST sent.
  abbrev pub Told : ManagementError → Trace → Type 0
  Told e t =
      ((e.partial ≡ true) ⊎ ((e.error ≡ "validation") × (e.stage ≡ some "save")))
      × (((uuid : String) × (e.uuid ≡ some uuid)) ⊎ ((e.stage ≡ some "save") × (posts t ≤ n + 1)))

  abbrev ToldBy : Exn → Trace → Type 0
  ToldBy (management e) t = Told e t
  ToldBy _ t = Unit {0}

  partial_of :
      (e : ManagementError) (s : Run)
      → s.is_partial ≡ true
      → ((concluded env truncated service spec e s).partial ≡ true)
        ⊎ ((e.error ≡ "validation") × (some s.stage ≡ some "save"))
  unfolding concluded
  partial_of e s partial = elim (Bool-cases (e.error == "validation" && s.stage == "save")) [
    | inl yes_ ↦
        let parts = and_true (e.error == "validation") (s.stage == "save") yes_ in
        inr (
          (eq_iff e.error "validation").0 parts.0,
          ap (λ x. some x) ((eq_iff s.stage "save").0 parts.1),
        )
    | inr no_ ↦ inl (rw no_ partial)
  ]

  uuid_of :
      (e : ManagementError) (s : Run) (t : Trace)
      → Stopped n s
      → posts t ≤ posts s.trace
      → ((uuid : String) × ((concluded env truncated service spec e s).uuid ≡ some uuid))
        ⊎ ((some s.stage ≡ some "save") × (posts t ≤ n + 1))
  unfolding concluded
  uuid_of e s t (inl (p, q, r)) le = inr (ap (λ x. some x) q, omega arith)
  uuid_of e s t (inr (p, (uuid, q))) le = inl (uuid, q)

  partial_at : (s : Run) → Stopped n s → s.is_partial ≡ true
  partial_at s (inl p) = p.0
  partial_at s (inr p) = p.0

  concluded-Told :
      (e : ManagementError) (s : Run) (t : Trace)
      → Stopped n s
      → posts t ≤ posts s.trace
      → Told (concluded env truncated service spec e s) t
  unfolding concluded
  concluded-Told e s t p le = (partial_of e s (partial_at s p), uuid_of e s t p le)

  note_still :
      (k : ℕ) (m : M (Unit {0}))
      → Costs posts 0 m
      → Hoare
          (λ t. posts t ≤ k)
          (attempt is_management m)
          (λ _ t. posts t ≤ k)
          (λ x t. is_management x ≡ false)
  unfolding attempt
  note_still k m c =
      Hoare-catch (λ _ t. posts t ≤ k) is_management _ _
        (Hoare-bind (λ _ t. posts t ≤ k) m _ (level m c) (λ a. Hoare-pure _ (λ t p. p)))
        (λ e _. Hoare-pure _ (λ t p. p)) (λ e t h p. h)
    where
      level :
          (m : M (Unit {0}))
          → Costs posts 0 m
          → Hoare (λ t. posts t ≤ k) m (λ _ t. posts t ≤ k) (λ _ t. posts t ≤ k)
      level m c = record { ends = λ t p. ended (m t) (omega (arith, c.above t, p)) }
        where
          ended :
              (p : Result (Unit {0}) × Trace)
              → posts p.1 ≤ k
              → Ends {S = Trace} {A = Unit {0}} (λ _ t. posts t ≤ k) (λ _ t. posts t ≤ k) p.0 p.1
          ended (ok a, t) h = h
          ended (raised x, t) h = h

  other_told : (x : Exn) (t : Trace) → is_management x ≡ false → ToldBy x t
  other_told (management e) t h = cc
  other_told _ t h = tt

  handle-Told :
      (action : Action) (payload : Value) (started : Trace) (x : Exn)
      → Hoare
          (λ s. Stopped n s)
          (handle env truncated service spec action payload started x)
          (λ _ _. Unit {0})
          (λ y s. ToldBy y s.trace)
  unfolding handle ◌>>=◌ gets on_wire raise told
  handle-Told action payload started (management e) = record {
    ends = λ s p.
        let m =
          attempt is_management
            (note env truncated service spec action s.uuid "error" payload started) in
        ended s p (m s.trace) (
          (note_still (posts s.trace) _
              (note-Costs env truncated service spec action s.uuid "error" payload started)).ends
            s.trace (omega arith));
  }
    where
      ended :
          (s : Run)
          → Stopped n s
          → (q : Result (Exn ⊎ Unit {0}) × Trace)
          → Ends {S = Trace} {A = Exn ⊎ Unit {0}}
              (λ _ t. posts t ≤ posts s.trace)
              (λ x t. is_management x ≡ false)
              q.0
              q.1
          → Ends {S = Run} {A = Fields}
              (λ _ _. Unit {0})
              (λ y s. ToldBy y s.trace)
              (continue q.0
                (λ w. raise (told env truncated service spec e s w))
                (record s { trace = q.1 })).0
              (continue q.0
                (λ w. raise {A = Fields} (told env truncated service spec e s w))
                (record s { trace = q.1 })).1
      ended s p (ok (inr u), t) h = concluded-Told e s t p h
      ended s p (ok (inl x), t) h = concluded-Told e s t p h
      ended s p (raised x, t) h = other_told x t h
  handle-Told action payload started _ = record { ends = λ s p. tt }

  -- A step that sends nothing, before the change
  quiet :
      {A : Type 0} (m : M A)
      → Costs posts 0 m
      → Hoare (λ t. posts t ≡ n) m (λ _ t. posts t ≡ n) (λ x t. (posts t ≡ n) ⊎ ToldBy x t)
  quiet {A} m c = record { ends = λ t p. ended (m t) (omega (arith, c.above t, c.below t, p)) }
    where
      ended :
          (p : Result A × Trace)
          → posts p.1 ≡ n
          → Ends {S = Trace} {A = A}
              (λ _ t. posts t ≡ n)
              (λ x t. (posts t ≡ n) ⊎ ToldBy x t)
              p.0
              p.1
      ended (ok a, t) h = h
      ended (raised x, t) h = inl h

  attempt_change-Told :
      (action : Action) (uuid : String) (values : Value) (expected : Option Value) (payload : Value)
      (started : Trace)
      → Hoare
          (λ t. posts t ≡ n)
          (attempt_change env truncated service spec action uuid values expected payload started)
          (λ _ _. Unit {0})
          (λ x t. (posts t ≡ n) ⊎ ToldBy x t)
  unfolding attempt_change first_run
  attempt_change-Told action uuid values expected payload started = record {
    ends = λ t p.
        ended _
          (caught.ends (first_run env truncated service spec uuid t) (refl, omega (arith, p)));
  }
    where
      caught :
          Hoare
            (λ s. (s.stage ≡ "save") × (posts s.trace ≤ n))
            (catch is_management
              (perform env truncated service spec action values expected payload started)
              (handle env truncated service spec action payload started))
            (λ _ _. Unit {0})
            (λ x s. ToldBy x s.trace)
      caught =
          Hoare-catch (λ _ s. Stopped n s) is_management _ _
            (perform-Stopped env truncated service spec n action values expected payload started)
            (λ x _. handle-Told action payload started x) (λ x s h p. other_told x s.trace h)

      ended :
          (p : Result Fields × Run)
          → Ends {S = Run} {A = Fields} (λ _ _. Unit {0}) (λ x s. ToldBy x s.trace) p.0 p.1
          → Ends {S = Trace} {A = Fields}
              (λ _ _. Unit {0})
              (λ x t. (posts t ≡ n) ⊎ ToldBy x t)
              p.0
              p.1.trace
      ended (ok a, s) h = tt
      ended (raised x, s) h = inr h

  mutate_locked-Told :
      (action : Action) (body : Fields) (uuid revision : String)
      → Hoare
          (λ t. posts t ≡ n)
          (mutate_locked env truncated service spec action body uuid revision)
          (λ _ _. Unit {0})
          (λ x t. (posts t ≡ n) ⊎ ToldBy x t)
  unfolding mutate_locked
  mutate_locked-Told action body uuid revision = step _ _ (Costs-gets _) (λ started.
      step _ _ (raw-Costs env truncated service.client spec uuid) (λ object.
        step _ _ (still _) (λ _. step _ _ (still _) (λ expected.
          step _ _ (note-Costs env truncated service spec action uuid _ _ started)
            (λ _. attempt_change-Told action uuid _ expected _ started)))))
    where
      step :
          {A B : Type 0} (m : M A) (f : A → M B)
          → Costs posts 0 m
          → ((a : A)
              → Hoare
                  (λ t. posts t ≡ n)
                  (f a)
                  (λ _ _. Unit {0})
                  (λ x t. (posts t ≡ n) ⊎ ToldBy x t))
          → Hoare (λ t. posts t ≡ n) (m >>= f) (λ _ _. Unit {0}) (λ x t. (posts t ≡ n) ⊎ ToldBy x t)
      step m f c h = Hoare-bind (λ _ t. posts t ≡ n) m f (quiet m c) h

  mutate-Told :
      (body : Value)
      → Hoare
          (λ t. posts t ≡ n)
          (mutate env truncated service spec body)
          (λ _ _. Unit {0})
          (λ x t. (posts t ≡ n) ⊎ ToldBy x t)
  unfolding mutate
  mutate-Told body =
      Hoare-if (has_peer service.peer && not spec.ha_safe) _ _ (λ _. Hoare-raise _ (λ t p. inl p))
        (λ _.
          Hoare-bind (λ _ t. posts t ≡ n) _ _ (quiet _ (still _))
            (λ plan. mutate_locked-Told plan.0 (fields_of body) plan.1 plan.2))

-- A `ManagementError` of a change ended it before any POST; or else it says that the change may be
-- partial, unless the firewall rejected the values at the save, and it names an object, unless it
-- ended the save, with at most one POST sent. Nothing is said of other exceptions, which the handler
-- does not take.
pub mutate_failed :
    (env : Env) (truncated : String → ℤ) (service : Service) (spec : Spec) (body : Value)
    (e : ManagementError) (t : Trace)
    → (mutate env truncated service spec body t).0 ≡ raised (management e)
    → (posts (mutate env truncated service spec body t).1 ≡ posts t)
      ⊎ Told env truncated service spec (posts t) e (mutate env truncated service spec body t).1
mutate_failed env truncated service spec body e t h =
    subst
      (λ r.
        Ends {S = Trace} {A = Fields} (λ _ _. Unit {0})
          (λ x u. (posts u ≡ posts t) ⊎ ToldBy env truncated service spec (posts t) x u) r
          (mutate env truncated service spec body t).1)
      h ((mutate-Told env truncated service spec (posts t) body).ends t refl)
