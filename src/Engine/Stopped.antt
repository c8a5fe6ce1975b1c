-- ===== src/Engine/Stopped.antt =====
-- Where the change in `_mutate` of `src/management/engine.py` was when an error ended it.
use pegaprox_plugin_opnsense.Prelude.{
  ℕ, ◌+◌, ◌≤◌, String, true, ◌||◌, Option, some, arith, ℤ, ◌≡◌, refl, ◌⊎◌, inl, inr,
}
use pegaprox_plugin_opnsense.Value.{Value}
use pegaprox_plugin_opnsense.Exec.{Result, ok, raised, modify}
use pegaprox_plugin_opnsense.Exec.Costs.{Costs}
use pegaprox_plugin_opnsense.Exec.Hoare.{
  Ends, Hoare, Hoare-pure, Hoare-raise, Hoare-gets, Hoare-if, Hoare-bind, Hoare-weaken,
}
use pegaprox_plugin_opnsense.World.{Env, Trace, M}
use pegaprox_plugin_opnsense.Client.Posts.{posts}
use pegaprox_plugin_opnsense.Verified.Posts.{still}
use pegaprox_plugin_opnsense.Engine.{Action, Spec}
use pegaprox_plugin_opnsense.Engine.Scan.{Service}
use pegaprox_plugin_opnsense.Engine.Change.{
  Run, on_wire, at_stage, has_apply, submit, activate, perform,
}
use pegaprox_plugin_opnsense.Engine.Posts.{call_post-Costs}

-- What was sent of a change before its confirmation: at most one POST since there were `n`.
abbrev pub Early : ℕ → ℕ → Run → Type 0
Early n j s = (s.is_partial ≡ true) × (s.stage ≡ "save") × (posts s.trace ≤ n + j)

-- After its confirmation, the object has a uuid.
abbrev pub Late : Run → Type 0
Late s = (s.is_partial ≡ true) × ((uuid : String) × (s.confirmed_uuid ≡ some uuid))

abbrev pub Stopped : ℕ → Run → Type 0
Stopped n s = Early n 1 s ⊎ Late s

module _ {A : Type 0} where
  wire-Early :
      (n j k : ℕ) (m : M A)
      → Costs posts k m
      → j + k ≤ 1
      → Hoare (Early n j) (on_wire m) (λ _ s. Early n (j + k) s) (λ _ s. Stopped n s)
  unfolding on_wire
  wire-Early n j k m c small = record { ends = λ s p. ended s (m s.trace) (c.above s.trace) p }
    where
      ended :
          (s : Run) (p : Result A × Trace)
          → posts p.1 ≤ posts s.trace + k
          → Early n j s
          → Ends {S = Run} {A = A}
              (λ _ s. Early n (j + k) s)
              (λ _ s. Stopped n s)
              p.0
              (record s { trace = p.1 })
      ended s (ok a, t) le p = (p.0, p.1, omega (arith, p.2))
      ended s (raised x, t) le p = inl (p.0, p.1, omega (arith, p.2))

  wire-Late : (n : ℕ) (m : M A) → Hoare Late (on_wire m) (λ _ s. Late s) (λ _ s. Stopped n s)
  unfolding on_wire
  wire-Late n m = record { ends = λ s p. ended s (m s.trace) p }
    where
      ended :
          (s : Run) (p : Result A × Trace)
          → Late s
          → Ends {S = Run} {A = A}
              (λ _ s. Late s)
              (λ _ s. Stopped n s)
              p.0
              (record s { trace = p.1 })
      ended s (ok a, t) p = p
      ended s (raised x, t) p = inr p

module _ (env : Env) (truncated : String → ℤ) (service : Service) (spec : Spec) (n : ℕ) where
  submit-Late :
      (action : Action) (payload : Value)
      → Hoare
          (λ s. (s.stage ≡ "save") × (posts s.trace ≤ n))
          (submit env truncated service spec action payload)
          (λ _ s. Late s)
          (λ _ s. Stopped n s)
  unfolding submit modify
  submit-Late action payload =
      Hoare-bind (λ _ s. Early n 0 s) _ _ (record { ends = λ s p. (refl, p.0, omega (arith, p.1)) })
        (λ _.
          Hoare-bind (λ _ s. Early n 0 s) _ _ (Hoare-gets _ (λ s p. p))
            (λ s.
              Hoare-bind (λ _ s. Early n 0 s) _ _ (wire-Early n 0 0 _ (still _) (omega arith))
                (λ path.
                  Hoare-bind (λ _ s. Early n 1 s) _ _
                    (wire-Early n 0 1 _
                      (call_post-Costs env truncated service.client spec path payload)
                      (omega arith))
                    (λ response.
                      Hoare-bind (λ _ s. Early n 1 s) _ _
                        (wire-Early n 1 0 _ (still _) (omega arith))
                        (λ _.
                          Hoare-bind (λ _ s. Early n 1 s) _ _
                            (wire-Early n 1 0 _ (still _) (omega arith))
                            (λ uuid.
                              Hoare-bind (λ _ s. Late s) _ _
                                (record { ends = λ s p. (p.0, (uuid, refl)) })
                                (λ _. Hoare-pure uuid (λ s p. p))))))))

  activate-Late :
      Hoare Late (activate env truncated service spec) (λ _ s. Late s) (λ _ s. Stopped n s)
  unfolding activate at_stage
  activate-Late =
      Hoare-bind (λ _ s. Late s) _ _ (record { ends = λ s p. p })
        (λ _.
          Hoare-if (has_apply spec.apply || spec.persistence_only) _ _ (λ _. wire-Late n _)
            (λ _. Hoare-raise _ (λ s p. inr p)))

  pub perform-Stopped :
      (action : Action) (values : Value) (expected : Option Value) (payload : Value)
      (started : Trace)
      → Hoare
          (λ s. (s.stage ≡ "save") × (posts s.trace ≤ n))
          (perform env truncated service spec action values expected payload started)
          (λ _ _. Unit {0})
          (λ _ s. Stopped n s)
  unfolding perform at_stage
  perform-Stopped action values expected payload started =
      Hoare-bind (λ _ s. Late s) _ _ (submit-Late action payload)
        (λ uuid.
          Hoare-bind (λ _ s. Late s) _ _ activate-Late
            (λ _.
              Hoare-bind (λ _ s. Late s) _ _ (record { ends = λ s p. p })
                (λ _.
                  Hoare-bind (λ _ s. Late s) _ _ (wire-Late n _)
                    (λ actual.
                      Hoare-bind (λ _ s. Late s) _ _ (wire-Late n _)
                        (λ _.
                          Hoare-bind (λ _ s. Late s) _ _ (wire-Late n _)
                            (λ _. Hoare-weaken _ (λ _ _ _. tt) (λ _ s p. p) (wire-Late n _)))))))
