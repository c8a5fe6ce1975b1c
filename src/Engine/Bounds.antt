-- ===== src/Engine/Bounds.antt =====
-- `mutate` of `src/management/engine.py`, measured by the POSTs that it sends.
use pegaprox_plugin_opnsense.Prelude.{◌+◌, String, ◌&&◌, not, length, arith, ℤ}
use pegaprox_plugin_opnsense.Value.{Value, Fields, fields_of}
use pegaprox_plugin_opnsense.Exec.{◌>>=◌}
use pegaprox_plugin_opnsense.Exec.Costs.{
  Costs, Costs-raise, Costs-gets, Costs-if, Costs-le, Costs-bind,
}
use pegaprox_plugin_opnsense.World.{Env, M}
use pegaprox_plugin_opnsense.Client.Posts.{posts}
use pegaprox_plugin_opnsense.Verified.Posts.{still}
use pegaprox_plugin_opnsense.Engine.{Action, Spec}
use pegaprox_plugin_opnsense.Engine.Scan.{Service}
use pegaprox_plugin_opnsense.Engine.Mutate.{has_peer, mutate_locked, mutate}
use pegaprox_plugin_opnsense.Engine.Posts.{raw-Costs, note-Costs, attempt_change-Costs}

module _ (env : Env) (truncated : String → ℤ) (service : Service) (spec : Spec) where
  before :
      {A B : Type 0} (m : M A) (f : A → M B)
      → Costs posts 0 m
      → ((a : A) → Costs posts (1 + length spec.apply) (f a))
      → Costs posts (1 + length spec.apply) (m >>= f)
  before m f hm hf =
      Costs-le (0 + (1 + length spec.apply)) _ (omega arith)
        (Costs-bind m f 0 (1 + length spec.apply) hm hf)

  mutate_locked-Costs :
      (action : Action) (body : Fields) (uuid revision : String)
      → Costs posts
          (1 + length spec.apply)
          (mutate_locked env truncated service spec action body uuid revision)
  unfolding mutate_locked
  mutate_locked-Costs action body uuid revision = before _ _ (Costs-gets _) (λ started.
      before _ _ (raw-Costs env truncated service.client spec uuid) (λ object.
        before _ _ (still _) (λ _. before _ _ (still _) (λ expected.
          before _ _ (note-Costs env truncated service spec action uuid _ _ started) (λ _.
            attempt_change-Costs env truncated service spec action uuid _ expected _ started)))))

  -- Whatever the request and the answers, a change sends at most one POST and one for each apply
  -- action.
  pub mutate-Costs :
      (body : Value) → Costs posts (1 + length spec.apply) (mutate env truncated service spec body)
  unfolding mutate
  mutate-Costs body =
      Costs-if (has_peer service.peer && not spec.ha_safe) _ _ (1 + length spec.apply)
        (Costs-le 0 _ (omega arith) (Costs-raise _))
        (before _ _ (still _) (λ plan. mutate_locked-Costs plan.0 (fields_of body) plan.1 plan.2))
