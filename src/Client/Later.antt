-- ===== src/Client/Later.antt =====
-- The requests only add to the trace.
use pegaprox_plugin_opnsense.Prelude.{
  ℕ, zero, suc, ◌+◌, String, Bool, true, false, inl, inr, Option-cases, ◌∷◌,
}
use pegaprox_plugin_opnsense.Value.{Value, Fields}
use pegaprox_plugin_opnsense.World.{Env, Http, Trace, sent, slept}
use pegaprox_plugin_opnsense.World.Grows.{Later, next-Later, Grows, itself}
use pegaprox_plugin_opnsense.Client.{
  Client, backoff, judge, last_failure, attempt_loop, request, get, post,
}
use pegaprox_plugin_opnsense.Client.Verbs.{get_http, post_http}
use pegaprox_plugin_opnsense.Client.Attempts.{
  attempt_loop-empty, attempt_loop-again, attempt_loop-stop,
}

module _ (env : Env) (c : Client) where
  attempt_loop-Later :
      (h : Http) (path : String) (retry : Bool) (attempts : ℕ) (u : Trace) (last : String)
      (i left : ℕ) (t : Trace)
      → Later u t
      → Later u (attempt_loop env c h path retry attempts last i left t).1
  attempt_loop-Later h path retry attempts u last i zero t l =
      rw (attempt_loop-empty env c h path retry attempts last i t) l
  attempt_loop-Later h path retry attempts u last i (suc left) t l =
      elim (Option-cases (judge c h path retry attempts i (env.request t h))) [
        | inl e ↦ rw (attempt_loop-again env c h path retry attempts last i left t e) (
            attempt_loop-Later h path retry attempts u (last_failure last (env.request t h)) (i + 1)
              left (slept (backoff c.retry i) ∷ sent h ∷ t)
              (next-Later u (sent h ∷ t) (slept (backoff c.retry i)) (next-Later u t (sent h) l)))
        | inr (r, e) ↦
            rw (attempt_loop-stop env c h path retry attempts last i left t r e)
              (next-Later u t (sent h) l)
      ]

  pub get-Grows : (path : String) (params : Fields) → Grows itself (get env c path params)
  unfolding get request
  get-Grows path params = record {
    later = λ u t l.
        attempt_loop-Later (get_http c path params) path true c.retry.attempts u "None" 0
          c.retry.attempts t l;
  }

  pub post-Grows : (path : String) (payload : Value) → Grows itself (post env c path payload)
  unfolding post request
  post-Grows path payload = record {
    later = λ u t l. attempt_loop-Later (post_http c path payload) path false 1 u "None" 0 1 t l;
  }
