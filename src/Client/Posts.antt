-- ===== src/Client/Posts.antt =====
-- The basic actions, measured by the POSTs that they send.
use pegaprox_plugin_opnsense.Prelude.{ℕ, ◌+◌, String, arith, ◌≡◌}
use pegaprox_plugin_opnsense.Value.{Value, Fields}
use pegaprox_plugin_opnsense.Exec.Costs.{Costs}
use pegaprox_plugin_opnsense.World.{Env, Trace, sleep, number_of, is_post, is_audit}
use pegaprox_plugin_opnsense.Client.{Client, get, post}
use pegaprox_plugin_opnsense.Client.Verbs.{get-posts, get-audits, post-one_request}

abbrev pub posts : Trace → ℕ
posts = number_of is_post

abbrev pub audits : Trace → ℕ
audits = number_of is_audit

module _ (env : Env) where
  pub get-Costs :
      (c : Client) (path : String) (params : Fields) → Costs posts 0 (get env c path params)
  get-Costs c path params = record {
    above = λ t. omega (arith, get-posts env c path params t);
    below = λ t. omega (arith, get-posts env c path params t);
  }

  pub get-Costs_audits :
      (c : Client) (path : String) (params : Fields) → Costs audits 0 (get env c path params)
  get-Costs_audits c path params = record {
    above = λ t. omega (arith, get-audits env c path params t);
    below = λ t. omega (arith, get-audits env c path params t);
  }

  pub post-posts :
      (c : Client) (path : String) (payload : Value) (t : Trace)
      → posts (post env c path payload t).1 ≡ 1 + posts t
  unfolding number_of
  post-posts c path payload t = rw (post-one_request env c path payload t)

  pub post-audits :
      (c : Client) (path : String) (payload : Value) (t : Trace)
      → audits (post env c path payload t).1 ≡ audits t
  unfolding number_of
  post-audits c path payload t = rw (post-one_request env c path payload t) (omega arith)

  pub post-Costs :
      (c : Client) (path : String) (payload : Value) → Costs posts 1 (post env c path payload)
  post-Costs c path payload = record {
    above = λ t. omega (arith, post-posts c path payload t);
    below = λ t. omega (arith, post-posts c path payload t);
  }

  pub post-Costs_audits :
      (c : Client) (path : String) (payload : Value) → Costs audits 0 (post env c path payload)
  post-Costs_audits c path payload = record {
    above = λ t. omega (arith, post-audits c path payload t);
    below = λ t. omega (arith, post-audits c path payload t);
  }

pub sleep-Costs : (ms : ℕ) → Costs posts 0 (sleep ms)
unfolding sleep number_of
sleep-Costs ms = record { above = λ t. omega arith; below = λ t. omega arith }

pub sleep-Costs_audits : (ms : ℕ) → Costs audits 0 (sleep ms)
unfolding sleep number_of
sleep-Costs_audits ms = record { above = λ t. omega arith; below = λ t. omega arith }
