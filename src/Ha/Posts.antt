-- ===== src/Ha/Posts.antt =====
-- The check of the peer sends one POST at most: the trigger of the synchronization.
use pegaprox_plugin_opnsense.Prelude.{
  ℕ, zero, suc, ◌+◌, String, true, false, Option, none, some, arith, ltb, inl, inr, ◌==◌,
}
use pegaprox_plugin_opnsense.Value.{Value, Fields, end}
use pegaprox_plugin_opnsense.Exec.{message, is_any}
use pegaprox_plugin_opnsense.Exec.Costs.{
  Costs, Costs-pure, Costs-if, Costs-le, Costs-bind, Costs-catch,
}
use pegaprox_plugin_opnsense.World.{Env, Trace, M, sleep}
use pegaprox_plugin_opnsense.Client.Posts.{
  posts, audits, get-Costs, post-Costs, sleep-Costs, get-Costs_audits, post-Costs_audits,
  sleep-Costs_audits,
}
use pegaprox_plugin_opnsense.Client.{Client, get, post}
use pegaprox_plugin_opnsense.Audit.{fingerprint}
use pegaprox_plugin_opnsense.Ha.{
  SyncResult, HaVerifier, Read, sync, read_peer, get_revision, diverged, robust_round, robust_loop,
  robust_peer, verify_robust,
}

-- A measure of the trace to which a GET and a sleep add nothing, and a POST at most `n`.
pub record Measure (env : Env) (n : ℕ) : Type 0 where
  pub size : Trace → ℕ
  pub of_get : (c : Client) (path : String) (params : Fields) → Costs size 0 (get env c path params)
  pub of_post :
      (c : Client) (path : String) (payload : Value) → Costs size n (post env c path payload)
  pub of_sleep : (ms : ℕ) → Costs size 0 (sleep ms)

module _ (env : Env) (n : ℕ) (m : Measure env n) where
  sync-Costs : (ha : HaVerifier) → Costs m.size n (sync env ha)
  unfolding sync
  sync-Costs ha = Costs-le (n + 0 + 0) n (omega arith) (
      Costs-catch is_any _ _ (n + 0) 0
        (Costs-bind _ _ n 0 (m.of_post ha.local _ _) (λ v. Costs-pure true))
        (λ e. Costs-pure false))

  read_peer-Costs : (peer : Client) (path : String) → Costs m.size 0 (read_peer env peer path)
  unfolding read_peer
  read_peer-Costs peer path =
      Costs-catch is_any _ _ 0 0
        (Costs-bind _ _ 0 0 (m.of_get peer path end) (λ v. Costs-pure (inr v)))
        (λ e. Costs-pure (inl e))

  get_revision-Costs : (c : Client) → Costs m.size 0 (get_revision env c)
  unfolding get_revision
  get_revision-Costs c =
      Costs-catch is_any _ _ 0 0 (Costs-bind _ _ 0 0 (m.of_get c _ end) (λ v. Costs-pure _))
        (λ e. Costs-pure "")

  diverged-Costs :
      (ha : HaVerifier) (peer : Client) (k : ℕ) (l p e : String)
      → Costs m.size 0 (diverged env ha peer k l p e)
  unfolding diverged
  diverged-Costs ha peer k l p e =
      Costs-bind _ _ 0 0 (get_revision-Costs ha.local)
        (λ rl. Costs-bind _ _ 0 0 (get_revision-Costs peer) (λ rp. Costs-pure _))

  robust_round-Costs :
      (k b : ℕ) (l p e : String) (i : ℕ) (rest : String → String → M SyncResult) (read : Read)
      → ((fp err : String) → Costs m.size 0 (rest fp err))
      → Costs m.size 0 (robust_round env k b l p e i rest read)
  unfolding robust_round
  robust_round-Costs k b l p e i rest (inl x) h =
      Costs-if (ltb i k) _ _ 0 (Costs-bind _ _ 0 0 (m.of_sleep _) (λ _. h p (message x)))
        (Costs-pure _)
  robust_round-Costs k b l p e i rest (inr v) h =
      Costs-if (fingerprint env v == l) _ _ 0 (Costs-pure _) (
        Costs-if (ltb i k) _ _ 0 (Costs-bind _ _ 0 0 (m.of_sleep _) (λ _. h (fingerprint env v) e))
          (h (fingerprint env v) e))

  robust_loop-Costs :
      (ha : HaVerifier) (peer : Client) (path : String) (k b : ℕ) (l p e : String) (i left : ℕ)
      → Costs m.size 0 (robust_loop env ha peer path k b l p e i left)
  unfolding robust_loop
  robust_loop-Costs ha peer path k b l p e i zero = diverged-Costs ha peer k l p e
  robust_loop-Costs ha peer path k b l p e i (suc left) =
      Costs-bind _ _ 0 0 (read_peer-Costs peer path) (λ read.
        robust_round-Costs k b l p e i _ read
          (λ fp err. robust_loop-Costs ha peer path k b l fp err (i + 1) left))

  robust_peer-Costs :
      (ha : HaVerifier) (path : String) (k b : ℕ) (l : String) (peer : Option Client)
      → Costs m.size n (robust_peer env ha path k b l peer)
  unfolding robust_peer
  robust_peer-Costs ha path k b l none = Costs-le 0 n (omega arith) (Costs-pure _)
  robust_peer-Costs ha path k b l (some peer) = Costs-le (n + 0) n (omega arith) (
      Costs-bind _ _ n 0 (sync-Costs ha) (λ done.
        Costs-if done _ _ 0 (robust_loop-Costs ha peer path k b l "" "" 1 k) (Costs-pure _)))

  -- The check adds to a measure of the trace, to which a GET and a sleep add nothing, at most what one
  -- POST may add, whatever the answers and the number of rounds.
  pub verify_robust-Costs :
      (ha : HaVerifier) (path : String) (max_attempts backoff : ℕ)
      → Costs m.size n (verify_robust env ha path max_attempts backoff)
  unfolding verify_robust
  verify_robust-Costs ha path k b = Costs-le (0 + n) n (omega arith) (
      Costs-bind _ _ 0 n (m.of_get ha.local path end)
        (λ v. robust_peer-Costs ha path k b (fingerprint env v) ha.peer))

module _ (env : Env) where
  -- The POSTs of a trace.
  abbrev pub posts_measure : Measure env 1
  posts_measure = record {
    size = posts;
    of_get = get-Costs env;
    of_post = post-Costs env;
    of_sleep = sleep-Costs;
  }

  -- The entries that a trace writes to the audit log.
  abbrev pub audits_measure : Measure env 0
  audits_measure = record {
    size = audits;
    of_get = get-Costs_audits env;
    of_post = post-Costs_audits env;
    of_sleep = sleep-Costs_audits;
  }
