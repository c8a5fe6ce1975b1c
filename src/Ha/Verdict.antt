-- ===== src/Ha/Verdict.antt =====
-- What a verdict of the peer checks rests on, and what they send.
use pegaprox_plugin_opnsense.Prelude.{
  ℕ, zero, suc, ◌+◌, ◌≤◌, String, ◌≡◌, refl, true, some, arith, ltb, inl, inr, eq_iff, ◌==◌,
}
use pegaprox_plugin_opnsense.Value.{Value, end}
use pegaprox_plugin_opnsense.Exec.{ok, message, is_any}
use pegaprox_plugin_opnsense.Exec.Triple.{Triple, Triple-pure, Triple-if, Triple-catch, Triple-bind}
use pegaprox_plugin_opnsense.World.{Env, Trace, M}
use pegaprox_plugin_opnsense.Client.{Client, get}
use pegaprox_plugin_opnsense.Client.Attempts.{Answered}
use pegaprox_plugin_opnsense.Client.Verbs.{get_http, get-answer}
use pegaprox_plugin_opnsense.Audit.{fingerprint}
use pegaprox_plugin_opnsense.Ha.{
  SyncResult, HaVerifier, Read, read_peer, diverged, robust_round, robust_loop, robust_peer,
  verify_robust, sync_failed,
}

-- What a result of `verify_robust` says, at the state in which it is returned: the check of `peer`
-- against the fingerprint `local_fp` within `max_attempts` rounds.
pub record Confirmed (env : Env) (peer : Client) (path local_fp : String) (t : Trace) : Type 0 where
  pub reply : Value
  pub answered : Answered env (get_http peer path end) reply t
  pub matched : fingerprint env reply ≡ local_fp

pub record Verdict (env : Env) (peer : Client) (path local_fp : String) (max_attempts : ℕ)
    (r : SyncResult) (t : Trace) : Type 0 where
  pub bounded : r.attempts ≤ max_attempts
  pub positive : 1 ≤ r.attempts
  pub local_kept : r.local_fingerprint ≡ local_fp
  pub confirmed : r.verified ≡ true → Confirmed env peer path local_fp t

-- The trace ends with the answer to the read, if there was one.
abbrev ReadFrom : Env → Client → String → Read → Trace → Type 0
ReadFrom env peer path (inl e) t = Unit {0}
ReadFrom env peer path (inr v) t = Answered env (get_http peer path end) v t

module _ (env : Env) (peer : Client) (path : String) where
  read_peer-ReadFrom : Triple (λ _. Unit {0}) (read_peer env peer path) (ReadFrom env peer path)
  unfolding read_peer
  read_peer-ReadFrom =
      Triple-catch is_any _ _
        (Triple-bind (λ v t. Answered env (get_http peer path end) v t) _ _
          (record { holds = λ t _ v e. get-answer env peer path end t v e })
          (λ v. Triple-pure (inr v) (λ t h. h)))
        (λ e. Triple-pure (inl e) (λ t _. tt))

  module _ (ha : HaVerifier) (local_fp : String) (k b : ℕ) (one : 1 ≤ k) where
    diverged-Verdict :
        (p e : String)
        → Triple
            (λ _. Unit {0})
            (diverged env ha peer k local_fp p e)
            (Verdict env peer path local_fp k)
    unfolding diverged
    diverged-Verdict p e =
        Triple-bind (λ _ _. Unit {0}) _ _ (record { holds = λ _ _ _ _. tt })
          (λ rl.
            Triple-bind (λ _ _. Unit {0}) _ _ (record { holds = λ _ _ _ _. tt })
              (λ rp. Triple-pure _ (λ t _. record {
                bounded = omega arith;
                positive = one;
                local_kept = refl;
                confirmed = λ q. cc;
              })))

    robust_round-Verdict :
        (p e : String) (i : ℕ) (rest : String → String → M SyncResult) (read : Read)
        → 1 ≤ i
        → i ≤ k
        → ((fp err : String)
            → Triple (λ _. Unit {0}) (rest fp err) (Verdict env peer path local_fp k))
        → Triple
            (ReadFrom env peer path read)
            (robust_round env k b local_fp p e i rest read)
            (Verdict env peer path local_fp k)
    unfolding robust_round
    robust_round-Verdict p e i rest (inl x) low high h =
        Triple-if (ltb i k) _ _
          (λ _.
            Triple-bind (λ _ _. Unit {0}) _ _ (record { holds = λ _ _ _ _. tt })
              (λ _. h p (message x)))
          (λ _. Triple-pure _ (λ t _. record {
            bounded = high;
            positive = low;
            local_kept = refl;
            confirmed = λ q. cc;
          }))
    robust_round-Verdict p e i rest (inr v) low high h =
        Triple-if (fingerprint env v == local_fp) _ _
          (λ same. Triple-pure _ (λ t answered. record {
            bounded = high;
            positive = low;
            local_kept = refl;
            confirmed = λ _. record {
              reply = v;
              answered = answered;
              matched = (eq_iff (fingerprint env v) local_fp).0 same;
            };
          }))
          (λ _.
            Triple-if (ltb i k) _ _
              (λ _.
                Triple-bind (λ _ _. Unit {0}) _ _ (record { holds = λ _ _ _ _. tt })
                  (λ _. h (fingerprint env v) e))
              (λ _. record { holds = λ t _. (h (fingerprint env v) e).holds t tt }))

    robust_loop-Verdict :
        (p e : String) (i left : ℕ)
        → 1 ≤ i
        → i + left ≡ k + 1
        → Triple
            (λ _. Unit {0})
            (robust_loop env ha peer path k b local_fp p e i left)
            (Verdict env peer path local_fp k)
    unfolding robust_loop
    robust_loop-Verdict p e i zero low sum = diverged-Verdict p e
    robust_loop-Verdict p e i (suc left) low sum =
        Triple-bind (ReadFrom env peer path) _ _ read_peer-ReadFrom (λ read.
          robust_round-Verdict p e i _ read low (omega arith)
            (λ fp err. robust_loop-Verdict fp err (i + 1) left (omega arith) (omega arith)))

    robust_peer-Verdict :
        Triple
          (λ _. Unit {0})
          (robust_peer env ha path k b local_fp (some peer))
          (Verdict env peer path local_fp k)
    unfolding robust_peer sync_failed
    robust_peer-Verdict =
        Triple-bind (λ _ _. Unit {0}) _ _ (record { holds = λ _ _ _ _. tt })
          (λ done.
            Triple-if done _ _ (λ _. robust_loop-Verdict "" "" 1 k (omega arith) (omega arith))
              (λ _. Triple-pure _ (λ t _. record {
                bounded = one;
                positive = omega arith;
                local_kept = refl;
                confirmed = λ q. cc;
              })))

-- What every result of the check of a peer says.
verify_robust-Verdict :
    (env : Env) (ha : HaVerifier) (path : String) (max_attempts backoff : ℕ) (peer : Client)
    (t : Trace) (r : SyncResult)
    → ha.peer ≡ some peer
    → 1 ≤ max_attempts
    → (verify_robust env ha path max_attempts backoff t).0 ≡ ok r
    → (local_payload : Value) × ((get env ha.local path end t).0 ≡ ok local_payload)
      × Verdict env peer path
          (fingerprint env local_payload)
          max_attempts
          r
          (verify_robust env ha path max_attempts backoff t).1
unfolding verify_robust
verify_robust-Verdict env ha path k b peer t r e one returned =
    (Triple-bind {Pre = λ s. t ≡ s}
        {Post = λ r u.
          (v : Value) × ((get env ha.local path end t).0 ≡ ok v)
          × Verdict env peer path (fingerprint env v) k r u}
        (λ v _. (get env ha.local path end t).0 ≡ ok v) (get env ha.local path end)
        (λ v. robust_peer env ha path k b (fingerprint env v) ha.peer)
        (record { holds = λ s same v q. rw same q })
        (λ v. record { holds = λ s q a p. (v, q, checked v s a p) })).holds
      t refl r returned
  where
    checked :
        (v : Value) (s : Trace) (a : SyncResult)
        → (robust_peer env ha path k b (fingerprint env v) ha.peer s).0 ≡ ok a
        → Verdict env peer path
            (fingerprint env v)
            k
            a
            (robust_peer env ha path k b (fingerprint env v) ha.peer s).1
    checked v s a p = rw e (
        (robust_peer-Verdict env peer path ha (fingerprint env v) k b one).holds s tt a (rw e at p))

module _ (env : Env) (ha : HaVerifier) (path : String) (max_attempts backoff : ℕ) (peer : Client)
    (t : Trace) (r : SyncResult) (paired : ha.peer ≡ some peer) (some_rounds : 1 ≤ max_attempts)
    (returned : (verify_robust env ha path max_attempts backoff t).0 ≡ ok r) where
  -- A check of a peer that says `verified` ended with a read of the peer's listing, and the reply to
  -- that has the fingerprint of the local listing that the check began with.
  pub verify_robust_verified :
      r.verified ≡ true
      → (local_payload : Value) × ((get env ha.local path end t).0 ≡ ok local_payload)
        × Confirmed env peer path
            (fingerprint env local_payload)
            (verify_robust env ha path max_attempts backoff t).1
  verify_robust_verified f =
      let v =
        verify_robust-Verdict env ha path max_attempts backoff peer t r paired some_rounds
          returned in
      (v.0, v.1, v.2.confirmed f)

  -- Verified or not, a check of a peer reports at least one round and no more than `max_attempts`.
  pub verify_robust_rounds : (1 ≤ r.attempts) × (r.attempts ≤ max_attempts)
  verify_robust_rounds =
      let v =
        verify_robust-Verdict env ha path max_attempts backoff peer t r paired some_rounds
          returned in
      (v.2.positive, v.2.bounded)
