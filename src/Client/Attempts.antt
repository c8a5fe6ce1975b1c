-- ===== src/Client/Attempts.antt =====
-- The loop of `_request`: how often it asks, and which answer it gives.
use pegaprox_plugin_opnsense.Prelude.{
  ℕ, zero, suc, ◌+◌, ◌≤◌, ◌<◌, String, ◌<>◌, ◌≡◌, ◌≢◌, inl, inr, refl, Bool, true, false, none,
  some, ◌∷◌, arith, Option-cases,
}
use pegaprox_plugin_opnsense.Value.{Value}
use pegaprox_plugin_opnsense.Exec.{Exn, is_opnsense, Result, ok, raised, opnsense, ◌>>=◌}
use pegaprox_plugin_opnsense.World.{
  Env, Method, Http, Transport, failed, response, sent, slept, Trace, sleep, number_of, is_post,
  is_get, is_sleep, is_audit,
}
use pegaprox_plugin_opnsense.Client.{
  Client, judge, what, ok_status, last_failure, transmit, attempt_loop, backoff,
}

judge_single-ne-none :
    (c : Client) (h : Http) (path : String) (reply : Transport)
    → judge c h path false 1 0 reply ≢ none
unfolding judge
judge_single-ne-none c h path (failed e) = ground arith
judge_single-ne-none c h path (response status text (some v)) = ground arith
judge_single-ne-none c h path (response status text none) = ground arith

-- A loop of one round that may not retry ends with its first reply.
pub judge_single :
    (c : Client) (h : Http) (path : String) (reply : Transport)
    → (r : Result Value) × (judge c h path false 1 0 reply ≡ some r)
unfolding judge
judge_single c h path reply = elim (Option-cases (judge c h path false 1 0 reply)) [
  | inl e ↦ absurd (judge_single-ne-none c h path reply e)
  | inr p ↦ p
]

-- The trace `t` ends with the request `h`, whose reply had the body `v` and no error status.
abbrev pub Answered : Env → Http → Value → Trace → Type 0
Answered env h v t =
    (u : Trace) × (status : ℕ) × (text : String) × (t ≡ sent h ∷ u)
    × (env.request u h ≡ response status text (some v))
    × (ok_status status ≡ true)

module _ (env : Env) (c : Client) (h : Http) (path : String) (retry : Bool) (attempts : ℕ) where
  -- A round whose reply settles the request ends the loop.
  pub attempt_loop-stop :
      (last : String) (i left : ℕ) (t : Trace) (r : Result Value)
      → judge c h path retry attempts i (env.request t h) ≡ some r
      → attempt_loop env c h path retry attempts last i (suc left) t ≡ (r, sent h ∷ t)
  unfolding attempt_loop transmit ◌>>=◌
  attempt_loop-stop last i left t r e = rw e

  -- Any other round sleeps, and the loop goes on.
  pub attempt_loop-again :
      (last : String) (i left : ℕ) (t : Trace)
      → judge c h path retry attempts i (env.request t h) ≡ none
      → attempt_loop env c h path retry attempts last i (suc left) t
        ≡ attempt_loop env c h path retry attempts
            (last_failure last (env.request t h))
            (i + 1)
            left
            (slept (backoff c.retry i) ∷ sent h ∷ t)
  unfolding attempt_loop transmit ◌>>=◌ sleep
  attempt_loop-again last i left t e = rw e

  -- With no round left nothing is sent any more.
  pub attempt_loop-empty :
      (last : String) (i : ℕ) (t : Trace)
      → attempt_loop env c h path retry attempts last i 0 t
        ≡ (raised (opnsense (what h path <> " exhausted retries: " <> last)), t)
  unfolding attempt_loop ◌>>=◌
  attempt_loop-empty last i t = refl

  pub attempt_loop-requests :
      (last : String) (i left : ℕ) (t : Trace)
      → number_of is_get (attempt_loop env c h path retry attempts last i left t).1
        ≤ number_of is_get t + left
  unfolding number_of
  attempt_loop-requests last i zero t = rw (attempt_loop-empty last i t) (omega arith)
  attempt_loop-requests last i (suc left) t =
      elim (Option-cases (judge c h path retry attempts i (env.request t h))) [
        | inl e ↦ rw (attempt_loop-again last i left t e) (
            ground (
              arith,
              attempt_loop-requests (last_failure last (env.request t h)) (i + 1) left
                  (slept (backoff c.retry i) ∷ sent h ∷ t),
            ))
        | inr (r, e) ↦ rw (attempt_loop-stop last i left t r e) (ground arith)
      ]

  -- A loop over a GET sends GETs only.
  pub attempt_loop-posts :
      (last : String) (i left : ℕ) (t : Trace)
      → h.method ≡ Method.get
      → number_of is_post (attempt_loop env c h path retry attempts last i left t).1
        ≡ number_of is_post t
  unfolding number_of
  attempt_loop-posts last i zero t g = rw (attempt_loop-empty last i t)
  attempt_loop-posts last i (suc left) t g =
      elim (Option-cases (judge c h path retry attempts i (env.request t h))) [
        | inl e ↦ rw (attempt_loop-again last i left t e) (
            ground (
              arith,
              attempt_loop-posts (last_failure last (env.request t h)) (i + 1) left
                  (slept (backoff c.retry i) ∷ sent h ∷ t),
            ))
        | inr (r, e) ↦ rw (attempt_loop-stop last i left t r e) (ground arith)
      ]

  pub attempt_loop-audits :
      (last : String) (i left : ℕ) (t : Trace)
      → number_of is_audit (attempt_loop env c h path retry attempts last i left t).1
        ≡ number_of is_audit t
  unfolding number_of
  attempt_loop-audits last i zero t = rw (attempt_loop-empty last i t)
  attempt_loop-audits last i (suc left) t =
      elim (Option-cases (judge c h path retry attempts i (env.request t h))) [
        | inl e ↦ rw (attempt_loop-again last i left t e) (
            ground (
              arith,
              attempt_loop-audits (last_failure last (env.request t h)) (i + 1) left
                  (slept (backoff c.retry i) ∷ sent h ∷ t),
            ))
        | inr (r, e) ↦ rw (attempt_loop-stop last i left t r e) (ground arith)
      ]

  -- The last round of `range(attempts)` always settles the request.
  judge_last :
      (i : ℕ) (reply : Transport) → i + 1 ≡ attempts → judge c h path retry attempts i reply ≢ none
  unfolding judge
  judge_last i (failed e) k = ground arith
  judge_last i (response status text (some v)) k = ground arith
  judge_last i (response status text none) k = ground arith

  -- One sleep between two requests.
  attempt_loop-pauses :
      (last : String) (i left : ℕ) (t : Trace)
      → h.method ≡ Method.get
      → i + suc left ≡ attempts
      → number_of is_sleep (attempt_loop env c h path retry attempts last i (suc left) t).1
          + number_of is_get t
          + 1
        ≡ number_of is_get (attempt_loop env c h path retry attempts last i (suc left) t).1
          + number_of is_sleep t
  unfolding number_of
  attempt_loop-pauses last i zero t g k =
      elim (Option-cases (judge c h path retry attempts i (env.request t h))) [
        | inl e ↦ absurd (judge_last i (env.request t h) (omega arith) e)
        | inr (r, e) ↦ rw (attempt_loop-stop last i 0 t r e) (ground arith)
      ]
  attempt_loop-pauses last i (suc left) t g k =
      elim (Option-cases (judge c h path retry attempts i (env.request t h))) [
        | inl e ↦ rw (attempt_loop-again last i (suc left) t e) (
            ground (
              arith,
              attempt_loop-pauses (last_failure last (env.request t h)) (i + 1) left
                  (slept (backoff c.retry i) ∷ sent h ∷ t) g (omega arith),
            ))
        | inr (r, e) ↦ rw (attempt_loop-stop last i (suc left) t r e) (ground arith)
      ]

  pub attempt_loop-pauses_all :
      (last : String) (left : ℕ) (t : Trace)
      → h.method ≡ Method.get
      → 0 < left
      → left ≡ attempts
      → number_of is_sleep (attempt_loop env c h path retry attempts last 0 left t).1
          + number_of is_get t
          + 1
        ≡ number_of is_get (attempt_loop env c h path retry attempts last 0 left t).1
          + number_of is_sleep t
  attempt_loop-pauses_all last zero t g p k = absurd (omega arith)
  attempt_loop-pauses_all last (suc left) t g p k =
      attempt_loop-pauses last 0 left t g (omega arith)

  -- A reply that settles the request with a value is a JSON body under a status that is no error.
  judge_value :
      (i : ℕ) (reply : Transport) (v : Value)
      → judge c h path retry attempts i reply ≡ some (ok v)
      → (status : ℕ) × (text : String) × (reply ≡ response status text (some v))
        × (ok_status status ≡ true)
  unfolding judge
  judge_value i (failed e) v p = ground arith
  judge_value i (response status text none) v p = ground arith
  judge_value i (response status text (some w)) v p = (status, text, ground arith, ground arith)

  pub attempt_loop-answer :
      (last : String) (i left : ℕ) (t : Trace) (v : Value)
      → (attempt_loop env c h path retry attempts last i left t).0 ≡ ok v
      → Answered env h v (attempt_loop env c h path retry attempts last i left t).1
  attempt_loop-answer last i zero t v p = cc (attempt_loop-empty last i t)
  attempt_loop-answer last i (suc left) t v p =
      elim (Option-cases (judge c h path retry attempts i (env.request t h))) [
        | inl e ↦ rw (attempt_loop-again last i left t e) (
            attempt_loop-answer (last_failure last (env.request t h)) (i + 1) left
              (slept (backoff c.retry i) ∷ sent h ∷ t) v
              (rw (attempt_loop-again last i left t e) at p))
        | inr (r, e) ↦
            let settled =
              judge_value i (env.request t h) v (cc (attempt_loop-stop last i left t r e)) in
            rw (attempt_loop-stop last i left t r e)
              (t, settled.0, settled.1, refl, settled.2, settled.3)
      ]

  -- What settles a request by an exception is an `OPNsenseError`.
  judge_raised :
      (i : ℕ) (reply : Transport) (e : Exn)
      → judge c h path retry attempts i reply ≡ some (raised e)
      → is_opnsense e ≡ true
  unfolding judge
  judge_raised i (failed x) e p = ground arith
  judge_raised i (response status text (some v)) e p = ground arith
  judge_raised i (response status text none) e p = ground arith

  pub attempt_loop-raised :
      (last : String) (i left : ℕ) (t : Trace) (e : Exn)
      → (attempt_loop env c h path retry attempts last i left t).0 ≡ raised e
      → is_opnsense e ≡ true
  attempt_loop-raised last i zero t e p = ground (arith, attempt_loop-empty last i t)
  attempt_loop-raised last i (suc left) t e p =
      elim (Option-cases (judge c h path retry attempts i (env.request t h))) [
        | inl q ↦
            attempt_loop-raised (last_failure last (env.request t h)) (i + 1) left
              (slept (backoff c.retry i) ∷ sent h ∷ t) e
              (rw (attempt_loop-again last i left t q) at p)
        | inr (r, q) ↦ judge_raised i (env.request t h) e (cc (attempt_loop-stop last i left t r q))
      ]
