-- ===== src/Writers/Change.antt =====
-- `update` and `delete` of the resource writers, and the number of POSTs of each operation.
use pegaprox_plugin_opnsense.Prelude.{
  ℕ, String, ◌<>◌, ◌≡◌, refl, true, ◌⊎◌, inl, inr, Option, none, some, ◌∷◌, arith, ◌==◌,
}
use mathlib.Core.Path.{subst}
use pegaprox_plugin_opnsense.Value.{Value, dict, end}
use pegaprox_plugin_opnsense.Exec.{
  Exn, Result, ok, raised, message, is_opnsense, attempt, ◌>>=◌, ◌>>◌,
}
use pegaprox_plugin_opnsense.Exec.Costs.{
  Costs, Costs-pure, Costs-raise, Costs-gets, Costs-if, Costs-le, Costs-bind, Costs-attempt,
}
use pegaprox_plugin_opnsense.World.{Env, sent, Trace, M}
use pegaprox_plugin_opnsense.Client.{post}
use pegaprox_plugin_opnsense.Client.Verbs.{post_http, post-raised}
use pegaprox_plugin_opnsense.Client.Posts.{posts, post-Costs}
use pegaprox_plugin_opnsense.Audit.{hash_payload}
use pegaprox_plugin_opnsense.Ha.{HaVerifier}
use pegaprox_plugin_opnsense.Ha.Posts.{verify_robust-Costs, posts_measure}
use pegaprox_plugin_opnsense.Writers.{
  WriteResult, refused, Writer, Resource, Notes, note, apply, maybe_sync, finish, uuid_in,
  create_applied, create_uuid, create_posted, create_row, change_done, update_row, delete_row,
}
use pegaprox_plugin_opnsense.Writers.Steps.{
  logged, attempt_lem, post_pair, record_outcome_lem, record_outcome-Costs,
}
use pegaprox_plugin_opnsense.Writers.Create.{apply_request, failure_entry}

module _ (env : Env) (w : Writer) (r : Resource) where
  note-Costs :
      (verb target result : String) (d : ℕ) (detail sha : String)
      → Costs posts 0 (note env w r verb target result d detail sha)
  unfolding note
  note-Costs verb target result d detail sha =
      record_outcome-Costs env w.actor w.host_name (r.kind <> verb) target result d detail sha

  maybe_sync-Costs : (ha : Option HaVerifier) → Costs posts 1 (maybe_sync env w r ha)
  unfolding maybe_sync
  maybe_sync-Costs none = Costs-le 0 1 (omega arith) (Costs-pure none)
  maybe_sync-Costs (some ha) =
      Costs-bind _ _ 1 0 (verify_robust-Costs env 1 (posts_measure env) ha r.search_path 5 400)
        (λ s. Costs-pure (some s))

  finish-Costs :
      (verb uuid target detail sha : String) (t : Trace)
      → Costs posts 1 (finish env w r verb uuid target detail sha t)
  unfolding finish
  finish-Costs verb uuid target detail sha t = Costs-bind _ _ 0 1 (Costs-gets _) (λ d.
      Costs-bind _ _ 1 0 (maybe_sync-Costs w.ha)
        (λ s. Costs-bind _ _ 0 0 (note-Costs verb target "ok" d detail sha) (λ e. Costs-pure _)))

  apply-Costs : Costs posts 1 (apply env w r)
  unfolding apply
  apply-Costs = post-Costs env w.client r.apply_path (dict end)

  create_applied-Costs :
      (n : Notes) (payload : Value) (uuid : String) (t : Trace) (o : Exn ⊎ Value)
      → Costs posts 1 (create_applied env w r n payload uuid t o)
  unfolding create_applied
  create_applied-Costs n payload uuid t (inl e) =
      Costs-bind _ _ 1 0 (Costs-attempt is_opnsense _ 1 (post-Costs env w.client _ _))
        (λ x. Costs-bind _ _ 0 0 (note-Costs ".create" _ _ _ _ _) (λ y. Costs-pure _))
  create_applied-Costs n payload uuid t (inr v) = finish-Costs ".create" uuid _ _ _ t

  create_uuid-Costs :
      (n : Notes) (payload : Value) (t : Trace) (u : Result String)
      → Costs posts 2 (create_uuid env w r n payload t u)
  unfolding create_uuid
  create_uuid-Costs n payload t (raised e) = Costs-le 0 2 (omega arith) (Costs-raise e)
  create_uuid-Costs n payload t (ok uuid) =
      Costs-if (uuid == "") _ _ 2
        (Costs-le 0 2 (omega arith)
          (Costs-bind _ _ 0 0 (note-Costs ".create" _ _ _ _ _) (λ y. Costs-pure _)))
        (Costs-bind _ _ 1 1 (Costs-attempt is_opnsense _ 1 apply-Costs)
          (λ o. create_applied-Costs n payload uuid t o))

  create_posted-Costs :
      (n : Notes) (payload : Value) (t : Trace) (o : Exn ⊎ Value)
      → Costs posts 2 (create_posted env w r n payload t o)
  unfolding create_posted
  create_posted-Costs n payload t (inl e) =
      Costs-le 0 2 (omega arith)
        (Costs-bind _ _ 0 0 (note-Costs ".create" _ _ _ _ _) (λ y. Costs-pure _))
  create_posted-Costs n payload t (inr v) = create_uuid-Costs n payload t (uuid_in env w r v)

  -- `create` sends at most three POSTs: the row, the apply action, and one of the rollback and the
  -- trigger of the synchronization.
  pub create_row-Costs :
      (n : Notes) (payload : Value) → Costs posts 3 (create_row env w r n payload)
  unfolding create_row
  create_row-Costs n payload = Costs-bind _ _ 0 3 (Costs-gets (λ t. t)) (λ t.
      Costs-bind _ _ 1 2
        (Costs-attempt is_opnsense _ 1 (post-Costs env w.client r.add_path payload))
        (λ o. create_posted-Costs n payload t o))

raised-injective : {A : Type 0} (e x : Exn) → ◌≡◌ {A = Result A} (raised e) (raised x) → e ≡ x
raised-injective e x p = cc

module _ (env : Env) (w : Writer) (r : Resource) where
  -- `update` and `delete`, from their first POST on.
  abbrev change : (verb uuid detail sha path : String) → Value → Trace → M WriteResult
  change verb uuid detail sha path payload started = do
    done ← attempt is_opnsense (do post env w.client path payload; apply env w r)
    change_done env w r verb uuid detail sha started done

  module _ (verb uuid detail sha path : String) (payload : Value) (started t : Trace) where
    abbrev t_changed : Trace
    t_changed = sent (post_http w.client path payload) ∷ t

    abbrev t_reloaded : Trace
    t_reloaded = sent (apply_request env w r) ∷ t_changed

    steps_rejected :
        (e : Exn)
        → (post env w.client path payload t).0 ≡ raised e
        → (post env w.client path payload >> apply env w r) t ≡ (raised e, t_changed)
    unfolding ◌>>=◌
    steps_rejected e p = rw (post_pair env w.client path payload t (raised e) p)

    steps_applied :
        (v : Value)
        → (post env w.client path payload t).0 ≡ ok v
        → (post env w.client path payload >> apply env w r) t
          ≡ ((post env w.client r.apply_path (dict end) t_changed).0, t_reloaded)
    unfolding ◌>>=◌ apply
    steps_applied v p =
        rw (post_pair env w.client path payload t (ok v) p)
          (post_pair env w.client r.apply_path (dict end) t_changed _ refl)

    failed_change :
        (e : Exn) (u : Trace)
        → (post env w.client path payload >> apply env w r) t ≡ (raised e, u)
        → is_opnsense e ≡ true
        → change verb uuid detail sha path payload started t ≡ (
          ok (refused uuid (message e)),
          logged env (failure_entry env w r verb uuid (message e) u) u,
        )
    unfolding change_done note ◌>>=◌
    failed_change e u p q =
        rw
          (attempt_lem (post env w.client path payload >> apply env w r) t (raised e) u p
            (λ x same. subst (λ y. is_opnsense y ≡ true) (raised-injective e x same) q))
          (rw record_outcome_lem refl)

    -- A change that the firewall refuses is not applied: its POST is the only one.
    pub change_rejected :
        (e : Exn)
        → (post env w.client path payload t).0 ≡ raised e
        → change verb uuid detail sha path payload started t ≡ (
          ok (refused uuid (message e)),
          logged env (failure_entry env w r verb uuid (message e) t_changed) t_changed,
        )
    change_rejected e p =
        failed_change e t_changed (steps_rejected e p) (post-raised env w.client path payload t e p)

    -- A change that is not applied stays: nothing is sent after the apply action.
    pub change_unapplied :
        (v : Value) (e : Exn)
        → (post env w.client path payload t).0 ≡ ok v
        → (post env w.client r.apply_path (dict end) t_changed).0 ≡ raised e
        → change verb uuid detail sha path payload started t ≡ (
          ok (refused uuid (message e)),
          logged env (failure_entry env w r verb uuid (message e) t_reloaded) t_reloaded,
        )
    change_unapplied v e p q =
        failed_change e t_reloaded (rw (steps_applied v p) (λ i. (q i, t_reloaded)))
          (post-raised env w.client r.apply_path (dict end) t_changed e q)

module _ (env : Env) (w : Writer) (r : Resource) (uuid : String) (t : Trace) where
  -- An update that was sent but not applied is left as it is: after the failed apply action nothing
  -- is sent any more, and the failure is noted and returned with the uuid.
  pub update_row_unapplied :
      (set_path : String) (payload v : Value) (detail : String) (e : Exn)
      → (post env w.client (set_path <> uuid) payload t).0 ≡ ok v
      → (post env w.client r.apply_path
          (dict end)
          (sent (post_http w.client (set_path <> uuid) payload) ∷ t)).0
        ≡ raised e
      → let u =
          sent (apply_request env w r) ∷ sent (post_http w.client (set_path <> uuid) payload) ∷ t in
        update_row env w r set_path uuid payload detail t ≡ (
          ok (refused uuid (message e)),
          logged env (failure_entry env w r ".update" uuid (message e) u) u,
        )
  unfolding update_row ◌>>=◌
  update_row_unapplied set_path payload v detail e p q =
      change_unapplied env w r ".update" uuid detail (hash_payload env payload) (set_path <> uuid)
        payload t t v e p q

  -- A delete that was sent but not applied is left as it is: after the failed apply action nothing is
  -- sent any more, and the failure is noted and returned with the uuid.
  delete_row_unapplied :
      (v : Value) (e : Exn)
      → (post env w.client (r.delete_path <> uuid) (dict end) t).0 ≡ ok v
      → (post env w.client r.apply_path
          (dict end)
          (sent (post_http w.client (r.delete_path <> uuid) (dict end)) ∷ t)).0
        ≡ raised e
      → let u =
          sent (apply_request env w r)
          ∷ sent (post_http w.client (r.delete_path <> uuid) (dict end))
          ∷ t in
        delete_row env w r uuid t ≡ (
          ok (refused uuid (message e)),
          logged env (failure_entry env w r ".delete" uuid (message e) u) u,
        )
  unfolding delete_row ◌>>=◌
  delete_row_unapplied v e p q =
      change_unapplied env w r ".delete" uuid "" "" (r.delete_path <> uuid) (dict end) t t v e p q
