-- ===== src/Writers/Create.antt =====
-- `create` of the resource writers, branch by branch.
use pegaprox_plugin_opnsense.Prelude.{
  String, ◌<>◌, ◌≡◌, refl, ◌∙◌, true, false, Option, none, some, ◌∷◌, ◌==◌,
}
use pegaprox_plugin_opnsense.Value.{Value, is_dict, dict, end}
use pegaprox_plugin_opnsense.Exec.{Exn, ok, raised, attribute_error, message, pure, gets, ◌>>=◌}
use pegaprox_plugin_opnsense.World.{Env, Http, AuditEntry, sent, Trace}
use pegaprox_plugin_opnsense.Client.{post}
use pegaprox_plugin_opnsense.Client.Verbs.{post_http}
use pegaprox_plugin_opnsense.Audit.{hash_payload}
use pegaprox_plugin_opnsense.Ha.{HaVerifier, SyncResult, verify_robust}
use pegaprox_plugin_opnsense.Writers.{
  refused, Writer, Resource, Notes, note, apply, maybe_sync, finish, uuid_in, create_applied,
  create_uuid, create_posted, create_row,
}
use pegaprox_plugin_opnsense.Writers.Steps.{
  outcome, attempt-post, logged, entry_at, record_outcome_lem,
}

module _ (env : Env) (w : Writer) (r : Resource) where
  -- The three requests of `create`.
  abbrev pub add_request : Value → Http
  add_request payload = post_http w.client r.add_path payload

  abbrev pub apply_request : Http
  apply_request = post_http w.client r.apply_path (dict end)

  abbrev pub delete_request : String → Http
  delete_request uuid = post_http w.client (r.delete_path <> uuid) (dict end)

  -- The entry with which a writer notes a failure: its duration is 0, since `elapsed_ms` is set only
  -- where the `with` statement ends.
  abbrev pub failure_entry : (verb target detail : String) → Trace → AuditEntry
  failure_entry verb target detail t =
      entry_at env w.actor w.host_name (r.kind <> verb) target "error" 0 detail "" t

uuid_in_no_object :
    (env : Env) (w : Writer) (r : Resource) (reply : Value)
    → is_dict reply ≡ false
    → uuid_in env w r reply ≡ raised (attribute_error "object has no attribute 'get'")
unfolding uuid_in
uuid_in_no_object env w r (dict fs) h = cc
uuid_in_no_object env w r _ h = refl

-- The check of the peer between two traces: none where no verifier is set, or else one run of
-- `verify_robust` on the listing, with its defaults of five rounds and 0.4 s.
abbrev pub Synced : Env → Resource → Option HaVerifier → Option SyncResult → Trace → Trace → Type 0
Synced env r none sync t u = (sync ≡ none) × (u ≡ t)
Synced env r (some ha) sync t u =
    (s : SyncResult) × (verify_robust env ha r.search_path 5 400 t ≡ (ok s, u)) × (sync ≡ some s)

maybe_sync-Synced :
    (env : Env) (w : Writer) (r : Resource) (o : Option HaVerifier) (sync : Option SyncResult)
    (t u : Trace)
    → Synced env r o sync t u
    → maybe_sync env w r o t ≡ (ok sync, u)
unfolding maybe_sync ◌>>=◌ pure
maybe_sync-Synced env w r none sync t u (a, b) = cc
maybe_sync-Synced env w r (some ha) sync t u (s, a, b) = rw (a, b)

module _ (env : Env) (w : Writer) (r : Resource) (n : Notes) (payload : Value) (t : Trace) where
  -- After the POST of the new row.
  abbrev pub t_added : Trace
  t_added = sent (add_request env w r payload) ∷ t

  create_row_lem :
      create_row env w r n payload t
      ≡ create_posted env w r n payload t
          (outcome (post env w.client r.add_path payload t).0)
          t_added
  unfolding create_row ◌>>=◌
  create_row_lem = rw (attempt-post env w.client r.add_path payload t)

  -- If the POST of the new row fails, nothing else is sent, and the failure is noted and returned.
  pub create_row_rejected :
      (e : Exn)
      → (post env w.client r.add_path payload t).0 ≡ raised e
      → create_row env w r n payload t ≡ (
        ok (refused "" (message e)),
        logged env (failure_entry env w r ".create" n.post_target (message e) t_added) t_added,
      )
  unfolding create_posted note ◌>>=◌
  create_row_rejected e p = create_row_lem ∙ rw p (rw record_outcome_lem refl)

  module _ (reply : Value) (posted : (post env w.client r.add_path payload t).0 ≡ ok reply) where
    -- A reply with an empty uuid, or with none, ends the operation without an apply or a rollback:
    -- the POST of the row is the only request, and the failure is noted and returned.
    pub create_row_no_uuid :
        uuid_in env w r reply ≡ ok ""
        → create_row env w r n payload t ≡ (
          ok (refused "" "OPNsense did not return uuid"),
          logged env
              (failure_entry env w r ".create" n.late_target "no uuid in response" t_added)
              t_added,
        )
    unfolding create_posted create_uuid note ◌>>=◌
    create_row_no_uuid u = create_row_lem ∙ rw (posted, u) (rw record_outcome_lem refl)

    pub create_row_raises :
        (e : Exn)
        → uuid_in env w r reply ≡ raised e
        → create_row env w r n payload t ≡ (raised e, t_added)
    unfolding create_posted create_uuid ◌>>=◌
    create_row_raises e u = create_row_lem ∙ rw (posted, u)

    -- If the POST of a create is answered with JSON that is no object, create raises `AttributeError`
    -- after that one POST, with no rollback and no audit entry.
    pub create_row_no_object :
        is_dict reply ≡ false
        → create_row env w r n payload t
          ≡ (raised (attribute_error "object has no attribute 'get'"), t_added)
    create_row_no_object h =
        create_row_raises (attribute_error "object has no attribute 'get'")
          (uuid_in_no_object env w r reply h)

    module _ (uuid : String) (given : uuid_in env w r reply ≡ ok uuid)
        (named : (uuid == "") ≡ false) where
      abbrev pub t_applied : Trace
      t_applied = sent (apply_request env w r) ∷ t_added

      -- The POST and the apply action are sent in this order.
      create_row_applied :
          create_row env w r n payload t
          ≡ create_applied env w r n payload uuid t
              (outcome (post env w.client r.apply_path (dict end) t_added).0)
              t_applied
      unfolding create_posted create_uuid apply ◌>>=◌
      create_row_applied =
          create_row_lem
          ∙ rw (posted, given, named)
              (rw (attempt-post env w.client r.apply_path (dict end) t_added) refl)

      -- If the apply action fails after a row was created, the row is deleted again by one POST for
      -- its uuid, whatever that POST gives; the failure is noted and returned, and nothing else is
      -- sent.
      pub create_row_rolls_back :
          (e : Exn)
          → (post env w.client r.apply_path (dict end) t_added).0 ≡ raised e
          → let detail = r.apply_name <> " failed → rolled back: " <> message e in
            let u = sent (delete_request env w r uuid) ∷ t_applied in
            create_row env w r n payload t ≡ (
              ok (refused "" detail),
              logged env (failure_entry env w r ".create" n.late_target detail u) u,
            )
      unfolding create_applied note ◌>>=◌
      create_row_rolls_back e p =
          create_row_applied
          ∙ rw p (
              rw (attempt-post env w.client (r.delete_path <> uuid) (dict end) t_applied)
                (rw record_outcome_lem refl))

      pub create_row_goes_on :
          (v : Value)
          → (post env w.client r.apply_path (dict end) t_added).0 ≡ ok v
          → create_row env w r n payload t
            ≡ finish env w r ".create" uuid
                (n.ok_target uuid)
                (n.ok_detail uuid)
                (hash_payload env payload)
                t
                t_applied
      unfolding create_applied
      create_row_goes_on v p = create_row_applied ∙ rw p

      -- The entry that a create notes which went through: the peer was checked up to the trace `u`,
      -- and the duration is from the start to the reply to the apply action.
      abbrev pub success_entry : Trace → AuditEntry
      success_entry u =
          entry_at env w.actor w.host_name (r.kind <> ".create") (n.ok_target uuid) "ok"
            (env.elapsed_ms t t_applied) (n.ok_detail uuid) (hash_payload env payload) u

      -- If the reply to a create gives a uuid, the apply action succeeds, and the check of the peer,
      -- where a verifier is set, returns, create returns that uuid, what the check gave and the entry
      -- with the result `ok` that it notes; the POST of the row, the apply action and the check are
      -- all that it sends.
      pub create_row_finishes :
          (v : Value) (sync : Option SyncResult) (u : Trace)
          → (post env w.client r.apply_path (dict end) t_added).0 ≡ ok v
          → Synced env r w.ha sync t_applied u
          → create_row env w r n payload t ≡ (
            ok (record {
              ok_flag = true;
              uuid = uuid;
              detail = "";
              sync = sync;
              audit = some (success_entry u);
            }),
            logged env (success_entry u) u,
          )
      unfolding finish note gets pure ◌>>=◌
      create_row_finishes v sync u p s =
          create_row_goes_on v p
          ∙ rw (maybe_sync-Synced env w r w.ha sync t_applied u s) (rw record_outcome_lem refl)
