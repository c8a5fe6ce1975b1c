-- ===== src/Writers/Audited.antt =====
-- Which writes of a resource leave an entry in the audit log.
use pegaprox_plugin_opnsense.Prelude.{
  ◌+◌, String, ◌<>◌, ◌≡◌, refl, ◌∙◌, true, false, inl, inr, Option, none, some, ◌∷◌, arith, ◌==◌,
  Bool-cases, eq_iff,
}
use pegaprox_plugin_opnsense.Value.{Value, dict, end}
use pegaprox_plugin_opnsense.Exec.{Exn, ok, raised, ◌>>=◌, ended-cases, Result-cases}
use pegaprox_plugin_opnsense.Exec.Costs.{Costs, Costs-pure, Costs-bind}
use pegaprox_plugin_opnsense.World.{Env, AuditEntry, sent, Trace, number_of}
use pegaprox_plugin_opnsense.Client.{get, post}
use pegaprox_plugin_opnsense.Client.Posts.{audits, posts}
use pegaprox_plugin_opnsense.Client.Verbs.{get-posts, get-audits}
use pegaprox_plugin_opnsense.Audit.{hash_payload}
use pegaprox_plugin_opnsense.Ha.{SyncResult, HaVerifier, verify_robust}
use pegaprox_plugin_opnsense.Ha.Posts.{verify_robust-Costs, audits_measure}
use pegaprox_plugin_opnsense.Writers.{
  WriteResult, Writer, Resource, Notes, note, maybe_sync, finish, uuid_in, create_row,
}
use pegaprox_plugin_opnsense.Writers.Steps.{logged, entry_at, record_outcome_lem}
use pegaprox_plugin_opnsense.Writers.Create.{
  t_added, apply_request, create_row_raises, create_row_rejected, create_row_no_uuid,
  create_row_rolls_back, create_row_goes_on,
}

-- The audit file can be written.
abbrev pub IsWritable : Env → Type 0
IsWritable env = (t : Trace) (entry : AuditEntry) → env.append t entry ≡ none

pub audits-logged :
    (env : Env) (entry : AuditEntry) (t : Trace)
    → IsWritable env
    → audits (logged env entry t) ≡ 1 + audits t
unfolding number_of
audits-logged env entry t h = ground (arith, h t entry)

module _ (env : Env) (w : Writer) (r : Resource) where
  maybe_sync-audits : (ha : Option HaVerifier) → Costs audits 0 (maybe_sync env w r ha)
  unfolding maybe_sync
  maybe_sync-audits none = Costs-pure none
  maybe_sync-audits (some ha) =
      Costs-bind _ _ 0 0 (verify_robust-Costs env 0 (audits_measure env) ha r.search_path 5 400)
        (λ s. Costs-pure (some s))

  -- The check fails with the read of the local listing.
  maybe_sync_raised :
      (ha : HaVerifier) (e : Exn) (t : Trace)
      → w.ha ≡ some ha
      → (get env ha.local r.search_path end t).0 ≡ raised e
      → maybe_sync env w r w.ha t ≡ (raised e, (get env ha.local r.search_path end t).1)
  unfolding maybe_sync verify_robust ◌>>=◌
  maybe_sync_raised ha e t paired unread = rw paired (rw unread)

  module _ (verb uuid target detail sha : String) (started t : Trace) where
    -- A write that is checked ends with its note.
    finish_checked :
        (s : Option SyncResult) (u : Trace)
        → maybe_sync env w r w.ha t ≡ (ok s, u)
        → let entry =
            entry_at env w.actor w.host_name
              (r.kind <> verb)
              target
              "ok"
              (env.elapsed_ms started t)
              detail
              sha
              u in
          finish env w r verb uuid target detail sha started t ≡ (
            ok (record { ok_flag = true; uuid = uuid; detail = ""; sync = s; audit = some entry }),
            logged env entry u,
          )
    unfolding finish note ◌>>=◌
    finish_checked s u e = rw e (rw record_outcome_lem refl)

    -- A check that raises ends the write before its note.
    pub finish_raised :
        (e : Exn) (u : Trace)
        → maybe_sync env w r w.ha t ≡ (raised e, u)
        → finish env w r verb uuid target detail sha started t ≡ (raised e, u)
    unfolding finish ◌>>=◌
    finish_raised e u q = rw q

    pub finish-audits :
        (x : WriteResult)
        → IsWritable env
        → (finish env w r verb uuid target detail sha started t).0 ≡ ok x
        → audits (finish env w r verb uuid target detail sha started t).1 ≡ 1 + audits t
    finish-audits x h p = elim (ended-cases (maybe_sync env w r w.ha t)) [
      | inl (s, q) ↦ rw (finish_checked s (maybe_sync env w r w.ha t).1 q) (
          omega (
            arith,
            audits-logged env
                (entry_at env w.actor w.host_name (r.kind <> verb) target "ok"
                  (env.elapsed_ms started t) detail sha (maybe_sync env w r w.ha t).1)
                (maybe_sync env w r w.ha t).1 h,
            (maybe_sync-audits w.ha).above t,
            (maybe_sync-audits w.ha).below t,
          ))
      | inr (e, q) ↦ cc (finish_raised e (maybe_sync env w r w.ha t).1 q)
    ]

  module _ (n : Notes) (payload : Value) (t : Trace) where
    -- Every `create` that returns, however it went, has written one entry to the audit log, if that
    -- can be written.
    pub create_row-audits :
        (x : WriteResult)
        → IsWritable env
        → (create_row env w r n payload t).0 ≡ ok x
        → audits (create_row env w r n payload t).1 ≡ 1 + audits t
    unfolding number_of
    create_row-audits x h p = elim (Result-cases (post env w.client r.add_path payload t).0) [
      | inr (e, q) ↦
          rw (create_row_rejected env w r n payload t e q) (omega (arith, audits-logged env _ _ h))
      | inl (reply, q) ↦ elim (Result-cases (uuid_in env w r reply)) [
        | inr (e, u) ↦ cc (create_row_raises env w r n payload t reply q e u)
        | inl (uuid, u) ↦ elim (Bool-cases (uuid == "")) [
          | inl empty ↦
              rw
                (create_row_no_uuid env w r n payload t reply q
                  (rw ((eq_iff uuid "").0 empty) at u))
                (omega (arith, audits-logged env _ _ h))
          | inr named ↦
              elim (Result-cases
                (post env w.client r.apply_path (dict end) (t_added env w r n payload t)).0) [
                  | inr (e, a) ↦
                      rw (create_row_rolls_back env w r n payload t reply q uuid u named e a)
                        (omega (arith, audits-logged env _ _ h))
                  | inl (v, a) ↦
                      finished uuid
                        (create_row_goes_on env w r n payload t reply q uuid u named v a)
                ]
        ]
      ]
    ]
      where
        finished :
            (uuid : String)
            → create_row env w r n payload t
              ≡ finish env w r ".create" uuid
                  (n.ok_target uuid)
                  (n.ok_detail uuid)
                  (hash_payload env payload)
                  t
                  (sent (apply_request env w r) ∷ t_added env w r n payload t)
            → audits (create_row env w r n payload t).1 ≡ 1 + audits t
        finished uuid e = rw e (
            finish-audits ".create" uuid (n.ok_target uuid) (n.ok_detail uuid)
              (hash_payload env payload) t
              (sent (apply_request env w r) ∷ t_added env w r n payload t) x h (rw e at p)
            ∙ omega arith)

    -- After a row was created and applied, a local listing that cannot be read for the check of the
    -- peer makes `create` raise: its two POSTs were sent, and no entry was added to the audit log.
    pub create_row_unaudited :
        (reply v : Value) (uuid : String) (ha : HaVerifier) (e : Exn)
        → (post env w.client r.add_path payload t).0 ≡ ok reply
        → uuid_in env w r reply ≡ ok uuid
        → (uuid == "") ≡ false
        → (post env w.client r.apply_path (dict end) (t_added env w r n payload t)).0 ≡ ok v
        → w.ha ≡ some ha
        → (get env ha.local r.search_path end
            (sent (apply_request env w r) ∷ t_added env w r n payload t)).0
          ≡ raised e
        → ((create_row env w r n payload t).0 ≡ raised e)
          × (audits (create_row env w r n payload t).1 ≡ audits t)
          × (posts (create_row env w r n payload t).1 ≡ 2 + posts t)
    unfolding number_of
    create_row_unaudited reply v uuid ha e posted given named applied paired unread =
        rw (create_row_goes_on env w r n payload t reply posted uuid given named v applied) (
          rw (finish_raised _ _ _ _ _ _ _ e _ (maybe_sync_raised ha e _ paired unread)) (
            refl,
            omega (
              arith,
              get-audits env ha.local r.search_path end
                  (sent (apply_request env w r) ∷ t_added env w r n payload t),
            ),
            omega (
              arith,
              get-posts env ha.local r.search_path end
                  (sent (apply_request env w r) ∷ t_added env w r n payload t),
            ),
          ))
