-- ===== src/Verified/Perform.antt =====
-- The `try` of `_execute` of `src/writers/verified.py`: the reservation of the audit entry, the
-- preflight, the comparison of the revision, the POST of the change and what confirms it.
use pegaprox_plugin_opnsense.Prelude.{
  String, ◌<>◌, true, ◌&&◌, Option, none, some, [], ◌∷◌, if◌then◌else◌, ◌==◌, same_list,
}
use pegaprox_plugin_opnsense.Value.{null, Fields, get_or}
use pegaprox_plugin_opnsense.Exec.{Result, ok, raised, opnsense, conflict, pure, gets, ◌>>=◌, ◌>>◌}
use pegaprox_plugin_opnsense.World.{Env}
use pegaprox_plugin_opnsense.Client.{Client}
use pegaprox_plugin_opnsense.Audit.{hash_payload, now, append}
use pegaprox_plugin_opnsense.Verified.Checks.{validate_uuid}
use pegaprox_plugin_opnsense.Verified.Reads.{
  kind_name, is_port_forward, base, suffix, get_object, verify, post_checked, apply,
}
use pegaprox_plugin_opnsense.Verified.Preflight.{Net}
use pegaprox_plugin_opnsense.Verified.Sync.{
  Writer, is_xmlrpc, require, sync_preflight, dnat_ids, sync,
}
use pegaprox_plugin_opnsense.Verified.Report.{
  Action, action_name, verb, is_create, is_delete, Run, Op, on_wire, set_report, payload_value,
  payload_body, conclude_sync,
}

module _ (env : Env) (net : Net) (w : Writer) where
  -- The audit entry that is written before anything is sent.
  unfoldable pub reserve : Action → Option Fields → Op (Unit {0})
  reserve action payload = do
    uuid ← gets (λ (s : Run). s.uuid)
    entry ← on_wire (
        now env w.actor (kind_name w.kind <> "." <> action_name action) uuid w.client.host.name
          "started" 0 "" (hash_payload env (payload_value w.kind payload)))
    on_wire (append env entry)

  -- The check of a port forward's last row on the peer, before it is deleted.
  unfoldable pub last_row_check : Client → (uuid revision : String) → Op (Unit {0})
  last_row_check peer uuid revision = do
    ours ← on_wire (dnat_ids env net w w.client)
    if same_list ours (uuid ∷ [])
        then (do
          object ← on_wire (get_object env w.kind uuid peer)
          on_wire (
              require (hash_payload env object == revision)
                (conflict "Last DNAT differs on peer; reconcile before deleting"))
          theirs ← on_wire (dnat_ids env net w peer)
          on_wire (
              require (same_list theirs (uuid ∷ []))
                (conflict "Last DNAT differs on peer; reconcile before deleting"))
          λ s. (ok tt, record s { peer_revision = some (hash_payload env object) }))
        else pure tt

  unfoldable pub peer_check : Action → (uuid revision : String) → Option Client → Op (Unit {0})
  unfolding last_row_check
  peer_check action uuid revision none = pure tt
  peer_check action uuid revision (some peer) =
      if is_delete action && is_port_forward w.kind && is_xmlrpc w.ha_sync_mode
      then last_row_check peer uuid revision
      else pure tt

  -- The comparison of the revision, for an update or a delete.
  unfoldable pub compare_revision : Action → (revision : String) → Op (Unit {0})
  unfolding peer_check
  compare_revision action revision = do
    uuid ← gets (λ (s : Run). s.uuid)
    current ← on_wire (get_object env w.kind uuid w.client)
    on_wire (
        require (hash_payload env current == revision) (
          conflict "Configuration changed since it was loaded; refresh before editing or deleting"))
    peer_check action uuid revision w.peer

  -- `f"{base}/{verb}{suffix}" + (f"/{uuid}" if uuid else "")`
  abbrev pub write_path : Action → String → String
  write_path action uuid =
      base w.kind <> "/" <> verb action <> suffix w.kind <> (if uuid == "" then "" else "/" <> uuid)

  -- The uuid that the reply to a create has to give.
  unfoldable pub created_uuid : Result String → Op (Unit {0})
  created_uuid (ok uuid) s =
      (ok tt, record s { uuid = uuid; report = record s.report { uuid = uuid } })
  created_uuid (raised e) s =
      (raised (opnsense "Create acknowledged without valid UUID; reconcile manually"), s)

  -- The POST of the change.
  unfoldable pub submit : Action → Option Fields → Op (Unit {0})
  unfolding created_uuid
  submit action payload = do
    uuid ← gets (λ (s : Run). s.uuid)
    response ← on_wire (
        post_checked env w.kind w.client (write_path action uuid) (payload_body w.kind payload)
          (action_name action))
    if is_create action then created_uuid (validate_uuid (get_or "uuid" null response)) else pure tt

  -- What follows the POST: the apply action, the readback and the peer.
  unfoldable pub confirm : Option Fields → Op (Unit {0})
  unfolding conclude_sync
  confirm expected = do
    λ s. (ok tt, record s { accepted = true })
    on_wire (apply env w.kind w.client)
    set_report (λ r. record r { applied = true })
    s ← gets (λ (s : Run). s)
    read ← on_wire (verify env w.kind s.uuid expected w.client)
    on_wire (require read (opnsense "Readback does not match requested configuration"))
    set_report (λ r. record r { verified = true })
    done ← on_wire (sync env net w s.uuid expected s.plan s.peer_revision)
    set_report (conclude_sync done)

  -- The `try` of `_execute`
  unfoldable pub perform : Action → Option Fields → (revision : String) → Op (Unit {0})
  unfolding reserve compare_revision submit confirm
  perform action expected revision = do
    reserve action expected
    plan ← on_wire (sync_preflight env net w)
    λ s. (ok tt, record s { plan = plan })
    if is_create action then pure tt else compare_revision action revision
    submit action expected
    confirm expected
