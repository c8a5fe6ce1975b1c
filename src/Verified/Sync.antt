-- ===== src/Verified/Sync.antt =====
-- `_sync`, `_dnat_ids` and `_finish_last_dnat_delete` of `src/writers/verified.py`.
use pegaprox_plugin_opnsense.Prelude.{
  ℕ, zero, suc, ◌+◌, ◌*◌, String, ◌<>◌, Bool, true, false, ◌||◌, Option, none, some, List, [], ◌∷◌,
  ◌⊎◌, inl, inr, if◌then◌else◌, ◌==◌, ltb, sorted_set, less, same_list,
}
use pegaprox_plugin_opnsense.Value.{null, str, dict, Fields, end, get_or}
use pegaprox_plugin_opnsense.Exec.{
  Exec, Exn, Result, ok, raised, conflict, unsafe_sync, message, is_opnsense, is_os_error, pure,
  attempt, ◌>>=◌, ◌>>◌,
}
use pegaprox_plugin_opnsense.World.{Env, Trace, M, sleep}
use pegaprox_plugin_opnsense.Client.{Client}
use pegaprox_plugin_opnsense.Audit.{hash_payload, now, append}
use pegaprox_plugin_opnsense.Verified.Checks.{validate_uuid}
use pegaprox_plugin_opnsense.Verified.Reads.{
  Kind, base, suffix, apply_name, is_lockout, search, get_object, verify, post_checked,
}
use pegaprox_plugin_opnsense.Verified.Preflight.{Net, Plan, same_plan, preflight_peer}

-- `ha_sync_mode`
pub data Mode : Type 0 where
  automatic xmlrpc_pf : Mode

abbrev pub is_xmlrpc : Mode → Bool
is_xmlrpc xmlrpc_pf = true
is_xmlrpc automatic = false

-- What the `__init__` of `VerifiedFirewallWriter` keeps; the backoff in milliseconds.
pub record Writer : Type 0 where
  pub client : Client
  pub kind : Kind
  pub actor : String
  pub peer : Option Client
  pub ha_verify_attempts : ℕ
  pub ha_verify_backoff : ℕ
  pub ha_sync_mode : Mode

-- `cleanup` of `_finish_last_dnat_delete`
pub record Cleanup : Type 0 where
  pub attempted : Bool
  pub deleted : Bool
  pub applied : Bool
  pub verified : Bool

-- The `result` of `_sync`
pub record SyncReport : Type 0 where
  pub triggered : Bool
  pub mode : Mode
  pub verified : Bool
  pub attempts : ℕ
  pub detail : String
  pub peer_cleanup : Option Cleanup

-- `raise` if the test fails.
abbrev pub require : Bool → Exn → M (Unit {0})
require true e t = (ok tt, t)
require false e t = (raised e, t)

abbrev pub is_opnsense_or_os : Exn → Bool
is_opnsense_or_os e = is_opnsense e || is_os_error e

-- The uuids of the rows of a port forward search, but for the generated lockout rows.
unfoldable pub row_ids : List Fields → Result (List String)
row_ids [] = ok []
row_ids (r ∷ rs) =
    let rest = row_ids rs in
    let value = get_or "uuid" null r in
    if (elim value [ str s ↦ is_lockout s | _ ↦ false ]) then rest else elim (validate_uuid value) [
      | ok id ↦ elim rest [ ok ids ↦ ok (id ∷ ids) | raised e ↦ raised e ]
      | raised e ↦ raised (unsafe_sync "Unknown DNAT row; cannot qualify last-rule cleanup")
    ]

-- The state of `_finish_last_dnat_delete`: what is written into `cleanup` before an exception stays.
pub record CleanupRun : Type 0 where
  pub trace : Trace
  pub cleanup : Cleanup

abbrev pub on_wire : {A : Type 0} → M A → Exec CleanupRun A
on_wire m s = let (r, t) = m s.trace in (r, record s { trace = t })

abbrev pub set_cleanup : (Cleanup → Cleanup) → Exec CleanupRun (Unit {0})
set_cleanup f s = (ok tt, record s { cleanup = f s.cleanup })

module _ (env : Env) (net : Net) (w : Writer) where
  -- `_dnat_ids`, as a sorted list
  unfoldable pub dnat_ids : Client → M (List String)
  unfolding row_ids
  dnat_ids c = do
    rows ← search env w.kind c
    λ t. ((elim (row_ids rows) [ ok ids ↦ ok (sorted_set less ids) | raised e ↦ raised e ]), t)

  -- `_sync_preflight` on `self.peer`
  unfoldable pub preflight_with : Option Client → M (Option Plan)
  preflight_with none = pure none
  preflight_with (some peer) =
      if is_xmlrpc w.ha_sync_mode
      then (do plan ← preflight_peer env net w.kind w.client peer; pure (some plan))
      else pure none

  -- `_sync_preflight`
  unfoldable pub sync_preflight : M (Option Plan)
  unfolding preflight_with
  sync_preflight = preflight_with w.peer

  -- The `try` of `_finish_last_dnat_delete`
  unfoldable pub cleanup_steps :
      Client → (uuid revision : String) → Option Plan → Exec CleanupRun (Unit {0})
  unfolding sync_preflight dnat_ids
  cleanup_steps peer uuid revision plan = do
    plan' ← on_wire sync_preflight
    on_wire (
        require (same_plan plan' plan)
          (unsafe_sync "HA or local DNAT changed; peer cleanup requires reconciliation"))
    ours ← on_wire (dnat_ids w.client)
    on_wire (
        require (same_list ours [])
          (unsafe_sync "HA or local DNAT changed; peer cleanup requires reconciliation"))
    theirs ← on_wire (dnat_ids peer)
    on_wire (
        require (same_list theirs (uuid ∷ []))
          (unsafe_sync "HA or local DNAT changed; peer cleanup requires reconciliation"))
    object ← on_wire (get_object env w.kind uuid peer)
    on_wire (
        require (hash_payload env object == revision)
          (conflict "Peer DNAT changed; refusing peer cleanup"))
    entry ←
        on_wire
          (now env w.actor "port_forward.peer_delete" uuid peer.host.name "started" 0 "" revision)
    on_wire (append env entry)
    set_cleanup (λ c. record c { attempted = true })
    on_wire (
        post_checked env w.kind peer (base w.kind <> "/del" <> suffix w.kind <> "/" <> uuid)
          (dict end) "peer delete")
    set_cleanup (λ c. record c { deleted = true })
    on_wire (
        post_checked env w.kind peer (base w.kind <> "/" <> apply_name w.kind) (dict end)
          "peer apply")
    set_cleanup (λ c. record c { applied = true })
    here ← on_wire (verify env w.kind uuid none w.client)
    there ← on_wire (if here then verify env w.kind uuid none peer else pure false)
    set_cleanup (λ c. record c { verified = there })

  -- What `_finish_last_dnat_delete` writes into the result of `_sync` in the end.
  unfoldable pub cleanup_report : SyncReport → Result (Unit {0}) → Cleanup → Result SyncReport
  cleanup_report report (ok _) c = ok (record report {
    peer_cleanup = some c;
    verified = c.verified;
    detail =
        if c.verified
        then "Last DNAT absence verified on both nodes"
        else "Peer cleanup absence unverified";
  })
  cleanup_report report (raised e) c =
      if is_opnsense_or_os e
      then ok (record report { peer_cleanup = some c; detail = message e })
      else raised e

  -- `_finish_last_dnat_delete`
  unfoldable pub finish_last_dnat_delete :
      Client → (uuid revision : String) → Option Plan → SyncReport → M SyncReport
  unfolding cleanup_steps cleanup_report
  finish_last_dnat_delete peer uuid revision plan report t =
      let (r, s) = cleanup_steps peer uuid revision plan (record {
        trace = t;
        cleanup = record { attempted = false; deleted = false; applied = false; verified = false };
      }) in
      (cleanup_report report r s.cleanup, s.trace)

  -- The end of `_sync`, when the peer did not converge.
  unfoldable pub sync_end :
      Client
      → (uuid : String) → Option Fields
      → Option Plan
      → Option String
      → SyncReport
      → M SyncReport
  unfolding finish_last_dnat_delete
  sync_end peer uuid none plan (some revision) report =
      finish_last_dnat_delete peer uuid revision plan report
  sync_end peer uuid none plan none report = pure report
  sync_end peer uuid (some expected) plan revision report = pure report

  -- The body of the loop of `_sync` in round `i`; `rest` is the loop from the next round on.
  unfoldable pub sync_round :
      ℕ → SyncReport → (SyncReport → M SyncReport) → Exn ⊎ Bool → M SyncReport
  sync_round i report rest (inr true) =
      pure (record report { attempts = i; verified = true; detail = "Peer configuration verified" })
  sync_round i report rest (inr false) =
      let report' = record report {
        attempts = i;
        detail = "Peer configuration did not converge";
      } in
      if ltb i w.ha_verify_attempts
      then sleep (w.ha_verify_backoff * i) >> rest report'
      else rest report'
  sync_round i report rest (inl e) =
      let report' = record report { attempts = i; detail = message e } in
      if ltb i w.ha_verify_attempts
      then sleep (w.ha_verify_backoff * i) >> rest report'
      else rest report'

  -- The loop of `_sync` from round `i`, with `left` rounds to go.
  unfoldable pub sync_loop :
      Client
      → (uuid : String) → Option Fields
      → Option Plan
      → Option String
      → SyncReport
      → (i left : ℕ) → M SyncReport
  unfolding sync_end sync_round
  sync_loop peer uuid expected plan revision report i zero =
      sync_end peer uuid expected plan revision report
  sync_loop peer uuid expected plan revision report i (suc left) = do
    seen ← attempt is_opnsense (verify env w.kind uuid expected peer)
    sync_round i report (λ report'. sync_loop peer uuid expected plan revision report' (i + 1) left)
        seen

  abbrev pub first_report : SyncReport
  first_report = record {
    triggered = false;
    mode = w.ha_sync_mode;
    verified = false;
    attempts = 0;
    detail = "";
    peer_cleanup = none;
  }

  -- The repeated preflight of the mode `xmlrpc_pf`, and what was raised.
  unfoldable pub plan_kept : Option Plan → M (Exn ⊎ Unit {0})
  unfolding sync_preflight
  plan_kept plan = attempt is_opnsense (do
    plan' ← sync_preflight
    require (same_plan plan' plan)
        (unsafe_sync "XMLRPC configuration changed during the operation; reconcile manually"))

  -- `_sync` in the mode `xmlrpc_pf`, after the POST of the trigger.
  unfoldable pub sync_posted :
      Client
      → (uuid : String) → Option Fields
      → Option Plan
      → Option String
      → Exn ⊎ Fields
      → M SyncReport
  unfolding sync_loop
  sync_posted peer uuid expected plan revision (inl e) =
      pure (record first_report { triggered = true; detail = message e })
  sync_posted peer uuid expected plan revision (inr _) =
      sync_loop peer uuid expected plan revision (record first_report { triggered = true }) 1
        w.ha_verify_attempts

  -- `_sync` in the mode `xmlrpc_pf`, once the preflight has been repeated.
  unfoldable pub sync_triggered :
      Client
      → (uuid : String) → Option Fields
      → Option Plan
      → Option String
      → Exn ⊎ Unit {0}
      → M SyncReport
  unfolding sync_posted
  sync_triggered peer uuid expected plan revision (inl e) =
      pure (record first_report { detail = message e })
  sync_triggered peer uuid expected plan revision (inr _) = do
    posted ←
        attempt is_opnsense (
          post_checked env w.kind w.client "/api/core/hasync_status/restart/pf" (dict end)
            "HA sync")
    sync_posted peer uuid expected plan revision posted

  -- `_sync` on `self.peer`
  unfoldable pub sync_peer :
      (uuid : String)
      → Option Fields
      → Option Plan
      → Option String
      → Option Client
      → M (Option SyncReport)
  unfolding plan_kept sync_triggered sync_loop
  sync_peer uuid expected plan revision none = pure none
  sync_peer uuid expected plan revision (some peer) = do
    report ←
        (if is_xmlrpc w.ha_sync_mode
          then (do
            checked ← plan_kept plan
            sync_triggered peer uuid expected plan revision checked)
          else sync_loop peer uuid expected plan revision first_report 1 w.ha_verify_attempts)
    pure (some report)

  -- `_sync`
  unfoldable pub sync :
      (uuid : String) → Option Fields → Option Plan → Option String → M (Option SyncReport)
  unfolding sync_peer
  sync uuid expected plan revision = sync_peer uuid expected plan revision w.peer
