-- ===== src/Examples/Operations.antt =====
-- Operations of `src/writers/verified.py` on concrete firewalls.
use pegaprox_plugin_opnsense.Prelude.{
  ◌+◌, String, true, false, none, some, [], ◌≡◌, refl, inl, inr, Bool-cases, ◌==◌,
}
use pegaprox_plugin_opnsense.Value.{Value, str, end, field, Fields, is_null}
use pegaprox_plugin_opnsense.Exec.{Result, ok, raised}
use pegaprox_plugin_opnsense.Exec.Costs.{Costs}
use pegaprox_plugin_opnsense.Prelude.{lower, strip, join_comma, all_chars, count_chars, split_on}
use pegaprox_plugin_opnsense.Value
use pegaprox_plugin_opnsense.Exec.{attempt}
use pegaprox_plugin_opnsense.World.{sleep}
use pegaprox_plugin_opnsense.Client
use pegaprox_plugin_opnsense.Audit.{hash_payload, now, append}
use pegaprox_plugin_opnsense.Verified.Checks.{validate_uuid, require_success, selected_fields}
use pegaprox_plugin_opnsense.Verified.Reads
use pegaprox_plugin_opnsense.Verified.Sync
use pegaprox_plugin_opnsense.Verified.Perform.{perform}
use pegaprox_plugin_opnsense.Verified.Execute.{handle, execute_run, execute}
use pegaprox_plugin_opnsense.World.{AuditEntry, Trace}
use pegaprox_plugin_opnsense.Client.Posts.{posts}
use pegaprox_plugin_opnsense.Verified.Report.{Report, create, delete, initial_report, is_create}
use pegaprox_plugin_opnsense.Verified.Sync.{SyncReport}
use pegaprox_plugin_opnsense.Verified.SyncPosts.{sync_posts}
use pegaprox_plugin_opnsense.Verified.PeerSound.{Seen, sync_verified}
use pegaprox_plugin_opnsense.Verified.Settled.{Backed}
use pegaprox_plugin_opnsense.Verified.Sound.{
  execute_run-Backed, execute_run_failed, execute_run_rolled_back,
}
use pegaprox_plugin_opnsense.Verified.Bounds.{rollback_posts, execute_run-Costs}
use pegaprox_plugin_opnsense.Verified.Stale.{execute_run_stale, execute_run_stale_refused}
use pegaprox_plugin_opnsense.Verified.Unreserved.{execute_run_unreserved}
use pegaprox_plugin_opnsense.Examples.{
  good_env, down_env, full_env, stuck_env, net, peer, writer_with, the_uuid,
}

abbrev report_of : Result Report × Trace → Report
report_of (ok r, t) = r
report_of (raised e, t) = initial_report ""

abbrev deleted : Report
deleted = report_of (execute_run good_env net (writer_with none) delete none the_uuid "h" [])

deleted_returned :
    (execute_run good_env net (writer_with none) delete none the_uuid "h" []).0 ≡ ok deleted
unfolding lower strip Value.get_or Value.truthy Value.text_of attempt Client.judge Client.transmit
    Client.get Client.post hash_payload now append require_success selected_fields Reads.rows_of
    Reads.count_rows Reads.total_of Reads.verify Reads.apply Sync.sync perform execute
deleted_returned = refl

deleted_ok : deleted.ok_flag ≡ true
unfolding lower strip Value.get_or Value.truthy Value.text_of attempt Client.judge Client.transmit
    Client.get Client.post hash_payload now append require_success selected_fields Reads.rows_of
    Reads.count_rows Reads.total_of Reads.verify Reads.apply Sync.sync perform execute
deleted_ok = refl

execute_run-Backed_example :
    Backed good_env
      (writer_with none)
      []
      none
      deleted
      (execute_run good_env net (writer_with none) delete none the_uuid "h" []).1
    × ((e : AuditEntry) × (deleted.audit ≡ some e))
execute_run-Backed_example =
    execute_run-Backed good_env net (writer_with none) delete none the_uuid "h" [] deleted
      deleted_returned deleted_ok

abbrev unreached : Report
unreached = report_of (execute_run down_env net (writer_with none) delete none the_uuid "h" [])

unreached_returned :
    (execute_run down_env net (writer_with none) delete none the_uuid "h" []).0 ≡ ok unreached
unfolding attempt sleep Client.judge Client.transmit Client.get now append Reads.verify Sync.sync
    perform handle execute
unreached_returned = refl

unreached_failed : unreached.ok_flag ≡ false
unfolding attempt sleep Client.judge Client.transmit Client.get now append Reads.verify Sync.sync
    perform handle execute
unreached_failed = refl

execute_run_failed_example : (m : String) × (unreached.error ≡ some m)
execute_run_failed_example =
    execute_run_failed down_env net (writer_with none) delete none the_uuid "h" [] unreached
      unreached_returned unreached_failed

abbrev fields : Fields
fields = field "action" (str "pass") end

abbrev stuck : Report
stuck = report_of (execute_run stuck_env net (writer_with none) create (some fields) "" "" [])

stuck_returned :
    (execute_run stuck_env net (writer_with none) create (some fields) "" "" []).0 ≡ ok stuck
unfolding lower strip join_comma all_chars count_chars split_on Value.get_or Value.truthy
    Value.text_of attempt Client.rooted Client.judge Client.transmit Client.post now append
    validate_uuid require_success Reads.apply Sync.sync perform handle execute
stuck_returned = refl

stuck_attempted : stuck.rollback.attempted ≡ true
unfolding lower strip join_comma all_chars count_chars split_on Value.get_or Value.truthy
    Value.text_of attempt Client.rooted Client.judge Client.transmit Client.post now append
    validate_uuid require_success Reads.apply Sync.sync perform handle execute
stuck_attempted = refl

execute_run_rolled_back_example :
    (is_create create ≡ true) × (stuck.ok_flag ≡ false) × ((m : String) × (stuck.error ≡ some m))
execute_run_rolled_back_example =
    execute_run_rolled_back stuck_env net (writer_with none) create (some fields) "" "" [] stuck
      stuck_returned stuck_attempted

execute_run_unreserved_example :
    (r : Report) × (r.ok_flag ≡ false)
    × (r.error ≡ some "audit")
    × (execute_run full_env net (writer_with none) delete none the_uuid "h" [] ≡ (ok r, []))
execute_run_unreserved_example =
    execute_run_unreserved full_env net (writer_with none) delete none the_uuid "h" "disk full" []
      (λ u e. refl)

old_hash : (v : Value) → (hash_payload good_env v == "old") ≡ false
unfolding hash_payload
old_hash v = elim (Bool-cases (is_null v)) [ inl n ↦ rw n | inr n ↦ rw n ]

execute_run_stale_example :
    posts (execute_run good_env net (writer_with none) delete none the_uuid "old" []).1 ≡ posts []
execute_run_stale_example =
    execute_run_stale good_env net (writer_with none) delete none the_uuid "old" [] refl
      (λ u v e. old_hash v)

abbrev outdated : Report
outdated = report_of (execute_run good_env net (writer_with none) delete none the_uuid "old" [])

outdated_returned :
    (execute_run good_env net (writer_with none) delete none the_uuid "old" []).0 ≡ ok outdated
unfolding Value.get_or attempt Client.judge Client.transmit Client.get hash_payload now append
    selected_fields Reads.verify Sync.sync perform handle execute
outdated_returned = refl

execute_run_stale_refused_example : outdated.ok_flag ≡ false
execute_run_stale_refused_example =
    execute_run_stale_refused good_env net (writer_with none) delete none the_uuid "old" [] refl
      (λ u v e. old_hash v) outdated outdated_returned

execute_run-Costs_example :
    Costs posts
      (2
        + sync_posts stuck_env net (writer_with (some peer)) (some peer)
        + rollback_posts stuck_env net (writer_with (some peer)) create)
      (execute_run stuck_env net (writer_with (some peer)) create (some fields) "" "")
execute_run-Costs_example =
    execute_run-Costs stuck_env net (writer_with (some peer)) create (some fields) "" ""

abbrev synced : SyncReport
synced = record {
  triggered = false;
  mode = Sync.automatic;
  verified = true;
  attempts = 1;
  detail = "Peer configuration verified";
  peer_cleanup = none;
}

synced_returned :
    (Sync.sync good_env net (writer_with (some peer)) the_uuid none none none []).0
    ≡ ok (some synced)
unfolding Value.has_key attempt Client.judge Client.transmit Client.get Reads.rows_of
    Reads.count_rows Reads.total_of Reads.verify Sync.sync
synced_returned = refl

sync_verified_example :
    Seen good_env
      (writer_with (some peer))
      []
      peer
      the_uuid
      none
      (Sync.sync good_env net (writer_with (some peer)) the_uuid none none none []).1
sync_verified_example =
    sync_verified good_env net (writer_with (some peer)) the_uuid none none none peer [] synced refl
      synced_returned refl
