-- ===== src/Verified/SyncGrowth.antt =====
-- The synchronization of the peer only adds to the trace.
use pegaprox_plugin_opnsense.Prelude.{
  ℕ, zero, suc, ◌+◌, String, Bool, true, false, Option, none, some, if◌then◌else◌, ltb, inl, inr,
  ◌⊎◌,
}
use pegaprox_plugin_opnsense.Value.{Fields}
use pegaprox_plugin_opnsense.Exec.{Exn, Exec, is_opnsense, ◌>>=◌, ◌>>◌}
use pegaprox_plugin_opnsense.World.Grows.{
  Grows, itself, Grows-pure, Grows-if, Grows-bind, Grows-attempt, sleep-Grows,
}
use pegaprox_plugin_opnsense.World.{Env, Trace, M, sleep}
use pegaprox_plugin_opnsense.Client.{Client}
use pegaprox_plugin_opnsense.Verified.Preflight.{Net, Plan}
use pegaprox_plugin_opnsense.Verified.Sync.{
  Writer, Cleanup, CleanupRun, SyncReport, on_wire, set_cleanup, dnat_ids, preflight_with,
  sync_preflight, cleanup_steps, finish_last_dnat_delete, sync_end, sync_round, sync_loop,
  plan_kept, sync_posted, sync_triggered, sync_peer, sync, is_xmlrpc,
}
use pegaprox_plugin_opnsense.Verified.Growth.{
  then_still, require-Grows, now-Grows, append-Grows, search-Grows, get_object-Grows, verify-Grows,
  post_checked-Grows, preflight_peer-Grows,
}

abbrev pub log_of : CleanupRun → Trace
log_of s = s.trace

pub wire : {A : Type 0} (m : M A) → Grows itself m → Grows log_of (on_wire m)
wire m c = record { later = λ u s l. c.later u s.trace l }

then_free :
    {A B : Type 0} (m : Exec CleanupRun A) (f : A → Exec CleanupRun B)
    → Grows log_of m
    → ((a : A) → Grows log_of (f a))
    → Grows log_of (m >>= f)
then_free m f hm hf = Grows-bind m f hm hf

pub set-Grows : (f : Cleanup → Cleanup) → Grows log_of (set_cleanup f)
set-Grows f = record { later = λ u s l. l }

module _ (env : Env) (net : Net) (w : Writer) where
  pub dnat_ids-Grows : (c : Client) → Grows itself (dnat_ids env net w c)
  unfolding dnat_ids
  dnat_ids-Grows c =
      then_still _ _ (search-Grows env w.kind c) (λ rows. record { later = λ u t l. l })

  preflight_with-Grows : (peer : Option Client) → Grows itself (preflight_with env net w peer)
  unfolding preflight_with
  preflight_with-Grows none = Grows-pure none
  preflight_with-Grows (some peer) =
      Grows-if (is_xmlrpc w.ha_sync_mode) _ _
        (then_still _ _ (preflight_peer-Grows env net w.kind w.client peer) (λ plan. Grows-pure _))
        (Grows-pure none)

  pub sync_preflight-Grows : Grows itself (sync_preflight env net w)
  unfolding sync_preflight
  sync_preflight-Grows = preflight_with-Grows w.peer

  cleanup_steps-Grows :
      (peer : Client) (uuid revision : String) (plan : Option Plan)
      → Grows log_of (cleanup_steps env net w peer uuid revision plan)
  unfolding cleanup_steps
  cleanup_steps-Grows peer uuid revision plan = then_free _ _ (wire _ sync_preflight-Grows) λ plan'.
      then_free _ _ (wire _ (require-Grows _ _)) λ _.
        then_free _ _ (wire _ (dnat_ids-Grows w.client)) λ ours.
          then_free _ _ (wire _ (require-Grows _ _)) λ _.
            then_free _ _ (wire _ (dnat_ids-Grows peer)) λ theirs.
              then_free _ _ (wire _ (require-Grows _ _)) λ _.
                then_free _ _ (wire _ (get_object-Grows env w.kind uuid peer)) λ object.
                  then_free _ _ (wire _ (require-Grows _ _)) λ _.
                    then_free _ _ (wire _ (now-Grows env _ _ _ _ _ _ _ _)) λ entry.
                      then_free _ _ (wire _ (append-Grows env entry)) λ _.
                        then_free _ _ (set-Grows _) λ _.
                          Grows-bind _ _ (wire _ (post_checked-Grows env w.kind peer _ _ _)) λ _.
                            then_free _ _ (set-Grows _) λ _.
                              Grows-bind _ _ (wire _ (post_checked-Grows env w.kind peer _ _ _))
                                λ _. then_free _ _ (set-Grows _) λ _.
                                  then_free _ _
                                    (wire _ (verify-Grows env w.kind uuid none w.client))
                                    λ here.
                                      then_free _ _
                                        (wire _ (
                                          Grows-if here _ _ (verify-Grows env w.kind uuid none peer)
                                            (Grows-pure false)))
                                        λ there. set-Grows _

  finish-Grows :
      (peer : Client) (uuid revision : String) (plan : Option Plan) (report : SyncReport)
      → Grows itself (finish_last_dnat_delete env net w peer uuid revision plan report)
  unfolding finish_last_dnat_delete
  finish-Grows peer uuid revision plan report = record {
    later = λ u t l. (cleanup_steps-Grows peer uuid revision plan).later u (fresh t) l;
  }
    where
      fresh : Trace → CleanupRun
      fresh t = record {
        trace = t;
        cleanup = record { attempted = false; deleted = false; applied = false; verified = false };
      }

  sync_end-Grows :
      (peer : Client) (uuid : String) (expected : Option Fields) (plan : Option Plan)
      (revision : Option String) (report : SyncReport)
      → Grows itself (sync_end env net w peer uuid expected plan revision report)
  unfolding sync_end
  sync_end-Grows peer uuid none plan (some revision) report =
      finish-Grows peer uuid revision plan report
  sync_end-Grows peer uuid none plan none report = Grows-pure report
  sync_end-Grows peer uuid (some expected) plan revision report = Grows-pure report

  again :
      (b : Bool) (ms : ℕ) (rest : M SyncReport)
      → Grows itself rest
      → Grows itself (if b then sleep ms >> rest else rest)
  again b ms rest h = Grows-if b _ _ (Grows-bind _ _ (sleep-Grows ms) (λ _. h)) h

  sync_round-Grows :
      (i : ℕ) (report : SyncReport) (rest : SyncReport → M SyncReport) (o : Exn ⊎ Bool)
      → ((x : SyncReport) → Grows itself (rest x))
      → Grows itself (sync_round env net w i report rest o)
  unfolding sync_round
  sync_round-Grows i report rest (inr true) h = Grows-pure _
  sync_round-Grows i report rest (inr false) h = again (ltb i w.ha_verify_attempts) _ _ (h _)
  sync_round-Grows i report rest (inl e) h = again (ltb i w.ha_verify_attempts) _ _ (h _)

  sync_loop-Grows :
      (peer : Client) (uuid : String) (expected : Option Fields) (plan : Option Plan)
      (revision : Option String) (report : SyncReport) (i left : ℕ)
      → Grows itself (sync_loop env net w peer uuid expected plan revision report i left)
  unfolding sync_loop
  sync_loop-Grows peer uuid expected plan revision report i zero =
      sync_end-Grows peer uuid expected plan revision report
  sync_loop-Grows peer uuid expected plan revision report i (suc left) =
      Grows-bind _ _ (Grows-attempt is_opnsense _ (verify-Grows env w.kind uuid expected peer))
        (λ o.
          sync_round-Grows i report _ o
            (λ x. sync_loop-Grows peer uuid expected plan revision x (i + 1) left))

  module _ (peer : Client) (uuid : String) (expected : Option Fields) (plan : Option Plan)
      (revision : Option String) where
    sync_posted-Grows :
        (o : Exn ⊎ Fields) → Grows itself (sync_posted env net w peer uuid expected plan revision o)
    unfolding sync_posted
    sync_posted-Grows (inl e) = Grows-pure _
    sync_posted-Grows (inr _) =
        sync_loop-Grows peer uuid expected plan revision _ 1 w.ha_verify_attempts

    sync_triggered-Grows :
        (o : Exn ⊎ Unit {0})
        → Grows itself (sync_triggered env net w peer uuid expected plan revision o)
    unfolding sync_triggered
    sync_triggered-Grows (inl e) = Grows-pure _
    sync_triggered-Grows (inr _) =
        Grows-bind _ _ (Grows-attempt is_opnsense _ (post_checked-Grows env w.kind w.client _ _ _))
          (λ o. sync_posted-Grows o)

    pub plan_kept-Grows : Grows itself (plan_kept env net w plan)
    unfolding plan_kept
    plan_kept-Grows =
        Grows-attempt is_opnsense _ (then_still _ _ sync_preflight-Grows (λ p. require-Grows _ _))

  sync_peer-Grows :
      (uuid : String) (expected : Option Fields) (plan : Option Plan) (revision : Option String)
      (peer : Option Client)
      → Grows itself (sync_peer env net w uuid expected plan revision peer)
  unfolding sync_peer
  sync_peer-Grows uuid expected plan revision none = Grows-pure none
  sync_peer-Grows uuid expected plan revision (some peer) =
      Grows-bind _ _
        (Grows-if (is_xmlrpc w.ha_sync_mode) _ _
          (Grows-bind _ _ (plan_kept-Grows peer uuid expected plan revision)
            (λ o. sync_triggered-Grows peer uuid expected plan revision o))
          ((sync_loop-Grows peer uuid expected plan revision _ 1 w.ha_verify_attempts)))
        (λ r. Grows-pure (some r))

  -- A synchronization only adds to the trace.
  pub sync-Grows :
      (uuid : String) (expected : Option Fields) (plan : Option Plan) (revision : Option String)
      → Grows itself (sync env net w uuid expected plan revision)
  unfolding sync
  sync-Grows uuid expected plan revision = sync_peer-Grows uuid expected plan revision w.peer
