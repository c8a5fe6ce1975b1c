-- ===== src/Verified/SyncPosts.antt =====
-- The synchronization of the peer, measured by the POSTs that it sends.
use pegaprox_plugin_opnsense.Prelude.{
  ℕ, zero, suc, ◌+◌, String, Bool, true, false, Option, none, some, arith, if◌then◌else◌, ltb, inl,
  inr, ◌⊎◌,
}
use pegaprox_plugin_opnsense.Value.{Fields}
use pegaprox_plugin_opnsense.Exec.{Exn, Exec, is_opnsense, ◌>>=◌, ◌>>◌}
use pegaprox_plugin_opnsense.Exec.Costs.{
  Costs, Costs-pure, Costs-if, Costs-le, Costs-bind, Costs-attempt,
}
use pegaprox_plugin_opnsense.World.{Env, Trace, M, sleep}
use pegaprox_plugin_opnsense.Client.{Client}
use pegaprox_plugin_opnsense.Client.Posts.{posts, sleep-Costs}
use pegaprox_plugin_opnsense.Verified.Preflight.{Net, Plan}
use pegaprox_plugin_opnsense.Verified.Sync.{
  Writer, Cleanup, CleanupRun, SyncReport, on_wire, set_cleanup, dnat_ids, preflight_with,
  sync_preflight, cleanup_steps, finish_last_dnat_delete, sync_end, sync_round, sync_loop,
  plan_kept, sync_posted, sync_triggered, sync_peer, sync, is_xmlrpc,
}
use pegaprox_plugin_opnsense.Verified.Posts.{
  then_still, require-Costs, now-Costs, append-Costs, search-Costs, get_object-Costs, verify-Costs,
  post_checked-Costs, preflight_peer-Costs,
}

abbrev spent : CleanupRun → ℕ
spent s = posts s.trace

wire : {A : Type 0} (n : ℕ) (m : M A) → Costs posts n m → Costs spent n (on_wire m)
wire n m c = record { above = λ s. c.above s.trace; below = λ s. c.below s.trace }

then_free :
    {A B : Type 0} (k : ℕ) (m : Exec CleanupRun A) (f : A → Exec CleanupRun B)
    → Costs spent 0 m
    → ((a : A) → Costs spent k (f a))
    → Costs spent k (m >>= f)
then_free k m f hm hf = Costs-le (0 + k) k (omega arith) (Costs-bind m f 0 k hm hf)

set-Costs : (f : Cleanup → Cleanup) → Costs spent 0 (set_cleanup f)
set-Costs f = record { above = λ s. omega arith; below = λ s. omega arith }

module _ (env : Env) (net : Net) (w : Writer) where
  pub dnat_ids-Costs : (c : Client) → Costs posts 0 (dnat_ids env net w c)
  unfolding dnat_ids
  dnat_ids-Costs c =
      then_still _ _ (search-Costs env w.kind c)
        (λ rows. record { above = λ t. omega arith; below = λ t. omega arith })

  preflight_with-Costs : (peer : Option Client) → Costs posts 0 (preflight_with env net w peer)
  unfolding preflight_with
  preflight_with-Costs none = Costs-pure none
  preflight_with-Costs (some peer) =
      Costs-if (is_xmlrpc w.ha_sync_mode) _ _ 0
        (then_still _ _ (preflight_peer-Costs env net w.kind w.client peer) (λ plan. Costs-pure _))
        (Costs-pure none)

  pub sync_preflight-Costs : Costs posts 0 (sync_preflight env net w)
  unfolding sync_preflight
  sync_preflight-Costs = preflight_with-Costs w.peer

  cleanup_steps-Costs :
      (peer : Client) (uuid revision : String) (plan : Option Plan)
      → Costs spent 2 (cleanup_steps env net w peer uuid revision plan)
  unfolding cleanup_steps
  cleanup_steps-Costs peer uuid revision plan =
      then_free 2 _ _ (wire 0 _ sync_preflight-Costs) λ plan'.
        then_free 2 _ _ (wire 0 _ (require-Costs _ _)) λ _.
          then_free 2 _ _ (wire 0 _ (dnat_ids-Costs w.client)) λ ours.
            then_free 2 _ _ (wire 0 _ (require-Costs _ _)) λ _.
              then_free 2 _ _ (wire 0 _ (dnat_ids-Costs peer)) λ theirs.
                then_free 2 _ _ (wire 0 _ (require-Costs _ _)) λ _.
                  then_free 2 _ _ (wire 0 _ (get_object-Costs env w.kind uuid peer)) λ object.
                    then_free 2 _ _ (wire 0 _ (require-Costs _ _)) λ _.
                      then_free 2 _ _ (wire 0 _ (now-Costs env _ _ _ _ _ _ _ _)) λ entry.
                        then_free 2 _ _ (wire 0 _ (append-Costs env entry)) λ _.
                          then_free 2 _ _ (set-Costs _) λ _.
                            Costs-bind _ _ 1 1 (wire 1 _ (post_checked-Costs env w.kind peer _ _ _))
                              λ _. then_free 1 _ _ (set-Costs _) λ _.
                                Costs-bind _ _ 1 0
                                  (wire 1 _ (post_checked-Costs env w.kind peer _ _ _))
                                  λ _. then_free 0 _ _ (set-Costs _) λ _.
                                    then_free 0 _ _
                                      (wire 0 _ (verify-Costs env w.kind uuid none w.client))
                                      λ here.
                                        then_free 0 _ _
                                          (wire 0 _ (
                                            Costs-if here _ _ 0
                                              (verify-Costs env w.kind uuid none peer)
                                              (Costs-pure false)))
                                          λ there. set-Costs _

  finish-Costs :
      (peer : Client) (uuid revision : String) (plan : Option Plan) (report : SyncReport)
      → Costs posts 2 (finish_last_dnat_delete env net w peer uuid revision plan report)
  unfolding finish_last_dnat_delete
  finish-Costs peer uuid revision plan report = record {
    above = λ t. (cleanup_steps-Costs peer uuid revision plan).above (fresh t);
    below = λ t. (cleanup_steps-Costs peer uuid revision plan).below (fresh t);
  }
    where
      fresh : Trace → CleanupRun
      fresh t = record {
        trace = t;
        cleanup = record { attempted = false; deleted = false; applied = false; verified = false };
      }

  sync_end-Costs :
      (peer : Client) (uuid : String) (expected : Option Fields) (plan : Option Plan)
      (revision : Option String) (report : SyncReport)
      → Costs posts 2 (sync_end env net w peer uuid expected plan revision report)
  unfolding sync_end
  sync_end-Costs peer uuid none plan (some revision) report =
      finish-Costs peer uuid revision plan report
  sync_end-Costs peer uuid none plan none report = Costs-le 0 2 (omega arith) (Costs-pure report)
  sync_end-Costs peer uuid (some expected) plan revision report =
      Costs-le 0 2 (omega arith) (Costs-pure report)

  again :
      (b : Bool) (ms : ℕ) (rest : M SyncReport)
      → Costs posts 2 rest
      → Costs posts 2 (if b then sleep ms >> rest else rest)
  again b ms rest h = Costs-if b _ _ 2 (Costs-bind _ _ 0 2 (sleep-Costs ms) (λ _. h)) h

  sync_round-Costs :
      (i : ℕ) (report : SyncReport) (rest : SyncReport → M SyncReport) (o : Exn ⊎ Bool)
      → ((x : SyncReport) → Costs posts 2 (rest x))
      → Costs posts 2 (sync_round env net w i report rest o)
  unfolding sync_round
  sync_round-Costs i report rest (inr true) h = Costs-le 0 2 (omega arith) (Costs-pure _)
  sync_round-Costs i report rest (inr false) h = again (ltb i w.ha_verify_attempts) _ _ (h _)
  sync_round-Costs i report rest (inl e) h = again (ltb i w.ha_verify_attempts) _ _ (h _)

  sync_loop-Costs :
      (peer : Client) (uuid : String) (expected : Option Fields) (plan : Option Plan)
      (revision : Option String) (report : SyncReport) (i left : ℕ)
      → Costs posts 2 (sync_loop env net w peer uuid expected plan revision report i left)
  unfolding sync_loop
  sync_loop-Costs peer uuid expected plan revision report i zero =
      sync_end-Costs peer uuid expected plan revision report
  sync_loop-Costs peer uuid expected plan revision report i (suc left) =
      Costs-bind _ _ 0 2
        (Costs-attempt is_opnsense _ 0 (verify-Costs env w.kind uuid expected peer))
        (λ o.
          sync_round-Costs i report _ o
            (λ x. sync_loop-Costs peer uuid expected plan revision x (i + 1) left))

  module _ (peer : Client) (uuid : String) (expected : Option Fields) (plan : Option Plan)
      (revision : Option String) where
    sync_posted-Costs :
        (o : Exn ⊎ Fields)
        → Costs posts 2 (sync_posted env net w peer uuid expected plan revision o)
    unfolding sync_posted
    sync_posted-Costs (inl e) = Costs-le 0 2 (omega arith) (Costs-pure _)
    sync_posted-Costs (inr _) =
        sync_loop-Costs peer uuid expected plan revision _ 1 w.ha_verify_attempts

    sync_triggered-Costs :
        (o : Exn ⊎ Unit {0})
        → Costs posts 3 (sync_triggered env net w peer uuid expected plan revision o)
    unfolding sync_triggered
    sync_triggered-Costs (inl e) = Costs-le 0 3 (omega arith) (Costs-pure _)
    sync_triggered-Costs (inr _) =
        Costs-bind _ _ 1 2
          (Costs-attempt is_opnsense _ 1 (post_checked-Costs env w.kind w.client _ _ _))
          (λ o. sync_posted-Costs o)

    plan_kept-Costs : Costs posts 0 (plan_kept env net w plan)
    unfolding plan_kept
    plan_kept-Costs =
        Costs-attempt is_opnsense _ 0 (then_still _ _ sync_preflight-Costs (λ p. require-Costs _ _))

  -- The POSTs that a synchronization may send: none, where there is no peer.
  abbrev pub sync_posts : Option Client → ℕ
  sync_posts none = 0
  sync_posts (some peer) = 3

  sync_peer-Costs :
      (uuid : String) (expected : Option Fields) (plan : Option Plan) (revision : Option String)
      (peer : Option Client)
      → Costs posts (sync_posts peer) (sync_peer env net w uuid expected plan revision peer)
  unfolding sync_peer
  sync_peer-Costs uuid expected plan revision none = Costs-pure none
  sync_peer-Costs uuid expected plan revision (some peer) =
      Costs-bind _ _ 3 0
        (Costs-if (is_xmlrpc w.ha_sync_mode) _ _ 3
          (Costs-bind _ _ 0 3 (plan_kept-Costs peer uuid expected plan revision)
            (λ o. sync_triggered-Costs peer uuid expected plan revision o))
          (Costs-le 2 3 (omega arith)
            (sync_loop-Costs peer uuid expected plan revision _ 1 w.ha_verify_attempts)))
        (λ r. Costs-pure (some r))

  -- A synchronization sends its POSTs whatever the number of its rounds: the trigger, and the delete
  -- and the apply of a cleanup.
  pub sync-Costs :
      (uuid : String) (expected : Option Fields) (plan : Option Plan) (revision : Option String)
      → Costs posts (sync_posts w.peer) (sync env net w uuid expected plan revision)
  unfolding sync
  sync-Costs uuid expected plan revision = sync_peer-Costs uuid expected plan revision w.peer
