-- ===== src/Verified/Bounds.antt =====
-- `_execute` of `src/writers/verified.py`, measured by the POSTs that it sends.
use pegaprox_plugin_opnsense.Prelude.{
  ℕ, ◌+◌, String, Bool, true, false, Option, none, some, arith, if◌then◌else◌, ◌&&◌, ◌≡◌, refl, inl,
  inr, ◌⊎◌, same_list, [], ◌∷◌,
}
use pegaprox_plugin_opnsense.Value.{Fields}
use pegaprox_plugin_opnsense.Exec.{Exn, ok, raised, Result, is_opnsense, is_os_error, pure, ◌>>=◌}
use pegaprox_plugin_opnsense.Exec.Costs.{
  Costs, Costs-pure, Costs-gets, Costs-if, Costs-le, Costs-bind, Costs-catch, Costs-attempt,
}
use pegaprox_plugin_opnsense.World.{Env, AuditEntry, Trace, M}
use pegaprox_plugin_opnsense.Client.{Client}
use pegaprox_plugin_opnsense.Client.Posts.{posts}
use pegaprox_plugin_opnsense.Verified.Reads.{is_port_forward}
use pegaprox_plugin_opnsense.Verified.Preflight.{Net}
use pegaprox_plugin_opnsense.Verified.Sync.{Writer, is_xmlrpc, is_opnsense_or_os}
use pegaprox_plugin_opnsense.Verified.Report.{
  Action, create, update, delete, is_create, is_delete, is_rejected, Report, Run, Op, on_wire,
  set_report,
}
use pegaprox_plugin_opnsense.Verified.Perform.{
  reserve, last_row_check, peer_check, compare_revision, created_uuid, submit, confirm, perform,
}
use pegaprox_plugin_opnsense.Verified.Execute.{
  rollback_steps, roll_back, handle, keep_entry, close, operate, start, result_of, execute_run,
}
use pegaprox_plugin_opnsense.Verified.Posts.{
  require-Costs, now-Costs, append-Costs, get_object-Costs, verify-Costs, post_checked-Costs,
  apply-Costs,
}
use pegaprox_plugin_opnsense.Verified.SyncPosts.{
  dnat_ids-Costs, sync_preflight-Costs, sync_posts, sync-Costs,
}

abbrev spent : Run → ℕ
spent s = posts s.trace

wire : {A : Type 0} (n : ℕ) (m : M A) → Costs posts n m → Costs spent n (on_wire m)
wire n m c = record { above = λ s. c.above s.trace; below = λ s. c.below s.trace }

free :
    {A B : Type 0} (k : ℕ) (m : Op A) (f : A → Op B)
    → Costs spent 0 m
    → ((a : A) → Costs spent k (f a))
    → Costs spent k (m >>= f)
free k m f hm hf = Costs-le (0 + k) k (omega arith) (Costs-bind m f 0 k hm hf)

set-Costs : (f : Report → Report) → Costs spent 0 (set_report f)
set-Costs f = record { above = λ s. omega arith; below = λ s. omega arith }

module _ (env : Env) (net : Net) (w : Writer) where
  reserve-Costs :
      (action : Action) (payload : Option Fields) → Costs spent 0 (reserve env net w action payload)
  unfolding reserve
  reserve-Costs action payload = free 0 _ _ (Costs-gets (λ s. s.uuid)) λ uuid.
      free 0 _ _ (wire 0 _ (now-Costs env _ _ _ _ _ _ _ _))
        λ entry. wire 0 _ (append-Costs env entry)

  last_row_check-Costs :
      (peer : Client) (uuid revision : String)
      → Costs spent 0 (last_row_check env net w peer uuid revision)
  unfolding last_row_check
  last_row_check-Costs peer uuid revision =
      free 0 _ _ (wire 0 _ (dnat_ids-Costs env net w w.client)) λ ours.
        Costs-if (same_list ours (uuid ∷ [])) _ _ 0
          (free 0 _ _ (wire 0 _ (get_object-Costs env w.kind uuid peer)) λ object.
            free 0 _ _ (wire 0 _ (require-Costs _ _)) λ _.
              free 0 _ _ (wire 0 _ (dnat_ids-Costs env net w peer)) λ theirs.
                free 0 _ _ (wire 0 _ (require-Costs _ _))
                  λ _. record { above = λ s. omega arith; below = λ s. omega arith })
          (Costs-pure tt)

  peer_check-Costs :
      (action : Action) (uuid revision : String) (peer : Option Client)
      → Costs spent 0 (peer_check env net w action uuid revision peer)
  unfolding peer_check
  peer_check-Costs action uuid revision none = Costs-pure tt
  peer_check-Costs action uuid revision (some peer) =
      Costs-if (is_delete action && is_port_forward w.kind && is_xmlrpc w.ha_sync_mode) _ _ 0
        (last_row_check-Costs peer uuid revision) (Costs-pure tt)

  pub compare_revision-Costs :
      (action : Action) (revision : String)
      → Costs spent 0 (compare_revision env net w action revision)
  unfolding compare_revision
  compare_revision-Costs action revision = free 0 _ _ (Costs-gets (λ s. s.uuid)) λ uuid.
      free 0 _ _ (wire 0 _ (get_object-Costs env w.kind uuid w.client)) λ current.
        free 0 _ _ (wire 0 _ (require-Costs _ _)) λ _. peer_check-Costs action uuid revision w.peer

  created_uuid-Costs : (u : Result String) → Costs spent 0 (created_uuid env net w u)
  unfolding created_uuid
  created_uuid-Costs (ok uuid) = record { above = λ s. omega arith; below = λ s. omega arith }
  created_uuid-Costs (raised e) = record { above = λ s. omega arith; below = λ s. omega arith }

  submit-Costs :
      (action : Action) (payload : Option Fields) → Costs spent 1 (submit env net w action payload)
  unfolding submit
  submit-Costs action payload = free 1 _ _ (Costs-gets (λ s. s.uuid)) λ uuid.
      Costs-bind _ _ 1 0 (wire 1 _ (post_checked-Costs env w.kind w.client _ _ _))
        λ response. Costs-if (is_create action) _ _ 0 (created_uuid-Costs _) (Costs-pure tt)

  synced :
      {A : Type 0} (k : ℕ) (m : M A) (f : A → Op (Unit {0}))
      → Costs posts k m
      → ((a : A) → Costs spent 0 (f a))
      → Costs spent k (on_wire m >>= f)
  synced k m f hm hf = Costs-le (k + 0) k (omega arith) (Costs-bind _ f k 0 (wire k m hm) hf)

  confirm-Costs :
      (expected : Option Fields)
      → Costs spent (1 + sync_posts env net w w.peer) (confirm env net w expected)
  unfolding confirm
  confirm-Costs expected =
      let k = sync_posts env net w w.peer in
      free (1 + k) _ _ (record { above = λ s. omega arith; below = λ s. omega arith })
        λ _. Costs-bind _ _ 1 k (wire 1 _ (apply-Costs env w.kind w.client)) λ _.
          free k _ _ (set-Costs _) λ _. free k _ _ (Costs-gets (λ s. s)) λ s.
            free k _ _ (wire 0 _ (verify-Costs env w.kind s.uuid expected w.client)) λ read.
              free k _ _ (wire 0 _ (require-Costs _ _)) λ _. free k _ _ (set-Costs _) λ _.
                synced k _ _ (sync-Costs env net w s.uuid expected s.plan s.peer_revision)
                  (λ done. set-Costs _)

  perform-Costs :
      (action : Action) (expected : Option Fields) (revision : String)
      → Costs spent (2 + sync_posts env net w w.peer) (perform env net w action expected revision)
  unfolding perform
  perform-Costs action expected revision =
      let k = sync_posts env net w w.peer in
      free (2 + k) _ _ (reserve-Costs action expected) λ _.
        free (2 + k) _ _ (wire 0 _ (sync_preflight-Costs env net w)) λ plan.
          free (2 + k) _ _ (record { above = λ s. omega arith; below = λ s. omega arith })
            λ _.
              free (2 + k) _ _
                (Costs-if (is_create action) _ _ 0 (Costs-pure tt)
                  (compare_revision-Costs action revision))
                λ _. Costs-le (1 + (1 + k)) (2 + k) (omega arith) (
                  Costs-bind _ _ 1 (1 + k) (submit-Costs action expected)
                    (λ _. confirm-Costs expected))

  rollback_steps-Costs : Costs spent (2 + sync_posts env net w w.peer) (rollback_steps env net w)
  unfolding rollback_steps
  rollback_steps-Costs =
      let k = sync_posts env net w w.peer in
      free (2 + k) _ _ (Costs-gets (λ s. s)) λ s. Costs-le (1 + (1 + k)) (2 + k) (omega arith) (
        Costs-bind _ _ 1 (1 + k) (wire 1 _ (post_checked-Costs env w.kind w.client _ _ _)) λ _.
          Costs-bind _ _ 1 k (wire 1 _ (apply-Costs env w.kind w.client)) λ _.
            free k _ _ (wire 0 _ (verify-Costs env w.kind s.uuid none w.client)) λ gone.
              free k _ _ (set-Costs _) λ _.
                synced k _ _ (sync-Costs env net w s.uuid none s.plan s.peer_revision)
                  (λ done. set-Costs _))

  -- The POSTs that a rollback may send: it follows a create only.
  abbrev pub rollback_posts : Action → ℕ
  rollback_posts create = 2 + sync_posts env net w w.peer
  rollback_posts _ = 0

  roll_back-Costs : Costs spent (2 + sync_posts env net w w.peer) (roll_back env net w)
  unfolding roll_back
  roll_back-Costs =
      let k = sync_posts env net w w.peer in
      free (2 + k) _ _ (set-Costs _) λ _.
        Costs-le (2 + k + 0) (2 + k) (omega arith)
          (Costs-catch is_opnsense _ _ (2 + k) 0 rollback_steps-Costs (λ e. set-Costs _))

  rolled_back :
      (action : Action) (a c : Bool)
      → Costs spent
          (rollback_posts action)
          (if a && is_create action && c then roll_back env net w else pure tt)
  rolled_back create a c =
      Costs-if (a && true && c) _ _ _ roll_back-Costs (Costs-le 0 _ (omega arith) (Costs-pure tt))
  rolled_back update true c = Costs-pure tt
  rolled_back update false c = Costs-pure tt
  rolled_back delete true c = Costs-pure tt
  rolled_back delete false c = Costs-pure tt

  handle-Costs :
      (action : Action) (e : Exn) → Costs spent (rollback_posts action) (handle env net w action e)
  unfolding handle
  handle-Costs action e = free _ _ _ (set-Costs _) λ _.
      free _ _ _ (Costs-gets (λ s. s.accepted))
        λ accepted. rolled_back action accepted (is_rejected e)

  keep_entry-Costs :
      (entry : AuditEntry) (written : Exn ⊎ Unit {0})
      → Costs spent 0 (keep_entry env net w entry written)
  unfolding keep_entry
  keep_entry-Costs entry (inr u) = set-Costs _
  keep_entry-Costs entry (inl e) = set-Costs _

  pub close-Costs :
      (action : Action) (expected : Option Fields) (started : Trace)
      → Costs spent 0 (close env net w action expected started)
  unfolding close
  close-Costs action expected started = free 0 _ _ (Costs-gets (λ s. s)) λ s.
      free 0 _ _ (wire 0 _ (now-Costs env _ _ _ _ _ _ _ _)) λ entry.
        free 0 _ _ (wire 0 _ (Costs-attempt is_os_error _ 0 (append-Costs env entry)))
          λ written. keep_entry-Costs entry written

  operate-Costs :
      (action : Action) (expected : Option Fields) (revision : String) (started : Trace)
      → Costs spent
          (2 + sync_posts env net w w.peer + rollback_posts action)
          (operate env net w action expected revision started)
  unfolding operate
  operate-Costs action expected revision started =
      let k = 2 + sync_posts env net w w.peer in
      let n = rollback_posts action in
      Costs-le (k + n + 0) (k + n) (omega arith) (
        Costs-bind _ _ (k + n) 0
          (Costs-catch is_opnsense_or_os _ _ k n (perform-Costs action expected revision)
            (λ e. handle-Costs action e))
          (λ _. close-Costs action expected started))

  trace_of : (r : Result (Unit {0})) (s : Run) → (result_of env net w r s).1 ≡ s.trace
  trace_of (ok u) s = refl
  trace_of (raised e) s = refl

  -- An operation sends at most the POST of the change, the POST of the apply action and, where there
  -- is a peer, three for the synchronization, whatever the answers and the number of rounds; after a
  -- create, at most as many again for the rollback.
  pub execute_run-Costs :
      (action : Action) (expected : Option Fields) (uuid revision : String)
      → Costs posts
          (2 + sync_posts env net w w.peer + rollback_posts action)
          (execute_run env net w action expected uuid revision)
  unfolding execute_run
  execute_run-Costs action expected uuid revision = record {
    above = λ t.
        rw
          (trace_of (operate env net w action expected revision t (start env net w uuid t)).0
            (operate env net w action expected revision t (start env net w uuid t)).1)
          ((operate-Costs action expected revision t).above (start env net w uuid t));
    below = λ t.
        rw
          (trace_of (operate env net w action expected revision t (start env net w uuid t)).0
            (operate env net w action expected revision t (start env net w uuid t)).1)
          ((operate-Costs action expected revision t).below (start env net w uuid t));
  }
