-- ===== src/Verified/PeerSound.antt =====
-- What a synchronization of the peer that says `verified` rests on.
use mathlib.Core.Path.{subst}
use pegaprox_plugin_opnsense.Prelude.{
  ℕ, zero, suc, ◌+◌, String, ◌≡◌, refl, Bool, true, false, Option, none, some, inl, inr, ◌⊎◌,
  if◌then◌else◌, ltb, ◌∙◌, ap,
}
use pegaprox_plugin_opnsense.Value.{Fields}
use pegaprox_plugin_opnsense.Exec.{
  Exn, Result, ok, raised, Exec, pure, attempt, message, is_opnsense, ◌>>=◌, ◌>>◌,
}
use pegaprox_plugin_opnsense.Exec.Hoare.{
  Ends, Hoare, Hoare-pure, Hoare-if, Hoare-catch, Hoare-bind, Hoare-weaken,
}
use pegaprox_plugin_opnsense.World.{Env, Trace, M, sleep}
use pegaprox_plugin_opnsense.World.Grows.{
  Later, here-Later, trans-Later, Grows, itself, Grows-attempt, sleep-Grows,
}
use pegaprox_plugin_opnsense.Client.{Client}
use pegaprox_plugin_opnsense.Verified.Reads.{verify}
use pegaprox_plugin_opnsense.Verified.Preflight.{Net, Plan}
use pegaprox_plugin_opnsense.Verified.Sync.{
  Writer, SyncReport, is_opnsense_or_os, CleanupRun, cleanup_steps, cleanup_report,
  finish_last_dnat_delete, sync_end, sync_round, sync_loop, first_report, sync_posted,
  sync_triggered, sync_peer, sync, on_wire, plan_kept, is_xmlrpc,
}
use pegaprox_plugin_opnsense.Verified.Growth.{
  require-Grows, now-Grows, append-Grows, get_object-Grows, verify-Grows, post_checked-Grows,
}
use pegaprox_plugin_opnsense.Verified.SyncGrowth.{
  log_of, wire, set-Grows, sync_preflight-Grows, dnat_ids-Grows, plan_kept-Grows,
}

module _ (env : Env) (w : Writer) (start : Trace) where
  -- Between the traces `start` and `t` a readback of `c` showed the object as it is expected.
  abbrev pub Seen : Client → String → Option Fields → Trace → Type 0
  Seen c uuid expected t =
      (u : Trace) × ((verify env w.kind uuid expected c u).0 ≡ ok true) × Later start u × Later u t

  pub Seen-Later :
      (c : Client) (uuid : String) (expected : Option Fields) (t t' : Trace)
      → Seen c uuid expected t
      → Later t t'
      → Seen c uuid expected t'
  Seen-Later c uuid expected t t' (u, e, l, m) n = (u, e, l, trans-Later u t t' m n)

  -- What a synchronization that says `verified` rests on.
  abbrev pub PeerSeen : String → Option Fields → Option Client → Option SyncReport → Trace → Type 0
  PeerSeen uuid expected peer none t = peer ≡ none
  PeerSeen uuid expected none (some s) t = ⊥
  PeerSeen uuid expected (some peer) (some s) t = s.verified ≡ true → Seen peer uuid expected t

  pub verify-Seen :
      (c : Client) (uuid : String) (expected : Option Fields)
      → Hoare
          (Later start)
          (verify env w.kind uuid expected c)
          (λ b t. Later start t × (b ≡ true → Seen c uuid expected t))
          (λ _ t. Later start t)
  verify-Seen c uuid expected = record {
    ends = λ t a.
        given t (verify env w.kind uuid expected c t).0 (verify env w.kind uuid expected c t).1 refl
          ((verify-Grows env w.kind uuid expected c).later start t a)
          ((verify-Grows env w.kind uuid expected c).later t t (here-Later t)) a;
  }
    where
      given :
          (t : Trace) (r : Result Bool) (t' : Trace)
          → (verify env w.kind uuid expected c t).0 ≡ r
          → Later start t'
          → Later t t'
          → Later start t
          → Ends {S = Trace}
              (λ b t. Later start t × (b ≡ true → Seen c uuid expected t))
              (λ _ t. Later start t)
              r
              t'
      given t (ok b) t' e l m a = (l, λ yes_. (t, e ∙ ap ok yes_, a, m))
      given t (raised x) t' e l m a = l

module _ {S A : Type 0} (log : S → Trace) (start : Trace) where
  pub Grows-Later :
      (m : Exec S A)
      → Grows log m
      → Hoare (λ s. Later start (log s)) m (λ _ s. Later start (log s)) (λ _ s. Later start (log s))
  Grows-Later m g = record { ends = λ s l. kept (m s).0 (m s).1 (g.later start s l) }
    where
      kept :
          (r : Result A) (s : S)
          → Later start (log s)
          → Ends {S = S} {A = A} (λ _ s. Later start (log s)) (λ _ s. Later start (log s)) r s
      kept (ok a) s l = l
      kept (raised e) s l = l

module _ (env : Env) (net : Net) (w : Writer) (start : Trace) (peer : Client) (uuid : String) where
  -- A cleanup that says `verified` has seen the row gone from the peer.
  abbrev CleanupSeen : CleanupRun → Type 0
  CleanupSeen s = s.cleanup.verified ≡ true → Seen env w start peer uuid none s.trace

  last_read :
      (here : Bool)
      → Hoare
          (λ (s : CleanupRun). Later start s.trace)
          (on_wire (if here then verify env w.kind uuid none peer else pure false))
          (λ there s. there ≡ true → Seen env w start peer uuid none s.trace)
          (λ _ _. Unit {0})
  last_read true = record {
    ends = λ s l.
        seen (verify env w.kind uuid none peer s.trace).0
          (verify env w.kind uuid none peer s.trace).1 s
          ((verify-Seen env w start peer uuid none).ends s.trace l);
  }
    where
      seen :
          (r : Result Bool) (t : Trace) (s : CleanupRun)
          → Ends {S = Trace}
              (λ b t. Later start t × (b ≡ true → Seen env w start peer uuid none t))
              (λ _ t. Later start t)
              r
              t
          → Ends {S = CleanupRun}
              (λ there s. there ≡ true → Seen env w start peer uuid none s.trace)
              (λ _ _. Unit {0})
              r
              (record s { trace = t })
      seen (ok b) t s q = q.1
      seen (raised x) t s q = tt
  last_read false = unfold pure in record { ends = λ s l q. cc }

  skip :
      {A B : Type 0} {Good : B → CleanupRun → Type 0} (m : Exec CleanupRun A)
      (f : A → Exec CleanupRun B)
      → Grows log_of m
      → ((a : A) → Hoare (λ s. Later start s.trace) (f a) Good (λ _ _. Unit {0}))
      → Hoare (λ s. Later start s.trace) (m >>= f) Good (λ _ _. Unit {0})
  skip m f g h =
      Hoare-bind (λ _ s. Later start s.trace) m f
        (Hoare-weaken m (λ a s l. l) (λ e s l. tt) (Grows-Later log_of start m g)) h

  cleanup_steps-Seen :
      (revision : String) (plan : Option Plan)
      → Hoare
          (λ s. Later start s.trace)
          (cleanup_steps env net w peer uuid revision plan)
          (λ _ s. CleanupSeen s)
          (λ _ _. Unit {0})
  unfolding cleanup_steps
  cleanup_steps-Seen revision plan = skip _ _ (wire _ (sync_preflight-Grows env net w)) λ plan'.
      skip _ _ (wire _ (require-Grows _ _)) λ _.
        skip _ _ (wire _ (dnat_ids-Grows env net w w.client)) λ ours.
          skip _ _ (wire _ (require-Grows _ _)) λ _.
            skip _ _ (wire _ (dnat_ids-Grows env net w peer)) λ theirs.
              skip _ _ (wire _ (require-Grows _ _)) λ _.
                skip _ _ (wire _ (get_object-Grows env w.kind uuid peer)) λ object.
                  skip _ _ (wire _ (require-Grows _ _)) λ _.
                    skip _ _ (wire _ (now-Grows env _ _ _ _ _ _ _ _)) λ entry.
                      skip _ _ (wire _ (append-Grows env entry)) λ _. skip _ _ (set-Grows _) λ _.
                        skip _ _ (wire _ (post_checked-Grows env w.kind peer _ _ _)) λ _.
                          skip _ _ (set-Grows _) λ _.
                            skip _ _ (wire _ (post_checked-Grows env w.kind peer _ _ _)) λ _.
                              skip _ _ (set-Grows _) λ _.
                                skip _ _ (wire _ (verify-Grows env w.kind uuid none w.client))
                                  λ here.
                                    Hoare-bind
                                      (λ there s.
                                        there ≡ true → Seen env w start peer uuid none s.trace)
                                      _ _ (last_read here)
                                      (λ there. record { ends = λ s seen. seen })

  module _ (plan : Option Plan) where
    -- A report that says `verified` has a readback of the peer behind it.
    abbrev ReportSeen : Option Fields → SyncReport → Trace → Type 0
    ReportSeen expected r t = r.verified ≡ true → Seen env w start peer uuid expected t

    report_seen :
        (report : SyncReport) (r : Result (Unit {0})) (s : CleanupRun)
        → report.verified ≡ false
        → Ends {S = CleanupRun} (λ _ s. CleanupSeen s) (λ _ _. Unit {0}) r s
        → Ends {S = Trace}
            (λ x t. ReportSeen none x t)
            (λ _ _. Unit {0})
            (cleanup_report env net w report r s.cleanup)
            s.trace
    unfolding cleanup_report
    report_seen report (ok u) s f q = q
    report_seen report (raised e) s f q = caught (is_opnsense_or_os e) refl
      where
        caught :
            (b : Bool)
            → is_opnsense_or_os e ≡ b
            → Ends {S = Trace}
                (λ x t. ReportSeen none x t)
                (λ _ _. Unit {0})
                (if b
                  then ok (record report { peer_cleanup = some s.cleanup; detail = message e })
                  else raised e)
                s.trace
        caught true _ = λ yes_. cc
        caught false _ = tt

    finish-Seen :
        (revision : String) (report : SyncReport)
        → report.verified ≡ false
        → Hoare
            (Later start)
            (finish_last_dnat_delete env net w peer uuid revision plan report)
            (λ x t. ReportSeen none x t)
            (λ _ _. Unit {0})
    unfolding finish_last_dnat_delete
    finish-Seen revision report f = record {
      ends = λ t p.
          let s : CleanupRun = record {
            trace = t;
            cleanup = record {
              attempted = false;
              deleted = false;
              applied = false;
              verified = false;
            };
          } in
          report_seen report (cleanup_steps env net w peer uuid revision plan s).0
            (cleanup_steps env net w peer uuid revision plan s).1 f
            ((cleanup_steps-Seen revision plan).ends s p);
    }

    sync_end-Seen :
        (expected : Option Fields) (revision : Option String) (report : SyncReport)
        → report.verified ≡ false
        → Hoare
            (Later start)
            (sync_end env net w peer uuid expected plan revision report)
            (λ x t. ReportSeen expected x t)
            (λ _ _. Unit {0})
    unfolding sync_end
    sync_end-Seen none (some revision) report f = finish-Seen revision report f
    sync_end-Seen none none report f = Hoare-pure report (λ t _ yes_. cc)
    sync_end-Seen (some expected) revision report f = Hoare-pure report (λ t _ yes_. cc)

    going :
        {A : Type 0} (m : M A)
        → Grows itself m
        → Hoare (Later start) m (λ _ t. Later start t) (λ _ _. Unit {0})
    going m g = Hoare-weaken m (λ a t l. l) (λ e t l. tt) (Grows-Later itself start m g)

    -- What an attempted read of the peer leaves.
    abbrev Tried : Option Fields → Exn ⊎ Bool → Trace → Type 0
    Tried expected (inl e) t = Later start t
    Tried expected (inr b) t = Later start t × (b ≡ true → Seen env w start peer uuid expected t)

    verify-Tried :
        (expected : Option Fields)
        → Hoare
            (Later start)
            (attempt is_opnsense (verify env w.kind uuid expected peer))
            (λ o t. Tried expected o t)
            (λ _ _. Unit {0})
    unfolding attempt
    verify-Tried expected =
        Hoare-catch (λ _ t. Later start t) is_opnsense _ _
          (Hoare-bind (λ b t. Later start t × (b ≡ true → Seen env w start peer uuid expected t)) _
            _ (verify-Seen env w start peer uuid expected) (λ b. Hoare-pure (inr b) (λ t h. h)))
          (λ e _. Hoare-pure (inl e) (λ t l. l)) (λ e t _ l. tt)

    later :
        (b : Bool) (ms : ℕ) (rest : M SyncReport) (expected : Option Fields)
        → Hoare (Later start) rest (λ x t. ReportSeen expected x t) (λ _ _. Unit {0})
        → Hoare
            (Later start)
            (if b then sleep ms >> rest else rest)
            (λ x t. ReportSeen expected x t)
            (λ _ _. Unit {0})
    later b ms rest expected h =
        Hoare-if b _ _
          (λ _. Hoare-bind (λ _ t. Later start t) _ _ (going _ (sleep-Grows ms)) (λ _. h)) (λ _. h)

    sync_round-Seen :
        (expected : Option Fields) (i : ℕ) (report : SyncReport) (rest : SyncReport → M SyncReport)
        (o : Exn ⊎ Bool)
        → report.verified ≡ false
        → ((x : SyncReport)
            → x.verified ≡ false
            → Hoare (Later start) (rest x) (λ x t. ReportSeen expected x t) (λ _ _. Unit {0}))
        → Hoare
            (λ t. Tried expected o t)
            (sync_round env net w i report rest o)
            (λ x t. ReportSeen expected x t)
            (λ _ _. Unit {0})
    unfolding sync_round
    sync_round-Seen expected i report rest (inr true) f h = Hoare-pure _ (λ t g yes_. g.1 refl)
    sync_round-Seen expected i report rest (inr false) f h = record {
      ends = λ t g. (later (ltb i w.ha_verify_attempts) _ _ expected (h _ f)).ends t g.0;
    }
    sync_round-Seen expected i report rest (inl e) f h = record {
      ends = λ t g. (later (ltb i w.ha_verify_attempts) _ _ expected (h _ f)).ends t g;
    }

    sync_loop-Seen :
        (expected : Option Fields) (revision : Option String) (report : SyncReport) (i left : ℕ)
        → report.verified ≡ false
        → Hoare
            (Later start)
            (sync_loop env net w peer uuid expected plan revision report i left)
            (λ x t. ReportSeen expected x t)
            (λ _ _. Unit {0})
    unfolding sync_loop
    sync_loop-Seen expected revision report i zero f = sync_end-Seen expected revision report f
    sync_loop-Seen expected revision report i (suc left) f =
        Hoare-bind (λ o t. Tried expected o t) _ _ (verify-Tried expected)
          (λ o.
            sync_round-Seen expected i report _ o f
              (λ x g. sync_loop-Seen expected revision x (i + 1) left g))

    sync_posted-Seen :
        (expected : Option Fields) (revision : Option String) (o : Exn ⊎ Fields)
        → Hoare
            (Later start)
            (sync_posted env net w peer uuid expected plan revision o)
            (λ x t. ReportSeen expected x t)
            (λ _ _. Unit {0})
    unfolding sync_posted
    sync_posted-Seen expected revision (inl e) = Hoare-pure _ (λ t _ yes_. cc)
    sync_posted-Seen expected revision (inr v) =
        sync_loop-Seen expected revision _ 1 w.ha_verify_attempts refl

    sync_triggered-Seen :
        (expected : Option Fields) (revision : Option String) (o : Exn ⊎ Unit {0})
        → Hoare
            (Later start)
            (sync_triggered env net w peer uuid expected plan revision o)
            (λ x t. ReportSeen expected x t)
            (λ _ _. Unit {0})
    unfolding sync_triggered
    sync_triggered-Seen expected revision (inl e) = Hoare-pure _ (λ t _ yes_. cc)
    sync_triggered-Seen expected revision (inr v) =
        Hoare-bind (λ _ t. Later start t) _ _
          (going _ (Grows-attempt is_opnsense _ (post_checked-Grows env w.kind w.client _ _ _)))
          (λ o. sync_posted-Seen expected revision o)

    sync_mode-Seen :
        (expected : Option Fields) (revision : Option String) (b : Bool)
        → Hoare
            (Later start)
            (if b
              then (do
                checked ← plan_kept env net w plan
                sync_triggered env net w peer uuid expected plan revision checked)
              else sync_loop env net w peer uuid expected plan revision
                  (first_report env net w)
                  1
                  w.ha_verify_attempts)
            (λ x t. ReportSeen expected x t)
            (λ _ _. Unit {0})
    sync_mode-Seen expected revision b =
        Hoare-if b _ _
          (λ _.
            Hoare-bind (λ _ t. Later start t) _ _
              (going _ (plan_kept-Grows env net w peer uuid expected plan revision))
              (λ o. sync_triggered-Seen expected revision o))
          (λ _. sync_loop-Seen expected revision _ 1 w.ha_verify_attempts refl)

module _ (env : Env) (net : Net) (w : Writer) (start : Trace) (uuid : String)
    (expected : Option Fields) (plan : Option Plan) (revision : Option String) where
  sync_peer-Seen :
      (peer : Option Client)
      → Hoare
          (Later start)
          (sync_peer env net w uuid expected plan revision peer)
          (λ r t. PeerSeen env w start uuid expected peer r t)
          (λ _ _. Unit {0})
  unfolding sync_peer
  sync_peer-Seen none = Hoare-pure none (λ t _. refl)
  sync_peer-Seen (some peer) =
      Hoare-bind (λ x t. x.verified ≡ true → Seen env w start peer uuid expected t) _ _
        (sync_mode-Seen env net w start peer uuid plan expected revision (is_xmlrpc w.ha_sync_mode))
        (λ x. Hoare-pure (some x) (λ t seen. seen))

  -- What a synchronization gives, with or without a peer.
  pub sync-Seen :
      Hoare
        (Later start)
        (sync env net w uuid expected plan revision)
        (λ r t. PeerSeen env w start uuid expected w.peer r t)
        (λ _ _. Unit {0})
  unfolding sync
  sync-Seen = sync_peer-Seen w.peer

-- A synchronization of a peer whose report says `verified`, with or without the cleanup of a last
-- row, has read the peer between its start and its end and found the object as it is expected there.
pub sync_verified :
    (env : Env) (net : Net) (w : Writer) (uuid : String) (expected : Option Fields)
    (plan : Option Plan) (revision : Option String) (peer : Client) (t : Trace) (s : SyncReport)
    → w.peer ≡ some peer
    → (sync env net w uuid expected plan revision t).0 ≡ ok (some s)
    → s.verified ≡ true
    → Seen env w t peer uuid expected (sync env net w uuid expected plan revision t).1
sync_verified env net w uuid expected plan revision peer t s paired returned verified =
    let end = (sync env net w uuid expected plan revision t).1 in
    subst {A = Option Client} (λ p. PeerSeen env w t uuid expected p (some s) end) paired
      (subst
        (λ o.
          Ends {S = Trace} (λ r u. PeerSeen env w t uuid expected w.peer r u) (λ _ _. Unit {0}) o
            end)
        returned ((sync-Seen env net w t uuid expected plan revision).ends t (here-Later t)))
      verified
