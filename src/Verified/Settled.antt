-- ===== src/Verified/Settled.antt =====
-- The steps of `_execute` of `src/writers/verified.py` from the POST of the change to the report.
use mathlib.Core.Path.{subst}
use pegaprox_plugin_opnsense.Prelude.{
  String, ◌≡◌, refl, Bool, true, false, Option, none, some, if◌then◌else◌,
}
use pegaprox_plugin_opnsense.Value.{Fields}
use pegaprox_plugin_opnsense.Exec.{pure, raise, opnsense, ◌>>=◌, ◌>>◌}
use pegaprox_plugin_opnsense.Exec.Hoare.{
  Hoare, Hoare-pure, Hoare-gets, Hoare-if, Hoare-bind, Hoare-weaken,
}
use pegaprox_plugin_opnsense.World.Grows.{Later}
use pegaprox_plugin_opnsense.Verified.Growth.{verify-Grows, apply-Grows}
use pegaprox_plugin_opnsense.Verified.SyncGrowth.{sync_preflight-Grows, sync-Grows}
use pegaprox_plugin_opnsense.World.{Env, Trace}
use pegaprox_plugin_opnsense.Client.{Client}
use pegaprox_plugin_opnsense.Verified.Reads.{verify}
use pegaprox_plugin_opnsense.Verified.Preflight.{Net}
use pegaprox_plugin_opnsense.Verified.Sync.{Writer, SyncReport, require, sync}
use pegaprox_plugin_opnsense.Verified.PeerSound.{Seen, Seen-Later, PeerSeen, verify-Seen, sync-Seen}
use pegaprox_plugin_opnsense.Verified.Report.{
  Action, is_create, Report, Run, on_wire, set_report, conclude_sync,
}
use pegaprox_plugin_opnsense.Verified.Perform.{confirm, perform}
use pegaprox_plugin_opnsense.Verified.Pending.{
  Pending-Later, Pending, wire_gives, wire-Pending, step, reserve-Pending, compare_revision-Pending,
  submit-Pending,
}

module _ (env : Env) (w : Writer) (start : Trace) (expected : Option Fields) where
  -- Between `start` and `t` the object was seen on the peer, if there is one.
  abbrev pub PeersSeen : String → Option Client → Trace → Type 0
  PeersSeen uuid none t = Unit {0}
  PeersSeen uuid (some peer) t = Seen env w start peer uuid expected t

  -- What a report that says `ok` rests on, at the trace `t`.
  abbrev pub Backed : Report → Trace → Type 0
  Backed r t =
      (r.error ≡ none)
      × (r.applied ≡ true)
      × (r.verified ≡ true)
      × (r.rollback.attempted ≡ false)
      × Seen env w start w.client r.uuid expected t
      × PeersSeen r.uuid w.peer t

  -- A report that is either backed or a failure with its error.
  abbrev pub Settled : Action → Report → Trace → Type 0
  Settled action r t =
      (r.ok_flag ≡ true → Backed r t)
      × (r.ok_flag ≡ false → (m : String) × (r.error ≡ some m))
      × (r.rollback.attempted ≡ true → is_create action ≡ true)

  peers-Later :
      (uuid : String) (peer : Option Client) (t t' : Trace)
      → Later t t'
      → PeersSeen uuid peer t
      → PeersSeen uuid peer t'
  peers-Later uuid none t t' l p = tt
  peers-Later uuid (some peer) t t' l p = Seen-Later env w start peer uuid expected t t' p l

  pub Settled-Later :
      (action : Action) (r : Report) (t t' : Trace)
      → Later t t'
      → Settled action r t
      → Settled action r t'
  Settled-Later action r t t' l p = (
    (λ f.
        let b = p.0 f in
        (
          b.0,
          b.1,
          b.2,
          b.3,
          Seen-Later env w start w.client r.uuid expected t t' b.4 l,
          peers-Later r.uuid w.peer t t' l b.5,
        )),
    p.1,
    p.2,
  )

  -- The action was applied and shown by the readback.
  abbrev Applied : Run → Run → Type 0
  Applied x s = Pending start s × (s.report.applied ≡ true) × (x.uuid ≡ s.uuid)

  Applied-Later :
      (x s : Run) (t : Trace) → Later s.trace t → Applied x s → Applied x (record s { trace = t })
  Applied-Later x s t l p = (Pending-Later start s t l p.0, p.1, p.2)

  abbrev Shown : Run → Run → Type 0
  Shown x s = Applied x s × Seen env w start w.client x.uuid expected s.trace

  -- So it is noted in the report.
  abbrev Noted : Run → Run → Type 0
  Noted x s = Shown x s × (s.report.verified ≡ true)

  Noted-Later :
      (x s : Run) (t : Trace) → Later s.trace t → Noted x s → Noted x (record s { trace = t })
  Noted-Later x s t l p = (
    (
      Applied-Later x s t l p.0.0,
      Seen-Later env w start w.client x.uuid expected s.trace t p.0.1 l,
    ),
    p.1,
  )

  peers_seen :
      (uuid : String) (peer : Option Client) (done : Option SyncReport) (t : Trace)
      → PeerSeen env w start uuid expected peer done t
      → ((r : SyncReport) → done ≡ some r → r.verified ≡ true)
      → PeersSeen uuid peer t
  peers_seen uuid none none t q h = tt
  peers_seen uuid (some peer) none t q h = cc
  peers_seen uuid none (some r) t q h = tt
  peers_seen uuid (some peer) (some r) t q h = q (h r refl)

  shown : (x s : Run) → Noted x s → PeersSeen x.uuid w.peer s.trace → Backed s.report s.trace
  shown x s (((p, a, u), g), v) peers =
      let same : x.uuid ≡ s.report.uuid = cc in
      (
        p.1,
        a,
        v,
        p.2,
        subst (λ i. Seen env w start w.client i expected s.trace) same g,
        subst (λ i. PeersSeen i w.peer s.trace) same peers,
      )

  module _ (action : Action) (x s : Run) (p : Noted x s) where
    concluded_some :
        (r : SyncReport) (b : Bool)
        → r.verified ≡ b
        → PeerSeen env w start x.uuid expected w.peer (some r) s.trace
        → Settled action
            (if b
              then record s.report { sync_report = some r; ok_flag = true }
              else record s.report {
                sync_report = some r;
                error = some "ha_unverified";
                detail = "Saved locally; HA verification failed";
              })
            s.trace
    concluded_some r true e q = (
      (λ _. shown x s p (peers_seen x.uuid w.peer (some r) s.trace q (λ r' f. cc))),
      (λ f. cc),
      (λ f. cc),
    )
    concluded_some r false e q = ((λ f. cc), (λ _. ("ha_unverified", refl)), (λ f. cc))

    concluded :
        (done : Option SyncReport)
        → PeerSeen env w start x.uuid expected w.peer done s.trace
        → Settled action (conclude_sync done s.report) s.trace
    unfolding conclude_sync
    concluded none q = (
      (λ _. shown x s p (peers_seen x.uuid w.peer none s.trace q (λ r f. cc))),
      (λ f. cc),
      (λ f. cc),
    )
    concluded (some r) q = concluded_some r r.verified refl q

module _ (env : Env) (net : Net) (w : Writer) (start : Trace) (action : Action)
    (expected : Option Fields) where
  abbrev pub Closed : Run → Type 0
  Closed s = Settled env w start expected action s.report s.trace

  required :
      (x : Run) (read : Bool)
      → Hoare
          (λ s.
            Applied env w start expected x s
            × (read ≡ true → Seen env w start w.client x.uuid expected s.trace))
          (on_wire (require read (opnsense "Readback does not match requested configuration")))
          (λ _ s. Shown env w start expected x s)
          (λ _ s. Pending start s)
  required x true = unfold pure in record { ends = λ s p. (p.0, p.1 refl) }
  required x false = unfold raise in record { ends = λ s p. p.0.0 }

  -- The readback and what follows it.
  read_back-Settled :
      (x : Run)
      → Hoare
          (λ s. Applied env w start expected x s)
          (do
            read ← on_wire (verify env w.kind x.uuid expected w.client)
            on_wire (require read (opnsense "Readback does not match requested configuration"))
            set_report (λ r. record r { verified = true })
            done ← on_wire (sync env net w x.uuid expected x.plan x.peer_revision)
            set_report (conclude_sync done))
          (λ _ s. Closed s)
          (λ _ s. Pending start s)
  read_back-Settled x =
      Hoare-bind
        (λ read s.
          Applied env w start expected x s
          × (read ≡ true → Seen env w start w.client x.uuid expected s.trace))
        _ _
        (wire_gives (Applied env w start expected x) (Applied-Later env w start expected x) start
          (λ s p. p.0.4) (Pending start) (λ s p. p.0)
          (λ b t. b ≡ true → Seen env w start w.client x.uuid expected t) _
          (verify-Grows env w.kind x.uuid expected w.client)
          (Hoare-weaken _ (λ b t q. q.1) (λ e t q. tt)
            (verify-Seen env w start w.client x.uuid expected)))
        (λ read.
          Hoare-bind (λ _ s. Shown env w start expected x s) _ _ (required x read)
            (λ _.
              Hoare-bind (λ _ s. Noted env w start expected x s) _ _
                (record { ends = λ s p. (p, refl) })
                (λ _.
                  Hoare-bind
                    (λ done s.
                      Noted env w start expected x s
                      × PeerSeen env w start x.uuid expected w.peer done s.trace)
                    _ _
                    (wire_gives (Noted env w start expected x) (Noted-Later env w start expected x)
                      start (λ s p. p.0.0.0.4) (Pending start) (λ s p. p.0.0.0)
                      (λ done t. PeerSeen env w start x.uuid expected w.peer done t) _
                      (sync-Grows env net w x.uuid expected x.plan x.peer_revision)
                      (sync-Seen env net w start x.uuid expected x.plan x.peer_revision))
                    (λ done. record {
                      ends = λ s p. concluded env w start expected action x s p.0 done p.1;
                    }))))

  confirm-Settled :
      Hoare (Pending start) (confirm env net w expected) (λ _ s. Closed s) (λ _ s. Pending start s)
  unfolding confirm
  confirm-Settled =
      Hoare-bind (λ _ s. Pending start s) _ _ (record { ends = λ s p. p })
        (λ _. step start _ _ (wire-Pending start _ (apply-Grows env w.kind w.client)) (λ _.
          Hoare-bind (λ _ s. Pending start s × (s.report.applied ≡ true)) _ _
            (record { ends = λ s p. (p, refl) })
            (λ _.
              Hoare-bind (λ x s. Applied env w start expected x s) _ _
                (Hoare-gets _ (λ s p. (p.0, p.1, refl))) (λ x. read_back-Settled x))))

  pub perform-Settled :
      (revision : String)
      → Hoare
          (Pending start)
          (perform env net w action expected revision)
          (λ _ s. Closed s)
          (λ _ s. Pending start s)
  unfolding perform
  perform-Settled revision = step start _ _ (reserve-Pending env net w start action expected) (λ _.
      step start _ _ (wire-Pending start _ (sync_preflight-Grows env net w)) (λ plan.
        step start _ _ (record { ends = λ s p. p })
          (λ _.
            step start _ _
              (Hoare-if (is_create action) _ _ (λ _. Hoare-pure _ (λ s p. p))
                (λ _. compare_revision-Pending env net w start action revision))
              (λ _.
                step start _ _ (submit-Pending env net w start action expected)
                  (λ _. confirm-Settled)))))
