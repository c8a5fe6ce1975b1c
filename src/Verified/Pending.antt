-- ===== src/Verified/Pending.antt =====
-- What stays as it was through the steps of `_execute` up to the POST of the change.
use pegaprox_plugin_opnsense.Prelude.{
  String, ◌≡◌, refl, false, Option, none, some, ◌&&◌, [], ◌∷◌, same_list,
}
use pegaprox_plugin_opnsense.Value.{Fields}
use pegaprox_plugin_opnsense.Exec.{Result, ok, raised, ◌>>=◌}
use pegaprox_plugin_opnsense.Exec.Hoare.{Ends, Hoare, Hoare-pure, Hoare-gets, Hoare-if, Hoare-bind}
use pegaprox_plugin_opnsense.World.Grows.{Later, here-Later, trans-Later, Grows, itself}
use pegaprox_plugin_opnsense.Verified.Growth.{
  require-Grows, now-Grows, append-Grows, get_object-Grows, post_checked-Grows,
}
use pegaprox_plugin_opnsense.Verified.SyncGrowth.{dnat_ids-Grows}
use pegaprox_plugin_opnsense.World.{Env, Trace, M}
use pegaprox_plugin_opnsense.Client.{Client}
use pegaprox_plugin_opnsense.Verified.Reads.{is_port_forward}
use pegaprox_plugin_opnsense.Verified.Preflight.{Net}
use pegaprox_plugin_opnsense.Verified.Sync.{Writer, is_xmlrpc}
use pegaprox_plugin_opnsense.Verified.Report.{Action, is_create, is_delete, Run, Op, on_wire}
use pegaprox_plugin_opnsense.Verified.Perform.{
  reserve, last_row_check, peer_check, compare_revision, created_uuid, submit,
}

-- The run has raised no error and not succeeded yet, and `start` is an older part of its trace.
abbrev pub Pending : Trace → Run → Type 0
Pending start s =
    (s.report.ok_flag ≡ false)
    × (s.report.error ≡ none)
    × (s.report.rollback.attempted ≡ false)
    × (s.report.uuid ≡ s.uuid)
    × Later start s.trace

module _ {A : Type 0} (P : Run → Type 0)
    (keeps : (s : Run) (t : Trace) → Later s.trace t → P s → P (record s { trace = t })) where
  -- An action on the wire keeps what stays as the trace grows.
  pub wire_keeps : (m : M A) → Grows itself m → Hoare P (on_wire m) (λ _ s. P s) (λ _ s. P s)
  wire_keeps m g = record {
    ends =
        λ s p. kept s (m s.trace).0 (m s.trace).1 (g.later s.trace s.trace (here-Later s.trace)) p;
  }
    where
      kept :
          (s : Run) (r : Result A) (t : Trace)
          → Later s.trace t
          → P s
          → Ends {S = Run} {A = A} (λ _ s. P s) (λ _ s. P s) r (record s { trace = t })
      kept s (ok a) t l p = keeps s t l p
      kept s (raised e) t l p = keeps s t l p

  -- So does what is known of its result.
  pub wire_gives :
      (start : Trace) (low : (s : Run) → P s → Later start s.trace) (Bad : Run → Type 0)
      (weak : (s : Run) → P s → Bad s) (Q : A → Trace → Type 0) (m : M A)
      → Grows itself m
      → Hoare (Later start) m Q (λ _ _. Unit {0})
      → Hoare P (on_wire m) (λ a s. P s × Q a s.trace) (λ _ s. Bad s)
  wire_gives start low Bad weak Q m g h = record {
    ends = λ s p.
        kept s (m s.trace).0 (m s.trace).1 (g.later s.trace s.trace (here-Later s.trace))
          (h.ends s.trace (low s p)) p;
  }
    where
      kept :
          (s : Run) (r : Result A) (t : Trace)
          → Later s.trace t
          → Ends {S = Trace} Q (λ _ _. Unit {0}) r t
          → P s
          → Ends {S = Run} {A = A}
              (λ a s. P s × Q a s.trace)
              (λ _ s. Bad s)
              r
              (record s { trace = t })
      kept s (ok a) t l q p = (keeps s t l p, q)
      kept s (raised x) t l q p = weak (record s { trace = t }) (keeps s t l p)

pub Pending-Later :
    (start : Trace) (s : Run) (t : Trace)
    → Later s.trace t
    → Pending start s
    → Pending start (record s { trace = t })
Pending-Later start s t l p = (p.0, p.1, p.2, p.3, trans-Later start s.trace t p.4 l)

pub wire-Pending :
    {A : Type 0} (start : Trace) (m : M A)
    → Grows itself m
    → Hoare (Pending start) (on_wire m) (λ _ s. Pending start s) (λ _ s. Pending start s)
wire-Pending start m g = wire_keeps (Pending start) (Pending-Later start) m g

-- Steps on the wire, one after another.
pub step :
    {A B : Type 0} {Good : B → Run → Type 0} (start : Trace) (m : Op A) (f : A → Op B)
    → Hoare (Pending start) m (λ _ s. Pending start s) (λ _ s. Pending start s)
    → ((a : A) → Hoare (Pending start) (f a) Good (λ _ s. Pending start s))
    → Hoare (Pending start) (m >>= f) Good (λ _ s. Pending start s)
step start m f hm hf = Hoare-bind (λ _ s. Pending start s) m f hm hf

module _ (env : Env) (net : Net) (w : Writer) (start : Trace) where
  abbrev pub Keeps : {A : Type 0} → Op A → Type 0
  Keeps m = Hoare (Pending start) m (λ _ s. Pending start s) (λ _ s. Pending start s)

  pub reserve-Pending :
      (action : Action) (payload : Option Fields) → Keeps (reserve env net w action payload)
  unfolding reserve
  reserve-Pending action payload = step start _ _ (Hoare-gets _ (λ s p. p)) (λ uuid.
      step start _ _ (wire-Pending start _ (now-Grows env _ _ _ _ _ _ _ _))
        (λ entry. wire-Pending start _ (append-Grows env entry)))

  last_row_check-Pending :
      (peer : Client) (uuid revision : String) → Keeps (last_row_check env net w peer uuid revision)
  unfolding last_row_check
  last_row_check-Pending peer uuid revision =
      step start _ _ (wire-Pending start _ (dnat_ids-Grows env net w w.client)) (λ ours.
        Hoare-if (same_list ours (uuid ∷ [])) _ _
          (λ _.
            step start _ _ (wire-Pending start _ (get_object-Grows env w.kind uuid peer)) (λ object.
              step start _ _ (wire-Pending start _ (require-Grows _ _)) (λ _.
                step start _ _ (wire-Pending start _ (dnat_ids-Grows env net w peer)) (λ theirs.
                  step start _ _ (wire-Pending start _ (require-Grows _ _))
                    (λ _. record { ends = λ s p. p })))))
          (λ _. Hoare-pure _ (λ s p. p)))

  peer_check-Pending :
      (action : Action) (uuid revision : String) (peer : Option Client)
      → Keeps (peer_check env net w action uuid revision peer)
  unfolding peer_check
  peer_check-Pending action uuid revision none = Hoare-pure _ (λ s p. p)
  peer_check-Pending action uuid revision (some peer) =
      Hoare-if (is_delete action && is_port_forward w.kind && is_xmlrpc w.ha_sync_mode) _ _
        (λ _. last_row_check-Pending peer uuid revision) (λ _. Hoare-pure _ (λ s p. p))

  pub compare_revision-Pending :
      (action : Action) (revision : String) → Keeps (compare_revision env net w action revision)
  unfolding compare_revision
  compare_revision-Pending action revision = step start _ _ (Hoare-gets _ (λ s p. p)) (λ uuid.
      step start _ _ (wire-Pending start _ (get_object-Grows env w.kind uuid w.client)) (λ current.
        step start _ _ (wire-Pending start _ (require-Grows _ _))
          (λ _. peer_check-Pending action uuid revision w.peer)))

  created_uuid-Pending : (u : Result String) → Keeps (created_uuid env net w u)
  unfolding created_uuid
  created_uuid-Pending (ok uuid) = record { ends = λ s p. (p.0, p.1, p.2, refl, p.4) }
  created_uuid-Pending (raised e) = record { ends = λ s p. p }

  pub submit-Pending :
      (action : Action) (payload : Option Fields) → Keeps (submit env net w action payload)
  unfolding submit
  submit-Pending action payload = step start _ _ (Hoare-gets _ (λ s p. p)) (λ uuid.
      step start _ _ (wire-Pending start _ (post_checked-Grows env w.kind w.client _ _ _))
        (λ response.
          Hoare-if (is_create action) _ _ (λ _. created_uuid-Pending _)
            (λ _. Hoare-pure _ (λ s p. p))))
