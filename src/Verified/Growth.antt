-- ===== src/Verified/Growth.antt =====
-- The parts of `src/writers/verified.py` only add to the trace.
use pegaprox_plugin_opnsense.Prelude.{ℕ, String, Bool, true, false, Option, none, some}
use pegaprox_plugin_opnsense.Value.{Value, Fields, end}
use pegaprox_plugin_opnsense.Exec.{Exn, is_opnsense, Result, ◌>>=◌}
use pegaprox_plugin_opnsense.World.Grows.{
  Later, next-Later, Grows, itself, Grows-pure, Grows-bind, Grows-catch,
}
use pegaprox_plugin_opnsense.World.{Env, Trace, AuditEntry, M, audited}
use pegaprox_plugin_opnsense.Client.{Client}
use pegaprox_plugin_opnsense.Client.Later.{get-Grows, post-Grows}
use pegaprox_plugin_opnsense.Audit.{append, append_result, now}
use pegaprox_plugin_opnsense.Carp.{collect_carp_status, safe_get}
use pegaprox_plugin_opnsense.Verified.Reads.{Kind, search, get_object, verify, post_checked, apply}
use pegaprox_plugin_opnsense.Verified.Preflight.{
  Net, check, addresses, preflight_nodes, preflight_peer,
}
use pegaprox_plugin_opnsense.Verified.Sync.{require}

-- A step that only looks at what it was given.
pub still : {A : Type 0} (r : Result A) → Grows itself (λ (t : Trace). (r, t))
still r = record { later = λ u t l. l }

pub require-Grows : (b : Bool) (e : Exn) → Grows itself (require b e)
require-Grows true e = record { later = λ u t l. l }
require-Grows false e = record { later = λ u t l. l }

-- Two steps that send nothing.
pub then_still :
    {A B : Type 0} (m : M A) (f : A → M B)
    → Grows itself m
    → ((a : A) → Grows itself (f a))
    → Grows itself (m >>= f)
then_still m f hm hf = Grows-bind m f hm hf

module _ (env : Env) where
  pub now-Grows :
      (user action target host result : String) (ms : ℕ) (detail sha : String)
      → Grows itself (now env user action target host result ms detail sha)
  unfolding now
  now-Grows user action target host result ms detail sha = record { later = λ u t l. l }

  pub append-Grows : (entry : AuditEntry) → Grows itself (append env entry)
  unfolding append
  append-Grows entry = record { later = λ u t l. written u entry (env.append t entry) t l }
    where
      written :
          (u : Trace) (entry : AuditEntry) (r : Option String) (t : Trace)
          → Later u t
          → Later u (append_result entry r t).1
      written u entry none t l = next-Later u t (audited entry) l
      written u entry (some why) t l = l

  module _ (k : Kind) where
    pub search-Grows : (c : Client) → Grows itself (search env k c)
    unfolding search
    search-Grows c = then_still _ _ (get-Grows env c _ _) (λ out. still _)

    pub get_object-Grows : (uuid : String) (c : Client) → Grows itself (get_object env k uuid c)
    unfolding get_object
    get_object-Grows uuid c = then_still _ _ (get-Grows env c _ end) (λ out. still _)

    pub verify-Grows :
        (uuid : String) (expected : Option Fields) (c : Client)
        → Grows itself (verify env k uuid expected c)
    unfolding verify
    verify-Grows uuid none c = then_still _ _ (search-Grows c) (λ rs. Grows-pure _)
    verify-Grows uuid (some expected) c = then_still _ _ (get_object-Grows uuid c) (λ a. still _)

    pub post_checked-Grows :
        (c : Client) (path : String) (payload : Value) (operation : String)
        → Grows itself (post_checked env k c path payload operation)
    unfolding post_checked
    post_checked-Grows c path payload operation =
        Grows-bind _ _ (post-Grows env c path payload) (λ r. still _)

    pub apply-Grows : (c : Client) → Grows itself (apply env k c)
    unfolding apply
    apply-Grows c = Grows-bind _ _ (post_checked-Grows c _ _ _) (λ _. Grows-pure tt)

  safe_get-Grows :
      (net : Net) (c : Client) (path : String) → Grows itself (safe_get env net.truncated c path)
  unfolding safe_get
  safe_get-Grows net c path =
      Grows-catch is_opnsense _ _ (then_still _ _ (get-Grows env c path end) (λ r. Grows-pure _))
        (λ e. Grows-pure end)

  carp-Grows : (net : Net) (c : Client) → Grows itself (collect_carp_status env net.truncated c)
  unfolding collect_carp_status
  carp-Grows net c = then_still _ _ (safe_get-Grows net c _) (λ vip. still _)

  addresses-Grows : (net : Net) (c : Client) → Grows itself (addresses net env c)
  unfolding addresses
  addresses-Grows net c = then_still _ _ (get-Grows env c _ end) (λ config. still _)

  module _ (net : Net) (k : Kind) where
    check-Grows : (b : Bool) (why : String) → Grows itself (check b why)
    check-Grows true why = still _
    check-Grows false why = still _

    preflight_nodes-Grows :
        (ours theirs : Client) (address : String) (local : Fields)
        → Grows itself (preflight_nodes env net k ours theirs address local)
    unfolding preflight_nodes
    preflight_nodes-Grows ours theirs address local =
        then_still _ _ (addresses-Grows net theirs) (λ a. then_still _ _ (check-Grows _ _) (λ _.
          then_still _ _ (addresses-Grows net ours) (λ b. then_still _ _ (check-Grows _ _) (λ _.
            then_still _ _ (carp-Grows net ours) (λ l. then_still _ _ (carp-Grows net theirs) (λ r.
              then_still _ _ (check-Grows _ _)
                (λ _. then_still _ _ (check-Grows _ _) (λ _. Grows-pure _))))))))

    pub preflight_peer-Grows :
        (ours theirs : Client) → Grows itself (preflight_peer env net k ours theirs)
    unfolding preflight_peer
    preflight_peer-Grows ours theirs = then_still _ _ (get-Grows env ours _ end) (λ a.
        then_still _ _ (get-Grows env theirs _ end) (λ b. then_still _ _ (check-Grows _ _) (λ _.
          then_still _ _ (still _) (λ pair. then_still _ _ (check-Grows _ _) (λ _.
            then_still _ _ (check-Grows _ _) (λ _.
              then_still _ _ (still _)
                (λ address. preflight_nodes-Grows ours theirs address _)))))))
