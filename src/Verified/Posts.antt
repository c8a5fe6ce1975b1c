-- ===== src/Verified/Posts.antt =====
-- The parts of `src/writers/verified.py`, measured by the POSTs that they send.
use pegaprox_plugin_opnsense.Prelude.{
  ℕ, String, Bool, true, false, Option, none, some, arith, ◌≡◌, refl,
}
use pegaprox_plugin_opnsense.Value.{Value, Fields, end}
use pegaprox_plugin_opnsense.Exec.{Exn, is_opnsense, Result, ◌>>=◌}
use pegaprox_plugin_opnsense.Exec.Costs.{Costs, Costs-pure, Costs-bind, Costs-catch}
use pegaprox_plugin_opnsense.World.{Env, Trace, AuditEntry, M, number_of}
use pegaprox_plugin_opnsense.Client.{Client}
use pegaprox_plugin_opnsense.Client.Posts.{posts, get-Costs, post-Costs}
use pegaprox_plugin_opnsense.Audit.{append, append_result, now}
use pegaprox_plugin_opnsense.Carp.{collect_carp_status, safe_get}
use pegaprox_plugin_opnsense.Verified.Reads.{Kind, search, get_object, verify, post_checked, apply}
use pegaprox_plugin_opnsense.Verified.Preflight.{
  Net, check, addresses, preflight_nodes, preflight_peer,
}
use pegaprox_plugin_opnsense.Verified.Sync.{require}

-- A step that only looks at what it was given.
pub still : {A : Type 0} (r : Result A) → Costs posts 0 (λ (t : Trace). (r, t))
still r = record { above = λ t. omega arith; below = λ t. omega arith }

pub require-Costs : (b : Bool) (e : Exn) → Costs posts 0 (require b e)
require-Costs true e = record { above = λ t. omega arith; below = λ t. omega arith }
require-Costs false e = record { above = λ t. omega arith; below = λ t. omega arith }

-- Two steps that send nothing.
pub then_still :
    {A B : Type 0} (m : M A) (f : A → M B)
    → Costs posts 0 m
    → ((a : A) → Costs posts 0 (f a))
    → Costs posts 0 (m >>= f)
then_still m f hm hf = Costs-bind m f 0 0 hm hf

module _ (env : Env) where
  pub now-Costs :
      (user action target host result : String) (ms : ℕ) (detail sha : String)
      → Costs posts 0 (now env user action target host result ms detail sha)
  unfolding now
  now-Costs user action target host result ms detail sha = record {
    above = λ t. omega arith;
    below = λ t. omega arith;
  }

  pub append-Costs : (entry : AuditEntry) → Costs posts 0 (append env entry)
  unfolding append number_of
  append-Costs entry = record {
    above = λ t. omega (arith, written entry (env.append t entry) t);
    below = λ t. omega (arith, written entry (env.append t entry) t);
  }
    where
      written :
          (entry : AuditEntry) (r : Option String) (t : Trace)
          → posts (append_result entry r t).1 ≡ posts t
      written entry none t = omega arith
      written entry (some why) t = refl

  module _ (k : Kind) where
    pub search-Costs : (c : Client) → Costs posts 0 (search env k c)
    unfolding search
    search-Costs c = then_still _ _ (get-Costs env c _ _) (λ out. still _)

    pub get_object-Costs : (uuid : String) (c : Client) → Costs posts 0 (get_object env k uuid c)
    unfolding get_object
    get_object-Costs uuid c = then_still _ _ (get-Costs env c _ end) (λ out. still _)

    pub verify-Costs :
        (uuid : String) (expected : Option Fields) (c : Client)
        → Costs posts 0 (verify env k uuid expected c)
    unfolding verify
    verify-Costs uuid none c = then_still _ _ (search-Costs c) (λ rs. Costs-pure _)
    verify-Costs uuid (some expected) c = then_still _ _ (get_object-Costs uuid c) (λ a. still _)

    pub post_checked-Costs :
        (c : Client) (path : String) (payload : Value) (operation : String)
        → Costs posts 1 (post_checked env k c path payload operation)
    unfolding post_checked
    post_checked-Costs c path payload operation =
        Costs-bind _ _ 1 0 (post-Costs env c path payload) (λ r. still _)

    pub apply-Costs : (c : Client) → Costs posts 1 (apply env k c)
    unfolding apply
    apply-Costs c = Costs-bind _ _ 1 0 (post_checked-Costs c _ _ _) (λ _. Costs-pure tt)

  safe_get-Costs :
      (net : Net) (c : Client) (path : String) → Costs posts 0 (safe_get env net.truncated c path)
  unfolding safe_get
  safe_get-Costs net c path =
      Costs-catch is_opnsense _ _ 0 0
        (then_still _ _ (get-Costs env c path end) (λ r. Costs-pure _)) (λ e. Costs-pure end)

  carp-Costs : (net : Net) (c : Client) → Costs posts 0 (collect_carp_status env net.truncated c)
  unfolding collect_carp_status
  carp-Costs net c = then_still _ _ (safe_get-Costs net c _) (λ vip. still _)

  addresses-Costs : (net : Net) (c : Client) → Costs posts 0 (addresses net env c)
  unfolding addresses
  addresses-Costs net c = then_still _ _ (get-Costs env c _ end) (λ config. still _)

  module _ (net : Net) (k : Kind) where
    check-Costs : (b : Bool) (why : String) → Costs posts 0 (check b why)
    check-Costs true why = still _
    check-Costs false why = still _

    preflight_nodes-Costs :
        (ours theirs : Client) (address : String) (local : Fields)
        → Costs posts 0 (preflight_nodes env net k ours theirs address local)
    unfolding preflight_nodes
    preflight_nodes-Costs ours theirs address local =
        then_still _ _ (addresses-Costs net theirs) (λ a. then_still _ _ (check-Costs _ _) (λ _.
          then_still _ _ (addresses-Costs net ours) (λ b. then_still _ _ (check-Costs _ _) (λ _.
            then_still _ _ (carp-Costs net ours) (λ l. then_still _ _ (carp-Costs net theirs) (λ r.
              then_still _ _ (check-Costs _ _)
                (λ _. then_still _ _ (check-Costs _ _) (λ _. Costs-pure _))))))))

    pub preflight_peer-Costs :
        (ours theirs : Client) → Costs posts 0 (preflight_peer env net k ours theirs)
    unfolding preflight_peer
    preflight_peer-Costs ours theirs = then_still _ _ (get-Costs env ours _ end) (λ a.
        then_still _ _ (get-Costs env theirs _ end) (λ b. then_still _ _ (check-Costs _ _) (λ _.
          then_still _ _ (still _) (λ pair. then_still _ _ (check-Costs _ _) (λ _.
            then_still _ _ (check-Costs _ _) (λ _.
              then_still _ _ (still _)
                (λ address. preflight_nodes-Costs ours theirs address _)))))))
