-- ===== src/Engine/Scan.antt =====
-- The loop of `_mutate` of `src/management/engine.py` that looks for a deleted object.
use pegaprox_plugin_opnsense.Prelude.{
  ℕ, zero, suc, ◌+◌, String, Bool, false, ◌||◌, Option, length, if◌then◌else◌, ◌==◌, leb, ltb,
  any_of, lower, ℤ,
}
use pegaprox_plugin_opnsense.Value.{int, str, Fields, get_or}
use pegaprox_plugin_opnsense.Exec.{Exn, pure, raise, ◌>>=◌}
use pegaprox_plugin_opnsense.World.{Env, M}
use pegaprox_plugin_opnsense.Client.{Client}
use pegaprox_plugin_opnsense.Engine.{Spec}
use pegaprox_plugin_opnsense.Engine.Service.{list_objects}
use pegaprox_plugin_opnsense.Engine.Items.{Listing}

-- `ManagementService`; `has_log` is false where the audit log is `None`.
pub record Service : Type 0 where
  pub client : Client
  pub has_log : Bool
  pub actor : String
  pub peer : Option Client

-- `any(row.get("uuid", "").lower() == uuid for row in …)`, for the rows of a listing, in which a
-- uuid is a text.
abbrev pub has_uuid : String → Fields → Bool
has_uuid uuid row = elim (get_or "uuid" (str "") row) [ str s ↦ lower s == uuid | _ ↦ false ]

module _ (env : Env) (truncated : String → ℤ) (spec : Spec) where
  -- The body of the loop that looks for a deleted object: the end of the loop, or `rest` for the
  -- next page with the number of rows that were seen.
  unfoldable pub judge_page :
      (there incomplete : Exn) (uuid : String) (page observed : ℕ) (rest : ℕ → M (Unit {0}))
      → Listing
      → M (Unit {0})
  judge_page there incomplete uuid page observed rest listing =
      let count = observed + length listing.rows in
      if any_of (has_uuid uuid) listing.rows
      then raise there
      else if leb listing.total count
      then pure tt
      else if ltb (length listing.rows) 200 || leb 1000 page
      then raise incomplete
      else rest count

  -- The loop from a page on, with rounds left; it ends before they run out.
  unfoldable pub scan :
      Client
      → (there incomplete exhausted : Exn) (uuid : String) (page observed left : ℕ) → M (Unit {0})
  unfolding judge_page
  scan c there incomplete exhausted uuid page observed zero = raise exhausted
  scan c there incomplete exhausted uuid page observed (suc left) = do
    listing ← list_objects env truncated c spec (int page) (int 200) (str "")
    judge_page there incomplete uuid page observed
        (λ count. scan c there incomplete exhausted uuid (page + 1) count left) listing
