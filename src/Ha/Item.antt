-- ===== src/Ha/Item.antt =====
-- `verify_item` and `verify_revision` of `src/writers/hasync_writer.py`.
use pegaprox_plugin_opnsense.Prelude.{
  ℕ, zero, suc, ◌+◌, ◌*◌, String, ◌<>◌, Bool, true, false, ◌&&◌, not, Option, none, some,
  if◌then◌else◌, ◌==◌, ltb, decimal, inl, inr,
}
use pegaprox_plugin_opnsense.Value.{str}
use pegaprox_plugin_opnsense.Exec.{Result, ok, raised, message, pure, raise, ◌>>=◌, ◌>>◌}
use pegaprox_plugin_opnsense.World.{Env, M, sleep}
use pegaprox_plugin_opnsense.Client.{Client}
use pegaprox_plugin_opnsense.Ha.{
  SyncResult, HaVerifier, Read, blank, iter_rows, row_present, sync, read_peer, get_revision,
  last_note, single_node, sync_failed,
}

-- `present == expect_present`
abbrev pub same_bool : Bool → Bool → Bool
same_bool true b = b
same_bool false b = not b

-- The result of `verify_item` after the loop.
unfoldable pub item_unmatched : String → Bool → ℕ → String → SyncResult
item_unmatched uuid_value expect_present max_attempts last_err = record blank {
  triggered = true;
  attempts = max_attempts;
  detail =
      uuid_value
      <> " "
      <> (if expect_present then "not present" else "still present")
      <> " on peer after "
      <> decimal max_attempts
      <> " attempt(s)"
      <> last_note last_err;
}

module _ (env : Env) where
  -- The body of the loop of `verify_item` once it is known whether the row is there.
  unfoldable pub item_checked :
      (uuid_value : String) (expect_present : Bool) (max_attempts backoff attempt : ℕ)
      → M SyncResult
      → Result Bool
      → M SyncResult
  item_checked uuid_value expect_present max_attempts backoff attempt rest (raised e) = raise e
  item_checked uuid_value expect_present max_attempts backoff attempt rest (ok present) =
      if same_bool present expect_present
      then pure (record blank {
        triggered = true;
        verified = true;
        attempts = attempt;
        detail =
            uuid_value
            <> " "
            <> (if expect_present then "found" else "removed")
            <> " on peer in "
            <> decimal attempt
            <> " attempt(s)";
      })
      else if ltb attempt max_attempts
      then sleep (backoff * attempt) >> rest
      else rest

  -- The body of the loop of `verify_item` in round `attempt`; `rest` is the loop from the next round
  -- on, as a function of `last_err`.
  unfoldable pub item_round :
      (uuid_field uuid_value : String) (expect_present : Bool) (max_attempts backoff : ℕ)
      (last_err : String) (attempt : ℕ) (rest : String → M SyncResult)
      → Read
      → M SyncResult
  unfolding item_checked
  item_round uuid_field uuid_value expect_present max_attempts backoff last_err attempt rest
        (inl e) =
      if ltb attempt max_attempts
      then sleep (backoff * attempt) >> rest (message e)
      else pure (record blank {
        triggered = true;
        attempts = attempt;
        detail = "peer fetch failed: " <> message e;
      })
  item_round uuid_field uuid_value expect_present max_attempts backoff last_err attempt rest
        (inr payload) =
      item_checked uuid_value expect_present max_attempts backoff attempt (rest last_err)
        (row_present env uuid_field uuid_value (iter_rows payload))

  -- The loop of `verify_item` from round `attempt`, with `left` rounds to go.
  unfoldable pub item_loop :
      Client
      → (search_path uuid_field uuid_value : String) (expect_present : Bool)
        (max_attempts backoff : ℕ) (last_err : String) (attempt left : ℕ)
      → M SyncResult
  unfolding item_round item_unmatched
  item_loop peer path uuid_field uuid_value expect_present max_attempts backoff last_err attempt
        zero =
      pure (item_unmatched uuid_value expect_present max_attempts last_err)
  item_loop peer path uuid_field uuid_value expect_present max_attempts backoff last_err attempt
        (suc left) =
      do
        read ← read_peer env peer path
        item_round uuid_field uuid_value expect_present max_attempts backoff last_err attempt
            (λ err.
              item_loop peer path uuid_field uuid_value expect_present max_attempts backoff err
                (attempt + 1) left)
            read

  -- `verify_item` on `self.peer`
  unfoldable pub item_peer :
      HaVerifier
      → (search_path uuid_field uuid_value : String) (expect_present : Bool)
        (max_attempts backoff : ℕ)
      → Option Client
      → M SyncResult
  unfolding item_loop
  item_peer ha path uuid_field uuid_value expect_present max_attempts backoff none =
      pure (single_node "")
  item_peer ha path uuid_field uuid_value expect_present max_attempts backoff (some peer) = do
    triggered ← sync env ha
    if triggered
        then item_loop peer path uuid_field uuid_value expect_present max_attempts backoff "" 1
            max_attempts
        else pure (sync_failed "")

  -- `verify_item`
  unfoldable pub verify_item :
      HaVerifier
      → (search_path uuid_field uuid_value : String) (expect_present : Bool)
        (max_attempts backoff : ℕ)
      → M SyncResult
  unfolding item_peer
  verify_item ha path uuid_field uuid_value expect_present max_attempts backoff =
      item_peer ha path uuid_field uuid_value expect_present max_attempts backoff ha.peer

  -- The loop of `verify_revision` from round `attempt`, with `left` rounds to go.
  unfoldable pub revision_loop :
      HaVerifier
      → Client
      → (trigger_sync : Bool) (max_attempts backoff : ℕ) (rev_l rev_p : String) (attempt left : ℕ)
      → M SyncResult
  revision_loop ha peer trigger_sync max_attempts backoff rev_l rev_p attempt zero =
      pure (record blank {
        triggered = trigger_sync;
        attempts = max_attempts;
        revision_local = rev_l;
        revision_peer = rev_p;
        detail =
            "config_revision mismatch after "
            <> decimal max_attempts
            <> " attempt(s) (local="
            <> env.repr (str rev_l)
            <> ", peer="
            <> env.repr (str rev_p)
            <> ")";
      })
  revision_loop ha peer trigger_sync max_attempts backoff _ _ attempt (suc left) = do
    rev_l ← get_revision env ha.local
    rev_p ← get_revision env peer
    let rest =
        revision_loop ha peer trigger_sync max_attempts backoff rev_l rev_p (attempt + 1) left
    if not (rev_l == "") && rev_l == rev_p
        then pure (record blank {
          triggered = trigger_sync;
          verified = true;
          attempts = attempt;
          revision_local = rev_l;
          revision_peer = rev_p;
          detail =
              "config_revision " <> rev_l <> " matched in " <> decimal attempt <> " attempt(s)";
        })
        else if ltb attempt max_attempts
        then sleep (backoff * attempt) >> rest
        else rest

  -- `verify_revision` on `self.peer`
  unfoldable pub revision_peer_check :
      HaVerifier → (trigger_sync : Bool) (max_attempts backoff : ℕ) → Option Client → M SyncResult
  unfolding revision_loop
  revision_peer_check ha trigger_sync max_attempts backoff none = pure (single_node "")
  revision_peer_check ha trigger_sync max_attempts backoff (some peer) = do
    triggered ← (if trigger_sync then sync env ha else pure true)
    if triggered
        then revision_loop ha peer trigger_sync max_attempts backoff "" "" 1 max_attempts
        else pure (sync_failed "")

  -- `verify_revision`
  unfoldable pub verify_revision :
      HaVerifier → (trigger_sync : Bool) (max_attempts backoff : ℕ) → M SyncResult
  unfolding revision_peer_check
  verify_revision ha trigger_sync max_attempts backoff =
      revision_peer_check ha trigger_sync max_attempts backoff ha.peer
