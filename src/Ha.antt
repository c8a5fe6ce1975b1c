-- ===== src/Ha.antt =====
-- `src/writers/hasync_writer.py`: the trigger of the HA synchronization and the checks of the peer.
pub mod Item
pub mod Posts
pub mod Verdict
use pegaprox_plugin_opnsense.Prelude.{
  ℕ, zero, suc, ◌+◌, ◌*◌, String, ◌<>◌, Bool, true, false, ◌&&◌, ◌||◌, not, Option, none, some,
  List, [], ◌∷◌, if◌then◌else◌, ◌==◌, ltb, decimal, ◌⊎◌, inl, inr,
}
use pegaprox_plugin_opnsense.Value.{
  Value, null, bool, str, list, dict, Items, nil, cons, Fields, end, get_or, fields_of, truthy,
  text_of,
}
use pegaprox_plugin_opnsense.Exec.{
  Exec, Exn, Result, ok, raised, attribute_error, message, is_any, pure, raise, catch, ◌>>=◌, ◌>>◌,
}
use pegaprox_plugin_opnsense.World.{Env, Trace, M, sleep}
use pegaprox_plugin_opnsense.Client.{Client, get, post}
use pegaprox_plugin_opnsense.Audit.{fingerprint}

-- `class SyncResult`
pub record SyncResult : Type 0 where
  pub triggered : Bool
  pub verified : Bool
  pub local_fingerprint : String
  pub peer_fingerprint : String
  pub detail : String
  pub attempts : ℕ
  pub revision_local : String
  pub revision_peer : String

abbrev pub blank : SyncResult
blank = record {
  triggered = false;
  verified = false;
  local_fingerprint = "";
  peer_fingerprint = "";
  detail = "";
  attempts = 0;
  revision_local = "";
  revision_peer = "";
}

-- `class HAVerifier`
pub record HaVerifier : Type 0 where
  pub local : Client
  pub peer : Option Client

-- `_iter_rows`
unfoldable pub iter_rows : Value → Items
iter_rows (dict fs) = elim (get_or "rows" null fs) [ list rows ↦ rows | _ ↦ nil ]
iter_rows (list rows) = rows
iter_rows _ = nil

-- `data.get("config_revision") or data.get("configRevision") or ""`
unfoldable pub revision_value : Fields → Value
revision_value fs =
    let snake = get_or "config_revision" null fs in
    let camel = get_or "configRevision" null fs in
    if truthy snake then snake else if truthy camel then camel else str ""

-- The note that `verify_robust` and `verify_item` add for the last failed read.
abbrev pub last_note : String → String
last_note last_err = if last_err == "" then "" else " (" <> last_err <> ")"

unfoldable pub single_node : String → SyncResult
single_node fp = record blank {
  verified = true;
  local_fingerprint = fp;
  peer_fingerprint = fp;
  attempts = 1;
  detail = "no peer configured — single-node mode";
}

unfoldable pub sync_failed : String → SyncResult
sync_failed fp = record blank { local_fingerprint = fp; attempts = 1; detail = "syncTo failed" }

-- What a round of a loop over the peer comes to: an exception that was caught, or the reply.
abbrev pub Read : Type 0
Read = Exn ⊎ Value

module _ (env : Env) where
  -- `any(str(r.get(uuid_field, "")) == uuid_value for r in rows)`
  unfoldable pub row_present : String → String → Items → Result Bool
  row_present uuid_field uuid_value nil = ok false
  row_present uuid_field uuid_value (cons (dict fs) rows) =
      let rest = row_present uuid_field uuid_value rows in
      if text_of env.repr (get_or uuid_field (str "") fs) == uuid_value then ok true else rest
  row_present uuid_field uuid_value (cons _ rows) =
      raised (attribute_error "object has no attribute 'get'")

  -- `sync`
  unfoldable pub sync : HaVerifier → M Bool
  sync ha =
      catch is_any (do post env ha.local "/api/core/hasync/syncTo" (dict end); pure true)
        (λ e. pure false)

  -- The revision in the reply of `_get_revision`
  unfoldable pub revision_in : Value → String
  unfolding revision_value
  revision_in (dict fs) = text_of env.repr (revision_value fs)
  revision_in _ = ""

  -- `_get_revision`
  unfoldable pub get_revision : Client → M String
  unfolding revision_in
  get_revision client =
      catch is_any
        (do
          reply ← get env client "/api/diagnostics/system/system_information" end
          pure (revision_in reply))
        (λ e. pure "")

  -- `try: … = self.peer.get(search_path) except Exception as e`
  unfoldable pub read_peer : Client → String → M Read
  read_peer peer search_path =
      catch is_any (do payload ← get env peer search_path end; pure (inr payload))
        (λ e. pure (inl e))

  -- The last step of `verify`, with what was read of the peer.
  unfoldable pub compare_once : String → Read → SyncResult
  compare_once local_fp (inl e) = record blank {
    triggered = true;
    local_fingerprint = local_fp;
    attempts = 1;
    detail = "peer fetch failed: " <> message e;
  }
  compare_once local_fp (inr payload) = record blank {
    triggered = true;
    verified = local_fp == fingerprint env payload;
    local_fingerprint = local_fp;
    peer_fingerprint = fingerprint env payload;
    attempts = 1;
  }

  -- `verify`, after the local listing is read
  unfoldable pub verify_peer : HaVerifier → String → String → Option Client → M SyncResult
  unfolding read_peer sync single_node sync_failed compare_once
  verify_peer ha search_path local_fp none = pure (single_node local_fp)
  verify_peer ha search_path local_fp (some peer) = do
    triggered ← sync ha
    if triggered
        then (do read ← read_peer peer search_path; pure (compare_once local_fp read))
        else pure (sync_failed local_fp)

  -- `verify`
  unfoldable pub verify : HaVerifier → String → M SyncResult
  unfolding verify_peer
  verify ha search_path = do
    local_payload ← get env ha.local search_path end
    verify_peer ha search_path (fingerprint env local_payload) ha.peer

  -- The end of `verify_robust`, when the fingerprints never matched.
  unfoldable pub diverged :
      HaVerifier → Client → ℕ → (local_fp peer_fp last_err : String) → M SyncResult
  unfolding get_revision
  diverged ha peer max_attempts local_fp peer_fp last_err = do
    rev_l ← get_revision ha.local
    rev_p ← get_revision peer
    let rev_hint =
        if not (rev_l == "") && rev_l == rev_p
        then "revision matches but content differs (suspect concurrent write)"
        else "revision mismatch (local="
          <> env.repr (str rev_l)
          <> ", peer="
          <> env.repr (str rev_p)
          <> ")"
    pure (record {
      triggered = true;
      verified = false;
      local_fingerprint = local_fp;
      peer_fingerprint = peer_fp;
      attempts = max_attempts;
      revision_local = rev_l;
      revision_peer = rev_p;
      detail =
          "fingerprints diverged after "
          <> decimal max_attempts
          <> " attempt(s); "
          <> rev_hint
          <> last_note last_err;
    })

  -- The body of the loop of `verify_robust` in round `attempt`; `rest` is the loop from the next
  -- round on, as a function of `peer_fp` and `last_err`.
  unfoldable pub robust_round :
      (max_attempts backoff : ℕ) (local_fp peer_fp last_err : String) (attempt : ℕ)
      (rest : String → String → M SyncResult)
      → Read
      → M SyncResult
  robust_round max_attempts backoff local_fp peer_fp last_err attempt rest (inl e) =
      if ltb attempt max_attempts
      then sleep (backoff * attempt) >> rest peer_fp (message e)
      else pure (record blank {
        triggered = true;
        local_fingerprint = local_fp;
        attempts = attempt;
        detail = "peer fetch failed: " <> message e;
      })
  robust_round max_attempts backoff local_fp peer_fp last_err attempt rest (inr payload) =
      if fingerprint env payload == local_fp
      then pure (record blank {
        triggered = true;
        verified = true;
        local_fingerprint = local_fp;
        peer_fingerprint = fingerprint env payload;
        attempts = attempt;
        detail = "fingerprints matched in " <> decimal attempt <> " attempt(s)";
      })
      else if ltb attempt max_attempts
      then sleep (backoff * attempt) >> rest (fingerprint env payload) last_err
      else rest (fingerprint env payload) last_err

  -- The loop of `verify_robust` from round `attempt`, with `left` rounds to go; the delays are
  -- `backoff` milliseconds times the round.
  unfoldable pub robust_loop :
      HaVerifier
      → Client
      → String
      → (max_attempts backoff : ℕ) → (local_fp peer_fp last_err : String) → (attempt left : ℕ)
      → M SyncResult
  unfolding diverged read_peer robust_round
  robust_loop ha peer search_path max_attempts backoff local_fp peer_fp last_err attempt zero =
      diverged ha peer max_attempts local_fp peer_fp last_err
  robust_loop ha peer search_path max_attempts backoff local_fp peer_fp last_err attempt
        (suc left) =
      do
        read ← read_peer peer search_path
        robust_round max_attempts backoff local_fp peer_fp last_err attempt
            (λ fp err.
              robust_loop ha peer search_path max_attempts backoff local_fp fp err (attempt + 1)
                left)
            read

  -- `verify_robust`, after the local listing is read
  unfoldable pub robust_peer :
      HaVerifier → String → (max_attempts backoff : ℕ) → String → Option Client → M SyncResult
  unfolding robust_loop sync single_node sync_failed
  robust_peer ha search_path max_attempts backoff local_fp none = pure (single_node local_fp)
  robust_peer ha search_path max_attempts backoff local_fp (some peer) = do
    triggered ← sync ha
    if triggered
        then robust_loop ha peer search_path max_attempts backoff local_fp "" "" 1 max_attempts
        else pure (sync_failed local_fp)

  -- `verify_robust`
  unfoldable pub verify_robust : HaVerifier → String → (max_attempts backoff : ℕ) → M SyncResult
  unfolding robust_peer
  verify_robust ha search_path max_attempts backoff = do
    local_payload ← get env ha.local search_path end
    robust_peer ha search_path max_attempts backoff (fingerprint env local_payload) ha.peer
