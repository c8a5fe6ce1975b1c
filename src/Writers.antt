-- ===== src/Writers.antt =====
-- The resource writers of `src/writers/`, which share one life cycle: POST the change, POST the
-- apply action, roll a created row back if that fails, check the HA peer, and note the outcome.
pub mod Steps
pub mod Create
pub mod Audited
pub mod Change
pub mod Alias
pub mod Rule
pub mod Nat
pub mod OneToOne
pub mod WireguardPeer
pub mod Dhcp
pub mod DhcpSubnet
pub mod Unbound
pub mod UnboundDot
pub mod UnboundDomain
use pegaprox_plugin_opnsense.Prelude.{
  ℕ, String, ◌<>◌, Bool, true, false, ◌⊎◌, inl, inr, Option, none, some, if◌then◌else◌, ◌==◌,
}
use pegaprox_plugin_opnsense.Value.{
  Value, str, list, dict, Items, nil, Fields, end, field, get_or, text_of,
}
use pegaprox_plugin_opnsense.Exec.{
  Exec, Exn, Result, ok, raised, attribute_error, value_error, message, is_opnsense, pure, raise,
  gets, catch, attempt, ◌>>=◌, ◌>>◌,
}
use pegaprox_plugin_opnsense.World.{Env, AuditEntry, Trace, M}
use pegaprox_plugin_opnsense.Client.{Client, get, post}
use pegaprox_plugin_opnsense.Audit.{hash_payload, record_outcome}
use pegaprox_plugin_opnsense.Ha.{SyncResult, HaVerifier, verify_robust}

-- `class AliasResult`, which every writer returns
pub record WriteResult : Type 0 where
  pub ok_flag : Bool
  pub uuid : String
  pub detail : String
  pub sync : Option SyncResult
  pub audit : Option AuditEntry

-- `AliasResult(ok=False, uuid=…, detail=…)`
abbrev pub refused : String → String → WriteResult
refused uuid detail = record {
  ok_flag = false;
  uuid = uuid;
  detail = detail;
  sync = none;
  audit = none;
}

-- What the `__init__` of a writer keeps.
pub record Writer : Type 0 where
  pub client : Client
  pub ha : Option HaVerifier
  pub actor : String
  pub host_name : String

-- `host_name or client.host.name`
unfoldable pub new_writer : Client → Option HaVerifier → String → String → Writer
new_writer client ha actor host_name = record {
  client = client;
  ha = ha;
  actor = actor;
  host_name = if host_name == "" then client.host.name else host_name;
}

-- The paths that every resource has, the first word of its audit actions, and how its log speaks of
-- an apply that failed.
pub record Resource : Type 0 where
  pub kind : String
  pub add_path : String
  pub delete_path : String
  pub apply_path : String
  pub search_path : String
  pub apply_name : String

-- What a writer puts into the audit log in `create`: the target if the POST fails, the target if it
-- gives no uuid or the apply fails, and the target and the detail of a success.
pub record Notes : Type 0 where
  pub post_target : String
  pub late_target : String
  pub ok_target : String → String
  pub ok_detail : String → String

module _ (env : Env) (w : Writer) (r : Resource) where
  -- `_record`
  unfoldable pub note :
      (verb target result : String) (duration_ms : ℕ) (detail payload_sha256 : String)
      → M AuditEntry
  unfolding record_outcome
  note verb target result duration_ms detail payload_sha256 =
      record_outcome env w.actor w.host_name (r.kind <> verb) target result duration_ms detail
        payload_sha256

  -- `_apply`, `_reconfigure`
  unfoldable pub apply : M Value
  apply = post env w.client r.apply_path (dict end)

  -- `_maybe_sync`; five rounds and 0.4 s are the defaults of `verify_robust`.
  unfoldable pub maybe_sync : Option HaVerifier → M (Option SyncResult)
  maybe_sync none = pure none
  maybe_sync (some ha) = do sync ← verify_robust env ha r.search_path 5 400; pure (some sync)

  -- The end of every write that went through, `started` being the trace at the `with` statement.
  unfoldable pub finish : (verb uuid target detail payload_sha256 : String) → Trace → M WriteResult
  unfolding note maybe_sync
  finish verb uuid target detail payload_sha256 started = do
    elapsed ← gets (env.elapsed_ms started)
    sync ← maybe_sync w.ha
    entry ← note verb target "ok" elapsed detail payload_sha256
    pure (record { ok_flag = true; uuid = uuid; detail = ""; sync = sync; audit = some entry })

  -- `str(resp.get("uuid", ""))`
  unfoldable pub uuid_in : Value → Result String
  uuid_in (dict fs) = ok (text_of env.repr (get_or "uuid" (str "") fs))
  uuid_in _ = raised (attribute_error "object has no attribute 'get'")

  -- `create` after the apply action: a row whose apply failed is deleted again.
  unfoldable pub create_applied :
      Notes → Value → (uuid : String) → Trace → Exn ⊎ Value → M WriteResult
  unfolding note finish attempt
  create_applied n payload uuid started (inl e) = do
    attempt is_opnsense (post env w.client (r.delete_path <> uuid) (dict end))
    note ".create" n.late_target "error" 0 (r.apply_name <> " failed → rolled back: " <> message e)
        ""
    pure (refused "" (r.apply_name <> " failed → rolled back: " <> message e))
  create_applied n payload uuid started (inr _) =
      finish ".create" uuid (n.ok_target uuid) (n.ok_detail uuid) (hash_payload env payload) started

  -- `create` once the reply to the POST has given its uuid.
  unfoldable pub create_uuid : Notes → Value → Trace → Result String → M WriteResult
  unfolding note apply create_applied attempt
  create_uuid n payload started (raised e) = raise e
  create_uuid n payload started (ok uuid) =
      if uuid == ""
      then (do
        note ".create" n.late_target "error" 0 "no uuid in response" ""
        pure (refused "" "OPNsense did not return uuid"))
      else (do applied ← attempt is_opnsense apply; create_applied n payload uuid started applied)

  -- `create` after the POST.
  unfoldable pub create_posted : Notes → Value → Trace → Exn ⊎ Value → M WriteResult
  unfolding note create_uuid uuid_in
  create_posted n payload started (inl e) = do
    note ".create" n.post_target "error" 0 (message e) ""
    pure (refused "" (message e))
  create_posted n payload started (inr reply) = create_uuid n payload started (uuid_in reply)

  -- `create`, after the validation
  unfoldable pub create_row : Notes → Value → M WriteResult
  unfolding create_posted attempt
  create_row n payload = do
    started ← gets (λ t. t)
    posted ← attempt is_opnsense (post env w.client r.add_path payload)
    create_posted n payload started posted

  -- `update` and `delete` after their two POSTs.
  unfoldable pub change_done :
      (verb uuid detail payload_sha256 : String) → Trace → Exn ⊎ Value → M WriteResult
  unfolding note finish
  change_done verb uuid detail payload_sha256 started (inl e) = do
    note verb uuid "error" 0 (message e) ""
    pure (refused uuid (message e))
  change_done verb uuid detail payload_sha256 started (inr _) =
      finish verb uuid uuid detail payload_sha256 started

  -- `update`, after the validation
  unfoldable pub update_row : (set_path uuid : String) → Value → (detail : String) → M WriteResult
  unfolding change_done apply attempt
  update_row set_path uuid payload detail = do
    started ← gets (λ t. t)
    done ← attempt is_opnsense (do post env w.client (set_path <> uuid) payload; apply)
    change_done ".update" uuid detail (hash_payload env payload) started done

  -- `delete`
  unfoldable pub delete_row : (uuid : String) → M WriteResult
  unfolding change_done apply attempt
  delete_row uuid = do
    started ← gets (λ t. t)
    done ← attempt is_opnsense (do post env w.client (r.delete_path <> uuid) (dict end); apply)
    change_done ".delete" uuid "" "" started done

  -- The rows of a search reply: `out.get("rows", []) if isinstance(out, dict) else []`
  unfoldable pub rows_in : Value → Value
  rows_in (dict fs) = get_or "rows" (list nil) fs
  rows_in _ = list nil

  -- `search`
  unfoldable pub search : (phrase : String) → M Value
  unfolding rows_in
  search phrase = do
    out ←
        get env w.client r.search_path
          (if phrase == "" then end else field "searchPhrase" (str phrase) end)
    pure (rows_in out)

-- `get`
unfoldable pub get_row : Env → Writer → (get_path uuid : String) → M Value
get_row env w get_path uuid = get env w.client (get_path <> uuid) end

-- `"1" if flag else "0"`
abbrev pub flag : Bool → Value
flag b = str (if b then "1" else "0")

-- A validation, and what follows it.
abbrev pub validated : {A : Type 0} → Option String → M A → M A
validated none m t = m t
validated (some why) m t = (raised (value_error why), t)
