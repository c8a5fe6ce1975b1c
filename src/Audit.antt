-- ===== src/Audit.antt =====
-- `src/writers/audit.py`: the audit log's entries, their hashes and the append; and `_record`, with
-- which the resource writers note an outcome.
use pegaprox_plugin_opnsense.Prelude.{ℕ, String, Option, none, some, ◌∷◌, if◌then◌else◌, take_chars}
use pegaprox_plugin_opnsense.Value.{Value, is_null}
use pegaprox_plugin_opnsense.Exec.{ok, raised, os_error, is_os_error, pure, catch, ◌>>=◌, ◌>>◌}
use pegaprox_plugin_opnsense.World.{Env, AuditEntry, audited, M}

-- What `AuditLog.append` does, given the error of the file system, if there is one.
abbrev pub append_result : AuditEntry → Option String → M (Unit {0})
append_result entry none t = (ok tt, audited entry ∷ t)
append_result entry (some why) t = (raised (os_error why), t)

module _ (env : Env) where
  -- `hash_payload`
  unfoldable pub hash_payload : Value → String
  hash_payload payload = if is_null payload then "" else env.sha256_hex (env.canonical_json payload)

  -- `_fingerprint` of `src/writers/hasync_writer.py`
  unfoldable pub fingerprint : Value → String
  fingerprint payload = take_chars 16 (env.sha256_hex (env.spaced_json payload))

  -- `AuditEntry.now`
  unfoldable pub now :
      (user action target host result : String) (duration_ms : ℕ) (detail payload_sha256 : String)
      → M AuditEntry
  now user action target host result duration_ms detail payload_sha256 t = (
    ok (record {
      ts = env.utc_iso t;
      user = user;
      action = action;
      target = target;
      host = host;
      result = result;
      duration_ms = duration_ms;
      detail = detail;
      payload_sha256 = payload_sha256;
    }),
    t,
  )

  -- `AuditLog.append`
  unfoldable pub append : AuditEntry → M (Unit {0})
  append entry t = append_result entry (env.append t entry) t

  -- `_record` of the resource writers: a failure to write the entry is logged and passed over.
  unfoldable pub record_outcome :
      (actor host_name action target result : String) (duration_ms : ℕ)
      (detail payload_sha256 : String)
      → M AuditEntry
  unfolding now append
  record_outcome actor host_name action target result duration_ms detail payload_sha256 = do
    entry ← now actor action target host_name result duration_ms detail payload_sha256
    catch is_os_error (append entry) (λ e. pure tt)
    pure entry
