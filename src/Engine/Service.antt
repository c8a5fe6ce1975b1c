-- ===== src/Engine/Service.antt =====
-- The reads of `ManagementService` of `src/management/engine.py`: `_call`, `_raw`, `_public`, `list`,
-- `detail`, and `_audit`.
use pegaprox_plugin_opnsense.Prelude.{
  String, ◌<>◌, Bool, false, ◌&&◌, not, Option, none, some, [], ◌∷◌, if◌then◌else◌, ◌==◌, contains,
  ℤ,
}
use pegaprox_plugin_opnsense.Value.{Value, str, Fields, end, field, put, fields_of}
use pegaprox_plugin_opnsense.Exec.{
  Exn, Result, auth, timeout, message, is_opnsense, is_os_error, is_value_or_type, pure, raise,
  gets, catch, ◌>>=◌, ◌>>◌,
}
use pegaprox_plugin_opnsense.World.{Env, Trace, M}
use pegaprox_plugin_opnsense.Client
use pegaprox_plugin_opnsense.Client.{Client}
use pegaprox_plugin_opnsense.Audit.{hash_payload, now, append}
use pegaprox_plugin_opnsense.Verified.Checks.{validate_uuid}
use pegaprox_plugin_opnsense.Engine.{Spec, refusal}
use pegaprox_plugin_opnsense.Engine.Replies.{selected, path_of}
use pegaprox_plugin_opnsense.Engine.Values.{refuse}
use pegaprox_plugin_opnsense.Engine.Items.{
  Listing, Detail, object_in, checked_page, listing_in, public_item, detailed_fields, with_defaults,
}

abbrev pub singleton_uuid : String
singleton_uuid = "00000000-0000-0000-0000-000000000000"

-- A result, as a step that does nothing.
abbrev pub given : {A : Type 0} → Result A → M A
given r t = (r, t)

-- What `_call` raises for an error of the client
unfoldable pub call_error : Exn → Exn
call_error (auth why) = refusal "auth" "OPNsense denegó acceso a esta operación." 401
call_error (timeout why) = refusal "timeout" "OPNsense no respondió a tiempo." 504
call_error e =
    if contains "HTTP 404" (message e)
    then refusal "unsupported" "La API no está disponible." 502
    else refusal "upstream" "Falló la comunicación con OPNsense." 502

module _ (env : Env) (truncated : String → ℤ) (c : Client) (spec : Spec) where
  -- `_call("get", …)` and `_call("post", …)`
  unfoldable pub call_get : String → Fields → M Value
  unfolding call_error
  call_get path params =
      catch is_opnsense (Client.get env c path params) (λ e. raise (call_error e))

  unfoldable pub call_post : String → Value → M Value
  unfolding call_error
  call_post path payload =
      catch is_opnsense (Client.post env c path payload) (λ e. raise (call_error e))

  -- `_raw`; the uuid is empty where there is none.
  unfoldable pub raw : String → M Value
  unfolding call_get object_in
  raw uuid = do
    path ← given (path_of spec spec.get uuid)
    response ← call_get path end
    given (object_in spec.key response)

  -- `detail`, from the uuid on that it goes by; empty for none.
  unfoldable pub detail_of : String → M Detail
  unfolding raw public_item detailed_fields with_defaults
  detail_of uuid = do
    object ← raw uuid
    let canonical = selected env.repr object
    let fields = detailed_fields env.repr spec.fields (fields_of object)
    item ← given (public_item spec false canonical)
    let completed = with_defaults (not (uuid == "")) fields item
    pure (record {
      item = if uuid == "" then completed else put "uuid" (str uuid) completed;
      fields = fields;
      revision = if uuid == "" then none else some (hash_payload env canonical);
    })

  -- `detail`; a singleton has one identifier.
  unfoldable pub detail : Option Value → M Detail
  unfolding detail_of
  detail none = detail_of (if spec.singleton then singleton_uuid else "")
  detail (some v) = do
    uuid ←
        catch is_value_or_type (given (validate_uuid v))
          (λ e. raise (refusal "bad_request" "UUID inválido." 400))
    if spec.singleton && not (uuid == singleton_uuid)
        then given (refuse "Identificador de configuración inválido.")
        else detail_of uuid

  -- `list` of a singleton
  unfoldable pub one_row : Value → Value → M Listing
  unfolding detail
  one_row page row_count = do
    found ← detail (some (str singleton_uuid))
    pure (record { rows = found.item ∷ []; total = 1; page = page; row_count = row_count })

  -- `list` from its request on
  unfoldable pub searched : Value → Value → Value → M Listing
  unfolding call_get listing_in
  searched page row_count search = do
    path ← given (path_of spec spec.search "")
    out ←
        call_get path
          (field "current" page (field "rowCount" row_count (field "searchPhrase" search end)))
    given (listing_in env.repr truncated spec page row_count out)

  -- `list`
  unfoldable pub list_objects : Value → Value → Value → M Listing
  unfolding one_row searched
  list_objects page row_count search = do
    given (checked_page page row_count search)
    if spec.singleton then one_row page row_count else searched page row_count search

  -- `_audit`, with the log and the client of the service; without a log, `append` is an attribute of
  -- `None`.
  unfoldable pub audit :
      (has_log : Bool) (actor action uuid result : String) (payload : Value) (started : Trace)
      → M (Unit {0})
  audit has_log actor action uuid result payload started = do
    elapsed ← gets (λ t. env.elapsed_ms started t)
    entry ←
        now env actor (spec.id <> "." <> action) uuid c.host.name result elapsed ""
          (hash_payload env payload)
    if has_log
        then catch is_os_error (append env entry)
            (λ e. raise (refusal "audit" "No se pudo persistir la auditoría." 503))
        else raise (refusal "audit" "No se pudo persistir la auditoría." 503)
