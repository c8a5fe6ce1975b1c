-- ===== src/Writers/Unbound.antt =====
-- `src/writers/unbound.py`: the host overrides of Unbound.
use pegaprox_plugin_opnsense.Prelude.{
  String, ◌<>◌, Bool, not, Option, none, some, [], ◌∷◌, if◌then◌else◌, ◌==◌, one_of,
}
use pegaprox_plugin_opnsense.Value.{Value, str, dict, end, field, entries}
use pegaprox_plugin_opnsense.World.{Env, M}
use pegaprox_plugin_opnsense.Writers.{
  WriteResult, Writer, Resource, Notes, create_row, delete_row, get_row, flag, validated,
}

-- `class UnboundHostInput`
pub record UnboundHostInput : Type 0 where
  pub hostname : String
  pub domain : String
  pub server : String
  pub rr : String
  pub description : String
  pub enabled : Bool

-- `to_payload`
unfoldable pub to_payload : UnboundHostInput → Value
to_payload p = dict (
    field "host"
      (dict (
        entries (
          ("enabled", flag p.enabled)
          ∷ ("hostname", str p.hostname)
          ∷ ("domain", str p.domain)
          ∷ ("rr", str p.rr)
          ∷ ("server", str p.server)
          ∷ ("description", str p.description)
          ∷ [])))
      end)

-- `_validate`: the text of the `ValueError`, if there is one.
unfoldable pub validate : Env → UnboundHostInput → Option String
validate env p =
    if p.hostname == ""
    then some ("hostname is required")
    else if p.domain == ""
    then some ("domain is required")
    else if p.server == ""
    then some ("server (IP) is required")
    else if not (one_of ("A" ∷ "AAAA" ∷ "MX" ∷ []) p.rr)
    then some ("rr must be A|AAAA|MX, got " <> env.repr (str p.rr))
    else none

-- The endpoints of the writer.
abbrev pub resource : Resource
resource = record {
  kind = "unbound";
  add_path = "/api/unbound/settings/addHostOverride";
  delete_path = "/api/unbound/settings/delHostOverride/";
  apply_path = "/api/unbound/service/reconfigure";
  search_path = "/api/unbound/settings/searchHostOverride";
  apply_name = "apply";
}

-- The audit notes of `create`
unfoldable pub notes : UnboundHostInput → Notes
notes p = record {
  post_target = if p.hostname == "" then "?" else p.hostname;
  late_target = p.hostname;
  ok_target = λ uuid. uuid;
  ok_detail = λ uuid. p.description;
}

module _ (env : Env) (w : Writer) where
  -- `create`
  unfoldable pub create : UnboundHostInput → M WriteResult
  unfolding notes to_payload validate create_row
  create p = validated (validate env p) (create_row env w resource (notes p) (to_payload p))

  -- `get`
  unfoldable get_item : String → M Value
  unfolding get_row
  get_item uuid = get_row env w "/api/unbound/settings/getHostOverride/" uuid

  -- `delete`
  unfoldable pub delete : String → M WriteResult
  unfolding delete_row
  delete uuid = delete_row env w resource uuid
