-- ===== src/Writers/Alias.antt =====
-- `src/writers/alias.py`: the firewall aliases.
use pegaprox_plugin_opnsense.Prelude.{String, ◌<>◌, Bool, [], ◌∷◌}
use pegaprox_plugin_opnsense.Value.{Value, str, dict, end, field, entries}
use pegaprox_plugin_opnsense.World.{Env, M}
use pegaprox_plugin_opnsense.Writers.{
  WriteResult, Writer, Resource, Notes, create_row, update_row, delete_row, get_row, flag,
}

-- `class AliasInput`
pub record AliasInput : Type 0 where
  pub name : String
  pub type : String
  pub content : String
  pub description : String
  pub enabled : Bool
  pub proto : String

-- `to_payload`
unfoldable pub to_payload : AliasInput → Value
to_payload p = dict (
    field "alias"
      (dict (
        entries (
          ("name", str p.name)
          ∷ ("type", str p.type)
          ∷ ("content", str p.content)
          ∷ ("description", str p.description)
          ∷ ("enabled", flag p.enabled)
          ∷ ("proto", str p.proto)
          ∷ [])))
      end)

-- The endpoints of the writer.
abbrev pub resource : Resource
resource = record {
  kind = "alias";
  add_path = "/api/firewall/alias/addItem";
  delete_path = "/api/firewall/alias/delItem/";
  apply_path = "/api/firewall/alias/reconfigure";
  search_path = "/api/firewall/alias/searchItem";
  apply_name = "reconfigure";
}

-- The audit notes of `create`
unfoldable pub notes : AliasInput → Notes
notes p = record {
  post_target = p.name;
  late_target = p.name;
  ok_target = λ uuid. p.name;
  ok_detail = λ uuid. "uuid=" <> uuid;
}

module _ (env : Env) (w : Writer) where
  -- `create`
  unfoldable pub create : AliasInput → M WriteResult
  unfolding notes to_payload create_row
  create p = create_row env w resource (notes p) (to_payload p)

  -- `update`
  unfoldable pub update : String → AliasInput → M WriteResult
  unfolding to_payload update_row
  update uuid p =
      update_row env w resource "/api/firewall/alias/setItem/" uuid (to_payload p) p.name

  -- `get`
  unfoldable get_item : String → M Value
  unfolding get_row
  get_item uuid = get_row env w "/api/firewall/alias/getItem/" uuid

  -- `delete`
  unfoldable pub delete : String → M WriteResult
  unfolding delete_row
  delete uuid = delete_row env w resource uuid
