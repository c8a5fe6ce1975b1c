-- ===== src/Writers/OneToOne.antt =====
-- `src/writers/one_to_one.py`: the 1:1 NAT rules.
use pegaprox_plugin_opnsense.Prelude.{
  String, ◌<>◌, Bool, not, Option, none, some, [], ◌∷◌, if◌then◌else◌, ◌==◌, one_of,
}
use pegaprox_plugin_opnsense.Value.{Value, str, dict, end, field, entries}
use pegaprox_plugin_opnsense.World.{Env, M}
use pegaprox_plugin_opnsense.Writers.{
  WriteResult, Writer, Resource, Notes, create_row, delete_row, get_row, flag, validated,
}

-- `class OneToOneNatInput`
pub record OneToOneNatInput : Type 0 where
  pub interface : String
  pub external : String
  pub source_net : String
  pub destination_net : String
  pub description : String
  pub enabled : Bool
  pub type : String
  pub log : Bool
  pub sequence : String

-- `to_payload`
unfoldable pub to_payload : OneToOneNatInput → Value
to_payload p = dict (
    field "rule"
      (dict (
        entries (
          ("enabled", flag p.enabled)
          ∷ ("log", flag p.log)
          ∷ ("sequence", str p.sequence)
          ∷ ("interface", str p.interface)
          ∷ ("type", str p.type)
          ∷ ("source_net", str p.source_net)
          ∷ ("source_not", str "0")
          ∷ ("destination_net", str p.destination_net)
          ∷ ("destination_not", str "0")
          ∷ ("external", str p.external)
          ∷ ("description", str p.description)
          ∷ [])))
      end)

-- `_validate`: the text of the `ValueError`, if there is one.
unfoldable pub validate : Env → OneToOneNatInput → Option String
validate env p =
    if p.interface == ""
    then some ("interface is required")
    else if p.external == ""
    then some ("external IP/alias is required")
    else if p.source_net == ""
    then some ("source_net (internal IP/alias) is required")
    else if not (one_of ("binat" ∷ "nat" ∷ []) p.type)
    then some ("type must be binat|nat, got " <> env.repr (str p.type))
    else none

-- The endpoints of the writer.
abbrev pub resource : Resource
resource = record {
  kind = "one_to_one";
  add_path = "/api/firewall/one_to_one/addRule";
  delete_path = "/api/firewall/one_to_one/delRule/";
  apply_path = "/api/firewall/one_to_one/apply";
  search_path = "/api/firewall/one_to_one/searchRule";
  apply_name = "apply";
}

-- The audit notes of `create`
unfoldable pub notes : OneToOneNatInput → Notes
notes p = record {
  post_target = if p.description == "" then p.interface else p.description;
  late_target = p.interface;
  ok_target = λ uuid. uuid;
  ok_detail = λ uuid. p.description;
}

module _ (env : Env) (w : Writer) where
  -- `create`
  unfoldable pub create : OneToOneNatInput → M WriteResult
  unfolding notes to_payload validate create_row
  create p = validated (validate env p) (create_row env w resource (notes p) (to_payload p))

  -- `get`
  unfoldable get_item : String → M Value
  unfolding get_row
  get_item uuid = get_row env w "/api/firewall/one_to_one/getRule/" uuid

  -- `delete`
  unfoldable pub delete : String → M WriteResult
  unfolding delete_row
  delete uuid = delete_row env w resource uuid
