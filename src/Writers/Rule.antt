-- ===== src/Writers/Rule.antt =====
-- `src/writers/rule.py`: the filter rules.
use pegaprox_plugin_opnsense.Prelude.{
  String, ◌<>◌, Bool, not, Option, none, some, [], ◌∷◌, if◌then◌else◌, ◌==◌, one_of, decimal_int, ℤ,
}
use pegaprox_plugin_opnsense.Value.{Value, str, dict, end, field, entries}
use pegaprox_plugin_opnsense.World.{Env, M}
use pegaprox_plugin_opnsense.Writers.{
  WriteResult, Writer, Resource, Notes, create_row, update_row, delete_row, get_row, flag,
  validated,
}

-- `class RuleInput`
pub record RuleInput : Type 0 where
  pub interface : String
  pub action : String
  pub direction : String
  pub ipprotocol : String
  pub protocol : String
  pub source_net : String
  pub source_port : String
  pub destination_net : String
  pub destination_port : String
  pub description : String
  pub enabled : Bool
  pub sequence : ℤ

-- `to_payload`
unfoldable pub to_payload : RuleInput → Value
to_payload p = dict (
    field "rule"
      (dict (
        entries (
          ("enabled", flag p.enabled)
          ∷ ("sequence", str (decimal_int p.sequence))
          ∷ ("action", str p.action)
          ∷ ("direction", str p.direction)
          ∷ ("ipprotocol", str p.ipprotocol)
          ∷ ("protocol", str p.protocol)
          ∷ ("source_net", str p.source_net)
          ∷ ("source_port", str p.source_port)
          ∷ ("destination_net", str p.destination_net)
          ∷ ("destination_port", str p.destination_port)
          ∷ ("interface", str p.interface)
          ∷ ("description", str p.description)
          ∷ [])))
      end)

-- `_validate`: the text of the `ValueError`, if there is one.
unfoldable pub validate : Env → RuleInput → Option String
validate env p =
    if not (one_of ("pass" ∷ "block" ∷ "reject" ∷ []) p.action)
    then some ("action must be one of ('pass', 'block', 'reject'), got " <> env.repr (str p.action))
    else if not (one_of ("in" ∷ "out" ∷ []) p.direction)
    then some ("direction must be one of ('in', 'out'), got " <> env.repr (str p.direction))
    else if not (one_of ("inet" ∷ "inet6" ∷ "inet46" ∷ []) p.ipprotocol)
    then some (
        "ipprotocol must be one of ('inet', 'inet6', 'inet46'), got "
        <> env.repr (str p.ipprotocol))
    else if p.interface == ""
    then some ("interface is required")
    else none

-- The endpoints of the writer.
abbrev pub resource : Resource
resource = record {
  kind = "rule";
  add_path = "/api/firewall/filter/addRule";
  delete_path = "/api/firewall/filter/delRule/";
  apply_path = "/api/firewall/filter/apply";
  search_path = "/api/firewall/filter/searchRule";
  apply_name = "apply";
}

-- The audit notes of `create`
unfoldable pub notes : RuleInput → Notes
notes p = record {
  post_target = if p.description == "" then p.interface else p.description;
  late_target = p.interface;
  ok_target = λ uuid. uuid;
  ok_detail = λ uuid. p.description;
}

module _ (env : Env) (w : Writer) where
  -- `create`
  unfoldable pub create : RuleInput → M WriteResult
  unfolding notes to_payload validate create_row
  create p = validated (validate env p) (create_row env w resource (notes p) (to_payload p))

  -- `update`
  unfoldable pub update : String → RuleInput → M WriteResult
  unfolding to_payload validate update_row
  update uuid p =
      validated (validate env p)
        (update_row env w resource "/api/firewall/filter/setRule/" uuid (to_payload p) "")

  -- `get`
  unfoldable get_item : String → M Value
  unfolding get_row
  get_item uuid = get_row env w "/api/firewall/filter/getRule/" uuid

  -- `delete`
  unfoldable pub delete : String → M WriteResult
  unfolding delete_row
  delete uuid = delete_row env w resource uuid
