-- ===== src/Writers/Nat.antt =====
-- `src/writers/nat.py`: the outbound NAT rules.
use pegaprox_plugin_opnsense.Prelude.{
  String, ◌<>◌, Bool, not, Option, none, some, [], ◌∷◌, if◌then◌else◌, ◌==◌, one_of,
}
use pegaprox_plugin_opnsense.Value.{Value, str, dict, end, field, entries}
use pegaprox_plugin_opnsense.World.{Env, M}
use pegaprox_plugin_opnsense.Writers.{
  WriteResult, Writer, Resource, Notes, create_row, update_row, delete_row, get_row, validated,
}

-- `class NatInput`
pub record NatInput : Type 0 where
  pub interface : String
  pub target : String
  pub source_net : String
  pub destination_net : String
  pub description : String
  pub enabled : Bool
  pub ipprotocol : String
  pub protocol : String

-- `to_payload`
unfoldable pub to_payload : NatInput → Value
to_payload p = dict (
    field "rule"
      (dict (
        entries (
          ("disabled", str (if p.enabled then "0" else "1"))
          ∷ ("interface", str p.interface)
          ∷ ("ipprotocol", str p.ipprotocol)
          ∷ ("protocol", str p.protocol)
          ∷ ("source_net", str p.source_net)
          ∷ ("destination_net", str p.destination_net)
          ∷ ("target", str p.target)
          ∷ ("description", str p.description)
          ∷ [])))
      end)

-- `_validate`: the text of the `ValueError`, if there is one.
unfoldable pub validate : Env → NatInput → Option String
validate env p =
    if p.interface == ""
    then some ("interface is required")
    else if p.target == ""
    then some ("target is required (IP or alias)")
    else if not (one_of ("inet" ∷ "inet6" ∷ []) p.ipprotocol)
    then some ("ipprotocol must be inet|inet6, got " <> env.repr (str p.ipprotocol))
    else none

-- The endpoints of the writer.
abbrev pub resource : Resource
resource = record {
  kind = "nat";
  add_path = "/api/firewall/source_nat/addRule";
  delete_path = "/api/firewall/source_nat/delRule/";
  apply_path = "/api/firewall/source_nat/apply";
  search_path = "/api/firewall/source_nat/searchRule";
  apply_name = "apply";
}

-- The audit notes of `create`
unfoldable pub notes : NatInput → Notes
notes p = record {
  post_target = if p.description == "" then p.interface else p.description;
  late_target = p.interface;
  ok_target = λ uuid. uuid;
  ok_detail = λ uuid. p.description;
}

module _ (env : Env) (w : Writer) where
  -- `create`
  unfoldable pub create : NatInput → M WriteResult
  unfolding notes to_payload validate create_row
  create p = validated (validate env p) (create_row env w resource (notes p) (to_payload p))

  -- `update`
  unfoldable pub update : String → NatInput → M WriteResult
  unfolding to_payload validate update_row
  update uuid p =
      validated (validate env p)
        (update_row env w resource "/api/firewall/source_nat/setRule/" uuid (to_payload p) "")

  -- `get`
  unfoldable get_item : String → M Value
  unfolding get_row
  get_item uuid = get_row env w "/api/firewall/source_nat/getRule/" uuid

  -- `delete`
  unfoldable pub delete : String → M WriteResult
  unfolding delete_row
  delete uuid = delete_row env w resource uuid
