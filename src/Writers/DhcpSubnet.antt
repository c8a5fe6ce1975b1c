-- ===== src/Writers/DhcpSubnet.antt =====
-- `src/writers/dhcp_subnet.py`: the Kea DHCPv4 subnets.
use pegaprox_plugin_opnsense.Prelude.{
  String, ◌<>◌, ℕ, Bool, false, ◌&&◌, not, Option, none, some, List, [], ◌∷◌, if◌then◌else◌, ◌==◌,
  count_chars, all_chars, is_digit, leb, eqb, split_on, length, all_of, without_line_feed,
}
use pegaprox_plugin_opnsense.Value.{Value, str, dict, end, field, entries}
use pegaprox_plugin_opnsense.World.{Env, M}
use pegaprox_plugin_opnsense.Writers.{
  WriteResult, Writer, Resource, Notes, create_row, delete_row, get_row, flag, validated,
}

-- `class DhcpSubnetInput`
pub record DhcpSubnetInput : Type 0 where
  pub subnet : String
  pub description : String
  pub pools : String
  pub next_server : String
  pub match_client_id : Bool

-- `to_payload`
unfoldable pub to_payload : DhcpSubnetInput → Value
to_payload p = dict (
    field "subnet4"
      (dict (
        entries (
          ("subnet", str p.subnet)
          ∷ ("description", str p.description)
          ∷ ("pools", str p.pools)
          ∷ ("next_server", str p.next_server)
          ∷ ("match-client-id", flag p.match_client_id)
          ∷ [])))
      end)

-- Between `low` and `high` characters, all digits.
abbrev digits_between : ℕ → ℕ → String → Bool
digits_between low high s =
    leb low (count_chars s) && leb (count_chars s) high && all_chars is_digit s

-- `_CIDR_RE`, on the parts before and after the slash
cidr_parts : List String → Bool
cidr_parts (address ∷ width ∷ []) =
    let pieces = split_on (λ c. eqb c b'.') address in
    eqb (length pieces) 4 && all_of (digits_between 1 3) pieces && digits_between 1 2 width
cidr_parts _ = false

unfoldable pub cidr_matches : String → Bool
unfolding cidr_parts
cidr_matches s = cidr_parts (split_on (λ c. eqb c b'/') (without_line_feed s))

-- `_validate`: the text of the `ValueError`, if there is one.
unfoldable pub validate : Env → DhcpSubnetInput → Option String
validate env p =
    if not (cidr_matches p.subnet)
    then some ("subnet must be IPv4 CIDR (e.g. 192.168.1.0/24), got " <> env.repr (str p.subnet))
    else none

-- The endpoints of the writer.
abbrev pub resource : Resource
resource = record {
  kind = "dhcp_subnet";
  add_path = "/api/kea/dhcpv4/addSubnet";
  delete_path = "/api/kea/dhcpv4/delSubnet/";
  apply_path = "/api/kea/service/reconfigure";
  search_path = "/api/kea/dhcpv4/searchSubnet";
  apply_name = "apply";
}

-- The audit notes of `create`
unfoldable pub notes : DhcpSubnetInput → Notes
notes p = record {
  post_target = if p.subnet == "" then "?" else p.subnet;
  late_target = p.subnet;
  ok_target = λ uuid. uuid;
  ok_detail = λ uuid. p.description;
}

module _ (env : Env) (w : Writer) where
  -- `create`
  unfoldable pub create : DhcpSubnetInput → M WriteResult
  unfolding notes to_payload validate create_row
  create p = validated (validate env p) (create_row env w resource (notes p) (to_payload p))

  -- `get`
  unfoldable get_item : String → M Value
  unfolding get_row
  get_item uuid = get_row env w "/api/kea/dhcpv4/getSubnet/" uuid

  -- `delete`
  unfoldable pub delete : String → M WriteResult
  unfolding delete_row
  delete uuid = delete_row env w resource uuid
