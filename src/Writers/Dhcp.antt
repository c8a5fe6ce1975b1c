-- ===== src/Writers/Dhcp.antt =====
-- `src/writers/dhcp.py`: the Kea DHCPv4 reservations.
use pegaprox_plugin_opnsense.Prelude.{
  String, ◌<>◌, ℕ, Bool, ◌&&◌, ◌||◌, not, Option, none, some, [], ◌∷◌, if◌then◌else◌, ◌==◌,
  count_chars, all_chars, is_digit, leb, eqb, is_hex, split_on, length, all_of, without_line_feed,
}
use pegaprox_plugin_opnsense.Value.{Value, str, dict, end, field, entries}
use pegaprox_plugin_opnsense.World.{Env, M}
use pegaprox_plugin_opnsense.Writers.{
  WriteResult, Writer, Resource, Notes, create_row, delete_row, get_row, validated,
}

-- `class DhcpReservationInput`
pub record DhcpReservationInput : Type 0 where
  pub subnet : String
  pub ip_address : String
  pub hw_address : String
  pub hostname : String
  pub description : String

-- `to_payload`
unfoldable pub to_payload : DhcpReservationInput → Value
to_payload p = dict (
    field "reservation"
      (dict (
        entries (
          ("subnet", str p.subnet)
          ∷ ("ip_address", str p.ip_address)
          ∷ ("hw_address", str p.hw_address)
          ∷ ("hostname", str p.hostname)
          ∷ ("description", str p.description)
          ∷ [])))
      end)

-- Between `low` and `high` characters, all digits.
abbrev digits_between : ℕ → ℕ → String → Bool
digits_between low high s =
    leb low (count_chars s) && leb (count_chars s) high && all_chars is_digit s

-- Two hexadecimal digits.
abbrev hex_pair : String → Bool
hex_pair s = eqb (count_chars s) 2 && all_chars is_hex s

-- `_MAC_RE`
unfoldable pub mac_matches : String → Bool
mac_matches s =
    let pieces = split_on (λ c. eqb c b':' || eqb c b'-') (without_line_feed s) in
    eqb (length pieces) 6 && all_of hex_pair pieces

-- `_IPV4_RE`
unfoldable pub ipv4_matches : String → Bool
ipv4_matches s =
    let pieces = split_on (λ c. eqb c b'.') (without_line_feed s) in
    eqb (length pieces) 4 && all_of (digits_between 1 3) pieces

-- `_validate`: the text of the `ValueError`, if there is one.
unfoldable pub validate : Env → DhcpReservationInput → Option String
validate env p =
    if p.subnet == ""
    then some ("subnet UUID is required")
    else if not (ipv4_matches p.ip_address)
    then some ("ip_address must be IPv4, got " <> env.repr (str p.ip_address))
    else if not (mac_matches p.hw_address)
    then some ("hw_address must be MAC (XX:XX:XX:XX:XX:XX), got " <> env.repr (str p.hw_address))
    else if p.hostname == ""
    then some ("hostname is required")
    else none

-- The endpoints of the writer.
abbrev pub resource : Resource
resource = record {
  kind = "dhcp_reservation";
  add_path = "/api/kea/dhcpv4/addReservation";
  delete_path = "/api/kea/dhcpv4/delReservation/";
  apply_path = "/api/kea/service/reconfigure";
  search_path = "/api/kea/dhcpv4/searchReservation";
  apply_name = "apply";
}

-- The audit notes of `create`
unfoldable pub notes : DhcpReservationInput → Notes
notes p = record {
  post_target = if p.hostname == "" then "?" else p.hostname;
  late_target = p.hostname;
  ok_target = λ uuid. uuid;
  ok_detail = λ uuid. p.description;
}

module _ (env : Env) (w : Writer) where
  -- `create`
  unfoldable pub create : DhcpReservationInput → M WriteResult
  unfolding notes to_payload validate create_row
  create p = validated (validate env p) (create_row env w resource (notes p) (to_payload p))

  -- `get`
  unfoldable get_item : String → M Value
  unfolding get_row
  get_item uuid = get_row env w "/api/kea/dhcpv4/getReservation/" uuid

  -- `delete`
  unfoldable pub delete : String → M WriteResult
  unfolding delete_row
  delete uuid = delete_row env w resource uuid
