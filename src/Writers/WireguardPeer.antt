-- ===== src/Writers/WireguardPeer.antt =====
-- `src/writers/wireguard_peer.py`: the WireGuard peers.
use pegaprox_plugin_opnsense.Prelude.{
  String, Bool, ◌||◌, not, Option, none, some, [], ◌∷◌, if◌then◌else◌, ◌==◌, decimal_int, ℤ,
  outside, has_char, count_chars, ends_with_char, eqb,
}
use pegaprox_plugin_opnsense.Value.{Value, str, dict, end, field, put, entries}
use pegaprox_plugin_opnsense.Exec.{is_opnsense, pure, catch, ◌>>=◌}
use pegaprox_plugin_opnsense.World.{Env, M}
use pegaprox_plugin_opnsense.Client.{get, post}
use pegaprox_plugin_opnsense.Writers.{
  WriteResult, Writer, Resource, Notes, create_row, delete_row, get_row, rows_in, flag, validated,
}

-- `class WireguardPeerInput`
pub record WireguardPeerInput : Type 0 where
  pub name : String
  pub pubkey : String
  pub tunneladdress : String
  pub keepalive : ℤ
  pub psk : String
  pub enabled : Bool

-- `to_payload`
unfoldable pub to_payload : WireguardPeerInput → Value
to_payload p =
    let body = entries (
      ("enabled", flag p.enabled)
      ∷ ("name", str p.name)
      ∷ ("pubkey", str p.pubkey)
      ∷ ("tunneladdress", str p.tunneladdress)
      ∷ ("keepalive", str (decimal_int p.keepalive))
      ∷ []) in
    dict (field "client" (dict (if p.psk == "" then body else put "psk" (str p.psk) body)) end)

-- `_validate`: the text of the `ValueError`, if there is one.
unfoldable pub validate : Env → WireguardPeerInput → Option String
validate env p =
    if p.name == ""
    then some ("name is required")
    else if p.pubkey == ""
        || not (eqb (count_chars p.pubkey) 44)
        || not (ends_with_char b'=' p.pubkey)
    then some ("pubkey must be a 44-char base64-encoded WireGuard public key")
    else if p.tunneladdress == "" || not (has_char b'/' p.tunneladdress)
    then some ("tunneladdress must be CIDR (e.g. 10.99.0.5/32)")
    else if outside 65535 p.keepalive
    then some ("keepalive must be 0..65535 seconds")
    else none

-- The endpoints of the writer.
abbrev pub resource : Resource
resource = record {
  kind = "wgpeer";
  add_path = "/api/wireguard/client/addClient";
  delete_path = "/api/wireguard/client/delClient/";
  apply_path = "/api/wireguard/service/reconfigure";
  search_path = "/api/wireguard/client/searchClient";
  apply_name = "apply";
}

module _ (env : Env) (w : Writer) where
  -- `search`: a POST, where the GET fails.
  unfoldable pub search_peers : M Value
  unfolding rows_in
  search_peers = do
    out ←
        catch is_opnsense (get env w.client resource.search_path end)
          (λ e. post env w.client resource.search_path (dict end))
    pure (rows_in env w resource out)

-- The audit notes of `create`
unfoldable pub notes : WireguardPeerInput → Notes
notes p = record {
  post_target = if p.name == "" then "?" else p.name;
  late_target = p.name;
  ok_target = λ uuid. uuid;
  ok_detail = λ uuid. p.name;
}

module _ (env : Env) (w : Writer) where
  -- `create`
  unfoldable pub create : WireguardPeerInput → M WriteResult
  unfolding notes to_payload validate create_row
  create p = validated (validate env p) (create_row env w resource (notes p) (to_payload p))

  -- `get`
  unfoldable get_item : String → M Value
  unfolding get_row
  get_item uuid = get_row env w "/api/wireguard/client/getClient/" uuid

  -- `delete`
  unfoldable pub delete : String → M WriteResult
  unfolding delete_row
  delete uuid = delete_row env w resource uuid
