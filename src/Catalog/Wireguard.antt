-- ===== src/Catalog/Wireguard.antt =====
-- The resources of WireGuard in `src/management/catalog.py`.
use pegaprox_plugin_opnsense.Prelude.{true, false, none, some, [], ◌∷◌, pos}
use pegaprox_plugin_opnsense.Value.{str}
use pegaprox_plugin_opnsense.Engine.{Spec}
use pegaprox_plugin_opnsense.Catalog.{entry}

abbrev pub wireguard_servers : Spec
wireguard_servers = record {
  id = "wireguard_servers";
  label = "Instancias WireGuard";
  group = "VPN";
  base = "/api/wireguard/server";
  search = some "searchServer";
  get = some "getServer";
  add = some "addServer";
  set = some "setServer";
  delete = some "delServer";
  key = "server";
  apply = "/api/wireguard/service/reconfigure" ∷ [];
  apply_ack = [];
  fields =
      (record (entry "enabled" "Habilitado" "boolean" true false) { default = some (str "1") })
      ∷ entry "name" "Nombre" "text" true false
      ∷ (record (entry "pubkey" "Clave pública" "text" false false) {
        readonly = true;
        generated = true;
      })
      ∷ entry "privkey" "Clave privada" "text" true true
      ∷ entry "port" "Puerto" "integer" false false
      ∷ (record (entry "mtu" "Mtu" "integer" false false) {
        min = some (pos 1);
        max = some (pos 9300);
      })
      ∷ entry "dns" "Dns" "text" false false
      ∷ entry "tunneladdress" "Direcciones del túnel" "text" false false
      ∷ (record (entry "disableroutes" "Disableroutes" "boolean" true false) {
        default = some (str "0");
      })
      ∷ entry "gateway" "Gateway" "text" false false
      ∷ entry "carp_depend_on" "Carp depend on" "select" false false
      ∷ (record (entry "peers" "Peers" "select" false false) { multiple = true })
      ∷ (record (entry "debug" "Debug" "boolean" true false) { default = some (str "0") })
      ∷ entry "endpoint" "Endpoint" "text" false false
      ∷ entry "peer_dns" "Peer dns" "text" false false
      ∷ [];
  columns = "enabled" ∷ "name" ∷ "port" ∷ [];
  qualification = "contract_only";
  singleton = false;
  ha_safe = false;
  persistence_only = false;
  prepare = none;
  verify = none;
}

abbrev pub wireguard_clients : Spec
wireguard_clients = record {
  id = "wireguard_clients";
  label = "Peers WireGuard";
  group = "VPN";
  base = "/api/wireguard/client";
  search = some "searchClient";
  get = some "getClient";
  add = some "addClient";
  set = some "setClient";
  delete = some "delClient";
  key = "client";
  apply = "/api/wireguard/service/reconfigure" ∷ [];
  apply_ack = [];
  fields =
      (record (entry "enabled" "Habilitado" "boolean" true false) { default = some (str "1") })
      ∷ entry "name" "Nombre" "text" true false
      ∷ entry "pubkey" "Clave pública" "text" true false
      ∷ entry "psk" "Clave precompartida" "text" false true
      ∷ entry "tunneladdress" "Direcciones del túnel" "text" true false
      ∷ entry "serveraddress" "Serveraddress" "text" false false
      ∷ entry "serverport" "Serverport" "integer" false false
      ∷ (record (entry "keepalive" "Keepalive" "integer" false false) {
        min = some (pos 1);
        max = some (pos 65535);
      })
      ∷ [];
  columns = "enabled" ∷ "name" ∷ [];
  qualification = "contract_only";
  singleton = false;
  ha_safe = false;
  persistence_only = false;
  prepare = none;
  verify = none;
}

abbrev pub wireguard_general : Spec
wireguard_general = record {
  id = "wireguard_general";
  label = "Configuración WireGuard";
  group = "VPN";
  base = "/api/wireguard/general";
  search = none;
  get = some "get";
  add = none;
  set = some "set";
  delete = none;
  key = "general";
  apply = "/api/wireguard/service/reconfigure" ∷ [];
  apply_ack = [];
  fields =
      (record (entry "enabled" "Habilitado" "boolean" true false) { default = some (str "0") })
      ∷ [];
  columns = "enabled" ∷ [];
  qualification = "contract_only";
  singleton = true;
  ha_safe = false;
  persistence_only = false;
  prepare = none;
  verify = none;
}
