-- ===== src/Catalog/Ipsec.antt =====
-- The resources of IPsec in `src/management/catalog.py`.
use pegaprox_plugin_opnsense.Prelude.{true, false, none, some, List, [], ◌∷◌, ◌++◌, pos}
use pegaprox_plugin_opnsense.Value.{str}
use pegaprox_plugin_opnsense.Engine.{Field, Spec}
use pegaprox_plugin_opnsense.Catalog.{entry}

abbrev ipsec_connections_fields_1 : List Field
ipsec_connections_fields_1 =
    (record (entry "enabled" "Habilitado" "boolean" true false) { default = some (str "1") })
    ∷ (record (entry "proposals" "Proposals" "select" true false) {
      default = some (str "default");
      multiple = true;
    })
    ∷ (record (entry "unique" "Unique" "select" true false) {
      default = some (str "no");
      options =
          ("no", "No (default)")
          ∷ ("never", "Never")
          ∷ ("keep", "Keep")
          ∷ ("replace", "Replace")
          ∷ [];
    })
    ∷ (record (entry "aggressive" "Aggressive" "boolean" true false) { default = some (str "0") })
    ∷ (record (entry "version" "Version" "select" true false) {
      default = some (str "0");
      options = ("0", "IKEv1+IKEv2") ∷ ("1", "IKEv1") ∷ ("2", "IKEv2") ∷ [];
    })
    ∷ (record (entry "mobike" "Mobike" "boolean" true false) { default = some (str "1") })
    ∷ entry "local_addrs" "Local addrs" "text" false false
    ∷ (record (entry "local_port" "Local port" "select" false false) {
      options = ("", "500 (default)") ∷ ("4500", "4500 (NAT-T)") ∷ [];
    })
    ∷ entry "remote_addrs" "Remote addrs" "text" false false
    ∷ (record (entry "remote_port" "Remote port" "select" false false) {
      options = ("", "500 (default)") ∷ ("4500", "4500 (NAT-T)") ∷ [];
    })
    ∷ (record (entry "encap" "Encap" "boolean" true false) { default = some (str "0") })
    ∷ (record (entry "reauth_time" "Reauth time" "integer" false false) {
      min = some (pos 0);
      max = some (pos 500000);
    })
    ∷ (record (entry "rekey_time" "Rekey time" "integer" false false) {
      min = some (pos 0);
      max = some (pos 500000);
    })
    ∷ (record (entry "over_time" "Over time" "integer" false false) {
      min = some (pos 0);
      max = some (pos 500000);
    })
    ∷ (record (entry "dpd_delay" "Dpd delay" "integer" false false) {
      min = some (pos 0);
      max = some (pos 500000);
    })
    ∷ (record (entry "dpd_timeout" "Dpd timeout" "integer" false false) {
      min = some (pos 0);
      max = some (pos 500000);
    })
    ∷ (record (entry "pools" "Pools" "text" false false) { multiple = true })
    ∷ (record (entry "send_certreq" "Send certreq" "boolean" true false) {
      default = some (str "1");
    })
    ∷ (record (entry "send_cert" "Send cert" "select" false false) {
      options = ("ifasked", "If asked") ∷ ("never", "Never") ∷ ("always", "Always") ∷ [];
    })
    ∷ (record (entry "keyingtries" "Keyingtries" "integer" false false) {
      min = some (pos 0);
      max = some (pos 1000);
    })
    ∷ []

abbrev ipsec_connections_fields_2 : List Field
ipsec_connections_fields_2 = entry "description" "Descripción" "text" true false ∷ []

abbrev pub ipsec_connections : Spec
ipsec_connections = record {
  id = "ipsec_connections";
  label = "Conexiones IPsec";
  group = "VPN";
  base = "/api/ipsec/connections";
  search = some "searchConnection";
  get = some "getConnection";
  add = some "addConnection";
  set = some "setConnection";
  delete = some "delConnection";
  key = "connection";
  apply = "/api/ipsec/service/reconfigure" ∷ [];
  apply_ack = [];
  fields = ipsec_connections_fields_1 ++ ipsec_connections_fields_2;
  columns = "enabled" ∷ "description" ∷ [];
  qualification = "contract_only";
  singleton = false;
  ha_safe = false;
  persistence_only = false;
  prepare = none;
  verify = none;
}

abbrev pub ipsec_children : Spec
ipsec_children = record {
  id = "ipsec_children";
  label = "Túneles IPsec";
  group = "VPN";
  base = "/api/ipsec/connections";
  search = some "searchChild";
  get = some "getChild";
  add = some "addChild";
  set = some "setChild";
  delete = some "delChild";
  key = "child";
  apply = "/api/ipsec/service/reconfigure" ∷ [];
  apply_ack = [];
  fields =
      (record (entry "enabled" "Habilitado" "boolean" true false) { default = some (str "1") })
      ∷ entry "connection" "Conexión" "select" true false
      ∷ (record (entry "reqid" "Reqid" "integer" false false) {
        min = some (pos 1);
        max = some (pos 65535);
      })
      ∷ (record (entry "esp_proposals" "Esp proposals" "select" true false) {
        default = some (str "default");
        multiple = true;
      })
      ∷ (record (entry "sha256_96" "Sha256 96" "boolean" true false) { default = some (str "0") })
      ∷ (record (entry "start_action" "Start action" "select" true false) {
        default = some (str "start");
        options =
            ("none", "None")
            ∷ ("trap|start", "Trap+start")
            ∷ ("route", "Route")
            ∷ ("start", "Start")
            ∷ ("trap", "Trap")
            ∷ [];
      })
      ∷ (record (entry "close_action" "Close action" "select" true false) {
        default = some (str "none");
        options = ("none", "None") ∷ ("trap", "Trap") ∷ ("start", "Start") ∷ [];
      })
      ∷ (record (entry "dpd_action" "Dpd action" "select" true false) {
        default = some (str "clear");
        options = ("clear", "Clear") ∷ ("trap", "Trap") ∷ ("start", "Start") ∷ [];
      })
      ∷ (record (entry "mode" "Mode" "select" true false) {
        default = some (str "tunnel");
        options =
            ("tunnel", "Tunnel")
            ∷ ("transport", "Transport")
            ∷ ("pass", "Pass")
            ∷ ("drop", "Drop")
            ∷ [];
      })
      ∷ (record (entry "policies" "Policies" "boolean" true false) { default = some (str "1") })
      ∷ entry "local_ts" "Redes locales" "text" false false
      ∷ entry "remote_ts" "Redes remotas" "text" false false
      ∷ (record (entry "rekey_time" "Rekey time" "integer" true false) {
        default = some (str "3600");
        min = some (pos 0);
        max = some (pos 500000);
      })
      ∷ entry "description" "Descripción" "text" false false
      ∷ [];
  columns = "enabled" ∷ "description" ∷ [];
  qualification = "contract_only";
  singleton = false;
  ha_safe = false;
  persistence_only = false;
  prepare = none;
  verify = none;
}
