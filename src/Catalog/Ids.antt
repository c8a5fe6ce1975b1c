-- ===== src/Catalog/Ids.antt =====
-- The resources of intrusion detection in `src/management/catalog.py`.
use pegaprox_plugin_opnsense.Prelude.{true, false, none, some, [], ◌∷◌, pos}
use pegaprox_plugin_opnsense.Value.{str}
use pegaprox_plugin_opnsense.Engine.{Spec}
use pegaprox_plugin_opnsense.Catalog.{entry}

abbrev pub ids_rules : Spec
ids_rules = record {
  id = "ids_rules";
  label = "Reglas IDS propias";
  group = "Seguridad";
  base = "/api/ids/settings";
  search = some "searchUserRule";
  get = some "getUserRule";
  add = some "addUserRule";
  set = some "setUserRule";
  delete = some "delUserRule";
  key = "rule";
  apply = "/api/ids/service/reconfigure" ∷ [];
  apply_ack = [];
  fields =
      (record (entry "enabled" "Habilitado" "boolean" true false) { default = some (str "1") })
      ∷ entry "source" "Source" "text" false false
      ∷ entry "destination" "Destination" "text" false false
      ∷ entry "fingerprint" "Fingerprint" "text" false false
      ∷ entry "description" "Descripción" "text" true false
      ∷ (record (entry "action" "Acción" "select" true false) {
        default = some (str "alert");
        options = ("alert", "Alert") ∷ ("drop", "Drop") ∷ ("pass", "Pass") ∷ [];
      })
      ∷ (record (entry "bypass" "Bypass" "boolean" true false) { default = some (str "0") })
      ∷ [];
  columns = "enabled" ∷ "description" ∷ [];
  qualification = "contract_only";
  singleton = false;
  ha_safe = false;
  persistence_only = false;
  prepare = none;
  verify = none;
}

abbrev pub ids_general : Spec
ids_general = record {
  id = "ids_general";
  label = "Configuración IDS/IPS";
  group = "Seguridad";
  base = "/api/ids/settings";
  search = none;
  get = some "get";
  add = none;
  set = some "set";
  delete = none;
  key = "ids.general";
  apply = "/api/ids/service/reconfigure" ∷ [];
  apply_ack = [];
  fields =
      (record (entry "enabled" "Habilitado" "boolean" true false) { default = some (str "0") })
      ∷ (record (entry "mode" "Mode" "select" true false) {
        default = some (str "pcap");
        options =
            ("pcap", "PCAP live mode (IDS)")
            ∷ ("netmap", "Netmap (IPS)")
            ∷ ("divert", "Divert (IPS)")
            ∷ [];
      })
      ∷ (record (entry "divert_listeners" "Divert listeners" "integer" true false) {
        default = some (str "1");
        min = some (pos 1);
        max = some (pos 256);
      })
      ∷ (record (entry "promisc" "Promisc" "boolean" true false) { default = some (str "0") })
      ∷ (record (entry "interfaces" "Interfaces" "select" true false) {
        default = some (str "wan");
        multiple = true;
      })
      ∷ (record (entry "homenet" "Homenet" "text" true false) {
        default = some (str "192.168.0.0/16,10.0.0.0/8,172.16.0.0/12");
      })
      ∷ (record (entry "defaultPacketSize" "Defaultpacketsize" "integer" false false) {
        min = some (pos 82);
        max = some (pos 65535);
      })
      ∷ entry "UpdateCron" "Updatecron" "select" false false
      ∷ (record (entry "AlertLogrotate" "Alertlogrotate" "select" true false) {
        default = some (str "W0D23");
        options = ("W0D23", "Weekly") ∷ ("D0", "Daily") ∷ [];
      })
      ∷ (record (entry "AlertSaveLogs" "Alertsavelogs" "integer" true false) {
        default = some (str "4");
        min = some (pos 1);
        max = some (pos 1000);
      })
      ∷ (record (entry "MPMAlgo" "Mpmalgo" "select" false false) {
        options =
            ("ac", "Aho-Corasick")
            ∷ ("ac-ks", "Aho-Corasick, \"Ken Steele\" variant")
            ∷ ("hs", "Hyperscan")
            ∷ [];
      })
      ∷ (record (entry "syslog" "Syslog" "boolean" true false) { default = some (str "0") })
      ∷ (record (entry "syslog_eve" "Syslog eve" "boolean" true false) { default = some (str "0") })
      ∷ (record (entry "LogPayload" "Logpayload" "boolean" true false) { default = some (str "0") })
      ∷ (record (entry "verbosity" "Verbosity" "select" false false) {
        options =
            ("v", "INFO (1)")
            ∷ ("vv", "PERF (2)")
            ∷ ("vvv", "CONFIG (3)")
            ∷ ("vvvv", "DEBUG (4)")
            ∷ [];
      })
      ∷ [];
  columns = "enabled" ∷ [];
  qualification = "contract_only";
  singleton = true;
  ha_safe = false;
  persistence_only = false;
  prepare = none;
  verify = none;
}
