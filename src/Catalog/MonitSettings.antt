-- ===== src/Catalog/MonitSettings.antt =====
-- The resources of the settings of Monit in `src/management/catalog.py`.
use pegaprox_plugin_opnsense.Prelude.{true, false, none, some, List, [], ◌∷◌, pos}
use pegaprox_plugin_opnsense.Value.{str}
use pegaprox_plugin_opnsense.Engine.{Field, Spec}
use pegaprox_plugin_opnsense.Catalog.{entry}

abbrev monit_general_fields : List Field
monit_general_fields =
    (record (entry "enabled" "Habilitado" "boolean" true false) { default = some (str "0") })
    ∷ (record (entry "interval" "Interval" "integer" true false) {
      default = some (str "120");
      min = some (pos 0);
      max = some (pos 86400);
    })
    ∷ (record (entry "startdelay" "Startdelay" "integer" true false) {
      default = some (str "120");
      min = some (pos 0);
      max = some (pos 86400);
    })
    ∷ (record (entry "mailserver" "Mailserver" "text" true false) {
      default = some (str "127.0.0.1");
    })
    ∷ (record (entry "port" "Puerto" "integer" true false) {
      default = some (str "25");
      min = some (pos 0);
      max = some (pos 65535);
    })
    ∷ entry "username" "Username" "text" false false
    ∷ entry "password" "Contraseña" "text" false true
    ∷ (record (entry "ssl" "Ssl" "boolean" true false) { default = some (str "0") })
    ∷ (record (entry "sslversion" "Sslversion" "select" true false) {
      default = some (str "auto");
      options =
          ("auto", "AUTO")
          ∷ ("tlsv1", "TLSV1")
          ∷ ("tlsv11", "TLSV11")
          ∷ ("tlsv12", "TLSV12")
          ∷ ("tlsv13", "TLSV13")
          ∷ [];
    })
    ∷ (record (entry "sslverify" "Sslverify" "boolean" true false) { default = some (str "1") })
    ∷ entry "logfile" "Logfile" "text" false false
    ∷ entry "statefile" "Statefile" "text" false false
    ∷ entry "eventqueuePath" "Eventqueuepath" "text" false false
    ∷ entry "eventqueueSlots" "Eventqueueslots" "integer" false false
    ∷ (record (entry "httpdEnabled" "Httpdenabled" "boolean" true false) {
      default = some (str "0");
    })
    ∷ (record (entry "httpdUsername" "Httpdusername" "text" true false) {
      default = some (str "root");
    })
    ∷ entry "httpdPassword" "Httpdpassword" "text" false true
    ∷ (record (entry "httpdPort" "Httpdport" "integer" true false) {
      default = some (str "2812");
      min = some (pos 1);
      max = some (pos 65535);
    })
    ∷ entry "httpdAllow" "Httpdallow" "text" false false
    ∷ entry "mmonitUrl" "Mmoniturl" "text" false true
    ∷ (record (entry "mmonitTimeout" "Mmonittimeout" "integer" true false) {
      default = some (str "5");
      min = some (pos 0);
      max = some (pos 86400);
    })
    ∷ (record (entry "mmonitRegisterCredentials" "Mmonitregistercredentials" "boolean" true false) {
      default = some (str "1");
    })
    ∷ []

abbrev pub monit_general : Spec
monit_general = record {
  id = "monit_general";
  label = "Configuración Monit";
  group = "Monitorización";
  base = "/api/monit/settings";
  search = none;
  get = some "get";
  add = none;
  set = some "set";
  delete = none;
  key = "monit.general";
  apply = "/api/monit/service/reconfigure" ∷ [];
  apply_ack =
      ("status", "ok" ∷ [])
      ∷ ("template", "OK" ∷ [])
      ∷ ("result", "Control file syntax OK" ∷ [])
      ∷ [];
  fields = monit_general_fields;
  columns = "enabled" ∷ "port" ∷ [];
  qualification = "contract_only";
  singleton = true;
  ha_safe = false;
  persistence_only = false;
  prepare = none;
  verify = none;
}
