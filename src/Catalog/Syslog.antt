-- ===== src/Catalog/Syslog.antt =====
-- The resources of syslog in `src/management/catalog.py`.
use pegaprox_plugin_opnsense.Prelude.{true, false, none, some, [], ◌∷◌}
use pegaprox_plugin_opnsense.Value.{str}
use pegaprox_plugin_opnsense.Engine.{Spec}
use pegaprox_plugin_opnsense.Catalog.{entry}

abbrev pub syslog_destinations : Spec
syslog_destinations = record {
  id = "syslog_destinations";
  label = "Destinos Syslog";
  group = "Monitorización";
  base = "/api/syslog/settings";
  search = some "searchDestinations";
  get = some "getDestination";
  add = some "addDestination";
  set = some "setDestination";
  delete = some "delDestination";
  key = "destination";
  apply = "/api/syslog/service/reconfigure" ∷ [];
  apply_ack = [];
  fields =
      (record (entry "enabled" "Habilitado" "boolean" true false) { default = some (str "1") })
      ∷ (record (entry "transport" "Transport" "select" true false) {
        default = some (str "udp");
        options =
            ("udp4", "UDP(4)")
            ∷ ("tcp4", "TCP(4)")
            ∷ ("udp6", "UDP(6)")
            ∷ ("tcp6", "TCP(6)")
            ∷ ("tls4", "TLS(4)")
            ∷ ("tls6", "TLS(6)")
            ∷ [];
      })
      ∷ (record (entry "program" "Program" "select" false false) { multiple = true })
      ∷ (record (entry "level" "Level" "select" false false) {
        multiple = true;
        options =
            ("debug", "debug")
            ∷ ("info", "info")
            ∷ ("notice", "notice")
            ∷ ("warn", "warn")
            ∷ ("err", "error")
            ∷ ("crit", "critical")
            ∷ ("alert", "alert")
            ∷ ("emerg", "emergency")
            ∷ [];
      })
      ∷ (record (entry "facility" "Facility" "select" false false) {
        multiple = true;
        options =
            ("kern", "kernel messages")
            ∷ ("user", "user-level messages")
            ∷ ("mail", "mail system")
            ∷ ("daemon", "system daemons")
            ∷ ("auth", "security/authorization messages")
            ∷ ("syslog", "messages generated internally by syslogd")
            ∷ ("lpr", "line printer subsystem")
            ∷ ("news", "network news subsystem")
            ∷ ("uucp", "UUCP subsystem")
            ∷ ("cron", "clock daemon")
            ∷ ("authpriv", "security/authorization messages")
            ∷ ("ftp", "FTP daemon")
            ∷ ("ntp", "NTP subsystem")
            ∷ ("security", "log audit")
            ∷ ("console", "log alert")
            ∷ ("local0", "locally used (0)")
            ∷ ("local1", "locally used (1)")
            ∷ ("local2", "locally used (2)")
            ∷ ("local3", "locally used (3)")
            ∷ ("local4", "locally used (4)")
            ∷ ("local5", "locally used (5)")
            ∷ ("local6", "locally used (6)")
            ∷ ("local7", "locally used (7)")
            ∷ [];
      })
      ∷ entry "hostname" "Servidor" "text" true false
      ∷ entry "certificate" "Certificate" "select" false false
      ∷ (record (entry "port" "Puerto" "integer" true false) { default = some (str "514") })
      ∷ (record (entry "rfc5424" "Rfc5424" "boolean" true false) { default = some (str "0") })
      ∷ entry "description" "Descripción" "text" false false
      ∷ [];
  columns = "enabled" ∷ "description" ∷ "hostname" ∷ "port" ∷ [];
  qualification = "contract_only";
  singleton = false;
  ha_safe = false;
  persistence_only = false;
  prepare = none;
  verify = none;
}

abbrev pub syslog_general : Spec
syslog_general = record {
  id = "syslog_general";
  label = "Configuración Syslog";
  group = "Monitorización";
  base = "/api/syslog/settings";
  search = none;
  get = some "get";
  add = none;
  set = some "set";
  delete = none;
  key = "syslog.general";
  apply = "/api/syslog/service/reconfigure" ∷ [];
  apply_ack = [];
  fields =
      (record (entry "enabled" "Habilitado" "boolean" true false) { default = some (str "1") })
      ∷ (record (entry "loglocal" "Loglocal" "boolean" true false) { default = some (str "1") })
      ∷ (record (entry "maxpreserve" "Maxpreserve" "integer" true false) {
        default = some (str "31");
      })
      ∷ entry "maxfilesize" "Maxfilesize" "integer" false false
      ∷ [];
  columns = "enabled" ∷ [];
  qualification = "contract_only";
  singleton = true;
  ha_safe = false;
  persistence_only = false;
  prepare = none;
  verify = none;
}
