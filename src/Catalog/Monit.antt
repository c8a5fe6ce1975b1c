-- ===== src/Catalog/Monit.antt =====
-- The resources of Monit in `src/management/catalog.py`.
use pegaprox_plugin_opnsense.Prelude.{true, false, none, some, [], ◌∷◌, pos}
use pegaprox_plugin_opnsense.Value.{str}
use pegaprox_plugin_opnsense.Engine.{Spec}
use pegaprox_plugin_opnsense.Catalog.{entry}

abbrev pub monit_services : Spec
monit_services = record {
  id = "monit_services";
  label = "Servicios Monit";
  group = "Monitorización";
  base = "/api/monit/settings";
  search = some "searchService";
  get = some "getService";
  add = some "addService";
  set = some "setService";
  delete = some "delService";
  key = "service";
  apply = "/api/monit/service/reconfigure" ∷ [];
  apply_ack =
      ("status", "ok" ∷ [])
      ∷ ("template", "OK" ∷ [])
      ∷ ("result", "Control file syntax OK" ∷ [])
      ∷ [];
  fields =
      (record (entry "enabled" "Habilitado" "boolean" true false) { default = some (str "0") })
      ∷ entry "name" "Nombre" "text" true false
      ∷ entry "description" "Descripción" "text" false false
      ∷ (record (entry "type" "Type" "select" true false) {
        options =
            ("process", "Process")
            ∷ ("file", "File")
            ∷ ("fifo", "Fifo")
            ∷ ("filesystem", "Filesystem")
            ∷ ("directory", "Directory")
            ∷ ("host", "Remote Host")
            ∷ ("system", "System")
            ∷ ("custom", "Custom")
            ∷ ("network", "Network")
            ∷ [];
      })
      ∷ entry "pidfile" "Pidfile" "text" false false
      ∷ entry "match" "Match" "text" false false
      ∷ entry "path" "Path" "text" false false
      ∷ (record (entry "timeout" "Timeout" "integer" true false) {
        default = some (str "300");
        min = some (pos 1);
        max = some (pos 86400);
      })
      ∷ (record (entry "starttimeout" "Starttimeout" "integer" true false) {
        default = some (str "30");
        min = some (pos 0);
        max = some (pos 86400);
      })
      ∷ entry "address" "Address" "text" false false
      ∷ entry "interface" "Interfaz" "select" false false
      ∷ entry "start" "Start" "text" false false
      ∷ entry "stop" "Stop" "text" false false
      ∷ (record (entry "tests" "Tests" "select" false false) { multiple = true })
      ∷ (record (entry "depends" "Depends" "select" false false) { multiple = true })
      ∷ entry "polltime" "Polltime" "text" false false
      ∷ [];
  columns = "enabled" ∷ "name" ∷ "description" ∷ "interface" ∷ [];
  qualification = "contract_only";
  singleton = false;
  ha_safe = false;
  persistence_only = false;
  prepare = none;
  verify = none;
}

abbrev pub monit_alerts : Spec
monit_alerts = record {
  id = "monit_alerts";
  label = "Alertas Monit";
  group = "Monitorización";
  base = "/api/monit/settings";
  search = some "searchAlert";
  get = some "getAlert";
  add = some "addAlert";
  set = some "setAlert";
  delete = some "delAlert";
  key = "alert";
  apply = "/api/monit/service/reconfigure" ∷ [];
  apply_ack =
      ("status", "ok" ∷ [])
      ∷ ("template", "OK" ∷ [])
      ∷ ("result", "Control file syntax OK" ∷ [])
      ∷ [];
  fields =
      (record (entry "enabled" "Habilitado" "boolean" true false) { default = some (str "0") })
      ∷ (record (entry "recipient" "Recipient" "text" true false) {
        default = some (str "root@localhost.local");
      })
      ∷ (record (entry "noton" "Noton" "boolean" true false) { default = some (str "0") })
      ∷ (record (entry "events" "Events" "select" false false) {
        multiple = true;
        options =
            ("action", "Action done")
            ∷ ("checksum", "Checksum failed")
            ∷ ("bytein", "Download bytes exceeded")
            ∷ ("byteout", "Upload bytes exceeded")
            ∷ ("connection", "Connection failed")
            ∷ ("content", "Content failed")
            ∷ ("data", "Data access error")
            ∷ ("exec", "Execution failed")
            ∷ ("fsflags", "Filesystem flags failed")
            ∷ ("gid", "GID failed")
            ∷ ("icmp", "Ping failed")
            ∷ ("instance", "Monit instance changed")
            ∷ ("invalid", "Invalid type")
            ∷ ("link", "Link down")
            ∷ ("nonexist", "Does not exist")
            ∷ ("packetin", "Download packets exceeded")
            ∷ ("packetout", "Upload packets exceeded")
            ∷ ("permission", "Permission failed")
            ∷ ("pid", "PID failed")
            ∷ ("ppid", "PPID failed")
            ∷ ("resource", "Resource limit matched")
            ∷ ("saturation", "Saturation exceeded")
            ∷ ("size", "Size failed")
            ∷ ("speed", "Speed failed")
            ∷ ("status", "Status failed")
            ∷ ("timeout", "Timeout")
            ∷ ("timestamp", "Timestamp failed")
            ∷ ("uid", "UID failed")
            ∷ ("uptime", "Uptime failed")
            ∷ [];
      })
      ∷ entry "format" "Format" "text" false false
      ∷ (record (entry "reminder" "Reminder" "integer" false false) {
        min = some (pos 0);
        max = some (pos 86400);
      })
      ∷ entry "description" "Descripción" "text" false false
      ∷ [];
  columns = "enabled" ∷ "description" ∷ [];
  qualification = "contract_only";
  singleton = false;
  ha_safe = false;
  persistence_only = false;
  prepare = none;
  verify = none;
}

abbrev pub monit_tests : Spec
monit_tests = record {
  id = "monit_tests";
  label = "Pruebas Monit";
  group = "Monitorización";
  base = "/api/monit/settings";
  search = some "searchTest";
  get = some "getTest";
  add = some "addTest";
  set = some "setTest";
  delete = some "delTest";
  key = "test";
  apply = "/api/monit/service/reconfigure" ∷ [];
  apply_ack =
      ("status", "ok" ∷ [])
      ∷ ("template", "OK" ∷ [])
      ∷ ("result", "Control file syntax OK" ∷ [])
      ∷ [];
  fields =
      entry "name" "Nombre" "text" true false
      ∷ (record (entry "type" "Type" "select" true false) {
        default = some (str "Custom");
        options =
            ("Existence", "Existence")
            ∷ ("SystemResource", "System Resource")
            ∷ ("ProcessResource", "Process Resource")
            ∷ ("ProcessDiskIO", "Process Disk I/O")
            ∷ ("FileChecksum", "File Checksum")
            ∷ ("Timestamp", "Timestamp")
            ∷ ("FileSize", "File Size")
            ∷ ("FileContent", "File Content")
            ∷ ("FilesystemMountFlags", "Filesystem Mount Flags")
            ∷ ("SpaceUsage", "Space Usage")
            ∷ ("InodeUsage", "Inode Usage")
            ∷ ("DiskIO", "Disk I/O")
            ∷ ("Permisssion", "Permission")
            ∷ ("UID", "UID")
            ∷ ("GID", "GID")
            ∷ ("PID", "PID")
            ∷ ("PPID", "PPID")
            ∷ ("Uptime", "Uptime")
            ∷ ("ProgramStatus", "Program Status")
            ∷ ("NetworkInterface", "Network Interface")
            ∷ ("NetworkPing", "Network Ping")
            ∷ ("Connection", "Connection")
            ∷ ("Custom", "Custom")
            ∷ [];
      })
      ∷ entry "condition" "Condición" "text" true false
      ∷ (record (entry "action" "Acción" "select" true false) {
        options =
            ("alert", "Alert")
            ∷ ("restart", "Restart")
            ∷ ("start", "Start")
            ∷ ("stop", "Stop")
            ∷ ("exec", "Execute")
            ∷ ("unmonitor", "Unmonitor")
            ∷ [];
      })
      ∷ entry "path" "Path" "text" false false
      ∷ [];
  columns = "name" ∷ [];
  qualification = "contract_only";
  singleton = false;
  ha_safe = false;
  persistence_only = false;
  prepare = none;
  verify = none;
}
