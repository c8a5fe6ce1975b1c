-- ===== src/Catalog/Network.antt =====
-- The resources of routes, categories, the captive portal and cron in `src/management/catalog.py`.
use pegaprox_plugin_opnsense.Prelude.{true, false, none, some, [], ◌∷◌, pos}
use pegaprox_plugin_opnsense.Value.{str}
use pegaprox_plugin_opnsense.Engine.{Spec}
use pegaprox_plugin_opnsense.Catalog.{entry}

abbrev pub static_routes : Spec
static_routes = record {
  id = "static_routes";
  label = "Rutas estáticas";
  group = "Red";
  base = "/api/routes/routes";
  search = some "searchroute";
  get = some "getroute";
  add = some "addroute";
  set = some "setroute";
  delete = some "delroute";
  key = "route";
  apply = "/api/routes/routes/reconfigure" ∷ [];
  apply_ack = [];
  fields =
      entry "network" "Red CIDR" "text" true false
      ∷ entry "gateway" "Gateway" "select" true false
      ∷ entry "descr" "Descripción" "text" false false
      ∷ (record (entry "disabled" "Deshabilitado" "boolean" true false) {
        default = some (str "0");
      })
      ∷ [];
  columns = "descr" ∷ "network" ∷ [];
  qualification = "contract_only";
  singleton = false;
  ha_safe = false;
  persistence_only = false;
  prepare = none;
  verify = none;
}

abbrev pub categories : Spec
categories = record {
  id = "categories";
  label = "Categorías firewall";
  group = "Firewall";
  base = "/api/firewall/category";
  search = some "searchItem";
  get = some "getItem";
  add = some "addItem";
  set = some "setItem";
  delete = some "delItem";
  key = "category";
  apply = [];
  apply_ack = [];
  fields =
      entry "name" "Nombre" "text" true false
      ∷ entry "auto" "Auto" "boolean" false false
      ∷ entry "color" "Color" "text" false false
      ∷ [];
  columns = "name" ∷ [];
  qualification = "contract_only";
  singleton = false;
  ha_safe = false;
  persistence_only = true;
  prepare = none;
  verify = none;
}

abbrev pub portal_zones : Spec
portal_zones = record {
  id = "portal_zones";
  label = "Zonas de portal cautivo";
  group = "Seguridad";
  base = "/api/captiveportal/settings";
  search = some "searchZones";
  get = some "getZone";
  add = some "addZone";
  set = some "setZone";
  delete = some "delZone";
  key = "zone";
  apply = "/api/captiveportal/service/reconfigure" ∷ [];
  apply_ack = [];
  fields =
      (record (entry "enabled" "Habilitado" "boolean" true false) { default = some (str "1") })
      ∷ (record (entry "interfaces" "Interfaces" "select" true false) {
        default = some (str "lan");
        multiple = true;
      })
      ∷ (record (entry "disableRules" "Disablerules" "boolean" true false) {
        default = some (str "0");
      })
      ∷ (record (entry "authservers" "Authservers" "select" false false) { multiple = true })
      ∷ (record (entry "alwaysSendAccountingReqs" "Alwayssendaccountingreqs" "boolean" true false) {
        default = some (str "0");
      })
      ∷ entry "authEnforceGroup" "Authenforcegroup" "select" false false
      ∷ (record (entry "idletimeout" "Idletimeout" "integer" true false) {
        default = some (str "0");
        min = some (pos 0);
        max = some (pos 10080);
      })
      ∷ (record (entry "hardtimeout" "Hardtimeout" "integer" true false) {
        default = some (str "0");
        min = some (pos 0);
        max = some (pos 10080);
      })
      ∷ (record (entry "concurrentlogins" "Concurrentlogins" "boolean" true false) {
        default = some (str "1");
      })
      ∷ entry "certificate" "Certificate" "select" false false
      ∷ entry "servername" "Servername" "text" false false
      ∷ entry "allowedAddresses" "Allowedaddresses" "text" false false
      ∷ entry "allowedMACAddresses" "Allowedmacaddresses" "text" false false
      ∷ (record (entry "extendedPreAuthData" "Extendedpreauthdata" "boolean" true false) {
        default = some (str "0");
      })
      ∷ entry "template" "Template" "select" false false
      ∷ entry "description" "Descripción" "text" true false
      ∷ [];
  columns = "enabled" ∷ "description" ∷ [];
  qualification = "contract_only";
  singleton = false;
  ha_safe = false;
  persistence_only = false;
  prepare = none;
  verify = none;
}

abbrev pub cron_jobs : Spec
cron_jobs = record {
  id = "cron_jobs";
  label = "Tareas programadas";
  group = "Sistema";
  base = "/api/cron/settings";
  search = some "searchJobs";
  get = some "getJob";
  add = some "addJob";
  set = some "setJob";
  delete = some "delJob";
  key = "job";
  apply = "/api/cron/service/reconfigure" ∷ [];
  apply_ack = [];
  fields =
      (record (entry "enabled" "Habilitado" "boolean" true false) { default = some (str "1") })
      ∷ (record (entry "minutes" "Minutes" "text" true false) { default = some (str "0") })
      ∷ (record (entry "hours" "Hours" "text" true false) { default = some (str "0") })
      ∷ (record (entry "days" "Days" "text" true false) { default = some (str "*") })
      ∷ (record (entry "months" "Months" "text" true false) { default = some (str "*") })
      ∷ (record (entry "weekdays" "Weekdays" "text" true false) { default = some (str "*") })
      ∷ (record (entry "who" "Who" "text" true false) { default = some (str "root") })
      ∷ entry "command" "Command" "select" true false
      ∷ entry "parameters" "Parameters" "text" false false
      ∷ entry "description" "Descripción" "text" true false
      ∷ [];
  columns = "enabled" ∷ "description" ∷ [];
  qualification = "contract_only";
  singleton = false;
  ha_safe = false;
  persistence_only = false;
  prepare = none;
  verify = none;
}
