-- ===== src/Catalog/Ha.antt =====
-- The resources of the synchronization of the HA peer in `src/management/catalog.py`.
use pegaprox_plugin_opnsense.Prelude.{true, false, none, some, [], ◌∷◌}
use pegaprox_plugin_opnsense.Value.{str}
use pegaprox_plugin_opnsense.Engine.{Spec}
use pegaprox_plugin_opnsense.Catalog.{entry}

abbrev pub ha_settings : Spec
ha_settings = record {
  id = "ha_settings";
  label = "Sincronización HA";
  group = "Sistema";
  base = "/api/core/hasync";
  search = none;
  get = some "get";
  add = none;
  set = some "set";
  delete = none;
  key = "hasync";
  apply = "/api/core/hasync/reconfigure" ∷ [];
  apply_ack = [];
  fields =
      (record (entry "disablepreempt" "Disablepreempt" "boolean" true false) {
        default = some (str "0");
      })
      ∷ (record (entry "disconnectppps" "Disconnectppps" "boolean" true false) {
        default = some (str "0");
      })
      ∷ entry "pfsyncinterface" "Pfsyncinterface" "select" false false
      ∷ entry "pfsyncpeerip" "Pfsyncpeerip" "text" false false
      ∷ (record (entry "pfsyncversion" "Pfsyncversion" "select" true false) {
        default = some (str "1400");
        options = ("1301", "OPNsense 24.1 or below") ∷ ("1400", "OPNsense 24.7 or above") ∷ [];
      })
      ∷ entry "pfsyncdefer" "Pfsyncdefer" "boolean" false false
      ∷ entry "synchronizetoip" "Synchronizetoip" "text" false false
      ∷ (record (entry "verifypeer" "Verifypeer" "boolean" true false) { default = some (str "0") })
      ∷ entry "username" "Username" "text" false false
      ∷ entry "password" "Contraseña" "text" false true
      ∷ (record (entry "syncitems" "Syncitems" "select" false false) { multiple = true })
      ∷ [];
  columns = "disablepreempt" ∷ "disconnectppps" ∷ "pfsyncinterface" ∷ "pfsyncpeerip" ∷ [];
  qualification = "contract_only";
  singleton = true;
  ha_safe = false;
  persistence_only = false;
  prepare = none;
  verify = none;
}
