-- ===== src/Catalog/Interfaces.antt =====
-- The resources of interfaces in `src/management/catalog.py`.
use pegaprox_plugin_opnsense.Prelude.{true, false, none, some, [], ◌∷◌, pos}
use pegaprox_plugin_opnsense.Value.{str}
use pegaprox_plugin_opnsense.Engine.{Spec}
use pegaprox_plugin_opnsense.Catalog.{entry}

abbrev pub vips : Spec
vips = record {
  id = "vips";
  label = "Direcciones IP virtuales";
  group = "Red";
  base = "/api/interfaces/vip_settings";
  search = some "searchItem";
  get = some "getItem";
  add = some "addItem";
  set = some "setItem";
  delete = some "delItem";
  key = "vip";
  apply = "/api/interfaces/vip_settings/reconfigure" ∷ [];
  apply_ack = [];
  fields =
      entry "interface" "Interfaz" "select" true false
      ∷ (record (entry "mode" "Mode" "select" true false) {
        default = some (str "ipalias");
        options = ("ipalias", "IP Alias") ∷ ("carp", "CARP") ∷ ("proxyarp", "Proxy ARP") ∷ [];
      })
      ∷ entry "network" "Red CIDR" "text" true false
      ∷ entry "gateway" "Gateway" "text" false false
      ∷ (record (entry "noexpand" "Noexpand" "boolean" true false) { default = some (str "0") })
      ∷ (record (entry "nobind" "Nobind" "boolean" true false) { default = some (str "0") })
      ∷ entry "password" "Contraseña" "text" false true
      ∷ (record (entry "vhid" "Vhid" "integer" false false) {
        min = some (pos 1);
        max = some (pos 255);
      })
      ∷ (record (entry "advbase" "Advbase" "integer" true false) {
        default = some (str "1");
        min = some (pos 1);
        max = some (pos 254);
      })
      ∷ (record (entry "advskew" "Advskew" "integer" true false) {
        default = some (str "0");
        min = some (pos 0);
        max = some (pos 254);
      })
      ∷ entry "peer" "Peer" "text" false false
      ∷ entry "peer6" "Peer6" "text" false false
      ∷ (record (entry "nosync" "Nosync" "boolean" true false) { default = some (str "0") })
      ∷ entry "descr" "Descripción" "text" false false
      ∷ [];
  columns = "descr" ∷ "interface" ∷ "network" ∷ [];
  qualification = "contract_only";
  singleton = false;
  ha_safe = false;
  persistence_only = false;
  prepare = none;
  verify = none;
}

abbrev pub vlans : Spec
vlans = record {
  id = "vlans";
  label = "VLAN";
  group = "Red";
  base = "/api/interfaces/vlan_settings";
  search = some "searchItem";
  get = some "getItem";
  add = some "addItem";
  set = some "setItem";
  delete = some "delItem";
  key = "vlan";
  apply = "/api/interfaces/vlan_settings/reconfigure" ∷ [];
  apply_ack = [];
  fields =
      entry "if" "If" "select" true false
      ∷ (record (entry "tag" "Etiqueta VLAN" "integer" true false) {
        min = some (pos 1);
        max = some (pos 4094);
      })
      ∷ (record (entry "pcp" "Pcp" "select" true false) {
        default = some (str "0");
        options =
            ("1", "Background (1, lowest)")
            ∷ ("0", "Best Effort (0, default)")
            ∷ ("2", "Excellent Effort (2)")
            ∷ ("3", "Critical Applications (3)")
            ∷ ("4", "Video (4)")
            ∷ ("5", "Voice (5)")
            ∷ ("6", "Internetwork Control (6)")
            ∷ ("7", "Network Control (7, highest)")
            ∷ [];
      })
      ∷ (record (entry "proto" "Proto" "select" false false) {
        options = ("802.1q", "802.1Q") ∷ ("802.1ad", "802.1ad") ∷ [];
      })
      ∷ entry "descr" "Descripción" "text" false false
      ∷ [];
  columns = "descr" ∷ [];
  qualification = "contract_only";
  singleton = false;
  ha_safe = false;
  persistence_only = false;
  prepare = none;
  verify = none;
}

abbrev pub laggs : Spec
laggs = record {
  id = "laggs";
  label = "Agregación LAGG";
  group = "Red";
  base = "/api/interfaces/lagg_settings";
  search = some "searchItem";
  get = some "getItem";
  add = some "addItem";
  set = some "setItem";
  delete = some "delItem";
  key = "lagg";
  apply = "/api/interfaces/lagg_settings/reconfigure" ∷ [];
  apply_ack = [];
  fields =
      (record (entry "members" "Members" "select" true false) { multiple = true })
      ∷ entry "primary_member" "Primary member" "select" false false
      ∷ (record (entry "proto" "Proto" "select" true false) {
        default = some (str "lacp");
        options =
            ("none", "None")
            ∷ ("lacp", "lacp")
            ∷ ("failover", "failover")
            ∷ ("fec", "fec")
            ∷ ("loadbalance", "loadbalance")
            ∷ ("roundrobin", "roundrobin")
            ∷ [];
      })
      ∷ (record (entry "lacp_fast_timeout" "Lacp fast timeout" "boolean" true false) {
        default = some (str "0");
      })
      ∷ (record (entry "use_flowid" "Use flowid" "select" false false) {
        options = ("", "Default") ∷ ("1", "Yes") ∷ ("0", "No") ∷ [];
      })
      ∷ (record (entry "lagghash" "Lagghash" "select" false false) {
        multiple = true;
        options =
            ("l2", "L2: src/dst MAC address and optional VLAN number.")
            ∷ ("l3", "L3: src/dst address for IPv4 or IPv6.")
            ∷ ("l4", "L4: src/dst port for TCP/UDP/SCTP.")
            ∷ [];
      })
      ∷ (record (entry "lacp_strict" "Lacp strict" "select" false false) {
        options = ("", "Default") ∷ ("1", "Yes") ∷ ("0", "No") ∷ [];
      })
      ∷ (record (entry "mtu" "Mtu" "integer" false false) {
        min = some (pos 576);
        max = some (pos 65535);
      })
      ∷ entry "descr" "Descripción" "text" false false
      ∷ [];
  columns = "descr" ∷ [];
  qualification = "contract_only";
  singleton = false;
  ha_safe = false;
  persistence_only = false;
  prepare = none;
  verify = none;
}

abbrev pub loopbacks : Spec
loopbacks = record {
  id = "loopbacks";
  label = "Interfaces loopback";
  group = "Red";
  base = "/api/interfaces/loopback_settings";
  search = some "searchItem";
  get = some "getItem";
  add = some "addItem";
  set = some "setItem";
  delete = some "delItem";
  key = "loopback";
  apply = "/api/interfaces/loopback_settings/reconfigure" ∷ [];
  apply_ack = [];
  fields = entry "description" "Descripción" "text" true false ∷ [];
  columns = "description" ∷ [];
  qualification = "contract_only";
  singleton = false;
  ha_safe = false;
  persistence_only = false;
  prepare = none;
  verify = none;
}

abbrev pub vxlans : Spec
vxlans = record {
  id = "vxlans";
  label = "VXLAN";
  group = "Red";
  base = "/api/interfaces/vxlan_settings";
  search = some "searchItem";
  get = some "getItem";
  add = some "addItem";
  set = some "setItem";
  delete = some "delItem";
  key = "vxlan";
  apply = "/api/interfaces/vxlan_settings/reconfigure" ∷ [];
  apply_ack = [];
  fields =
      (record (entry "vxlanid" "Vxlanid" "integer" true false) {
        min = some (pos 0);
        max = some (pos 16777215);
      })
      ∷ entry "vxlanlocal" "Vxlanlocal" "text" true false
      ∷ entry "vxlanlocalport" "Vxlanlocalport" "integer" false false
      ∷ entry "vxlanremote" "Vxlanremote" "text" false false
      ∷ entry "vxlanremoteport" "Vxlanremoteport" "integer" false false
      ∷ entry "vxlangroup" "Vxlangroup" "text" false false
      ∷ entry "vxlandev" "Vxlandev" "select" false false
      ∷ [];
  columns = "vxlanid" ∷ "vxlanlocal" ∷ "vxlanlocalport" ∷ "vxlanremote" ∷ [];
  qualification = "contract_only";
  singleton = false;
  ha_safe = false;
  persistence_only = false;
  prepare = none;
  verify = none;
}
