-- ===== src/Catalog/Dns.antt =====
-- The resources of Dnsmasq and Unbound in `src/management/catalog.py`.
use pegaprox_plugin_opnsense.Prelude.{true, false, none, some, [], ◌∷◌, pos}
use pegaprox_plugin_opnsense.Value.{str}
use pegaprox_plugin_opnsense.Engine.{Spec}
use pegaprox_plugin_opnsense.Catalog.{entry}

abbrev pub dnsmasq_hosts : Spec
dnsmasq_hosts = record {
  id = "dnsmasq_hosts";
  label = "Hosts Dnsmasq";
  group = "DNS";
  base = "/api/dnsmasq/settings";
  search = some "searchHost";
  get = some "getHost";
  add = some "addHost";
  set = some "setHost";
  delete = some "delHost";
  key = "host";
  apply = "/api/dnsmasq/service/reconfigure" ∷ [];
  apply_ack = [];
  fields =
      entry "host" "Host" "text" false false
      ∷ entry "domain" "Domain" "text" false false
      ∷ entry "local" "Local" "boolean" false false
      ∷ entry "ip" "Ip" "text" false false
      ∷ entry "cnames" "Cnames" "text" false false
      ∷ entry "client_id" "Client id" "text" false false
      ∷ entry "hwaddr" "Hwaddr" "text" false false
      ∷ entry "lease_time" "Lease time" "integer" false false
      ∷ entry "ignore" "Ignore" "boolean" false false
      ∷ entry "set_tag" "Set tag" "select" false false
      ∷ entry "descr" "Descripción" "text" false false
      ∷ entry "comments" "Comments" "text" false false
      ∷ entry "aliases" "Aliases" "text" false false
      ∷ [];
  columns = "descr" ∷ [];
  qualification = "contract_only";
  singleton = false;
  ha_safe = false;
  persistence_only = false;
  prepare = none;
  verify = none;
}

abbrev pub dnsmasq_general : Spec
dnsmasq_general = record {
  id = "dnsmasq_general";
  label = "Configuración Dnsmasq";
  group = "DNS";
  base = "/api/dnsmasq/settings";
  search = none;
  get = some "get";
  add = none;
  set = some "set";
  delete = none;
  key = "dnsmasq";
  apply = "/api/dnsmasq/service/reconfigure" ∷ [];
  apply_ack = [];
  fields =
      entry "enable" "Enable" "boolean" false false
      ∷ entry "regdhcp" "Regdhcp" "boolean" false false
      ∷ entry "regdhcpstatic" "Regdhcpstatic" "boolean" false false
      ∷ entry "dhcpfirst" "Dhcpfirst" "boolean" false false
      ∷ entry "strict_order" "Strict order" "boolean" false false
      ∷ entry "domain_needed" "Domain needed" "boolean" false false
      ∷ entry "no_private_reverse" "No private reverse" "boolean" false true
      ∷ entry "no_resolv" "No resolv" "boolean" false false
      ∷ entry "log_queries" "Log queries" "boolean" false false
      ∷ entry "no_hosts" "No hosts" "boolean" false false
      ∷ entry "strictbind" "Strictbind" "boolean" false false
      ∷ entry "dnssec" "Dnssec" "boolean" false false
      ∷ entry "regdhcpdomain" "Regdhcpdomain" "text" false false
      ∷ (record (entry "interface" "Interfaz" "select" false false) { multiple = true })
      ∷ (record (entry "port" "Puerto" "integer" false false) {
        min = some (pos 0);
        max = some (pos 65535);
      })
      ∷ (record (entry "dns_forward_max" "Dns forward max" "integer" false false) {
        min = some (pos 0);
      })
      ∷ (record (entry "cache_size" "Cache size" "integer" false false) { min = some (pos 0) })
      ∷ (record (entry "local_ttl" "Local ttl" "integer" false false) { min = some (pos 0) })
      ∷ (record (entry "add_mac" "Add mac" "select" false false) {
        options = ("standard", "standard") ∷ ("base64", "base64") ∷ ("text", "text") ∷ [];
      })
      ∷ entry "add_subnet" "Add subnet" "boolean" false false
      ∷ entry "strip_subnet" "Strip subnet" "boolean" false false
      ∷ (record (entry "no_ident" "No ident" "boolean" true false) { default = some (str "1") })
      ∷ [];
  columns = "interface" ∷ "port" ∷ [];
  qualification = "contract_only";
  singleton = true;
  ha_safe = false;
  persistence_only = false;
  prepare = none;
  verify = none;
}

abbrev pub unbound_general : Spec
unbound_general = record {
  id = "unbound_general";
  label = "Configuración Unbound";
  group = "DNS";
  base = "/api/unbound/settings";
  search = none;
  get = some "get";
  add = none;
  set = some "set";
  delete = none;
  key = "unbound.general";
  apply = "/api/unbound/service/reconfigure" ∷ [];
  apply_ack = [];
  fields =
      (record (entry "enabled" "Habilitado" "boolean" true false) { default = some (str "0") })
      ∷ (record (entry "port" "Puerto" "integer" true false) { default = some (str "53") })
      ∷ entry "stats" "Stats" "boolean" false false
      ∷ (record (entry "active_interface" "Active interface" "select" false false) {
        multiple = true;
      })
      ∷ entry "dnssec" "Dnssec" "boolean" false false
      ∷ entry "dns64" "Dns64" "boolean" false false
      ∷ entry "dns64prefix" "Dns64prefix" "text" false false
      ∷ entry "noarecords" "Noarecords" "boolean" false false
      ∷ entry "regdhcp" "Regdhcp" "boolean" false false
      ∷ entry "regdhcpdomain" "Regdhcpdomain" "text" false false
      ∷ entry "regdhcpstatic" "Regdhcpstatic" "boolean" false false
      ∷ entry "noreglladdr6" "Noreglladdr6" "boolean" false false
      ∷ entry "noregrecords" "Noregrecords" "boolean" false false
      ∷ entry "txtsupport" "Txtsupport" "boolean" false false
      ∷ entry "cacheflush" "Cacheflush" "boolean" false false
      ∷ entry "safesearch" "Safesearch" "boolean" false false
      ∷ (record (entry "local_zone_type" "Local zone type" "select" true false) {
        default = some (str "transparent");
        options =
            ("transparent", "transparent")
            ∷ ("always_nxdomain", "always_nxdomain")
            ∷ ("always_refuse", "always_refuse")
            ∷ ("always_transparent", "always_transparent")
            ∷ ("deny", "deny")
            ∷ ("inform", "inform")
            ∷ ("inform_deny", "inform_deny")
            ∷ ("nodefault", "nodefault")
            ∷ ("refuse", "refuse")
            ∷ ("static", "static")
            ∷ ("typetransparent", "typetransparent")
            ∷ [];
      })
      ∷ (record (entry "outgoing_interface" "Outgoing interface" "select" false false) {
        multiple = true;
      })
      ∷ entry "enable_wpad" "Enable wpad" "boolean" false false
      ∷ [];
  columns = "enabled" ∷ "port" ∷ [];
  qualification = "contract_only";
  singleton = true;
  ha_safe = false;
  persistence_only = false;
  prepare = none;
  verify = none;
}
