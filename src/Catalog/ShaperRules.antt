-- ===== src/Catalog/ShaperRules.antt =====
-- The resources of the rules of the traffic shaper in `src/management/catalog.py`.
use pegaprox_plugin_opnsense.Prelude.{true, false, none, some, [], ◌∷◌, pos}
use pegaprox_plugin_opnsense.Value.{str}
use pegaprox_plugin_opnsense.Engine.{Spec}
use pegaprox_plugin_opnsense.Catalog.{entry}

abbrev pub shaper_rules : Spec
shaper_rules = record {
  id = "shaper_rules";
  label = "Reglas de tráfico";
  group = "Traffic shaping";
  base = "/api/trafficshaper/settings";
  search = some "searchRules";
  get = some "getRule";
  add = some "addRule";
  set = some "setRule";
  delete = some "delRule";
  key = "rule";
  apply = "/api/trafficshaper/service/reconfigure" ∷ [];
  apply_ack = [];
  fields =
      (record (entry "enabled" "Habilitado" "boolean" true false) { default = some (str "1") })
      ∷ (record (entry "sequence" "Sequence" "integer" true false) {
        default = some (str "1");
        min = some (pos 1);
        max = some (pos 1000000);
      })
      ∷ (record (entry "interface" "Interfaz" "select" true false) { default = some (str "wan") })
      ∷ entry "interface2" "Interface2" "select" false false
      ∷ (record (entry "proto" "Proto" "select" true false) {
        default = some (str "ip");
        options =
            ("ip", "ip")
            ∷ ("ip4", "ipv4")
            ∷ ("ip6", "ipv6")
            ∷ ("udp", "udp")
            ∷ ("tcp", "tcp")
            ∷ ("tcp_ack", "tcp (ACK packets only)")
            ∷ ("tcp_ack_not", "tcp (non-ACK packets)")
            ∷ ("icmp", "icmp")
            ∷ ("ipv6-icmp", "ipv6-icmp")
            ∷ ("igmp", "igmp")
            ∷ ("esp", "esp")
            ∷ ("ah", "ah")
            ∷ ("gre", "gre")
            ∷ [];
      })
      ∷ (record (entry "iplen" "Iplen" "integer" false false) {
        min = some (pos 2);
        max = some (pos 65535);
      })
      ∷ (record (entry "source" "Source" "text" true false) { default = some (str "any") })
      ∷ (record (entry "source_not" "Source not" "boolean" true false) { default = some (str "0") })
      ∷ (record (entry "src_port" "Src port" "integer" true false) { default = some (str "any") })
      ∷ (record (entry "destination" "Destination" "text" true false) {
        default = some (str "any");
      })
      ∷ (record (entry "destination_not" "Destination not" "boolean" true false) {
        default = some (str "0");
      })
      ∷ (record (entry "dst_port" "Dst port" "integer" true false) { default = some (str "any") })
      ∷ (record (entry "dscp" "Dscp" "select" false false) {
        multiple = true;
        options =
            ("be", "Best Effort")
            ∷ ("ef", "Expedited Forwarding")
            ∷ ("af11", "AF11")
            ∷ ("af12", "AF12")
            ∷ ("af13", "AF13")
            ∷ ("af21", "AF21")
            ∷ ("af22", "AF22")
            ∷ ("af23", "AF23")
            ∷ ("af31", "AF31")
            ∷ ("af32", "AF32")
            ∷ ("af33", "AF33")
            ∷ ("af41", "AF41")
            ∷ ("af42", "AF42")
            ∷ ("af43", "AF43")
            ∷ ("cs1", "CS1")
            ∷ ("cs2", "CS2")
            ∷ ("cs3", "CS3")
            ∷ ("cs4", "CS4")
            ∷ ("cs5", "CS5")
            ∷ ("cs6", "CS6")
            ∷ ("cs7", "CS7")
            ∷ [];
      })
      ∷ (record (entry "direction" "Direction" "select" false false) {
        options = ("in", "in") ∷ ("out", "out") ∷ [];
      })
      ∷ entry "target" "Target" "select" true false
      ∷ entry "description" "Descripción" "text" false false
      ∷ [];
  columns = "enabled" ∷ "description" ∷ "interface" ∷ [];
  qualification = "contract_only";
  singleton = false;
  ha_safe = false;
  persistence_only = false;
  prepare = none;
  verify = none;
}
