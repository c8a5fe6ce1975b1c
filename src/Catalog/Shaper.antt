-- ===== src/Catalog/Shaper.antt =====
-- The resources of the traffic shaper in `src/management/catalog.py`.
use pegaprox_plugin_opnsense.Prelude.{true, false, none, some, [], ◌∷◌, pos}
use pegaprox_plugin_opnsense.Value.{str}
use pegaprox_plugin_opnsense.Engine.{Spec}
use pegaprox_plugin_opnsense.Catalog.{entry}

abbrev pub shaper_pipes : Spec
shaper_pipes = record {
  id = "shaper_pipes";
  label = "Pipes de ancho de banda";
  group = "Traffic shaping";
  base = "/api/trafficshaper/settings";
  search = some "searchPipes";
  get = some "getPipe";
  add = some "addPipe";
  set = some "setPipe";
  delete = some "delPipe";
  key = "pipe";
  apply = "/api/trafficshaper/service/reconfigure" ∷ [];
  apply_ack = [];
  fields =
      (record (entry "enabled" "Habilitado" "boolean" true false) { default = some (str "1") })
      ∷ (record (entry "bandwidth" "Ancho de banda" "integer" true false) { min = some (pos 1) })
      ∷ (record (entry "bandwidthMetric" "Bandwidthmetric" "select" true false) {
        default = some (str "Kbit");
        options =
            ("bit", "bit/s") ∷ ("Kbit", "kbit/s") ∷ ("Mbit", "Mbit/s") ∷ ("Gbit", "Gbit/s") ∷ [];
      })
      ∷ (record (entry "queue" "Queue" "integer" false false) {
        min = some (pos 2);
        max = some (pos 100);
      })
      ∷ (record (entry "mask" "Mask" "select" true false) {
        default = some (str "none");
        options =
            ("none", "(none)")
            ∷ ("src-ip", "source")
            ∷ ("dst-ip", "destination")
            ∷ ("src-ip6", "source (ip6)")
            ∷ ("dst-ip6", "destination (ip6)")
            ∷ [];
      })
      ∷ (record (entry "buckets" "Buckets" "integer" false false) {
        min = some (pos 1);
        max = some (pos 65535);
      })
      ∷ (record (entry "scheduler" "Scheduler" "select" false false) {
        options =
            ("fifo", "FIFO")
            ∷ ("rr", "Deficit Round Robin")
            ∷ ("qfq", "QFQ")
            ∷ ("fq_codel", "FlowQueue-CoDel")
            ∷ ("fq_pie", "FlowQueue-PIE")
            ∷ [];
      })
      ∷ (record (entry "codel_enable" "Codel enable" "boolean" true false) {
        default = some (str "0");
      })
      ∷ (record (entry "codel_target" "Codel target" "integer" false false) {
        min = some (pos 1);
        max = some (pos 10000);
      })
      ∷ (record (entry "codel_interval" "Codel interval" "integer" false false) {
        min = some (pos 1);
        max = some (pos 10000);
      })
      ∷ (record (entry "codel_ecn_enable" "Codel ecn enable" "boolean" true false) {
        default = some (str "0");
      })
      ∷ (record (entry "pie_enable" "Pie enable" "boolean" true false) { default = some (str "0") })
      ∷ (record (entry "fqcodel_quantum" "Fqcodel quantum" "integer" false false) {
        min = some (pos 1);
        max = some (pos 65535);
      })
      ∷ (record (entry "fqcodel_limit" "Fqcodel limit" "integer" false false) {
        min = some (pos 1);
        max = some (pos 65535);
      })
      ∷ (record (entry "fqcodel_flows" "Fqcodel flows" "integer" false false) {
        min = some (pos 1);
        max = some (pos 65535);
      })
      ∷ (record (entry "delay" "Delay" "integer" false false) {
        min = some (pos 1);
        max = some (pos 3000);
      })
      ∷ entry "description" "Descripción" "text" true false
      ∷ [];
  columns = "enabled" ∷ "description" ∷ [];
  qualification = "contract_only";
  singleton = false;
  ha_safe = false;
  persistence_only = false;
  prepare = none;
  verify = none;
}

abbrev pub shaper_queues : Spec
shaper_queues = record {
  id = "shaper_queues";
  label = "Colas de tráfico";
  group = "Traffic shaping";
  base = "/api/trafficshaper/settings";
  search = some "searchQueues";
  get = some "getQueue";
  add = some "addQueue";
  set = some "setQueue";
  delete = some "delQueue";
  key = "queue";
  apply = "/api/trafficshaper/service/reconfigure" ∷ [];
  apply_ack = [];
  fields =
      (record (entry "enabled" "Habilitado" "boolean" true false) { default = some (str "1") })
      ∷ entry "pipe" "Pipe" "select" true false
      ∷ (record (entry "weight" "Peso" "integer" true false) {
        default = some (str "100");
        min = some (pos 1);
        max = some (pos 100);
      })
      ∷ (record (entry "mask" "Mask" "select" true false) {
        default = some (str "none");
        options =
            ("none", "(none)")
            ∷ ("src-ip", "source")
            ∷ ("dst-ip", "destination")
            ∷ ("src-ip6", "source (ip6)")
            ∷ ("dst-ip6", "destination (ip6)")
            ∷ [];
      })
      ∷ (record (entry "buckets" "Buckets" "integer" false false) {
        min = some (pos 1);
        max = some (pos 65535);
      })
      ∷ (record (entry "codel_enable" "Codel enable" "boolean" true false) {
        default = some (str "0");
      })
      ∷ (record (entry "codel_target" "Codel target" "integer" false false) {
        min = some (pos 1);
        max = some (pos 10000);
      })
      ∷ (record (entry "codel_interval" "Codel interval" "integer" false false) {
        min = some (pos 1);
        max = some (pos 10000);
      })
      ∷ (record (entry "codel_ecn_enable" "Codel ecn enable" "boolean" true false) {
        default = some (str "0");
      })
      ∷ (record (entry "pie_enable" "Pie enable" "boolean" true false) { default = some (str "0") })
      ∷ entry "description" "Descripción" "text" true false
      ∷ [];
  columns = "enabled" ∷ "description" ∷ [];
  qualification = "contract_only";
  singleton = false;
  ha_safe = false;
  persistence_only = false;
  prepare = none;
  verify = none;
}
