-- ===== src/Catalog/Resources.antt =====
-- `RESOURCES` of `src/management/catalog.py`, in its order; the key of each is its id.
use pegaprox_plugin_opnsense.Prelude.{List, [], ◌∷◌}
use pegaprox_plugin_opnsense.Engine.{Spec}
use pegaprox_plugin_opnsense.Catalog.Wireguard.{
  wireguard_servers, wireguard_clients, wireguard_general,
}
use pegaprox_plugin_opnsense.Catalog.Shaper.{shaper_pipes, shaper_queues}
use pegaprox_plugin_opnsense.Catalog.ShaperRules.{shaper_rules}
use pegaprox_plugin_opnsense.Catalog.Interfaces.{vips, vlans, laggs, loopbacks, vxlans}
use pegaprox_plugin_opnsense.Catalog.Monit.{monit_services, monit_alerts, monit_tests}
use pegaprox_plugin_opnsense.Catalog.MonitSettings.{monit_general}
use pegaprox_plugin_opnsense.Catalog.Ids.{ids_rules, ids_general}
use pegaprox_plugin_opnsense.Catalog.Ipsec.{ipsec_connections, ipsec_children}
use pegaprox_plugin_opnsense.Catalog.Network.{static_routes, categories, portal_zones, cron_jobs}
use pegaprox_plugin_opnsense.Catalog.Syslog.{syslog_destinations, syslog_general}
use pegaprox_plugin_opnsense.Catalog.Dns.{dnsmasq_hosts, dnsmasq_general, unbound_general}
use pegaprox_plugin_opnsense.Catalog.Openvpn.{openvpn_instances}
use pegaprox_plugin_opnsense.Catalog.Ha.{ha_settings}

abbrev pub resources : List Spec
resources =
    wireguard_servers ∷ wireguard_clients ∷ shaper_pipes ∷ shaper_queues ∷ shaper_rules ∷ vips
    ∷ vlans ∷ laggs ∷ loopbacks ∷ vxlans ∷ monit_services ∷ monit_alerts ∷ monit_tests ∷ ids_rules
    ∷ ipsec_connections ∷ ipsec_children ∷ static_routes ∷ syslog_destinations ∷ portal_zones
    ∷ cron_jobs ∷ categories ∷ dnsmasq_hosts ∷ openvpn_instances ∷ wireguard_general
    ∷ unbound_general ∷ dnsmasq_general ∷ ids_general ∷ monit_general ∷ syslog_general ∷ ha_settings
    ∷ []
