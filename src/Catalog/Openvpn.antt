-- ===== src/Catalog/Openvpn.antt =====
-- The resources of OpenVPN in `src/management/catalog.py`.
use pegaprox_plugin_opnsense.Prelude.{true, false, none, some, List, [], ◌∷◌, ◌++◌, pos}
use pegaprox_plugin_opnsense.Value.{str}
use pegaprox_plugin_opnsense.Engine.{Field, Spec}
use pegaprox_plugin_opnsense.Catalog.{entry}

abbrev openvpn_instances_fields_1 : List Field
openvpn_instances_fields_1 =
    entry "vpnid" "Vpnid" "text" true false
    ∷ (record (entry "enabled" "Habilitado" "boolean" true false) { default = some (str "1") })
    ∷ (record (entry "dev_type" "Dev type" "select" true false) {
      default = some (str "tun");
      options = ("tun", "TUN") ∷ ("tap", "TAP") ∷ ("ovpn", "DCO") ∷ [];
    })
    ∷ (record (entry "verb" "Verb" "select" true false) {
      default = some (str "3");
      options =
          ("0", "0 (No output except fatal errors.)")
          ∷ ("1", "1 (Normal)")
          ∷ ("2", "2 (Normal)")
          ∷ ("3", "3 (Normal)")
          ∷ ("4", "4 (Normal)")
          ∷ ("5", "5 (log packets)")
          ∷ ("6", "6 (debug)")
          ∷ ("7", "7 (debug)")
          ∷ ("8", "8 (debug)")
          ∷ ("9", "9 (debug)")
          ∷ ("10", "10 (debug)")
          ∷ ("11", "11 (debug)")
          ∷ [];
    })
    ∷ (record (entry "proto" "Proto" "select" true false) {
      default = some (str "udp");
      options =
          ("udp", "UDP")
          ∷ ("udp4", "UDP (IPv4)")
          ∷ ("udp6", "UDP (IPv6)")
          ∷ ("tcp", "TCP")
          ∷ ("tcp4", "TCP (IPv4)")
          ∷ ("tcp6", "TCP (IPv6)")
          ∷ [];
    })
    ∷ entry "port" "Puerto" "integer" false false
    ∷ entry "port-share" "Port-share" "text" false false
    ∷ entry "local" "Local" "text" false false
    ∷ (record (entry "topology" "Topology" "select" true false) {
      default = some (str "subnet");
      options = ("net30", "net30") ∷ ("p2p", "p2p") ∷ ("subnet", "subnet") ∷ [];
    })
    ∷ entry "remote" "Remote" "text" false false
    ∷ (record (entry "role" "Role" "select" true false) {
      default = some (str "server");
      options = ("client", "Client") ∷ ("server", "Server") ∷ [];
    })
    ∷ entry "server" "Server" "text" false false
    ∷ entry "server_ipv6" "Server ipv6" "text" false false
    ∷ entry "nopool" "Nopool" "boolean" false false
    ∷ entry "bridge_gateway" "Bridge gateway" "text" false false
    ∷ entry "bridge_pool" "Bridge pool" "text" false false
    ∷ entry "route" "Route" "text" false false
    ∷ entry "push_route" "Push route" "text" false false
    ∷ entry "push_excluded_routes" "Push excluded routes" "text" false false
    ∷ entry "cert" "Cert" "select" false false
    ∷ entry "crl" "Crl" "select" false false
    ∷ []

abbrev openvpn_instances_fields_2 : List Field
openvpn_instances_fields_2 =
    entry "ca" "Ca" "select" false false
    ∷ (record (entry "cert_depth" "Cert depth" "select" false false) {
      options =
          ("1", "One (Client+Server)")
          ∷ ("2", "Two (Client+Intermediate+Server)")
          ∷ ("3", "Three (Client+2xIntermediate+Server)")
          ∷ ("4", "Four (Client+3xIntermediate+Server)")
          ∷ ("5", "Five (Client+4xIntermediate+Server)")
          ∷ [];
    })
    ∷ (record (entry "remote_cert_tls" "Remote cert tls" "boolean" true false) {
      default = some (str "0");
    })
    ∷ (record (entry "verify_client_cert" "Verify client cert" "select" true false) {
      default = some (str "require");
      options = ("none", "none") ∷ ("require", "required") ∷ [];
    })
    ∷ (record (entry "use_ocsp" "Use ocsp" "boolean" true false) { default = some (str "0") })
    ∷ (record (entry "auth" "Auth" "select" false false) {
      options =
          ("BLAKE2b512", "BLAKE2b512 (512-bit)")
          ∷ ("BLAKE2s256", "BLAKE2s256 (256-bit)")
          ∷ ("MD4", "MD4 (128-bit)")
          ∷ ("MD5", "MD5 (128-bit)")
          ∷ ("MD5-SHA1", "MD5-SHA1 (288-bit)")
          ∷ ("RIPEMD160", "RIPEMD160 (160-bit)")
          ∷ ("SHA1", "SHA1 (160-bit)")
          ∷ ("SHA224", "SHA224 (224-bit)")
          ∷ ("SHA256", "SHA256 (256-bit)")
          ∷ ("SHA3-224", "SHA3-224 (224-bit)")
          ∷ ("SHA3-256", "SHA3-256 (256-bit)")
          ∷ ("SHA3-384", "SHA3-384 (384-bit)")
          ∷ ("SHA3-512", "SHA3-512 (512-bit)")
          ∷ ("SHA384", "SHA384 (384-bit)")
          ∷ ("SHA512", "SHA512 (512-bit)")
          ∷ ("SHA512-224", "SHA512-224 (224-bit)")
          ∷ ("SHA512-256", "SHA512-256 (256-bit)")
          ∷ ("SHAKE128", "SHAKE128 (128-bit)")
          ∷ ("SHAKE256", "SHAKE256 (256-bit)")
          ∷ ("whirlpool", "whirlpool (512-bit)")
          ∷ ("none", "None (No Authentication)")
          ∷ [];
    })
    ∷ (record (entry "data-ciphers" "Data-ciphers" "select" false false) {
      multiple = true;
      options =
          ("AES-256-CBC", "AES-256-CBC")
          ∷ ("AES-128-GCM", "AES-128-GCM")
          ∷ ("AES-256-GCM", "AES-256-GCM")
          ∷ ("CHACHA20-POLY1305", "CHACHA20-POLY1305")
          ∷ [];
    })
    ∷ (record (entry "data-ciphers-fallback" "Data-ciphers-fallback" "select" false false) {
      options =
          ("AES-256-CBC", "AES-256-CBC")
          ∷ ("AES-128-GCM", "AES-128-GCM")
          ∷ ("AES-256-GCM", "AES-256-GCM")
          ∷ ("CHACHA20-POLY1305", "CHACHA20-POLY1305")
          ∷ [];
    })
    ∷ entry "tls_key" "Tls key" "select" false false
    ∷ (record (entry "authmode" "Authmode" "select" false false) { multiple = true })
    ∷ entry "local_group" "Local group" "select" false false
    ∷ (record (entry "various_flags" "Various flags" "select" false false) {
      multiple = true;
      options =
          ("block-ipv6", "block-ipv6")
          ∷ ("client-to-client", "client-to-client")
          ∷ ("duplicate-cn", "duplicate-cn")
          ∷ ("float", "float")
          ∷ ("passtos", "passtos")
          ∷ ("persist-remote-ip", "persist-remote-ip")
          ∷ ("remote-random", "remote-random")
          ∷ ("route-noexec", "route-noexec")
          ∷ ("route-nopull", "route-nopull")
          ∷ ("explicit-exit-notify", "explicit-exit-notify")
          ∷ ("fast-io", "fast-io")
          ∷ [];
    })
    ∷ (record (entry "various_push_flags" "Various push flags" "select" false false) {
      multiple = true;
      options =
          ("block-ipv6", "push block-ipv6")
          ∷ ("block-outside-dns", "push block-outside-dns")
          ∷ ("register-dns", "push register-dns")
          ∷ ("explicit-exit-notify", "explicit-exit-notify")
          ∷ [];
    })
    ∷ entry "push_inactive" "Push inactive" "integer" false false
    ∷ (record (entry "username_as_common_name" "Username as common name" "boolean" true false) {
      default = some (str "0");
    })
    ∷ []

abbrev openvpn_instances_fields_3 : List Field
openvpn_instances_fields_3 =
    (record (entry "strictusercn" "Strictusercn" "select" true false) {
      default = some (str "0");
      options = ("0", "No") ∷ ("1", "Yes") ∷ ("2", "Yes (case insensitive)") ∷ [];
    })
    ∷ entry "username" "Username" "text" false false
    ∷ entry "password" "Contraseña" "text" false true
    ∷ (record (entry "maxclients" "Maxclients" "integer" false false) { min = some (pos 1) })
    ∷ (record (entry "keepalive_interval" "Keepalive interval" "integer" false false) {
      min = some (pos 0);
    })
    ∷ (record (entry "keepalive_timeout" "Keepalive timeout" "integer" false false) {
      min = some (pos 0);
    })
    ∷ (record (entry "reneg-sec" "Reneg-sec" "integer" false false) { min = some (pos 0) })
    ∷ (record (entry "auth-gen-token" "Auth-gen-token" "integer" false true) { min = some (pos 0) })
    ∷ (record (entry "auth-gen-token-renewal" "Auth-gen-token-renewal" "integer" false true) {
      min = some (pos 0);
    })
    ∷ entry "auth-gen-token-secret" "Auth-gen-token-secret" "text" false true
    ∷ (record (entry "provision_exclusive" "Provision exclusive" "boolean" true false) {
      default = some (str "0");
    })
    ∷ (record (entry "redirect_gateway" "Redirect gateway" "select" false false) {
      multiple = true;
      options =
          ("local", "local")
          ∷ ("autolocal", "autolocal")
          ∷ ("def1", "default")
          ∷ ("bypass-dhcp", "bypass dhcp")
          ∷ ("bypass-dns", "bypass dns")
          ∷ ("block-local", "block local")
          ∷ ("ipv6", "ipv6 (default)")
          ∷ ("!ipv4", "not ipv4 (default)")
          ∷ [];
    })
    ∷ (record (entry "route_metric" "Route metric" "integer" false false) {
      min = some (pos 0);
      max = some (pos 65535);
    })
    ∷ (record (entry "register_dns" "Register dns" "boolean" true false) {
      default = some (str "0");
    })
    ∷ entry "dns_domain" "Dns domain" "text" false false
    ∷ entry "dns_domain_search" "Dns domain search" "text" false false
    ∷ entry "dns_servers" "Dns servers" "text" false false
    ∷ entry "ntp_servers" "Ntp servers" "text" false false
    ∷ (record (entry "tun_mtu" "Tun mtu" "integer" false false) {
      min = some (pos 60);
      max = some (pos 65535);
    })
    ∷ (record (entry "fragment" "Fragment" "integer" false false) {
      min = some (pos 0);
      max = some (pos 65528);
    })
    ∷ entry "mssfix" "Mssfix" "boolean" false false
    ∷ entry "carp_depend_on" "Carp depend on" "select" false false
    ∷ []

abbrev openvpn_instances_fields_4 : List Field
openvpn_instances_fields_4 =
    entry "description" "Descripción" "text" false false
    ∷ entry "compress_migrate" "Compress migrate" "boolean" false false
    ∷ entry "ifconfig-pool-persist" "Ifconfig-pool-persist" "boolean" false false
    ∷ entry "http-proxy" "Http-proxy" "text" false false
    ∷ entry "verify-x509-name" "Verify-x509-name" "text" false false
    ∷ []

abbrev pub openvpn_instances : Spec
openvpn_instances = record {
  id = "openvpn_instances";
  label = "Instancias OpenVPN";
  group = "VPN";
  base = "/api/openvpn/instances";
  search = some "search";
  get = some "get";
  add = none;
  set = none;
  delete = some "del";
  key = "instance";
  apply = "/api/openvpn/service/reconfigure" ∷ [];
  apply_ack = [];
  fields =
      openvpn_instances_fields_1 ++ openvpn_instances_fields_2 ++ openvpn_instances_fields_3
      ++ openvpn_instances_fields_4;
  columns = "enabled" ∷ "description" ∷ "port" ∷ [];
  qualification = "contract_only";
  singleton = false;
  ha_safe = false;
  persistence_only = false;
  prepare = none;
  verify = none;
}
