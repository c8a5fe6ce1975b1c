-- ===== src/Catalog.antt =====
-- `src/management/catalog.py`: the specifications of the resources. Of a resource, `source` is left
-- out, which says where its metadata come from.
pub mod Wireguard
pub mod Shaper
pub mod ShaperRules
pub mod Interfaces
pub mod Monit
pub mod MonitSettings
pub mod Ids
pub mod Ipsec
pub mod Network
pub mod Syslog
pub mod Dns
pub mod Openvpn
pub mod Ha
pub mod Resources
pub mod Laws
use pegaprox_plugin_opnsense.Prelude.{String, Bool, false, none, []}
use pegaprox_plugin_opnsense.Engine.{Field}

-- A field with the keys that all fields have
abbrev pub entry : (name label kind : String) (required secret : Bool) → Field
entry name label kind required secret = record {
  name = name;
  label = label;
  kind = kind;
  required = required;
  secret = secret;
  write_only = false;
  readonly = false;
  generated = false;
  volatile = false;
  multiple = false;
  min = none;
  max = none;
  options = [];
  default = none;
  create_default = none;
  edit_default = none;
}
