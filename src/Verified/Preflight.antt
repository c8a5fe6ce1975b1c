-- ===== src/Verified/Preflight.antt =====
-- `_sync_preflight` of `src/writers/verified.py`: whether the XMLRPC synchronization from the selected
-- node to its peer is safe, and the plan that it has to keep.
use pegaprox_plugin_opnsense.Prelude.{
  ℕ, ℤ, String, Bool, true, false, ◌&&◌, ◌||◌, not, Option, none, some, List, [], ◌∷◌, ◌++◌, map,
  if◌then◌else◌, ◌==◌, eqb, leb, any_of, all_of, one_of, split_on, sorted_set, less, less_pair,
  same_list, same_pairs,
}
use text.Mathlib.Text.{find?}
use pegaprox_plugin_opnsense.Value.{
  Value, null, str, list, dict, Items, nil, cons, Fields, end, get, get_or, has_key, values, truthy,
  text_of, to_list,
}
use pegaprox_plugin_opnsense.Exec.{
  Result, ok, raised, unsafe_sync, attribute_error, pure, ◌>>=◌, ◌>>◌,
}
use pegaprox_plugin_opnsense.World.{Env, M}
use pegaprox_plugin_opnsense.Client
use pegaprox_plugin_opnsense.Client.{Client}
use pegaprox_plugin_opnsense.Carp.{Vhid, CarpStatus, collect_carp_status}
use pegaprox_plugin_opnsense.Verified.Checks.{selected}
use pegaprox_plugin_opnsense.Verified.Reads.{Kind, port_forward, rules, aliases}

-- What `urlsplit` gives; `port` is `none` where reading it raises, and `some none` where there is none.
pub record UrlParts : Type 0 where
  pub scheme : String
  pub userinfo : Bool
  pub path : String
  pub query : String
  pub fragment : String
  pub port : Option (Option ℕ)
  pub hostname : Option String

-- The standard library's parsers, as the code calls them: `ipaddress.ip_address` (its canonical text,
-- `none` where it raises), the test for loopback, unspecified and multicast addresses, `urlsplit`
-- (`none` where it raises), and the integer part of a float.
pub record Net : Type 0 where
  pub ip_address : Value → Option String
  pub is_reserved : String → Bool
  pub urlsplit : String → Option UrlParts
  pub truncated : String → ℤ

-- The result of a preflight in the mode `xmlrpc_pf`
pub record Plan : Type 0 where
  pub target : String
  pub sections : List String
  pub identities : List (String × String)

-- `==` of two results of the preflight
abbrev pub same_plan : Option Plan → Option Plan → Bool
same_plan none none = true
same_plan (some p) (some q) =
    p.target == q.target && same_list p.sections q.sections && same_pairs p.identities q.identities
same_plan _ _ = false

abbrev bad_target : Result String
bad_target = raised (unsafe_sync "XMLRPC target must be a literal peer IP or HTTPS IP URL")

-- The conditions on a port that is given.
port_fits : Option (Option ℕ) → Bool
port_fits none = false
port_fits (some none) = true
port_fits (some (some n)) = leb 1 n && leb n 65535

-- The host of an HTTPS URL that holds nothing else, as `ip_address` is given it.
host_of : UrlParts → Option Value
host_of u =
    if u.scheme == "https"
      && not u.userinfo
      && (u.path == "" || u.path == "/")
      && u.query == ""
      && u.fragment == ""
      && port_fits u.port
    then some (elim u.hostname [ some h ↦ str h | none ↦ null ])
    else none

abbrev bind_option : {A B : Type 0} → Option A → (A → Option B) → Option B
bind_option none f = none
bind_option (some a) f = f a

module _ (net : Net) where
  -- The target as an address that is not reserved.
  unfoldable pub literal_address : String → Option String
  unfolding host_of port_fits
  literal_address target =
      let host : Option Value = elim (find? target "://") [
        | some _ ↦ bind_option (net.urlsplit target) host_of
        | none ↦ some (str target)
      ] in
      bind_option host
        (λ h. bind_option (net.ip_address h) (λ a. if net.is_reserved a then none else some a))

  -- The `try` of the preflight: a text is parsed; in an array or an object with `"://"` the URL
  -- parser is called, and raises `AttributeError`.
  unfoldable pub target_address : Value → Result String
  unfolding literal_address
  target_address (str target) = elim (literal_address target) [ some a ↦ ok a | none ↦ bad_target ]
  target_address (list vs) =
      if any_of (λ v. elim v [ str s ↦ s == "://" | _ ↦ false ]) (to_list vs)
      then raised (attribute_error "'list' object has no attribute 'decode'")
      else bad_target
  target_address (dict fs) =
      if has_key "://" fs
      then raised (attribute_error "'dict' object has no attribute 'decode'")
      else bad_target
  target_address _ = bad_target

  -- The addresses of one list of entries; those of a virtual address are passed over.
  entry_addresses : Items → List String
  entry_addresses nil = []
  entry_addresses (cons (dict e) es) =
      let rest = entry_addresses es in
      if truthy (get_or "vhid" null e)
      then rest
      else elim (net.ip_address (get_or "ipaddr" null e)) [ some a ↦ a ∷ rest | none ↦ rest ]
  entry_addresses (cons _ es) = entry_addresses es

  family_addresses : Option Value → Option (List String)
  family_addresses none = some []
  family_addresses (some (list es)) = some (entry_addresses es)
  family_addresses (some _) = none

  interface_addresses : List Value → Option (List String)
  interface_addresses [] = some []
  interface_addresses (dict i ∷ rest) =
      let later = interface_addresses rest in
      bind_option (family_addresses (get "ipv4" i)) (λ four.
        bind_option (family_addresses (get "ipv6" i))
          (λ six. bind_option later (λ more. some (four ++ six ++ more))))
  interface_addresses (_ ∷ rest) = interface_addresses rest

  -- `addresses`, from the reply on
  unfoldable pub config_addresses : Value → Result (List String)
  unfolding interface_addresses family_addresses entry_addresses
  config_addresses (dict config) = elim (interface_addresses (values config)) [
    | some found ↦ ok found
    | none ↦ raised (unsafe_sync "Cannot verify XMLRPC peer interfaces")
  ]
  config_addresses _ = raised (unsafe_sync "Cannot verify XMLRPC peer interfaces")

  -- `addresses`
  unfoldable pub addresses : Env → Client → M (List String)
  unfolding config_addresses
  addresses env c = do
    config ← Client.get env c "/api/diagnostics/interface/getInterfaceConfig" end
    λ t. (config_addresses config, t)

-- `selected(…).get("hasync", {})`
hasync_of : (Value → String) → Value → Result Value
hasync_of repr whole = elim (selected repr whole) [
  | dict fs ↦ ok (get_or "hasync" (dict end) fs)
  | _ ↦ raised (attribute_error "'str' object has no attribute 'get'")
]

abbrev pub required_section : Kind → String
required_section aliases = "aliases"
required_section rules = "rules"
required_section port_forward = "nat"

-- `set(str(local.get("syncitems", "")).split(","))`
unfoldable pub sections_of : (Value → String) → Fields → List String
sections_of repr local =
    sorted_set less (split_on (λ c. eqb c b',') (text_of repr (get_or "syncitems" (str "") local)))

-- `required in sections and sections <= {"aliases", "rules", "nat"}`
abbrev pub sections_fit : Kind → List String → Bool
sections_fit k sections =
    one_of sections (required_section k)
    && all_of (one_of ("aliases" ∷ "rules" ∷ "nat" ∷ [])) sections

-- A node that is in its role with every virtual address, and may be left alone.
abbrev pub holds_role : String → CarpStatus → Bool
holds_role role s =
    s.enabled
    && not s.maintenance_mode
    && not (any_of (λ (v : Vhid). not (v.status == role)) s.vhids)
    && (elim s.vhids [ [] ↦ false | _ ∷ _ ↦ true ])

unfoldable pub identities_of : CarpStatus → List (String × String)
identities_of s = sorted_set less_pair (map (λ (v : Vhid). (v.vhid, v.ipaddr)) s.vhids)

abbrev pub check : Bool → String → M (Unit {0})
check true why t = (ok tt, t)
check false why t = (raised (unsafe_sync why), t)

abbrev lift : {A : Type 0} → Result A → M A
lift r t = (r, t)

abbrev both_dicts : Value → Value → Bool
both_dicts (dict a) (dict b) = true
both_dicts _ _ = false

abbrev is_text : Value → Bool
is_text (str s) = true
is_text _ = false

abbrev text_or_empty : Value → String
text_or_empty (str s) = s
text_or_empty _ = ""

-- `isinstance(local, dict) and isinstance(peer, dict) and isinstance(peer.get(…), str)`, with both.
usable_pair : Value → Value → Result (Fields × Fields)
usable_pair (dict local) (dict peer) =
    if is_text (get_or "synchronizetoip" null peer)
    then ok (local, peer)
    else raised (unsafe_sync "Cannot verify XMLRPC configuration")
usable_pair _ _ = raised (unsafe_sync "Cannot verify XMLRPC configuration")

hasync_pair : (Value → String) → Value → Value → Result (Fields × Fields)
hasync_pair repr local_data peer_data = elim (hasync_of repr local_data) [
  | raised e ↦ raised e
  | ok local ↦ elim (hasync_of repr peer_data) [
    | raised e ↦ raised e
    | ok peer ↦ usable_pair local peer
  ]
]

module _ (env : Env) (net : Net) (k : Kind) where
  -- The end of the preflight: the addresses of both nodes and their CARP roles.
  unfoldable pub preflight_nodes : Client → Client → String → Fields → M Plan
  unfolding addresses collect_carp_status identities_of
  preflight_nodes local_node peer_node address local = do
    theirs ← addresses net env peer_node
    check (one_of theirs address) "XMLRPC target is not an exclusive address of the configured peer"
    ours ← addresses net env local_node
    check (not (one_of ours address))
        "XMLRPC target is not an exclusive address of the configured peer"
    left ← collect_carp_status env net.truncated local_node
    right ← collect_carp_status env net.truncated peer_node
    check (holds_role "MASTER" left && holds_role "BACKUP" right)
        "XMLRPC requires the selected node to remain MASTER and its peer BACKUP"
    check (same_pairs (identities_of left) (identities_of right))
        "XMLRPC nodes must own the same CARP VIPs"
    pure (record {
      target = text_or_empty (get_or "synchronizetoip" null local);
      sections = sections_of env.repr local;
      identities = identities_of left;
    })

  -- The preflight of the mode `xmlrpc_pf`
  unfoldable pub preflight_peer : Client → Client → M Plan
  unfolding preflight_nodes hasync_pair hasync_of usable_pair sections_of target_address
  preflight_peer local_node peer_node = do
    local_data ← Client.get env local_node "/api/core/hasync/get" end
    peer_data ← Client.get env peer_node "/api/core/hasync/get" end
    check (both_dicts local_data peer_data) "Cannot verify XMLRPC configuration"
    pair ← lift (hasync_pair env.repr local_data peer_data)
    check (sections_fit k (sections_of env.repr pair.0))
        "XMLRPC must select the required section and only aliases, rules and NAT"
    check (not (truthy (get_or "synchronizetoip" null pair.1)))
        "XMLRPC must be configured in one direction only"
    address ← lift (target_address net (get_or "synchronizetoip" (str "") pair.0))
    preflight_nodes local_node peer_node address pair.0
