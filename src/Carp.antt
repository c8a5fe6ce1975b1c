-- ===== src/Carp.antt =====
-- `src/collectors/carp.py`: the CARP role of a node and its virtual addresses.
pub mod Primary
use pegaprox_plugin_opnsense.Prelude.{
  ℤ, pos, negsuc, ltb_int, eq_int, parse_int, String, Bool, true, false, ◌&&◌, ◌||◌, not, Option,
  none, some, List, [], ◌∷◌, if◌then◌else◌, ◌==◌, keep, strip, lower, upper,
}
use pegaprox_plugin_opnsense.Value.{
  Value, null, bool, int, negative, real, str, list, dict, Items, nil, cons, Fields, end, get_or,
  text_of,
}
use pegaprox_plugin_opnsense.Exec.{
  Exn, Result, ok, raised, opnsense, is_opnsense, pure, catch, ◌>>=◌,
}
use pegaprox_plugin_opnsense.World.{Env, M}
use pegaprox_plugin_opnsense.Client.{Client}
use pegaprox_plugin_opnsense.Client

-- `CarpRole`
pub data Role : Type 0 where
  master backup disabled unknown : Role

-- `class CarpVhid`
pub record Vhid : Type 0 where
  pub vhid : String
  pub interface : String
  pub ipaddr : String
  pub status : String
  pub advbase : String
  pub advskew : String

-- `class CarpStatus`
pub record CarpStatus : Type 0 where
  pub role : Role
  pub enabled : Bool
  pub maintenance_mode : Bool
  pub demotion : ℤ
  pub status_msg : String
  pub vhids : List Vhid

-- `_bool_truthy`
unfoldable pub bool_truthy : (Value → String) → Value → Bool
bool_truthy repr (bool b) = b
bool_truthy repr null = false
bool_truthy repr v = elim (parse_int (text_of repr v)) [
  | some n ↦ eq_int n (pos 1)
  | none ↦ lower (strip (text_of repr v)) == "true"
]

-- `int(v["…"] or 9999)`
unfoldable pub rank_of : String → Option ℤ
rank_of s = if s == "" then some (pos 9999) else parse_int s

-- The sort key of `_primary_vhid`
abbrev pub Key : Type 0
Key = ℤ × ℤ

abbrev pub key_less : Key → Key → Bool
key_less (a, b) (c, d) = ltb_int a c || (eq_int a c && ltb_int b d)

unfoldable pub key_of : Vhid → Option Key
unfolding rank_of
key_of v = elim (rank_of v.vhid) [
  | some a ↦ elim (rank_of v.advskew) [ some b ↦ some (a, b) | none ↦ none ]
  | none ↦ none
]

-- The first of the elements with the least key, and its key: the head of the stable `sorted`.
unfoldable pub least : Key → Vhid → List Vhid → Option Vhid
unfolding key_of
least k v [] = some v
least k v (w ∷ ws) = elim (key_of w) [
  | some j ↦ least (if key_less j k then j else k) (if key_less j k then w else v) ws
  | none ↦ none
]

-- `v["status"] not in ("DISABLED", "")`
abbrev pub is_active : Vhid → Bool
is_active v = not (v.status == "DISABLED" || v.status == "")

abbrev pub bad_keys : Exn
bad_keys = opnsense "CARP: invalid VHID or advskew in upstream response"

unfoldable pub first_active : List Vhid → Result (Option Vhid)
first_active [] = ok none
first_active (v ∷ vs) = elim (key_of v) [
  | some k ↦ elim (least k v vs) [ some w ↦ ok (some w) | none ↦ raised bad_keys ]
  | none ↦ raised bad_keys
]

-- `_primary_vhid`
unfoldable pub primary_vhid : List Vhid → Result (Option Vhid)
unfolding first_active key_of least
primary_vhid vhids = first_active (keep is_active vhids)

-- The role that the status of the primary address means.
abbrev pub role_of_status : String → Role
role_of_status s = if s == "MASTER" then master else if s == "BACKUP" then backup else unknown

role_of_primary : Result (Option Vhid) → Result Role
role_of_primary (ok none) = ok disabled
role_of_primary (ok (some v)) = ok (role_of_status v.status)
role_of_primary (raised e) = raised e

-- `_classify_role`
unfoldable pub classify_role : Bool → Bool → List Vhid → Result Role
unfolding role_of_primary
classify_role enabled maintenance vhids =
    if not enabled
    then ok disabled
    else if maintenance
    then ok backup
    else role_of_primary (primary_vhid vhids)

-- The row of a reply, as the code copies it.
vhid_row : (Value → String) → Fields → Vhid
vhid_row repr r = record {
  vhid = text_of repr (get_or "vhid" (str "") r);
  interface = text_of repr (get_or "interface" (str "") r);
  ipaddr = text_of repr (get_or "ipaddr" (get_or "subnet" (str "") r) r);
  status = upper (text_of repr (get_or "status" (str "") r));
  advbase = text_of repr (get_or "advbase" (str "") r);
  advskew = text_of repr (get_or "advskew" (str "") r);
}

-- The loop over `rows_raw`: rows that are no objects, or of another mode, are passed over.
unfoldable pub vhid_rows : (Value → String) → Items → List Vhid
unfolding vhid_row
vhid_rows repr nil = []
vhid_rows repr (cons (dict r) rows) =
    let rest = vhid_rows repr rows in
    if lower (text_of repr (get_or "mode" (str "carp") r)) == "carp"
    then vhid_row repr r ∷ rest
    else rest
vhid_rows repr (cons _ rows) = vhid_rows repr rows

-- `int(carp_blk.get("demotion", 0))`, 0 where that raises; a float is cut to its integer part by
-- `truncated`.
demotion_of : (String → ℤ) → Value → ℤ
demotion_of truncated (bool b) = if b then pos 1 else pos 0
demotion_of truncated (int n) = pos n
demotion_of truncated (negative n) = negsuc n
demotion_of truncated (real s) = truncated s
demotion_of truncated (str s) = elim (parse_int s) [ some n ↦ n | none ↦ pos 0 ]
demotion_of truncated _ = pos 0

-- The entry, if it is an array.
abbrev items_at : String → Fields → Items
items_at k fs = elim (get_or k null fs) [ list vs ↦ vs | _ ↦ nil ]

-- The entry, if it is an object.
abbrev fields_at : String → Fields → Fields
fields_at k fs = elim (get_or k null fs) [ dict gs ↦ gs | _ ↦ end ]

abbrev nonempty : List Vhid → Bool
nonempty [] = false
nonempty (v ∷ vs) = true

status_with : ℤ → String → Bool → List Vhid → Result Role → Result CarpStatus
status_with demotion msg maintenance vhids (raised e) = raised e
status_with demotion msg maintenance vhids (ok role) = ok (record {
  role = role;
  enabled = nonempty vhids;
  maintenance_mode = maintenance;
  demotion = demotion;
  status_msg = msg;
  vhids = vhids;
})

-- `collect_carp_status`, from the reply on
unfoldable pub carp_status : (Value → String) → (String → ℤ) → Fields → Result CarpStatus
unfolding status_with demotion_of vhid_rows
carp_status repr truncated vip =
    let carp_blk = fields_at "carp" vip in
    let vhids = vhid_rows repr (items_at "rows" vip) in
    let maintenance =
      bool_truthy repr
        (get_or "maintenancemode" (get_or "maintenance_mode" (bool false) carp_blk) carp_blk) in
    status_with (demotion_of truncated (get_or "demotion" (int 0) carp_blk))
      (text_of repr (get_or "status_msg" (str "") carp_blk)) maintenance vhids
      (classify_role (nonempty vhids) maintenance vhids)

-- `result if isinstance(result, dict) else {}`
abbrev dict_or_empty : Value → Fields
dict_or_empty (dict fs) = fs
dict_or_empty _ = end

module _ (env : Env) (truncated : String → ℤ) where
  -- `_safe_get`
  unfoldable pub safe_get : Client → String → M Fields
  safe_get c path =
      catch is_opnsense (do result ← Client.get env c path end; pure (dict_or_empty result))
        (λ e. pure end)

  -- `collect_carp_status`
  unfoldable pub collect_carp_status : Client → M CarpStatus
  unfolding safe_get carp_status
  collect_carp_status c = do
    vip ← safe_get c "/api/diagnostics/interface/getVipStatus"
    λ t. (carp_status env.repr truncated vip, t)
