-- ===== src/Verified/Reads.antt =====
-- The reads of `VerifiedFirewallWriter`: `search`, `get` and `verify`, and the apply action.
use pegaprox_plugin_opnsense.Prelude.{
  ℕ, ◌+◌, String, ◌<>◌, Bool, true, false, ◌&&◌, not, Option, none, some, List, [], ◌∷◌,
  if◌then◌else◌, ◌==◌, ltb, eqb, any_of, all_chars, is_digit, digits_onto, lower, one_of, split_on,
}
use pegaprox_plugin_opnsense.Value.{
  Value, null, int, str, list, dict, Items, nil, cons, Fields, end, field, get_or, get, text_of,
}
use pegaprox_plugin_opnsense.Exec.{Result, ok, raised, opnsense, attribute_error, pure, ◌>>=◌, ◌>>◌}
use pegaprox_plugin_opnsense.World.{Env, M}
use pegaprox_plugin_opnsense.Client
use pegaprox_plugin_opnsense.Client.{Client}
use pegaprox_plugin_opnsense.Verified.Checks.{selected, matches, require_success}

-- The keys of `SPECS`
pub data Kind : Type 0 where
  port_forward rules aliases : Kind

abbrev pub is_port_forward : Kind → Bool
is_port_forward port_forward = true
is_port_forward _ = false

abbrev pub kind_name : Kind → String
kind_name port_forward = "port_forward"
kind_name rules = "rules"
kind_name aliases = "aliases"

-- `SPECS`: the base path, the suffix of the endpoints, the key of the object, the apply action.
abbrev pub base : Kind → String
base port_forward = "/api/firewall/d_nat"
base rules = "/api/firewall/filter"
base aliases = "/api/firewall/alias"

abbrev pub suffix : Kind → String
suffix aliases = "Item"
suffix _ = "Rule"

abbrev pub key : Kind → String
key aliases = "alias"
key _ = "rule"

abbrev pub apply_name : Kind → String
apply_name aliases = "reconfigure"
apply_name _ = "apply"

-- `ALIAS_RUNTIME_FIELDS`
abbrev pub alias_runtime_fields : List String
alias_runtime_fields =
    "last_updated" ∷ "eval_match" ∷ "eval_nomatch" ∷ "in_pass_b" ∷ "in_pass_p" ∷ "out_pass_b"
    ∷ "out_pass_p" ∷ "in_block_b" ∷ "in_block_p" ∷ "out_block_b" ∷ "out_block_p" ∷ []

-- `{key: value … if key not in ALIAS_RUNTIME_FIELDS}`
unfoldable pub without_runtime : Fields → Fields
without_runtime end = end
without_runtime (field k v fs) =
    let rest = without_runtime fs in if one_of alias_runtime_fields k then rest else field k v rest

-- `re.fullmatch(r"lockout_\d+", s)`: the parts at the underscores are the word and digits.
lockout_parts : List String → Bool
lockout_parts (word ∷ number ∷ []) =
    word == "lockout" && not (number == "") && all_chars is_digit number
lockout_parts _ = false

unfoldable pub is_lockout : String → Bool
unfolding lockout_parts
is_lockout s = lockout_parts (split_on (λ c. eqb c b'_') s)

-- The rows of an array, if all are objects.
unfoldable pub rows_of : Items → Option (List Fields)
rows_of nil = some []
rows_of (cons (dict r) rows) = elim (rows_of rows) [ some rs ↦ some (r ∷ rs) | none ↦ none ]
rows_of (cons _ rows) = none

abbrev pub row_uuid : (Value → String) → Fields → String
row_uuid repr r = text_of repr (get_or "uuid" (str "") r)

-- `count`: the rows but for the generated lockout rows of a port forward.
unfoldable pub count_rows : (Value → String) → Kind → List Fields → ℕ
count_rows repr k [] = 0
count_rows repr k (r ∷ rs) =
    (if is_port_forward k && is_lockout (row_uuid repr r) then 0 else 1) + count_rows repr k rs

-- `total`, if it is a number that is not negative, or a text of digits.
unfoldable pub total_of : Value → Option ℕ
total_of (int n) = some n
total_of (str s) = if not (s == "") && all_chars is_digit s then some (digits_onto 0 s) else none
total_of _ = none

unfoldable pub check_total : ℕ → List Fields → Option ℕ → Result (List Fields)
check_total count rs none = raised (opnsense "search: invalid total")
check_total count rs (some total) =
    if ltb count total
    then raised (opnsense "search: incomplete response; refusing partial verification")
    else ok rs

unfoldable pub check_rows :
    (Value → String) → Kind → Fields → Option (List Fields) → Result (List Fields)
check_rows repr k out none = raised (opnsense "search: invalid row")
check_rows repr k out (some rs) = elim (get "total" out) [
  | none ↦ ok rs
  | some total ↦ check_total (count_rows repr k rs) rs (total_of total)
]

abbrev rows_missing : Result (List Fields)
rows_missing = raised (opnsense "search: invalid API response (rows missing)")

-- `search`, from the reply on
unfoldable pub checked_rows : (Value → String) → Kind → Value → Result (List Fields)
unfolding check_rows check_total
checked_rows repr k (dict out) = elim (get "rows" out) [
  | some (list rows) ↦ check_rows repr k out (rows_of rows)
  | _ ↦ rows_missing
]
checked_rows repr k _ = rows_missing

abbrev missing : Result Value
missing = raised (opnsense "readback: requested object missing or invalid")

object_of : (Value → String) → Kind → Value → Result Value
object_of repr k (dict end) = missing
object_of repr port_forward (dict fs) = ok (selected repr (dict fs))
object_of repr rules (dict fs) = ok (selected repr (dict fs))
object_of repr aliases (dict fs) = elim (selected repr (dict fs)) [
  | dict gs ↦ ok (dict (without_runtime gs))
  | _ ↦ raised (attribute_error "'str' object has no attribute 'items'")
]
object_of repr k _ = missing

-- `get`, from the reply on
unfoldable pub checked_object : (Value → String) → Kind → Value → Result Value
unfolding object_of
checked_object repr k (dict out) = object_of repr k (get_or (key k) null out)
checked_object repr k _ = missing

module _ (env : Env) (k : Kind) where
  -- `search`
  unfoldable pub search : Client → M (List Fields)
  unfolding checked_rows
  search c = do
    out ←
        Client.get env c (base k <> "/search" <> suffix k)
          (field "rowCount" (str "-1") (field "current" (str "1") end))
    λ t. (checked_rows env.repr k out, t)

  -- `get`
  unfoldable pub get_object : String → Client → M Value
  unfolding checked_object
  get_object uuid c = do
    out ← Client.get env c (base k <> "/get" <> suffix k <> "/" <> uuid) end
    λ t. (checked_object env.repr k out, t)

  -- `any(str(row.get("uuid", "")).lower() == uuid.lower() for row in …)`
  abbrev pub listed : String → List Fields → Bool
  listed uuid rs = any_of (λ r. lower (row_uuid env.repr r) == lower uuid) rs

  -- `verify`
  unfoldable pub verify : String → Option Fields → Client → M Bool
  unfolding search get_object
  verify uuid none c = do rs ← search c; pure (not (listed uuid rs))
  verify uuid (some expected) c = do
    actual ← get_object uuid c
    λ t. (matches env.repr actual expected, t)

  -- `require_success(client.post(path, …), operation)`
  unfoldable pub post_checked : Client → String → Value → String → M Fields
  post_checked c path payload operation = do
    response ← Client.post env c path payload
    λ t. (require_success env.repr response operation, t)

  -- `_apply`
  unfoldable pub apply : Client → M (Unit {0})
  unfolding post_checked
  apply c = do post_checked c (base k <> "/" <> apply_name k) (dict end) "apply"; pure tt
