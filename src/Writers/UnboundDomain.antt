-- ===== src/Writers/UnboundDomain.antt =====
-- `src/writers/unbound.py`: the domain overrides of Unbound.
use pegaprox_plugin_opnsense.Prelude.{
  String, Bool, false, ◌||◌, not, Option, none, some, [], ◌∷◌, if◌then◌else◌, ◌==◌, has_char,
}
use pegaprox_plugin_opnsense.Value.{
  Value, str, list, dict, Items, nil, cons, end, field, get_or, entries, null,
}
use pegaprox_plugin_opnsense.Exec.{Result, ok, raised, attribute_error, type_error, ◌>>=◌}
use pegaprox_plugin_opnsense.World.{Env, M}
use pegaprox_plugin_opnsense.Writers.{
  WriteResult, Writer, Resource, Notes, create_row, delete_row, get_row, search, flag, validated,
}

-- `class UnboundDomainInput`
pub record UnboundDomainInput : Type 0 where
  pub domain : String
  pub server : String
  pub description : String
  pub enabled : Bool

-- `to_payload`
unfoldable pub to_payload : UnboundDomainInput → Value
to_payload p = dict (
    field "dot"
      (dict (
        entries (
          ("enabled", flag p.enabled)
          ∷ ("type", str "forward")
          ∷ ("domain", str p.domain)
          ∷ ("server", str p.server)
          ∷ ("description", str p.description)
          ∷ [])))
      end)

-- `_validate`: the text of the `ValueError`, if there is one.
unfoldable pub validate : Env → UnboundDomainInput → Option String
validate env p =
    if p.domain == ""
    then some ("domain is required")
    else if not (has_char b'.' p.domain)
    then some ("domain must be a fully-qualified zone (contain a dot)")
    else if p.server == ""
    then some ("server (IP) is required")
    else none

-- The endpoints of the writer.
abbrev pub resource : Resource
resource = record {
  kind = "unbound_domain";
  add_path = "/api/unbound/settings/addForward";
  delete_path = "/api/unbound/settings/delForward/";
  apply_path = "/api/unbound/service/reconfigure";
  search_path = "/api/unbound/settings/searchForward";
  apply_name = "apply";
}

-- `r.get("type") in ("forward", "Forward")`
abbrev is_forward : Value → Bool
is_forward (str s) = s == "forward" || s == "Forward"
is_forward _ = false

-- The rows with a type that the writer shows; a row that is no object raises.
filter_rows : (Value → String) → Items → Result Items
filter_rows repr nil = ok nil
filter_rows repr (cons (dict fs) rows) =
    let rest = filter_rows repr rows in
    if is_forward (get_or "type" null fs)
    then elim rest [ ok kept ↦ ok (cons (dict fs) kept) | raised e ↦ raised e ]
    else rest
filter_rows repr (cons _ rows) = raised (attribute_error "object has no attribute 'get'")

filter_reply : (Value → String) → Value → Result Items
filter_reply repr (list rows) = filter_rows repr rows
filter_reply repr _ = raised (type_error "object is not iterable")

module _ (env : Env) (w : Writer) where
  -- `search`
  unfoldable pub search_rows : String → M Items
  unfolding filter_reply filter_rows search
  search_rows phrase = do rows ← search env w resource phrase; λ t. (filter_reply env.repr rows, t)

-- The audit notes of `create`
unfoldable pub notes : UnboundDomainInput → Notes
notes p = record {
  post_target = if p.domain == "" then "?" else p.domain;
  late_target = p.domain;
  ok_target = λ uuid. uuid;
  ok_detail = λ uuid. p.description;
}

module _ (env : Env) (w : Writer) where
  -- `create`
  unfoldable pub create : UnboundDomainInput → M WriteResult
  unfolding notes to_payload validate create_row
  create p = validated (validate env p) (create_row env w resource (notes p) (to_payload p))

  -- `get`
  unfoldable get_item : String → M Value
  unfolding get_row
  get_item uuid = get_row env w "/api/unbound/settings/getForward/" uuid

  -- `delete`
  unfoldable pub delete : String → M WriteResult
  unfolding delete_row
  delete uuid = delete_row env w resource uuid
