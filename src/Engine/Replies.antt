-- ===== src/Engine/Replies.antt =====
-- `selected`, `_path` and `_ack` of `src/management/engine.py`: the values of forms, the paths of the
-- operations and the acknowledgements.
use pegaprox_plugin_opnsense.Prelude.{
  ℕ, suc, String, ◌<>◌, Bool, true, false, ◌&&◌, ◌||◌, not, Option, none, some, List, [], ◌∷◌,
  if◌then◌else◌, ◌==◌, all_of, one_of, lower, decimal, join_comma, rstrip_char,
}
use text.Mathlib.Text.{starts_with}
use pegaprox_plugin_opnsense.Value.{
  Value, null, bool, int, negative, real, str, list, dict, Items, nil, cons, Fields, end, field,
  get_or, get, has_key, put, fields_of, truthy, text_of, is_option,
}
use pegaprox_plugin_opnsense.Exec.{Result, ok, raised, ManagementError, management}
use pegaprox_plugin_opnsense.Engine.{Spec, Field, refusal}

-- `items`, as keys and values: those of a dictionary, or the places and the elements of an array.
unfoldable pub dict_items : Fields → List (String × Value)
dict_items end = []
dict_items (field k v fs) = (k, v) ∷ dict_items fs

unfoldable pub list_items : ℕ → Items → List (String × Value)
list_items i nil = []
list_items i (cons v vs) = (decimal i, v) ∷ list_items (suc i) vs

-- `all(isinstance(child, dict) and "selected" in child for _, child in items)`
unfoldable pub all_options : List (String × Value) → Bool
all_options [] = true
all_options ((k, v) ∷ items) = is_option v && all_options items

module _ (repr : Value → String) where
  -- `str(key) for key, child in items if str(child["selected"]) == "1"`
  unfoldable pub selected_keys : List (String × Value) → List String
  selected_keys [] = []
  selected_keys ((k, v) ∷ items) =
      let rest = selected_keys items in
      if text_of repr (get_or "selected" null (fields_of v)) == "1" then k ∷ rest else rest

  unfoldable mutual
    unfolding dict_items list_items all_options selected_keys

    -- `selected`
    pub selected : Value → Value
    selected null = null
    selected (bool b) = bool b
    selected (int n) = int n
    selected (negative n) = negative n
    selected (real s) = real s
    selected (str s) = str s
    selected (list nil) = str ""
    selected (list (cons v vs)) =
        let items = list_items 0 (cons v vs) in
        let stored = cons (selected v) (selected_items vs) in
        if all_options items then str (join_comma (selected_keys items)) else list stored
    selected (dict end) = str ""
    selected (dict (field k v fs)) =
        let items = dict_items (field k v fs) in
        let stored = field k (selected v) (selected_fields fs) in
        if all_options items then str (join_comma (selected_keys items)) else dict stored

    selected_items : Items → Items
    selected_items nil = nil
    selected_items (cons v vs) = cons (selected v) (selected_items vs)

    pub selected_fields : Fields → Fields
    selected_fields end = end
    selected_fields (field k v fs) = field k (selected v) (selected_fields fs)

unavailable : Result String
unavailable = raised (refusal "unsupported" "Esta operación no está disponible." 405)

-- `_path`; `none` is the entry of an operation that the specification does not have, and the uuid is
-- empty where there is none.
unfoldable pub path_of : Spec → Option String → String → Result String
unfolding unavailable
path_of spec none uuid = unavailable
path_of spec (some operation) uuid =
    if operation == ""
    then unavailable
    else let path =
        if starts_with operation "/api/"
        then operation
        else rstrip_char b'/' spec.base <> "/" <> operation in
      ok (
        rstrip_char b'/' path
        <> (if not (uuid == "") && not spec.singleton then "/" <> uuid else ""))

-- The fields of the specification that the reply names, with the text that the user is shown.
unfoldable pub rejected_fields : String → List Field → Fields → Fields → Fields
rejected_fields key [] validations seen = seen
rejected_fields key (f ∷ fs) validations seen =
    let name = f.name in
    let more =
      rejected_fields key fs validations (put name (str "Valor rechazado por OPNsense") seen) in
    let rest = rejected_fields key fs validations seen in
    if has_key name validations || has_key (key <> "." <> name) validations then more else rest

rejection : Spec → Value → ManagementError
unfolding rejected_fields
rejection spec validations = record {
  error = "validation";
  detail = "OPNsense rechazó los valores enviados.";
  status = 422;
  partial = false;
  stage = none;
  audit_failure = false;
  validations = rejected_fields spec.key spec.fields (fields_of validations) end;
  uuid = none;
}

-- `response.get(key) in permitted`
abbrev pub permits : Fields → String × List String → Bool
permits fs (key, permitted) = elim (get_or key null fs) [ str s ↦ one_of permitted s | _ ↦ false ]

-- `str(response[key]).lower() for key in (…) if key in response`
unfoldable pub marker_words : (Value → String) → List String → Fields → List String
marker_words repr [] fs = []
marker_words repr (k ∷ ks) fs = elim (get k fs) [
  | some v ↦ lower (text_of repr v) ∷ marker_words repr ks fs
  | none ↦ marker_words repr ks fs
]

abbrev pub confirming_words : List String
confirming_words = "ok" ∷ "saved" ∷ "deleted" ∷ "done" ∷ "success" ∷ []

abbrev pub confirmed : List String → Bool
confirmed [] = false
confirmed (w ∷ ws) = all_of (one_of confirming_words) (w ∷ ws)

abbrev has_rules : List (String × List String) → Bool
has_rules [] = false
has_rules (r ∷ rs) = true

-- `_ack`
unfoldable pub ack : (Value → String) → Spec → Bool → Value → Result (Unit {0})
unfolding rejection marker_words
ack repr spec apply (dict fs) =
    if truthy (get_or "validations" null fs)
    then raised (management (rejection spec (get_or "validations" null fs)))
    else if apply && has_rules spec.apply_ack
    then if all_of (permits fs) spec.apply_ack
      then ok tt
      else raised (refusal "upstream" "OPNsense no confirmó la aplicación." 502)
    else if confirmed (marker_words repr ("status" ∷ "result" ∷ []) fs)
    then ok tt
    else raised (refusal "upstream" "OPNsense no confirmó la operación." 502)
ack repr spec apply _ = raised (refusal "invalid_response" "Respuesta de operación inválida." 502)
