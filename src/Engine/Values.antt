-- ===== src/Engine/Values.antt =====
-- `_values` of `src/management/engine.py`: what is sent for the values that a user entered.
use pegaprox_plugin_opnsense.Prelude.{
  String, Bool, true, false, ◌&&◌, ◌||◌, not, Option, none, some, List, [], ◌∷◌, if◌then◌else◌,
  ◌==◌, ltb, all_of, any_of, one_of, all_chars, is_digit, count_chars, has_char, split_on,
  join_comma, lstrip_char, eqb, ℤ, parse_int, ltb_int, map,
}
use pegaprox_plugin_opnsense.Value.{
  Value, null, bool, str, list, dict, Items, nil, cons, Fields, end, field, text_of, is_str, keys,
}
use pegaprox_plugin_opnsense.Exec.{Result, ok, raised, value_error}
use pegaprox_plugin_opnsense.Engine.{Spec, Field, refusal, by_name, field_named}
use pegaprox_plugin_opnsense.Engine.Names.{get_of, put_of, drop_of, put_name}

-- A chain of steps that may fail
abbrev pub and_then : {A B : Type 0} → Result A → (A → Result B) → Result B
and_then (ok a) f = f a
and_then (raised e) f = raised e

unfoldable pub refuse : {A : Type 0} → String → Result A
refuse why = raised (refusal "bad_request" why 400)

-- `value in ("", None)`
abbrev pub is_blank : Value → Bool
is_blank null = true
is_blank (str s) = s == ""
is_blank _ = false

-- `normalize_empty_options`
abbrev is_empty : Value → Bool
is_empty (dict end) = true
is_empty _ = false

unfoldable mutual
  pub normalized : Value → Value
  normalized (dict fs) = dict (normalized_fields fs)
  normalized v = v

  pub normalized_fields : Fields → Fields
  normalized_fields end = end
  normalized_fields (field k v fs) =
      let child = normalized v in
      field k (if is_empty v then str "" else child) (normalized_fields fs)

-- A text that may be sent
abbrev pub is_sendable : Value → Bool
is_sendable (str s) = not (ltb 65536 (count_chars s)) && not (has_char 0 s)
is_sendable _ = false

-- The texts of an array, if all elements are texts.
texts_of : Items → Option (List String)
texts_of nil = some []
texts_of (cons (str s) vs) = elim (texts_of vs) [ some ss ↦ some (s ∷ ss) | none ↦ none ]
texts_of (cons _ vs) = none

joined : Value → Value
unfolding texts_of
joined (list vs) = elim (texts_of vs) [ some ss ↦ str (join_comma ss) | none ↦ list vs ]
joined v = v

-- `int(value) < field["min"]` or `int(value) > field["max"]`
unfoldable pub out_of_range : Field → ℤ → Bool
out_of_range f n =
    elim f.min [ none ↦ false | some low ↦ ltb_int n low ]
    || elim f.max [ none ↦ false | some high ↦ ltb_int high n ]

abbrev bounded : Field → Bool
bounded f = elim f.min [ some low ↦ true | none ↦ elim f.max [ some high ↦ true | none ↦ false ] ]

-- `str(value).lstrip("-").isdigit()`, on ASCII
abbrev pub is_numeral : String → Bool
is_numeral s = let digits = lstrip_char b'-' s in not (digits == "") && all_chars is_digit digits

-- The check of a number's range; `int` fails on a text with more than one sign.
ranged : Field → String → Result String
unfolding out_of_range
ranged f s =
    if bounded f
    then elim (parse_int s) [
      | none ↦ raised (value_error "invalid literal for int() with base 10")
      | some n ↦ if out_of_range f n then refuse "Valor numérico fuera de rango." else ok s
    ]
    else ok s

abbrev pub choices : Field → String → List String
choices f s = if f.multiple then split_on (λ c. eqb c b',') s else s ∷ []

-- The check of the options
chosen : Field → String → Result (Option String)
chosen f s =
    if elim f.options [ [] ↦ false | _ ∷ _ ↦ true ]
      && not (s == "")
      && not (all_of (one_of (map (λ o. o.0) f.options)) (choices f s))
    then refuse "Selección fuera de las opciones permitidas."
    else ok (some s)

abbrev is_number : Field → Bool
is_number f = f.kind == "number" || f.kind == "integer"

abbrev is_boolean : Field → Bool
is_boolean f = f.kind == "boolean" || f.kind == "checkbox"

abbrev is_bool : Value → Bool
is_bool (bool b) = true
is_bool _ = false

module _ (repr : Value → String) where
  -- What a number is sent as.
  number_text : Field → Value → Result (Option String)
  unfolding ranged chosen
  number_text f v =
      if is_str v && is_blank v && not f.required
      then ok (some "")
      else if is_bool v || not (is_numeral (text_of repr v))
      then refuse "Un campo numérico tiene un valor inválido."
      else and_then (ranged f (text_of repr v)) (chosen f)

  sendable_text : Field → String → Value → Result (Option String)
  unfolding chosen
  sendable_text f why (str s) = if is_sendable (str s) then chosen f s else refuse why
  sendable_text f why _ = refuse why

  boolean_text : Field → Value → Result (Option String)
  unfolding chosen
  boolean_text f (bool b) = chosen f (if b then "1" else "0")
  boolean_text f _ = refuse "Un campo booleano tiene un valor inválido."

  -- The body of the loop over the values: the text to send, or `none` where the field is left as
  -- it is.
  unfoldable pub value_text : Bool → Field → Value → Result (Option String)
  unfolding number_text sendable_text boolean_text joined
  value_text creating f v =
      if f.generated && is_blank v
      then ok none
      else if f.readonly
      then refuse "Un campo de solo lectura no admite cambios."
      else if (f.secret || f.write_only) && is_blank v && not creating
      then ok none
      else if f.multiple
      then sendable_text f "Selección múltiple inválida." (joined v)
      else if is_boolean f
      then boolean_text f v
      else if is_number f
      then number_text f v
      else sendable_text f "Valor de campo inválido." v

  placed : String → Value → Option String → Result Value
  placed name merged none = ok merged
  placed name merged (some s) = put_of merged name (str s)

  value_entry : Bool → String → Value → Value → Option Field → Result Value
  unfolding value_text placed
  value_entry creating name v merged none = refuse "Hay campos no permitidos."
  value_entry creating name v merged (some f) =
      and_then (value_text creating f v) (placed name merged)

  -- The loop over the values
  unfoldable pub place_values : Bool → List Field → Fields → Value → Result Value
  unfolding value_entry
  place_values creating fs end merged = ok merged
  place_values creating fs (field name v vs) merged =
      and_then (value_entry creating name v merged (field_named name fs))
        (place_values creating fs vs)

-- The values that a form starts with, for a new object: `merged` where `creating`.
seed : Option Value → Option Value → Option Value
seed (some v) default = some v
seed none default = default

seeded : String → Fields → Option Value → Fields
seeded name merged none = merged
seeded name merged (some null) = merged
seeded name merged (some v) = put_name name v merged

unfoldable pub created_form : List Field → Value → Fields → Result Fields
unfolding seed seeded
created_form [] current merged = ok merged
created_form (f ∷ fs) current merged =
    if f.readonly
    then created_form fs current merged
    else and_then (get_of current f.name)
        (λ found. created_form fs current (seeded f.name merged (seed found f.default)))

-- The removal of the fields that are not sent back
unfoldable pub drop_unsent : List Field → Value → Result Value
drop_unsent [] merged = ok merged
drop_unsent (f ∷ fs) merged =
    if f.readonly || f.write_only
    then and_then (drop_of merged f.name) (drop_unsent fs)
    else drop_unsent fs merged

abbrev pub is_missing : Option Value → Bool
is_missing none = true
is_missing (some v) = is_blank v

-- A field that must have a value
abbrev pub demanded : Bool → Field → Bool
demanded creating f = f.required && not (f.write_only && not creating)

-- The last loop
unfoldable pub check_required : Bool → List Field → Value → Result Value
check_required creating [] merged = ok merged
check_required creating (f ∷ fs) merged =
    if demanded creating f
    then and_then (get_of merged f.name) (λ found.
      if is_missing found
      then refuse "Falta un campo obligatorio."
      else check_required creating fs merged)
    else check_required creating fs merged

abbrev pub known : List Field → String → Bool
known fs name = any_of (λ f. f.name == name) fs

unfoldable pub base_form : Bool → List Field → Value → Result Value
unfolding created_form
base_form true fs current = and_then (created_form fs current end) (λ merged. ok (dict merged))
base_form false fs current = ok current

-- `_values`
unfoldable pub values_of : (Value → String) → Spec → Value → Value → Bool → Result Value
unfolding base_form normalized drop_unsent place_values check_required
values_of repr spec (dict values) current creating =
    let fs = by_name spec.fields in
    if not (all_of (known fs) (keys values))
    then refuse "Hay campos no permitidos."
    else and_then (base_form creating fs current) (λ form.
      and_then (drop_unsent fs (normalized form))
        (λ kept. and_then (place_values repr creating fs values kept) (check_required creating fs)))
values_of repr spec _ current creating = refuse "Se requiere un objeto values."
