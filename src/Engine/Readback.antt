-- ===== src/Engine/Readback.antt =====
-- The comparison of an object with what it was set to, of `_mutate` of `src/management/engine.py`.
use pegaprox_plugin_opnsense.Prelude.{
  String, Bool, true, false, ◌&&◌, ◌||◌, not, Option, none, some, List, [], ◌∷◌, if◌then◌else◌,
  ◌==◌, eqb, split_on, sorted, less, same_list,
}
use pegaprox_plugin_opnsense.Value.{Value, null, dict, Fields, end, get_or, has_key, text_of}
use pegaprox_plugin_opnsense.Exec.{Result, ok, raised}
use pegaprox_plugin_opnsense.Engine.{Action, Spec, Field, refusal}
use pegaprox_plugin_opnsense.Engine.Names.{get_of}
use pegaprox_plugin_opnsense.Engine.Values.{is_blank, and_then}

-- `str(value)`, `{}` counted as an empty text
abbrev pub plain_text : (Value → String) → Option Value → String
plain_text repr none = ""
plain_text repr (some (dict end)) = ""
plain_text repr (some v) = text_of repr v

abbrev members : String → List String
members s = sorted less (split_on (λ c. eqb c b',') s)

-- The comparison of a field that was read with what it was set to
unfoldable pub agrees : Field → String → String → Bool
agrees f observed desired =
    if f.multiple then same_list (members observed) (members desired) else observed == desired

abbrev pub is_none : Option Value → Bool
is_none none = true
is_none (some null) = true
is_none (some v) = false

-- A field that is not compared: it was not in the values, or the firewall sets it.
abbrev pub unchecked : Fields → Field → Bool
unchecked values f =
    not (has_key f.name values)
    || f.volatile
    || f.readonly
    || f.write_only
    || (f.generated && is_blank (get_or f.name null values))

unfoldable pub compared : (Value → String) → Field → Value → Option Value → Result (Unit {0})
unfolding agrees
compared repr f actual wanted =
    if is_none wanted
    then ok tt
    else and_then (get_of actual f.name) (λ observed.
      if agrees f (plain_text repr observed) (plain_text repr wanted)
      then ok tt
      else raised (refusal "unverified" "La lectura posterior no coincide con el cambio." 502))

-- The loop over the fields of an object that was read back
unfoldable pub compare_fields :
    (Value → String) → Fields → Value → Value → List Field → Result (Unit {0})
unfolding compared
compare_fields repr values actual expected [] = ok tt
compare_fields repr values actual expected (f ∷ fs) =
    let rest = compare_fields repr values actual expected fs in
    if unchecked values f
    then rest
    else and_then (get_of expected f.name)
        (λ wanted. and_then (compared repr f actual wanted) (λ _. rest))

-- `spec["verify"](spec, actual, expected, action)`
abbrev pub hook : Spec → Value → Value → Action → Result (Unit {0})
hook spec actual expected action = elim spec.verify [
  | none ↦ ok tt
  | some verify ↦ verify actual expected action
]

-- `spec["prepare"](spec, expected, current, action)`
abbrev pub prepared : Spec → Value → Value → Action → Result Value
prepared spec expected current action = elim spec.prepare [
  | none ↦ ok expected
  | some prepare ↦ prepare expected current action
]
