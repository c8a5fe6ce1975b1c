-- ===== src/Engine/Names.antt =====
-- `_get`, `_put` and `_drop` of `src/management/engine.py`: entries of nested dictionaries by names
-- with dots.
use pegaprox_plugin_opnsense.Prelude.{
  String, Bool, false, Option, none, some, List, [], ◌∷◌, if◌then◌else◌, ◌==◌, eqb, any_of,
  split_on, contains,
}
use pegaprox_plugin_opnsense.Value.{
  Value, str, list, dict, Fields, end, field, get, put, has_key, fields_of, to_list,
}
use pegaprox_plugin_opnsense.Exec.{Result, ok, raised, type_error, attribute_error}

-- `name.split(".")`
abbrev pub parts_of : String → List String
parts_of = split_on (λ c. eqb c b'.')

-- The loop of `_get`, `none` where it returns the default.
unfoldable pub get_path : List String → Value → Option Value
unfolding get
get_path [] v = some v
get_path (p ∷ ps) (dict fs) = elim (get p fs) [ none ↦ none | some v ↦ get_path ps v ]
get_path (p ∷ ps) _ = none

-- `_get` of a dictionary, `none` where it returns the default.
unfoldable pub get_name : String → Fields → Option Value
unfolding get_path
get_name name fs = elim (get name fs) [
  | some v ↦ some v
  | none ↦ get_path (parts_of name) (dict fs)
]

abbrev is_text : String → Value → Bool
is_text s (str t) = t == s
is_text s _ = false

-- `_get(data, name)` of any value: `name in data` is a test for a part of a text or for a member of
-- an array, and raises for the rest.
unfoldable pub get_of : Value → String → Result (Option Value)
unfolding get_name
get_of (dict fs) name = ok (get_name name fs)
get_of (str s) name =
    if contains name s
    then raised (type_error "string indices must be integers, not 'str'")
    else ok none
get_of (list vs) name =
    if any_of (is_text name) (to_list vs)
    then raised (type_error "list indices must be integers or slices, not str")
    else ok none
get_of _ name = raised (type_error "argument is not iterable")

-- The dictionary that the loop of `_put` goes on in
abbrev pub fields_in : Option Value → Fields
fields_in none = end
fields_in (some w) = fields_of w

-- The loop of `_put` and its last assignment; what is no object on the way becomes one.
unfoldable pub put_path : List String → Value → Fields → Fields
unfolding put get
put_path [] v fs = fs
put_path (p ∷ []) v fs = put p v fs
put_path (p ∷ (q ∷ ps)) v fs = put p (dict (put_path (q ∷ ps) v (fields_in (get p fs)))) fs

-- `_put`
unfoldable pub put_name : String → Value → Fields → Fields
unfolding put_path has_key
put_name name v fs = if has_key name fs then put name v fs else put_path (parts_of name) v fs

-- `d.pop(k, None)`
unfoldable pub remove : String → Fields → Fields
remove k end = end
remove k (field j v fs) = if j == k then fs else field j v (remove k fs)

unfoldable pub drop_path : List String → Fields → Fields
unfolding remove put get
drop_path [] fs = fs
drop_path (p ∷ []) fs = remove p fs
drop_path (p ∷ (q ∷ ps)) fs = elim (get p fs) [
  | some (dict gs) ↦ put p (dict (drop_path (q ∷ ps) gs)) fs
  | _ ↦ fs
]

-- `_drop`
unfoldable pub drop_name : String → Fields → Fields
unfolding drop_path has_key
drop_name name fs = if has_key name fs then remove name fs else drop_path (parts_of name) fs

-- `_put` and `_drop` of any value: only dictionaries have items that can be set.
unfoldable pub put_of : Value → String → Value → Result Value
unfolding put_name
put_of (dict fs) name v = ok (dict (put_name name v fs))
put_of _ name v = raised (type_error "object does not support item assignment")

unfoldable pub drop_of : Value → String → Result Value
unfolding drop_name
drop_of (dict fs) name = ok (dict (drop_name name fs))
drop_of _ name = raised (attribute_error "object has no attribute 'pop'")
