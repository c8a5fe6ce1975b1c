-- ===== src/Value.antt =====
-- The JSON values that the API exchanges, with the Python operations on them that the code uses:
-- `isinstance`, truth, `dict.get`, `in`, item assignment, `str` and `==`. Keys are texts, as JSON's are.
use pegaprox_plugin_opnsense.Prelude.{
  ℕ, suc, String, ◌<>◌, Bool, true, false, ◌&&◌, ◌||◌, not, Option, none, some, List, [], ◌∷◌, ◌==◌,
  eqb, if◌then◌else◌, decimal,
}

mutual
  -- `negative n` is the integer -(n + 1); `real` keeps the text that Python prints for a float.
  pub data Value : Type 0 where
    null : Value
    bool : Bool → Value
    int : ℕ → Value
    negative : ℕ → Value
    real : String → Value
    str : String → Value
    list : Items → Value
    dict : Fields → Value

  pub data Items : Type 0 where
    nil : Items
    cons : Value → Items → Items

  pub data Fields : Type 0 where
    end : Fields
    field : String → Value → Fields → Fields

-- `d.get(k)`, and `k in d` where it gives a value.
unfoldable pub get : String → Fields → Option Value
get k end = none
get k (field j v fs) = if j == k then some v else get k fs

-- `d.get(k, default)`
unfoldable pub get_or : String → Value → Fields → Value
unfolding get
get_or k default fs = elim (get k fs) [ none ↦ default | some v ↦ v ]

unfoldable pub has_key : String → Fields → Bool
unfolding get
has_key k fs = elim (get k fs) [ none ↦ false | some _ ↦ true ]

-- `d[k] = v`: an old key keeps its place.
unfoldable pub put : String → Value → Fields → Fields
put k v end = field k v end
put k v (field j w fs) = if j == k then field j v fs else field j w (put k v fs)

-- `d.update(e)`
unfoldable pub update : Fields → Fields → Fields
unfolding put
update fs end = fs
update fs (field k v gs) = update (put k v fs) gs

abbrev pub is_dict : Value → Bool
is_dict (dict fs) = true
is_dict _ = false

abbrev pub is_str : Value → Bool
is_str (str s) = true
is_str _ = false

abbrev pub is_null : Value → Bool
is_null null = true
is_null _ = false

-- The fields of an object, and those of no object as `{}`.
abbrev pub fields_of : Value → Fields
fields_of (dict fs) = fs
fields_of _ = end

-- The elements of an array, and those of no array as `[]`.
abbrev pub to_list : Items → List Value
to_list nil = []
to_list (cons v vs) = v ∷ to_list vs

-- `d.values()`
abbrev pub values : Fields → List Value
values end = []
values (field k v fs) = v ∷ values fs

-- `d.keys()`
abbrev pub keys : Fields → List String
keys end = []
keys (field k v fs) = k ∷ keys fs

-- `bool(v)`
unfoldable pub truthy : Value → Bool
truthy null = false
truthy (bool b) = b
truthy (int n) = not (eqb n 0)
truthy (negative n) = true
truthy (real s) = not (s == "0.0" || s == "-0.0")
truthy (str s) = not (s == "")
truthy (list nil) = false
truthy (list (cons v vs)) = true
truthy (dict end) = false
truthy (dict (field k v fs)) = true

-- `str(v)`; the text of an array or an object is given by `repr`.
unfoldable pub text_of : (Value → String) → Value → String
text_of repr null = "None"
text_of repr (bool true) = "True"
text_of repr (bool false) = "False"
text_of repr (int n) = decimal n
text_of repr (negative n) = "-" <> decimal (suc n)
text_of repr (real s) = s
text_of repr (str s) = s
text_of repr (list vs) = repr (list vs)
text_of repr (dict fs) = repr (dict fs)

-- `isinstance(v, dict) and "selected" in v`
abbrev pub is_option : Value → Bool
is_option v = is_dict v && has_key "selected" (fields_of v)

-- `{k: v, …}`
abbrev pub entries : List (String × Value) → Fields
entries [] = end
entries ((k, v) ∷ rest) = field k v (entries rest)
