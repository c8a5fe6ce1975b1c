-- ===== src/Verified/Checks.antt =====
-- The checks of `src/writers/verified.py` on values: uuids, revisions, stored forms, readbacks and
-- acknowledgements.
use pegaprox_plugin_opnsense.Prelude.{
  ℕ, String, ◌<>◌, Bool, true, false, ◌&&◌, ◌||◌, Option, none, some, List, [], ◌∷◌, if◌then◌else◌,
  ◌==◌, eqb, all_of, one_of, all_chars, count_chars, is_hex_lower, lower, strip, split_on,
  join_comma, sorted, less, same_list,
}
use pegaprox_plugin_opnsense.Value.{
  Value, null, bool, int, negative, real, str, list, dict, Fields, end, field, get, get_or, values,
  truthy, text_of, is_option, fields_of,
}
use pegaprox_plugin_opnsense.Exec.{
  Result, ok, raised, value_error, type_error, attribute_error, rejected,
}

-- `re.fullmatch(r"[0-9a-f]{64}", value)`
abbrev pub is_revision : String → Bool
is_revision s = eqb (count_chars s) 64 && all_chars is_hex_lower s

-- `validate_revision`
unfoldable pub validate_revision : Value → Result String
validate_revision (str s) =
    if is_revision s
    then ok s
    else raised
        (value_error "revision must be the 64-character revision returned by the latest listing")
validate_revision _ =
    raised (value_error "revision must be the 64-character revision returned by the latest listing")

abbrev hex_of_length : ℕ → String → Bool
hex_of_length n s = eqb (count_chars s) n && all_chars is_hex_lower s

uuid_pieces : List String → Bool
uuid_pieces (a ∷ b ∷ c ∷ d ∷ e ∷ []) =
    hex_of_length 8 a
    && hex_of_length 4 b
    && hex_of_length 4 c
    && hex_of_length 4 d
    && hex_of_length 12 e
uuid_pieces _ = false

-- `str(UUID(value)) == value`, for a text in lower case: what `UUID` prints has this form, and is
-- read back by it.
unfoldable pub is_canonical_uuid : String → Bool
unfolding uuid_pieces
is_canonical_uuid s = uuid_pieces (split_on (λ c. eqb c b'-') s)

-- `validate_uuid`
unfoldable pub validate_uuid : Value → Result String
unfolding is_canonical_uuid
validate_uuid (str s) =
    if is_canonical_uuid (lower s)
    then ok (lower s)
    else raised (value_error "uuid must be a canonical UUID")
validate_uuid _ = raised (type_error "uuid must be a UUID string")

-- `",".join(str(k) for k, v in value.items() if str(v["selected"]) == "1")`, as a list
unfoldable pub chosen : (Value → String) → Fields → List String
chosen repr end = []
chosen repr (field k v fs) =
    let rest = chosen repr fs in
    if text_of repr (get_or "selected" null (fields_of v)) == "1" then k ∷ rest else rest

-- `value and all(isinstance(v, dict) and "selected" in v for v in value.values())`
abbrev pub is_form : Fields → Bool
is_form end = false
is_form (field k v fs) = all_of is_option (v ∷ values fs)

module _ (repr : Value → String) where
  unfoldable mutual
    -- `selected`
    pub selected : Value → Value
    selected null = null
    selected (bool b) = bool b
    selected (int n) = int n
    selected (negative n) = negative n
    selected (real s) = real s
    selected (str s) = str s
    selected (list vs) = list vs
    selected (dict fs) =
        let stored = selected_fields fs in
        if is_form fs then str (join_comma (chosen repr fs)) else dict stored

    pub selected_fields : Fields → Fields
    selected_fields end = end
    selected_fields (field k v fs) = field k (selected v) (selected_fields fs)

-- A flat dictionary of texts
abbrev pub Flat : Type 0
Flat = List (String × String)

unfoldable pub flat_put : String → String → Flat → Flat
flat_put k v [] = (k, v) ∷ []
flat_put k v ((j, w) ∷ m) = if j == k then (j, v) ∷ m else (j, w) ∷ flat_put k v m

unfoldable pub flat_get : String → Flat → Option String
flat_get k [] = none
flat_get k ((j, v) ∷ m) = if j == k then some v else flat_get k m

module _ (repr : Value → String) where
  unfoldable mutual
    -- `_flatten` of one entry with its full name, into the dictionary so far.
    pub flatten_value : Value → String → Flat → Flat
    flatten_value null name m = flat_put name "" m
    flatten_value (bool b) name m = flat_put name (text_of repr (bool b)) m
    flatten_value (int n) name m = flat_put name (text_of repr (int n)) m
    flatten_value (negative n) name m = flat_put name (text_of repr (negative n)) m
    flatten_value (real s) name m = flat_put name s m
    flatten_value (str s) name m = flat_put name s m
    flatten_value (list vs) name m = flat_put name (repr (list vs)) m
    flatten_value (dict fs) name m = flatten fs (name <> ".") m

    -- `_flatten`, into the dictionary so far
    pub flatten : Fields → String → Flat → Flat
    flatten end prefix m = m
    flatten (field k v fs) prefix m = flatten fs prefix (flatten_value v (prefix <> k) m)

-- The sorted members of an alias's content: lines or a comma-separated selection.
unfoldable pub content_members : String → List String
content_members s = sorted less (split_on (λ c. eqb c b',' || eqb c 10) s)

-- The comparison of one field of a readback with the value that was asked for.
unfoldable pub same_field : String → String → String → Bool
unfolding content_members
same_field key observed value =
    let observed' = if key == "protocol" then lower observed else observed in
    let value' = if key == "protocol" then lower value else value in
    if key == "content"
    then same_list (content_members observed') (content_members value')
    else observed' == value'

-- The loop of `matches`
unfoldable pub matches_flat : Flat → Flat → Bool
unfolding same_field
matches_flat actual [] = true
matches_flat actual ((key, value) ∷ expected) = elim (flat_get key actual) [
  | none ↦ false
  | some observed ↦ same_field key observed value && matches_flat actual expected
]

-- `matches`; what is no object after `selected` raises at `.items()`.
unfoldable pub matches : (Value → String) → Value → Fields → Result Bool
unfolding matches_flat
matches repr actual expected = elim (selected repr actual) [
  | dict fs ↦ ok (matches_flat (flatten repr fs "" []) (flatten repr expected "" []))
  | _ ↦ raised (attribute_error "object has no attribute 'items'")
]

-- `str(response[k]).strip().lower() for k in ("result", "status") if k in response`
unfoldable pub markers : (Value → String) → List String → Fields → List String
markers repr [] fs = []
markers repr (k ∷ ks) fs = elim (get k fs) [
  | some v ↦ lower (strip (text_of repr v)) ∷ markers repr ks fs
  | none ↦ markers repr ks fs
]

abbrev pub success_words : List String
success_words = "ok" ∷ "saved" ∷ "deleted" ∷ "done" ∷ "success" ∷ []

abbrev acknowledged : List String → Bool
acknowledged [] = false
acknowledged (w ∷ ws) = all_of (one_of success_words) (w ∷ ws)

-- `require_success`
unfoldable pub require_success : (Value → String) → Value → String → Result Fields
unfolding markers
require_success repr (dict fs) operation =
    if truthy (get_or "validations" null fs)
    then raised
        (rejected (operation <> ": OPNsense rejected validation") (get_or "validations" null fs))
    else if acknowledged (markers repr ("result" ∷ "status" ∷ []) fs)
    then ok fs
    else raised (rejected (operation <> ": OPNsense did not acknowledge success") null)
require_success repr _ operation = raised (rejected (operation <> ": invalid API response") null)
