-- ===== src/Engine/Items.antt =====
-- The values of the replies of `ManagementService` of `src/management/engine.py`: objects, the rows
-- of a listing, and the form of an object.
use pegaprox_plugin_opnsense.Prelude.{
  ℕ, String, Bool, true, false, ◌&&◌, ◌||◌, not, Option, none, some, List, [], ◌∷◌, length,
  if◌then◌else◌, ltb, leb, one_of, count_chars, has_char, map, ℤ, pos, negsuc, parse_int,
}
use pegaprox_plugin_opnsense.Value.{
  Value, null, bool, int, negative, real, str, list, dict, Fields, end, field, get_or, get, put,
  fields_of, text_of,
}
use pegaprox_plugin_opnsense.Exec.{Result, ok, raised, attribute_error}
use pegaprox_plugin_opnsense.Verified.Reads.{rows_of}
use pegaprox_plugin_opnsense.Engine.{Spec, Field, refusal}
use pegaprox_plugin_opnsense.Engine.Names.{get_name}
use pegaprox_plugin_opnsense.Engine.Replies.{selected, dict_items, list_items, all_options}
use pegaprox_plugin_opnsense.Engine.Values.{refuse, and_then}

-- `_raw`, from the reply on
unfoldable pub object_in : String → Value → Result Value
object_in key (dict out) = elim (get_name key out) [
  | some (dict (field k v fs)) ↦ ok (dict (field k v fs))
  | _ ↦ raised (refusal "invalid_response" "No se recibió el objeto solicitado." 502)
]
object_in key _ = raised (refusal "invalid_response" "No se recibió el objeto solicitado." 502)

-- `isinstance(value, (str, bool, int, float))`, `{}` counted as an empty text
shown : Option Value → Option Value
shown (some (dict end)) = some (str "")
shown (some (str s)) = some (str s)
shown (some (bool b)) = some (bool b)
shown (some (int n)) = some (int n)
shown (some (negative n)) = some (negative n)
shown (some (real s)) = some (real s)
shown _ = none

set_if : String → Option Value → Fields → Fields
set_if name none item = item
set_if name (some v) item = put name v item

-- The loop of `_public`
public_fields : Bool → List Field → Fields → Fields → Fields
unfolding shown set_if
public_fields listing [] raw item = item
public_fields listing (f ∷ fs) raw item = public_fields listing fs raw (
    if f.secret || f.write_only
    then if listing then item else put f.name (str "") item
    else set_if f.name (shown (get_name f.name raw)) item)

-- `_public`
unfoldable pub public_item : Spec → Bool → Value → Result Fields
unfolding public_fields
public_item spec listing (dict raw) = ok (
    public_fields listing spec.fields raw
      (elim (get_or "uuid" null raw) [ str s ↦ field "uuid" (str s) end | _ ↦ end ]))
public_item spec listing _ = raised (attribute_error "object has no attribute 'get'")

-- What `list` returns
pub record Listing : Type 0 where
  pub rows : List Fields
  pub total : ℕ
  pub page : Value
  pub row_count : Value

-- `isinstance(n, int)` and `1 <= n <= bound`
abbrev pub in_bounds : ℕ → Value → Bool
in_bounds bound (int n) = leb 1 n && leb n bound
in_bounds bound _ = false

abbrev pub is_phrase : Value → Bool
is_phrase (str s) = not (ltb 256 (count_chars s)) && not (has_char 0 s)
is_phrase _ = false

-- The checks of `list`
unfoldable pub checked_page : Value → Value → Value → Result (Unit {0})
checked_page page row_count search =
    if not (in_bounds 100000 page)
    then refuse "Página inválida."
    else if not (in_bounds 200 row_count)
    then refuse "Tamaño de página inválido."
    else if not (is_phrase search)
    then refuse "Texto de búsqueda inválido."
    else ok tt

-- `int(out["total"])`, `none` where it raises or the value is a boolean.
unfoldable pub total_in : (String → ℤ) → Value → Option ℤ
total_in truncated (int n) = some (pos n)
total_in truncated (negative n) = some (negsuc n)
total_in truncated (real s) = some (truncated s)
total_in truncated (str s) = parse_int s
total_in truncated _ = none

bad_total : {A : Type 0} → Result A
bad_total = raised (refusal "invalid_response" "Total de objetos inválido." 502)

-- A total that is not below the number of rows
unfoldable pub enough : ℕ → Option ℤ → Result ℕ
unfolding bad_total
enough count (some (pos n)) = if ltb n count then bad_total else ok n
enough count _ = bad_total

-- `[self._public(spec, selected(row), True) for row in …]`
unfoldable pub public_rows : (Value → String) → Spec → List Fields → Result (List Fields)
unfolding public_item
public_rows repr spec [] = ok []
public_rows repr spec (r ∷ rs) =
    and_then (public_item spec true (selected repr (dict r)))
      (λ item. and_then (public_rows repr spec rs) (λ items. ok (item ∷ items)))

bad_list : {A : Type 0} → Result A
bad_list = raised (refusal "invalid_response" "Lista de objetos inválida." 502)

-- `list`, from the reply on
unfoldable pub listing_in :
    (Value → String) → (String → ℤ) → Spec → Value → Value → Value → Result Listing
unfolding bad_list
listing_in repr truncated spec page row_count (dict out) = elim (get "rows" out) [
  | some (list items) ↦ elim (rows_of items) [
    | none ↦ bad_list
    | some rs ↦
        and_then (enough (length rs) (total_in truncated (get_or "total" null out))) (λ total.
          and_then (public_rows repr spec rs) (λ rows.
            ok (record { rows = rows; total = total; page = page; row_count = row_count })))
  ]
  | _ ↦ bad_list
]
listing_in repr truncated spec page row_count _ = bad_list

-- What `detail` returns
pub record Detail : Type 0 where
  pub item : Fields
  pub fields : List Field
  pub revision : Option String

module _ (repr : Value → String) where
  option_pairs : List (String × Value) → List (String × String)
  option_pairs [] = []
  option_pairs ((k, v) ∷ items) =
      (k, text_of repr (get_or "value" (str k) (fields_of v))) ∷ option_pairs items

  -- The items whose keys the specification permits
  permitted_items : List (String × String) → List (String × Value) → List (String × Value)
  permitted_items [] items = items
  permitted_items (o ∷ os) items = keep_known items
    where
      keep_known : List (String × Value) → List (String × Value)
      keep_known [] = []
      keep_known ((k, v) ∷ items) =
          let rest = keep_known items in
          if one_of (map (λ p. p.0) (o ∷ os)) k then (k, v) ∷ rest else rest

  items_of : Option Value → List (String × Value)
  items_of (some (dict fs)) = dict_items fs
  items_of (some (list vs)) = list_items 0 vs
  items_of _ = []

  -- The options of a field, from the form that the firewall sent
  with_options : Field → List (String × Value) → Field
  unfolding option_pairs permitted_items
  with_options f [] = f
  with_options f (item ∷ items) =
      if not f.secret && all_options (item ∷ items)
      then record f { options = option_pairs (permitted_items f.options (item ∷ items)) }
      else f

  unfoldable pub detailed_fields : List Field → Fields → List Field
  unfolding with_options items_of
  detailed_fields [] raw = []
  detailed_fields (f ∷ fs) raw =
      with_options f (items_of (get_name f.name raw)) ∷ detailed_fields fs raw

-- The defaults of `detail`, which take the place of what the firewall sent.
unfoldable pub with_defaults : Bool → List Field → Fields → Fields
with_defaults editing [] item = item
with_defaults editing (f ∷ fs) item =
    with_defaults editing fs (elim (if editing then f.edit_default else f.create_default) [
      | some v ↦ put f.name v item
      | none ↦ item
    ])
