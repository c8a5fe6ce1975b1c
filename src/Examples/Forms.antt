-- ===== src/Examples/Forms.antt =====
-- Forms of `src/management/engine.py` on concrete values.
use pegaprox_plugin_opnsense.Prelude.{
  true, false, some, [], ◌∷◌, ◌≡◌, refl, all_of, count_chars, has_char, sorted, insert_sorted,
  split_on,
}
use pegaprox_plugin_opnsense.Value
use pegaprox_plugin_opnsense.Value.{
  Value, null, bool, int, str, list, dict, Fields, end, field, entries, keys, has_key, get_or,
}
use pegaprox_plugin_opnsense.Exec.{ok}
use pegaprox_plugin_opnsense.Verified.Checks
use pegaprox_plugin_opnsense.Engine.{Field, by_name, field_named}
use pegaprox_plugin_opnsense.Engine.Names.{get_path, get_name, get_of, put_path, put_name, put_of}
use pegaprox_plugin_opnsense.Engine.Values.{
  known, value_text, place_values, drop_unsent, check_required, base_form, values_of, normalized,
  normalized_fields,
}
use pegaprox_plugin_opnsense.Engine.Readback.{agrees, compared, compare_fields}
use pegaprox_plugin_opnsense.Engine.Replies
use pegaprox_plugin_opnsense.Engine.Paths.{get_name-put_name}
use pegaprox_plugin_opnsense.Engine.Forms.{
  Each, Filled, Equal, values_of_required, compare_fields-Each,
}
use pegaprox_plugin_opnsense.Engine.Selections.{is_plain, selected_agree}
use pegaprox_plugin_opnsense.Examples.Management.{things, name_field}

get_name-put_name_example :
    get_name "general.port" (put_name "general.port" (str "53") (field "enabled" (str "1") end))
    ≡ some (str "53")
get_name-put_name_example =
    get_name-put_name "general.port" (str "53") (field "enabled" (str "1") end)

abbrev entered : Fields
entered = field "name" (str "b") end

-- The old object has an empty option field, too.
abbrev old : Value
old = dict (field "name" (str "a") (field "kind" (dict end) end))

abbrev new : Value
new = dict (field "name" (str "b") (field "kind" (str "") end))

formed : values_of (λ v. "") things (dict entered) old false ≡ ok new
unfolding Value.get Value.put has_key by_name field_named get_path get_name get_of put_path put_name
    put_of value_text place_values drop_unsent check_required base_form values_of normalized
    normalized_fields count_chars has_char
formed = refl

values_of_required_example :
    (all_of (known (by_name things.fields)) (keys entered) ≡ true)
    × Each (Filled false new) (by_name things.fields)
values_of_required_example = values_of_required (λ v. "") things entered old false new formed

-- A field with several members, read back in another order
abbrev members_field : Field
members_field = record name_field { name = "members"; multiple = true }

abbrev set_members : Fields
set_members = field "members" (str "b,a") end

compared_equal :
    compare_fields
      (λ v. "")
      set_members
      (dict (field "members" (str "a,b") end))
      (dict set_members)
      (members_field ∷ [])
    ≡ ok tt
unfolding Value.get Value.text_of has_key get_or get_name get_of agrees compared compare_fields
    sorted insert_sorted split_on
compared_equal = refl

compare_fields-Each_example :
    Each
      (Equal (λ v. "") set_members (dict (field "members" (str "a,b") end)) (dict set_members))
      (members_field ∷ [])
compare_fields-Each_example =
    compare_fields-Each (λ v. "") set_members (dict (field "members" (str "a,b") end))
      (dict set_members) (members_field ∷ []) compared_equal

-- A form with two options, one of which is selected
abbrev options : Value
options = dict (
    field "proto"
      (dict (
        field "tcp" (dict (field "selected" (int 1) end))
          (field "udp" (dict (field "selected" (int 0) end)) end)))
      (field "name" (str "a") end))

plain : is_plain options ≡ true
unfolding is_plain
plain = refl

selected_agree_example : Replies.selected (λ v. "") options ≡ Checks.selected (λ v. "") options
selected_agree_example = selected_agree (λ v. "") options plain
