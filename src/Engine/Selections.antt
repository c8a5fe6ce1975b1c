-- ===== src/Engine/Selections.antt =====
-- The two functions `selected`, of `src/management/engine.py` and of `src/writers/verified.py`.
use pegaprox_plugin_opnsense.Prelude.{
  and_true, String, Bool, true, false, ◌&&◌, ◌∷◌, if◌then◌else◌, ◌==◌, all_of, ◌≡◌, refl, ap,
}
use pegaprox_plugin_opnsense.Value.{
  Value, null, bool, int, negative, real, str, list, dict, Fields, end, field, values, text_of,
  get_or, fields_of, is_option,
}
use pegaprox_plugin_opnsense.Verified.Checks
use pegaprox_plugin_opnsense.Verified.Checks.{is_form, chosen}
use pegaprox_plugin_opnsense.Engine.Replies
use pegaprox_plugin_opnsense.Engine.Replies.{dict_items, all_options, selected_keys}

unfoldable mutual
  -- No array and no empty object in it
  pub is_plain : Value → Bool
  is_plain (list vs) = false
  is_plain (dict end) = false
  is_plain (dict (field k v fs)) = is_plain v && plain_fields fs
  is_plain _ = true

  pub plain_fields : Fields → Bool
  plain_fields end = true
  plain_fields (field k v fs) = is_plain v && plain_fields fs

all_options-values : (fs : Fields) → all_options (dict_items fs) ≡ all_of is_option (values fs)
unfolding all_options dict_items
all_options-values end = refl
all_options-values (field k v fs) = ap (λ b. is_option v && b) (all_options-values fs)

module _ (repr : Value → String) where
  selected_keys-chosen : (fs : Fields) → selected_keys repr (dict_items fs) ≡ chosen repr fs
  unfolding selected_keys dict_items chosen
  selected_keys-chosen end = refl
  selected_keys-chosen (field k v fs) =
      ap (λ ks. if text_of repr (get_or "selected" null (fields_of v)) == "1" then k ∷ ks else ks)
        (selected_keys-chosen fs)

  mutual
    unfolding is_plain Replies.selected Checks.selected

    agree_value : (v : Value) → is_plain v ≡ true → Replies.selected repr v ≡ Checks.selected repr v
    agree_value null h = refl
    agree_value (bool b) h = refl
    agree_value (int n) h = refl
    agree_value (negative n) h = refl
    agree_value (real s) h = refl
    agree_value (str s) h = refl
    agree_value (list vs) h = cc
    agree_value (dict end) h = cc
    agree_value (dict (field k v fs)) h =
        let parts = and_true (is_plain v) (plain_fields fs) h in
        rw
          (
            all_options-values (field k v fs),
            selected_keys-chosen (field k v fs),
            agree_value v parts.0,
            agree_fields fs parts.1,
          )
          refl

    agree_fields :
        (fs : Fields)
        → plain_fields fs ≡ true
        → Replies.selected_fields repr fs ≡ Checks.selected_fields repr fs
    agree_fields end h = refl
    agree_fields (field k v fs) h =
        let parts = and_true (is_plain v) (plain_fields fs) h in
        rw (agree_value v parts.0, agree_fields fs parts.1) refl

  -- On a value without arrays and empty objects, the two functions agree.
  pub selected_agree :
      (v : Value) → is_plain v ≡ true → Replies.selected repr v ≡ Checks.selected repr v
  selected_agree v h = agree_value v h
