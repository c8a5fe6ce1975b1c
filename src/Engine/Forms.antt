-- ===== src/Engine/Forms.antt =====
-- What a form of `src/management/engine.py` that is sent, or read back, has in its fields.
use pegaprox_plugin_opnsense.Prelude.{
  String, Bool, true, false, not, Option, List, [], ◌∷◌, if◌then◌else◌, all_of, ◌≡◌, refl, sym, ap,
  ◌∙◌,
}
use mathlib.Core.Path.{subst}
use pegaprox_plugin_opnsense.Value.{Value, dict, Fields, keys}
use pegaprox_plugin_opnsense.Exec.{Result, ok, raised}
use pegaprox_plugin_opnsense.Engine.{Spec, Field, refusal, by_name}
use pegaprox_plugin_opnsense.Engine.Names.{get_of}
use pegaprox_plugin_opnsense.Engine.Values.{
  and_then, refuse, is_missing, demanded, known, check_required, values_of, base_form, drop_unsent,
  normalized, place_values,
}
use pegaprox_plugin_opnsense.Engine.Readback.{
  plain_text, agrees, unchecked, is_none, compared, compare_fields,
}

-- What holds of each field
abbrev pub Each : (Field → Type 0) → List Field → Type 0
Each P [] = Unit {0}
Each P (f ∷ fs) = P f × Each P fs

pub and_then-ok :
    {A B : Type 0} (r : Result A) (f : A → Result B) (b : B)
    → and_then r f ≡ ok b
    → (a : A) × ((r ≡ ok a) × (f a ≡ ok b))
and_then-ok (ok a) f b e = (a, (refl, e))
and_then-ok (raised x) f b e = cc

-- A field that must have a value has one.
abbrev pub Filled : Bool → Value → Field → Type 0
Filled creating form f =
    demanded creating f ≡ true
    → (found : Option Value) × ((get_of form f.name ≡ ok found) × (is_missing found ≡ false))

check_required-Filled :
    (creating : Bool) (fs : List Field) (form final : Value)
    → check_required creating fs form ≡ ok final
    → (form ≡ final) × Each (Filled creating form) fs
unfolding check_required refuse
check_required-Filled creating [] form final e = (cc, tt)
check_required-Filled creating (f ∷ fs) form final e =
    checked (demanded creating f) refl (λ e. check_required-Filled creating fs form final e) e
  where
    checked :
        (b : Bool)
        → demanded creating f ≡ b
        → (check_required creating fs form ≡ ok final
            → (form ≡ final) × Each (Filled creating form) fs)
        → (if b
            then and_then (get_of form f.name) (λ found.
              if is_missing found
              then refuse "Falta un campo obligatorio."
              else check_required creating fs form)
            else check_required creating fs form)
          ≡ ok final
        → (form ≡ final) × Each (Filled creating form) (f ∷ fs)
    checked false d ih e = let rest = ih e in (rest.0, ((λ h. cc), rest.1))
    checked true d ih e =
        let (found, (p, q)) = and_then-ok (get_of form f.name) _ final e in
        filled found (is_missing found) refl p q
      where
        filled :
            (found : Option Value) (b : Bool)
            → is_missing found ≡ b
            → get_of form f.name ≡ ok found
            → (if b then refuse "Falta un campo obligatorio." else check_required creating fs form)
              ≡ ok final
            → (form ≡ final) × Each (Filled creating form) (f ∷ fs)
        filled found true m p q = cc
        filled found false m p q = let rest = ih q in (rest.0, ((λ h. (found, (p, m))), rest.1))

-- The values of a form that is accepted name fields of the specification only, and each field that
-- must have a value has one.
pub values_of_required :
    (repr : Value → String) (spec : Spec) (values : Fields) (current : Value) (creating : Bool)
    (final : Value)
    → values_of repr spec (dict values) current creating ≡ ok final
    → (all_of (known (by_name spec.fields)) (keys values) ≡ true)
      × Each (Filled creating final) (by_name spec.fields)
unfolding values_of refuse
values_of_required repr spec values current creating final e =
    accepted (all_of (known (by_name spec.fields)) (keys values)) refl e
  where
    accepted :
        (b : Bool)
        → all_of (known (by_name spec.fields)) (keys values) ≡ b
        → (if not b
            then refuse "Hay campos no permitidos."
            else and_then (base_form creating (by_name spec.fields) current) (λ form.
              and_then (drop_unsent (by_name spec.fields) (normalized form)) (λ kept.
                and_then
                  (place_values repr creating (by_name spec.fields) values kept)
                  (check_required creating (by_name spec.fields)))))
          ≡ ok final
        → (b ≡ true) × Each (Filled creating final) (by_name spec.fields)
    accepted false h e = cc
    accepted true h e =
        let (form, (_, q)) =
          and_then-ok (base_form creating (by_name spec.fields) current) _ final e in
        let (kept, (_, r)) =
          and_then-ok (drop_unsent (by_name spec.fields) (normalized form)) _ final q in
        let (placed, (_, s)) =
          and_then-ok (place_values repr creating (by_name spec.fields) values kept) _ final r in
        let filled = check_required-Filled creating (by_name spec.fields) placed final s in
        (refl, subst (λ x. Each (Filled creating x) (by_name spec.fields)) filled.0 filled.1)

-- A field that was set and is not left out has, as it was read back, the text that it was set to, in
-- any order if it has several members.
abbrev pub Equal : (Value → String) → Fields → Value → Value → Field → Type 0
Equal repr values actual expected f =
    unchecked values f ≡ false
    → (wanted : Option Value) → get_of expected f.name ≡ ok wanted
    → is_none wanted ≡ false
    → (observed : Option Value) × ((get_of actual f.name ≡ ok observed)
        × (agrees f (plain_text repr observed) (plain_text repr wanted) ≡ true))

compared-Equal :
    (repr : Value → String) (f : Field) (actual : Value) (wanted : Option Value)
    → compared repr f actual wanted ≡ ok tt
    → is_none wanted ≡ false
    → (observed : Option Value) × ((get_of actual f.name ≡ ok observed)
        × (agrees f (plain_text repr observed) (plain_text repr wanted) ≡ true))
unfolding compared
compared-Equal repr f actual wanted e h =
    let (observed, (p, q)) =
      and_then-ok (get_of actual f.name) _ tt (sym (skip (is_none wanted) h _) ∙ e) in
    (observed, (p, agreed (agrees f (plain_text repr observed) (plain_text repr wanted)) q))
  where
    skip : (b : Bool) → b ≡ false → (r : Result (Unit {0})) → (if b then ok (tt {0}) else r) ≡ r
    skip true h r = cc
    skip false h r = refl

    agreed :
        (b : Bool)
        → (if b
            then ok (tt {0})
            else raised
                (refusal "unverified" "La lectura posterior no coincide con el cambio." 502))
          ≡ ok (tt {0})
        → b ≡ true
    agreed true q = refl
    agreed false q = cc

-- An object that was read back and passes the comparison agrees in each field that was set and is
-- not left out.
pub compare_fields-Each :
    (repr : Value → String) (values : Fields) (actual expected : Value) (fs : List Field)
    → compare_fields repr values actual expected fs ≡ ok tt
    → Each (Equal repr values actual expected) fs
unfolding compare_fields
compare_fields-Each repr values actual expected [] e = tt
compare_fields-Each repr values actual expected (f ∷ fs) e =
    checked (unchecked values f) refl (compare_fields-Each repr values actual expected fs) e
  where
    checked :
        (b : Bool)
        → unchecked values f ≡ b
        → (compare_fields repr values actual expected fs ≡ ok tt
            → Each (Equal repr values actual expected) fs)
        → (if b
            then compare_fields repr values actual expected fs
            else and_then (get_of expected f.name) (λ wanted.
              and_then
                (compared repr f actual wanted)
                (λ _. compare_fields repr values actual expected fs)))
          ≡ ok tt
        → Equal repr values actual expected f × Each (Equal repr values actual expected) fs
    checked true h ih e = ((λ n. cc), ih e)
    checked false h ih e =
        let (wanted, (p, q)) = and_then-ok (get_of expected f.name) _ tt e in
        let (_, (r, s)) = and_then-ok (compared repr f actual wanted) _ tt q in
        (
          (λ _ w g n.
              let same : wanted ≡ w = cc in
              compared-Equal repr f actual w (ap (compared repr f actual) (sym same) ∙ r) n),
          ih s,
        )
