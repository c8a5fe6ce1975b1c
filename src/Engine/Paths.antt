-- ===== src/Engine/Paths.antt =====
-- `_put` and `_get` of `src/management/engine.py`: what was put under a name is found under it.
use Prim.Native.Nat.{ℕ, ◌<◌}
use Prim.Native.Char.{code}
use pegaprox_plugin_opnsense.Prelude.{
  String, Bool, true, false, Option, none, some, List, [], ◌∷◌, if◌then◌else◌, ◌==◌, eqb, arith,
  split_on, prepend, count_chars, ◌≡◌, refl, ap, ◌∙◌, ◌⊎◌, inl, inr, eq_iff, Bool-cases,
}
use pegaprox_plugin_opnsense.Value.{Value, dict, Fields, end, field, get, put, has_key}
use pegaprox_plugin_opnsense.Engine.Names.{
  parts_of, get_path, get_name, put_path, put_name, fields_in,
}

get-put : (k : String) (v : Value) (fs : Fields) → get k (put k v fs) ≡ some v
unfolding get put
get-put k v end = rw (itself k) refl
  where
    itself : (k : String) → (k == k) ≡ true
    itself k = (eq_iff k k).1 refl
get-put k v (field j w fs) = found (j == k) refl (get-put k v fs)
  where
    found :
        (b : Bool)
        → (j == k) ≡ b
        → get k (put k v fs) ≡ some v
        → get k (if b then field j v fs else field j w (put k v fs)) ≡ some v
    found true e h = rw e refl
    found false e h = rw e h

get-put_other :
    (k j : String) (v : Value) (fs : Fields) → (j == k) ≡ false → get k (put j v fs) ≡ get k fs
unfolding get put
get-put_other k j v end e = rw e refl
get-put_other k j v (field i w fs) e = found (i == j) refl (get-put_other k j v fs e)
  where
    found :
        (b : Bool)
        → (i == j) ≡ b
        → get k (put j v fs) ≡ get k fs
        → get k (if b then field i v fs else field i w (put j v fs))
          ≡ (if i == k then some w else get k fs)
    found true f h =
        let same : i ≡ j = (eq_iff i j).0 f in
        let other : (i == k) ≡ false = ap (λ x. x == k) same ∙ e in rw other refl
    found false f h = ap (λ o. if i == k then some w else o) h

-- A text is its only part, or it is longer than its first part, and there are others.
abbrev Parted : String → String → List String → Type 0
Parted s p ps =
    ((ps ≡ []) × (p ≡ s))
    ⊎ ((count_chars p < count_chars s) × ((q : String) × ((qs : List String) × (ps ≡ q ∷ qs))))

split_first :
    (sep : ℕ → Bool) (s : String)
    → (p : String) × ((ps : List String) × ((split_on sep s ≡ p ∷ ps) × Parted s p ps))
unfolding split_on prepend count_chars
split_first sep String.[] = ("", ([], (refl, inl (refl, refl))))
split_first sep (String.◌∷◌ c s) =
    let (p, (ps, (e, h))) = split_first sep s in parted (sep (code c)) p ps e h
  where
    parted :
        (b : Bool) (p : String) (ps : List String)
        → split_on sep s ≡ p ∷ ps
        → Parted s p ps
        → (q : String) × ((qs : List String) × (((if b
                  then "" ∷ split_on sep s
                  else prepend c (split_on sep s))
                ≡ q ∷ qs)
              × Parted (String.◌∷◌ c s) q qs))
    parted true p ps e h = ("", (split_on sep s, (refl, inr (omega arith, (p, (ps, e))))))
    parted false p ps e (inl (f, g)) =
        (String.◌∷◌ c p, (ps, (rw e refl, inl (f, ap (λ x. String.◌∷◌ c x) g))))
    parted false p ps e (inr (h, k)) = (String.◌∷◌ c p, (ps, (rw e refl, inr (omega arith, k))))

get_path_found :
    (p : String) (ps : List String) (fs : Fields) (v : Value)
    → get p fs ≡ some v
    → get_path (p ∷ ps) (dict fs) ≡ get_path ps v
unfolding get_path
get_path_found p ps fs v e = ap (λ o. elim o [ none ↦ none | some v ↦ get_path ps v ]) e

get_name_found :
    (name : String) (fs : Fields) (v : Value) → get name fs ≡ some v → get_name name fs ≡ some v
unfolding get_name
get_name_found name fs v e =
    ap (λ o. elim o [ some v ↦ some v | none ↦ get_path (parts_of name) (dict fs) ]) e

get_name_passed :
    (name : String) (fs : Fields)
    → get name fs ≡ none
    → get_name name fs ≡ get_path (parts_of name) (dict fs)
unfolding get_name
get_name_passed name fs e =
    ap (λ o. elim o [ some v ↦ some v | none ↦ get_path (parts_of name) (dict fs) ]) e

get_path-put_path :
    (p : String) (ps : List String) (v : Value) (fs : Fields)
    → get_path (p ∷ ps) (dict (put_path (p ∷ ps) v fs)) ≡ some v
unfolding get_path put_path
get_path-put_path p [] v fs = get_path_found p [] (put p v fs) v (get-put p v fs)
get_path-put_path p (q ∷ ps) v fs =
    let inner = fields_in (get p fs) in
    get_path_found p (q ∷ ps) _ _ (get-put p (dict (put_path (q ∷ ps) v inner)) fs)
    ∙ get_path-put_path q ps v inner

shorter : (p name : String) → count_chars p < count_chars name → (p == name) ≡ false
shorter p name h = elim (Bool-cases (p == name)) [
  | inr f ↦ f
  | inl t ↦
      let same = ap (λ x. count_chars x) ((eq_iff p name).0 t) in absurd (omega (arith, same, h))
]

single : (p : String) (v : Value) (fs : Fields) → get p (put_path (p ∷ []) v fs) ≡ some v
unfolding put_path
single p v fs = get-put p v fs

nested :
    (name p q : String) (qs : List String) (v : Value) (fs : Fields)
    → (p == name) ≡ false
    → get name fs ≡ none
    → get name (put_path (p ∷ q ∷ qs) v fs) ≡ none
unfolding put_path
nested name p q qs v fs h e = get-put_other name p _ fs h ∙ e

-- What was put under a name, with dots or without, is found under it.
pub get_name-put_name :
    (name : String) (v : Value) (fs : Fields) → get_name name (put_name name v fs) ≡ some v
unfolding put_name has_key
get_name-put_name name v fs = placed (get name fs) refl (split_first (λ c. eqb c b'.') name)
  where
    by_parts :
        (p : String) (ps : List String)
        → parts_of name ≡ p ∷ ps
        → get name (put_path (p ∷ ps) v fs) ≡ none
        → get_name name (put_path (p ∷ ps) v fs) ≡ some v
    by_parts p ps f e =
        get_name_passed name (put_path (p ∷ ps) v fs) e
        ∙ ap (λ x. get_path x (dict (put_path (p ∷ ps) v fs))) f
        ∙ get_path-put_path p ps v fs

    placed :
        (o : Option Value)
        → get name fs ≡ o
        → (p : String) × ((ps : List String) × ((parts_of name ≡ p ∷ ps) × Parted name p ps))
        → get_name name (
            if elim o [ none ↦ false | some _ ↦ true ]
            then put name v fs
            else put_path (parts_of name) v fs)
          ≡ some v
    placed (some w) e parts = get_name_found name (put name v fs) v (get-put name v fs)
    placed none e (p, (ps, (f, inl (g, h)))) =
        let alone : parts_of name ≡ name ∷ [] = cc in
        ap (λ x. get_name name (put_path x v fs)) alone ∙ get_name_found name _ v (single name v fs)
    placed none e (p, (ps, (f, inr (h, (q, (qs, g)))))) =
        let parts : parts_of name ≡ p ∷ q ∷ qs = cc in
        ap (λ x. get_name name (put_path x v fs)) parts
        ∙ by_parts p (q ∷ qs) parts (nested name p q qs v fs (shorter p name h) e)
