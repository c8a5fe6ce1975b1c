-- ===== src/Verified/Matching.antt =====
-- The comparison of a readback with the fields that were asked for, in `src/writers/verified.py`.
use pegaprox_plugin_opnsense.Prelude.{
  String, Bool, true, false, Option, none, some, [], ◌∷◌, ◌≡◌, refl, inl, inr, ◌⊎◌, ◌&&◌, ◌==◌,
  if◌then◌else◌, Bool-cases, eq_iff, one_of, ap, arith, sym, ◌∙◌,
}
use mathlib.Core.Path.{subst}
use pegaprox_plugin_opnsense.Value.{Value, Fields, end, field, get}
use pegaprox_plugin_opnsense.Verified.Checks.{Flat, flat_put, flat_get, same_field, matches_flat}
use pegaprox_plugin_opnsense.Verified.Reads.{alias_runtime_fields, without_runtime}

differs : (a b : String) → (a ≡ b → ⊥) → (a == b) ≡ false
differs a b h = elim (Bool-cases (a == b)) [ inl t ↦ elim (h ((eq_iff a b).0 t)) [ ] | inr f ↦ f ]

-- A field that was put is found, and the others are as before.
flat_get-flat_put :
    (key j value : String) (m : Flat)
    → flat_get j (flat_put key value m) ≡ (if key == j then some value else flat_get j m)
unfolding flat_get flat_put
flat_get-flat_put key j value [] = refl
flat_get-flat_put key j value ((i, v) ∷ m) = put (i == key) refl (flat_get-flat_put key j value m)
  where
    put :
        (b : Bool)
        → (i == key) ≡ b
        → flat_get j (flat_put key value m) ≡ (if key == j then some value else flat_get j m)
        → flat_get j (if b then (i, value) ∷ m else (i, v) ∷ flat_put key value m)
          ≡ (if key == j then some value else if i == j then some v else flat_get j m)
    put true e h = let same : i ≡ key = (eq_iff i key).0 e in rw same (ground arith)
    put false e h = elim (Bool-cases (i == j)) [
      | inl ij ↦
          let same : i ≡ j = (eq_iff i j).0 ij in
          let other : (key == j) ≡ false =
            differs key j
              (λ f. let back : (i == key) ≡ true = (eq_iff i key).1 (same ∙ sym f) in cc) in
          rw (ij, other)
      | inr ij ↦ rw (ij, h)
    ]

-- The pair stands in the list.
abbrev pub Has : String → String → Flat → Type 0
Has key value [] = ⊥
Has key value ((j, v) ∷ m) = ((j ≡ key) × (v ≡ value)) ⊎ Has key value m

-- If a readback matches the fields that were asked for, each of them is in the readback, with a value
-- that is the same but for the case of a protocol and the order of an alias's content.
pub matches_flat_each :
    (actual expected : Flat) (key value : String)
    → matches_flat actual expected ≡ true
    → Has key value expected
    → (observed : String) × (flat_get key actual ≡ some observed)
      × (same_field key observed value ≡ true)
unfolding matches_flat
matches_flat_each actual [] key value p h = elim h [ ]
matches_flat_each actual ((j, v) ∷ m) key value p h =
    found (flat_get j actual) refl (λ q k. matches_flat_each actual m key value q k) p h
  where
    later :
        (b : Bool)
        → (matches_flat actual m ≡ true
            → Has key value m
            → (observed : String) × (flat_get key actual ≡ some observed)
              × (same_field key observed value ≡ true))
        → (b && matches_flat actual m) ≡ true
        → Has key value m
        → (observed : String) × (flat_get key actual ≡ some observed)
          × (same_field key observed value ≡ true)
    later true rest q h = rest q h
    later false rest q h = cc

    both : (b : Bool) → (b && matches_flat actual m) ≡ true → b ≡ true
    both true q = refl
    both false q = q

    found :
        (o : Option String)
        → flat_get j actual ≡ o
        → (matches_flat actual m ≡ true
            → Has key value m
            → (observed : String) × (flat_get key actual ≡ some observed)
              × (same_field key observed value ≡ true))
        → (elim o [
          | none ↦ false
          | some observed ↦ same_field j observed v && matches_flat actual m
        ])
          ≡ true
        → ((j ≡ key) × (v ≡ value)) ⊎ Has key value m
        → (observed : String) × (flat_get key actual ≡ some observed)
          × (same_field key observed value ≡ true)
    found none e rest q h = cc
    found (some o) e rest q (inr h) = later (same_field j o v) rest q h
    found (some o) e rest q (inl (same, equal)) = (
      o,
      subst (λ i. flat_get i actual ≡ some o) same e,
      subst (λ i. same_field i o value ≡ true) same
          (subst (λ x. same_field j o x ≡ true) equal (both (same_field j o v) q)),
    )

kept :
    (key j : String) (v : Value) (rest : Fields) (b c : Bool) (x : Option Value)
    → (j ≡ key → b ≡ c)
    → get key rest ≡ (if c then none else x)
    → get key (if b then rest else field j v rest)
      ≡ (if c then none else if j == key then some v else x)
unfolding get
kept key j v rest true true x h e = e
kept key j v rest false true x h e =
    let other : (j == key) ≡ false = differs j key (λ f. let absurd = h f in cc) in rw (other, e)
kept key j v rest true false x h e =
    let other : (j == key) ≡ false = differs j key (λ f. let absurd = h f in cc) in rw (other, e)
kept key j v rest false false x h e = rw e

-- A field of an alias is there after the removal of the runtime fields just if it is none of these.
get-without_runtime :
    (key : String) (fs : Fields)
    → get key (without_runtime fs) ≡ (if one_of alias_runtime_fields key then none else get key fs)
unfolding without_runtime get
get-without_runtime key end = neither (one_of alias_runtime_fields key)
  where
    neither : (b : Bool) → ◌≡◌ {A = Option Value} none (if b then none else none)
    neither true = refl
    neither false = refl
get-without_runtime key (field j v fs) =
    kept key j v (without_runtime fs) (one_of alias_runtime_fields j)
      (one_of alias_runtime_fields key) (get key fs) (λ e. ap (one_of alias_runtime_fields) e)
      (get-without_runtime key fs)
