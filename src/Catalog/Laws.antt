-- ===== src/Catalog/Laws.antt =====
-- What holds of all resources of `src/management/catalog.py`.
use pegaprox_plugin_opnsense.Prelude.{
  and_true, String, Bool, true, false, ◌&&◌, ◌||◌, not, Option, none, some, List, [], ◌∷◌,
  if◌then◌else◌, ◌==◌, all_of, any_of, one_of, ◌++◌, append_assoc, map, split_on, ℤ, ltb_int, ◌≡◌,
  refl, sym, ap, ◌∙◌, ◌⊎◌, inl, inr,
}
use pegaprox_plugin_opnsense.Value.{Value, str}
use pegaprox_plugin_opnsense.Exec.{raised, raise}
use pegaprox_plugin_opnsense.World.{Env, Trace}
use pegaprox_plugin_opnsense.Client.{Client}
use pegaprox_plugin_opnsense.Engine.{Field, Spec, refusal, put_field, put_fields, by_name}
use pegaprox_plugin_opnsense.Engine.Values.{choices}
use pegaprox_plugin_opnsense.Engine.Scan.{Service}
use pegaprox_plugin_opnsense.Engine.Change.{has_apply}
use pegaprox_plugin_opnsense.Engine.Mutate.{mutate, has_peer}
use pegaprox_plugin_opnsense.Catalog.Resources.{resources}

abbrev pub Member : Spec → List Spec → Type 0
Member spec [] = ⊥
Member spec (s ∷ ss) = (s ≡ spec) ⊎ Member spec ss

all_of-Member :
    (p : Spec → Bool) (ss : List Spec) (spec : Spec)
    → all_of p ss ≡ true
    → Member spec ss
    → p spec ≡ true
all_of-Member p [] spec h m = elim m [ ]
all_of-Member p (s ∷ ss) spec h (inl e) = ap p (sym e) ∙ (and_true (p s) (all_of p ss) h).0
all_of-Member p (s ∷ ss) spec h (inr m) =
    all_of-Member p ss spec (and_true (p s) (all_of p ss) h).1 m

-- No name stands for two fields.
abbrev names_differ : List Field → List Field → Bool
names_differ gs [] = true
names_differ gs (f ∷ fs) = not (any_of (λ g. g.name == f.name) gs) && names_differ (gs ++ f ∷ []) fs

put_field-append :
    (f : Field) (gs : List Field)
    → not (any_of (λ g. g.name == f.name) gs) ≡ true
    → put_field f gs ≡ gs ++ f ∷ []
unfolding put_field
put_field-append f [] h = refl
put_field-append f (g ∷ gs) h = placed (g.name == f.name) (put_field-append f gs) h
  where
    placed :
        (b : Bool)
        → (not (any_of (λ g. g.name == f.name) gs) ≡ true → put_field f gs ≡ gs ++ f ∷ [])
        → not (b || any_of (λ g. g.name == f.name) gs) ≡ true
        → (if b then f ∷ gs else g ∷ put_field f gs) ≡ g ∷ (gs ++ f ∷ [])
    placed true ih h = cc
    placed false ih h = ap (λ x. g ∷ x) (ih h)

put_fields-append : (fs gs : List Field) → names_differ gs fs ≡ true → put_fields fs gs ≡ gs ++ fs
unfolding put_fields
put_fields-append [] gs h = sym (append_nil gs)
  where
    append_nil : (gs : List Field) → gs ++ [] ≡ gs
    append_nil [] = refl
    append_nil (g ∷ gs) = ap (λ x. g ∷ x) (append_nil gs)
put_fields-append (f ∷ fs) gs h =
    let parts =
      and_true (not (any_of (λ g. g.name == f.name) gs)) (names_differ (gs ++ f ∷ []) fs) h in
    ap (λ x. put_fields fs x) (put_field-append f gs parts.0)
    ∙ put_fields-append fs (gs ++ f ∷ []) parts.1
    ∙ append_assoc gs (f ∷ []) fs

by_name-itself : (fs : List Field) → names_differ [] fs ≡ true → by_name fs ≡ fs
unfolding by_name
by_name-itself fs h = put_fields-append fs [] h

abbrev is_given : Option String → Bool
is_given none = false
is_given (some s) = not (s == "")

-- A default that is one of the options, if there are any
abbrev pub permitted_default : Field → Bool
permitted_default f = elim f.default [
  | some (str s) ↦ elim f.options [
    | [] ↦ true
    | _ ∷ _ ↦ all_of (one_of (map (λ o. o.0) f.options)) (choices f s)
  ]
  | _ ↦ true
]

-- The default of `transport`, which is not one of its options
abbrev pub is_transport : Spec → Field → Bool
is_transport spec f = spec.id == "syslog_destinations" && f.name == "transport"

-- The limits of a number, in their order
abbrev pub ordered_limits : Field → Bool
ordered_limits f = elim f.min [
  | none ↦ true
  | some low ↦ elim f.max [ none ↦ true | some high ↦ not (ltb_int high low) ]
]

-- The operations that a resource has: settings are read and set, others are listed, read and deleted.
abbrev pub operations_fit : Spec → Bool
operations_fit spec =
    is_given spec.get
    && (if spec.singleton
        then is_given spec.set && not (is_given spec.search) && not (is_given spec.delete)
        else is_given spec.search && is_given spec.delete)

abbrev pub SoundSpec : Spec → Type 0
SoundSpec spec =
    (by_name spec.fields ≡ spec.fields)
    × ((has_apply spec.apply || spec.persistence_only) ≡ true)
    × (operations_fit spec ≡ true)
    × (all_of ordered_limits spec.fields ≡ true)
    × (all_of (λ f. is_transport spec f || permitted_default f) spec.fields ≡ true)

-- All that is to be shown of a resource, as a test
abbrev is_sound : Spec → Bool
is_sound spec =
    names_differ [] spec.fields
    && ((has_apply spec.apply || spec.persistence_only)
        && (operations_fit spec
            && (all_of ordered_limits spec.fields
                && (all_of (λ f. is_transport spec f || permitted_default f) spec.fields
                    && not spec.ha_safe))))

all_sound : all_of is_sound resources ≡ true
unfolding split_on
all_sound = refl

sound-parts : (spec : Spec) → is_sound spec ≡ true → SoundSpec spec × (not spec.ha_safe ≡ true)
sound-parts spec h =
    let a = and_true _ _ h in
    let b = and_true _ _ a.1 in
    let c = and_true _ _ b.1 in
    let d = and_true _ _ c.1 in
    let e = and_true _ _ d.1 in ((by_name-itself spec.fields a.0, b.0, c.0, d.0, e.0), e.1)

-- In each resource of the catalogue a name stands for one field; there is an apply action, or none is
-- needed; it has the operations that it needs; the limits of its numbers are in their order; and a
-- default is one of the options, if there are any, but for the transport of the syslog destinations.
pub resources-SoundSpec : (spec : Spec) → Member spec resources → SoundSpec spec
resources-SoundSpec spec m =
    (sound-parts spec (all_of-Member is_sound resources spec all_sound m)).0

-- Where there is a peer, every change of a resource of the catalogue is refused, and nothing is done.
pub resources_unqualified :
    (env : Env) (truncated : String → ℤ) (service : Service) (spec : Spec) (peer : Client)
    (body : Value) (t : Trace)
    → Member spec resources
    → service.peer ≡ some peer
    → mutate env truncated service spec body t ≡ (
      raised (refusal "ha_unqualified" "Este módulo aún no tiene escritura HA verificada." 409),
      t,
    )
unfolding mutate raise
resources_unqualified env truncated service spec peer body t m paired =
    let unsafe = (sound-parts spec (all_of-Member is_sound resources spec all_sound m)).1 in
    let gate : (has_peer service.peer && not spec.ha_safe) ≡ true =
      ap (λ p. has_peer p && not spec.ha_safe) paired ∙ unsafe in
    rw gate refl
