-- ===== src/Carp/Primary.antt =====
-- The primary address of a node in `src/collectors/carp.py`: the order of the sort keys.
use pegaprox_plugin_opnsense.Prelude.{
  ℤ, pos, negsuc, ltb_int, eq_int, Bool, true, false, ◌&&◌, ◌||◌, ◌≡◌, refl, arith, Option, none,
  some, List, [], ◌∷◌, inl, inr, ◌⊎◌, if◌then◌else◌, Bool-cases, keep,
}
use mathlib.Core.Path.{subst}
use pegaprox_plugin_opnsense.Exec.{ok, raised}
use pegaprox_plugin_opnsense.Carp.{
  Vhid, Key, key_less, key_of, least, is_active, bad_keys, first_active, primary_vhid,
}

-- `a ≤ b`, as it follows from the test `b < a`.
not_less_trans : (a b c : ℤ) → ltb_int a b ≡ false → ltb_int b c ≡ false → ltb_int a c ≡ false
not_less_trans (pos a) (pos b) (pos c) p q = ground (arith, p, q)
not_less_trans (pos a) (pos b) (negsuc c) p q = refl
not_less_trans (pos a) (negsuc b) (pos c) p q = cc
not_less_trans (pos a) (negsuc b) (negsuc c) p q = refl
not_less_trans (negsuc a) (pos b) (pos c) p q = cc
not_less_trans (negsuc a) (pos b) (negsuc c) p q = cc
not_less_trans (negsuc a) (negsuc b) (pos c) p q = cc
not_less_trans (negsuc a) (negsuc b) (negsuc c) p q = ground (arith, p, q)

less_flips : (a b : ℤ) → ltb_int a b ≡ true → ltb_int b a ≡ false
less_flips (pos a) (pos b) p = ground (arith, p)
less_flips (pos a) (negsuc b) p = cc
less_flips (negsuc a) (pos b) p = refl
less_flips (negsuc a) (negsuc b) p = ground (arith, p)

same_if : (a b : ℤ) → ltb_int a b ≡ false → ltb_int b a ≡ false → eq_int a b ≡ true
same_if (pos a) (pos b) p q = ground (arith, p, q)
same_if (pos a) (negsuc b) p q = cc
same_if (negsuc a) (pos b) p q = cc
same_if (negsuc a) (negsuc b) p q = ground (arith, p, q)

eq_not_less : (a b : ℤ) → eq_int a b ≡ true → (ltb_int a b ≡ false) × (ltb_int b a ≡ false)
eq_not_less (pos a) (pos b) p = (ground (arith, p), ground (arith, p))
eq_not_less (pos a) (negsuc b) p = cc
eq_not_less (negsuc a) (pos b) p = cc
eq_not_less (negsuc a) (negsuc b) p = (ground (arith, p), ground (arith, p))

-- What a failed test on a sort key says of its parts.
parts : (a b : Bool) (c : Bool) → (a || (b && c)) ≡ false → (a ≡ false) × (b ≡ true → c ≡ false)
parts false true c p = (refl, λ _. p)
parts false false c p = (refl, λ q. cc)
parts true b c p = cc

whole : (a b : Bool) (c : Bool) → a ≡ false → (b ≡ true → c ≡ false) → (a || (b && c)) ≡ false
whole false true c p h = h refl
whole false false c p h = refl
whole true b c p h = cc

keys_trans : (x y z : Key) → key_less x y ≡ false → key_less y z ≡ false → key_less x z ≡ false
keys_trans (a, b) (c, d) (e, f) p q =
    let (ac, bd) = parts (ltb_int a c) (eq_int a c) (ltb_int b d) p in
    let (ce, df) = parts (ltb_int c e) (eq_int c e) (ltb_int d f) q in
    whole (ltb_int a e) (eq_int a e) (ltb_int b f) (not_less_trans a c e ac ce) (λ same.
      let ea = (eq_not_less a e same).1 in
      not_less_trans b d f (bd (same_if a c ac (not_less_trans c e a ce ea)))
        (df (same_if c e ce (not_less_trans e a c ea ac))))

key_flips : (x y : Key) → key_less x y ≡ true → key_less y x ≡ false
key_flips (a, b) (c, d) p = elim (Bool-cases (ltb_int a c)) [
  | inl l ↦
      whole (ltb_int c a) (eq_int c a) (ltb_int d b) (less_flips a c l)
        (λ same. let l' = (eq_not_less c a same).1 in cc)
  | inr n ↦
      equal (eq_int a c) (ltb_int b d) refl refl
        (subst (λ x. (x || (eq_int a c && ltb_int b d)) ≡ true) n p)
]
  where
    equal :
        (s u : Bool)
        → eq_int a c ≡ s
        → ltb_int b d ≡ u
        → (s && u) ≡ true
        → (ltb_int c a || (eq_int c a && ltb_int d b)) ≡ false
    equal true true e l q =
        whole (ltb_int c a) (eq_int c a) (ltb_int d b) (eq_not_less a c e).1 (λ _. less_flips b d l)
    equal true false e l q = cc
    equal false u e l q = cc

-- The address stands in the list.
abbrev pub Among : Vhid → List Vhid → Type 0
Among u [] = ⊥
Among u (v ∷ vs) = (v ≡ u) ⊎ Among u vs

-- The key `j` is that of `w`, and no greater than the key of `u`.
abbrev pub NoGreater : Vhid → Vhid → Type 0
NoGreater w u =
    (j : Key) × (i : Key) × (key_of w ≡ some j) × (key_of u ≡ some i) × (key_less i j ≡ false)

key_refl : (k : Key) → key_less k k ≡ false
key_refl k = elim (Bool-cases (key_less k k)) [ inl t ↦ key_flips k k t | inr f ↦ f ]

least-NoGreater :
    (k : Key) (v w u : Vhid) (vs : List Vhid)
    → key_of v ≡ some k
    → least k v vs ≡ some w
    → Among u (v ∷ vs)
    → NoGreater w u
unfolding least
least-NoGreater k v w u [] e p (inl same) =
    let only : v ≡ w = cc in
    (k, k, subst (λ x. key_of x ≡ some k) only e, subst (λ x. key_of x ≡ some k) same e, key_refl k)
least-NoGreater k v w u [] e p (inr h) = elim h [ ]
least-NoGreater k v w u (x ∷ vs) e p h =
    found (key_of x) refl p h (λ j y ky q a. least-NoGreater j y w u vs ky q a)
      (λ j y ky q. least-NoGreater j y w y vs ky q (inl refl))
  where
    found :
        (o : Option Key)
        → key_of x ≡ o
        → (elim o [
          | some j ↦ least (if key_less j k then j else k) (if key_less j k then x else v) vs
          | none ↦ none
        ])
          ≡ some w
        → (v ≡ u) ⊎ ((x ≡ u) ⊎ Among u vs)
        → ((j : Key) (y : Vhid)
            → key_of y ≡ some j
            → least j y vs ≡ some w
            → (y ≡ u) ⊎ Among u vs
            → NoGreater w u)
        → ((j : Key) (y : Vhid) → key_of y ≡ some j → least j y vs ≡ some w → NoGreater w y)
        → NoGreater w u
    found none f q h rest own = cc
    found (some j) f q h rest own = chosen (key_less j k) refl q h
      where
        -- The key of `y` is no greater than that of `x`, of which the key of `w` is no greater.
        through :
            (y z : Vhid) (a b : Key)
            → key_of y ≡ some a
            → key_of z ≡ some b
            → key_less b a ≡ false
            → NoGreater w y
            → NoGreater w z
        through y z a b ky kz le (jw, i, kw, ki, less) =
            let same : i ≡ a = cc in
            (jw, b, kw, kz, keys_trans b a jw le (subst (λ c. key_less c jw ≡ false) same less))

        chosen :
            (b : Bool)
            → key_less j k ≡ b
            → least (if b then j else k) (if b then x else v) vs ≡ some w
            → (v ≡ u) ⊎ ((x ≡ u) ⊎ Among u vs)
            → NoGreater w u
        chosen true l q (inl same) =
            through x u j k f (subst (λ y. key_of y ≡ some k) same e) (key_flips j k l)
              (own j x f q)
        chosen true l q (inr a) = rest j x f q a
        chosen false l q (inl same) = rest k v e q (inl same)
        chosen false l q (inr (inl same)) =
            through v u k j e (subst (λ y. key_of y ≡ some j) same f) l (own k v e q)
        chosen false l q (inr (inr a)) = rest k v e q (inr a)

-- If a node has a primary address, every active address has a key that can be read, and the key of
-- the primary address is no greater.
pub primary_vhid-NoGreater :
    (vhids : List Vhid) (w u : Vhid)
    → primary_vhid vhids ≡ ok (some w)
    → Among u (keep is_active vhids)
    → NoGreater w u
unfolding primary_vhid first_active
primary_vhid-NoGreater vhids w u p h = first (keep is_active vhids) p h
  where
    taken :
        (o : Option Vhid)
        → (elim o [ some x ↦ ok (some x) | none ↦ raised bad_keys ]) ≡ ok (some w)
        → o ≡ some w
    taken none q = cc
    taken (some x) q = cc

    first : (vs : List Vhid) → first_active vs ≡ ok (some w) → Among u vs → NoGreater w u
    first [] q a = cc
    first (v ∷ vs) q a = keyed v vs (key_of v) refl q a
      where
        keyed :
            (v : Vhid) (vs : List Vhid) (o : Option Key)
            → key_of v ≡ o
            → (elim o [
              | some k ↦ elim (least k v vs) [ some x ↦ ok (some x) | none ↦ raised bad_keys ]
              | none ↦ raised bad_keys
            ])
              ≡ ok (some w)
            → Among u (v ∷ vs)
            → NoGreater w u
        keyed v vs none f q a = cc
        keyed v vs (some k) f q a = least-NoGreater k v w u vs f (taken (least k v vs) q) a
