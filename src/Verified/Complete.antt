-- ===== src/Verified/Complete.antt =====
-- The listings of `src/writers/verified.py`: what a search that returns has seen.
use mathlib.Core.Path.{subst}
use pegaprox_plugin_opnsense.Prelude.{
  ℕ, ◌≤◌, String, Bool, true, false, Option, none, some, List, ◌≡◌, refl, arith, inl, inr, not,
  if◌then◌else◌, ltb, Bool-cases, eq_iff, ◌||◌, ◌<>◌, ◌==◌, ◌≢◌, ◌∙◌, [], ◌∷◌, sym, ap, any_of,
  lower,
}
use pegaprox_plugin_opnsense.Value.{
  Value, str, list, dict, Items, Fields, end, field, get, get_or, text_of,
}
use pegaprox_plugin_opnsense.Exec.{Result, ok, raised, opnsense, continue, pure, ◌>>=◌}
use pegaprox_plugin_opnsense.World.{Env, Trace}
use pegaprox_plugin_opnsense.Client
use pegaprox_plugin_opnsense.Client.{Client}
use pegaprox_plugin_opnsense.Verified.Reads.{
  Kind, base, suffix, row_uuid, rows_of, count_rows, total_of, check_total, check_rows,
  checked_rows, search, verify, listed,
}

module _ (repr : Value → String) (k : Kind) where
  check_total_lem :
      (count : ℕ) (rs xs : List Fields) (o : Option ℕ)
      → check_total count rs o ≡ ok xs
      → (n : ℕ) × (o ≡ some n) × (n ≤ count) × (rs ≡ xs)
  unfolding check_total
  check_total_lem count rs xs none p = cc
  check_total_lem count rs xs (some n) p = given (ltb count n) refl p
    where
      given :
          (b : Bool)
          → ltb count n ≡ b
          → (if b
              then raised (opnsense "search: incomplete response; refusing partial verification")
              else ok rs)
            ≡ ok xs
          → (m : ℕ) × ◌≡◌ {A = Option ℕ} (some n) (some m) × (m ≤ count) × (rs ≡ xs)
      given true e q = cc
      given false e q = (n, refl, ground arith, cc)

  -- A listing that is accepted, in a reply that gives a total, has at least that many rows; the
  -- generated lockout rows of a port forward do not count.
  pub checked_rows_complete :
      (out : Fields) (rs : List Fields) (total : Value)
      → checked_rows repr k (dict out) ≡ ok rs
      → get "total" out ≡ some total
      → (n : ℕ) × (total_of total ≡ some n) × (n ≤ count_rows repr k rs)
  unfolding checked_rows check_rows
  checked_rows_complete out rs total p t = rows (get "rows" out) p
    where
      counted :
          (xs : List Fields) (o : Option Value)
          → get "total" out ≡ o
          → (elim o [ none ↦ ok xs | some v ↦ check_total (count_rows repr k xs) xs (total_of v) ])
            ≡ ok rs
          → (n : ℕ) × (total_of total ≡ some n) × (n ≤ count_rows repr k rs)
      counted xs none e q = cc
      counted xs (some v) e q =
          let (n, a, b, c) = check_total_lem (count_rows repr k xs) xs rs (total_of v) q in
          let same : v ≡ total = cc in
          (n, subst (λ y. total_of y ≡ some n) same a, subst (λ ys. n ≤ count_rows repr k ys) c b)

      checked :
          (o : Option (List Fields))
          → check_rows repr k out o ≡ ok rs
          → (n : ℕ) × (total_of total ≡ some n) × (n ≤ count_rows repr k rs)
      checked none q = cc
      checked (some xs) q = counted xs (get "total" out) refl q

      rows :
          (o : Option Value)
          → (elim o [
            | some (list rows) ↦ check_rows repr k out (rows_of rows)
            | _ ↦ raised (opnsense "search: invalid API response (rows missing)")
          ])
            ≡ ok rs
          → (n : ℕ) × (total_of total ≡ some n) × (n ≤ count_rows repr k rs)
      rows (some (list vs)) q = checked (rows_of vs) q
      rows _ q = cc

-- A row that has not the uuid, in whatever case the letters of the two are
abbrev pub Unlisted : (Value → String) → (uuid : String) → List Fields → Type 0
Unlisted repr uuid [] = Unit {0}
Unlisted repr uuid (r ∷ rs) =
    (lower (text_of repr (get_or "uuid" (str "") r)) ≢ lower uuid) × Unlisted repr uuid rs

any_of-Unlisted :
    (repr : Value → String) (uuid : String) (rs : List Fields)
    → any_of (λ r. lower (row_uuid repr r) == lower uuid) rs ≡ false
    → Unlisted repr uuid rs
any_of-Unlisted repr uuid [] h = tt
any_of-Unlisted repr uuid (r ∷ rs) h =
    let same = lower (row_uuid repr r) == lower uuid in
    let (this, others) = neither same (any_of (λ r. lower (row_uuid repr r) == lower uuid) rs) h in
    (
      λ e. absurd (both ((eq_iff (lower (row_uuid repr r)) (lower uuid)).1 e) this),
      any_of-Unlisted repr uuid rs others,
    )
  where
    neither : (a b : Bool) → (a || b) ≡ false → (a ≡ false) × (b ≡ false)
    neither a b h = (ground arith, ground arith)

    both : {b : Bool} → b ≡ true → b ≡ false → ⊥
    both p q = cc

-- A total, where the reply gives one, that the rows cover; the generated lockout rows of a port
-- forward do not count.
abbrev pub Covered : (Value → String) → Kind → List Fields → Option Value → Type 0
Covered repr k rs none = Unit {0}
Covered repr k rs (some total) = (n : ℕ) × (total_of total ≡ some n) × (n ≤ count_rows repr k rs)

-- The rows of an array: an accepted listing leaves none out.
abbrev pub Listing : (Value → String) → Kind → Fields → List Fields → Type 0
Listing repr k out rs =
    (items : Items) × (get "rows" out ≡ some (list items))
    × (rows_of items ≡ some rs)
    × Covered repr k rs (get "total" out)

checked_rows-Listing :
    (repr : Value → String) (k : Kind) (v : Value) (rs : List Fields)
    → checked_rows repr k v ≡ ok rs
    → (out : Fields) × (v ≡ dict out) × Listing repr k out rs
unfolding checked_rows check_rows
checked_rows-Listing repr k (dict out) rs p = (out, refl, rows (get "rows" out) refl p)
  where
    covered : (o : Option Value) → get "total" out ≡ o → Covered repr k rs (get "total" out)
    covered none e = subst (Covered repr k rs) (sym e) tt
    covered (some total) e =
        subst (Covered repr k rs) (sym e) (checked_rows_complete repr k out rs total p e)

    kept :
        (xs : List Fields) (o : Option Value)
        → (elim o [ none ↦ ok xs | some v ↦ check_total (count_rows repr k xs) xs (total_of v) ])
          ≡ ok rs
        → xs ≡ rs
    kept xs none q = cc
    kept xs (some v) q =
        let (n, a, b, c) = check_total_lem repr k (count_rows repr k xs) xs rs (total_of v) q in c

    checked :
        (items : Items)
        → get "rows" out ≡ some (list items)
        → (o : Option (List Fields)) → rows_of items ≡ o
        → check_rows repr k out o ≡ ok rs
        → Listing repr k out rs
    checked items e none f q = cc
    checked items e (some xs) f q =
        (items, e, f ∙ ap (λ ys. some ys) (kept xs (get "total" out) q), covered _ refl)

    rows :
        (o : Option Value)
        → get "rows" out ≡ o
        → (elim o [
          | some (list rows) ↦ check_rows repr k out (rows_of rows)
          | _ ↦ raised (opnsense "search: invalid API response (rows missing)")
        ])
          ≡ ok rs
        → Listing repr k out rs
    rows (some (list items)) e q = checked items e (rows_of items) refl q
    rows _ e q = cc
checked_rows-Listing repr k _ rs p = cc

-- What the GET of the listing gave: an object with an array of rows, none of which has the uuid.
abbrev pub Absence : Env → Kind → (uuid : String) → Client → Trace → Type 0
Absence env k uuid c t =
    (out : Fields) × (rs : List Fields) × ((Client.get env c (base k <> "/search" <> suffix k)
        (field "rowCount" (str "-1") (field "current" (str "1") end)) t).0
      ≡ ok (dict out))
    × Listing env.repr k out rs
    × Unlisted env.repr uuid rs

-- If the absence of an object is verified, the GET of the listing gave an object with an array of
-- rows, all of them objects, which are as many as the total or more, if the reply gives one, generated
-- lockout rows not counted; and no row has the uuid of the object, in whatever case the letters are.
pub verify_absent :
    (env : Env) (k : Kind) (uuid : String) (c : Client) (t : Trace)
    → (verify env k uuid none c t).0 ≡ ok true
    → Absence env k uuid c t
unfolding verify search ◌>>=◌ pure
verify_absent env k uuid c t p = given (reply.0) reply.1 refl p
  where
    reply : Result Value × Trace
    reply =
        Client.get env c (base k <> "/search" <> suffix k)
          (field "rowCount" (str "-1") (field "current" (str "1") end)) t

    searched :
        (v : Value) (r : Result (List Fields)) (u : Trace)
        → reply.0 ≡ ok v
        → checked_rows env.repr k v ≡ r
        → (continue r (λ rs. pure (not (listed env k uuid rs))) u).0 ≡ ok true
        → Absence env k uuid c t
    searched v (ok rs) u e f q =
        let (out, same, whole) = checked_rows-Listing env.repr k v rs f in
        (
          out,
          rs,
          e ∙ ap (λ x. ok x) same,
          whole,
          any_of-Unlisted env.repr uuid rs
              (elim (Bool-cases (listed env k uuid rs)) [ inl y ↦ cc | inr n ↦ n ]),
        )
    searched v (raised x) u e f q = cc

    given :
        (r : Result Value) (u : Trace)
        → reply.0 ≡ r
        → (continue
            (continue r (λ out t. (checked_rows env.repr k out, t)) u).0
            (λ rs. pure (not (listed env k uuid rs)))
            (continue r (λ out t. (checked_rows env.repr k out, t)) u).1).0
          ≡ ok true
        → Absence env k uuid c t
    given (ok v) u e q = searched v (checked_rows env.repr k v) u e refl q
    given (raised x) u e q = cc
