-- ===== src/Engine/Pages.antt =====
-- The loop of `_mutate` of `src/management/engine.py` that looks for a deleted object: what it shows
-- when it ends well, and that it ends.
use pegaprox_plugin_opnsense.Prelude.{
  ℕ, zero, suc, ◌+◌, ◌≤◌, String, Bool, true, false, ◌||◌, List, [], ◌∷◌, ◌++◌, length,
  length-append, arith, if◌then◌else◌, any_of, leb, ltb, ℤ, ◌≡◌, refl, ap,
}
use mathlib.Core.Path.{subst}
use pegaprox_plugin_opnsense.Value.{int, str, Fields}
use pegaprox_plugin_opnsense.Exec.{Exn, Result, ok, raised, pure, raise, continue, ◌>>=◌}
use pegaprox_plugin_opnsense.World.{Env, Trace, M}
use pegaprox_plugin_opnsense.Client.{Client}
use pegaprox_plugin_opnsense.Engine.{Spec}
use pegaprox_plugin_opnsense.Engine.Items.{Listing}
use pegaprox_plugin_opnsense.Engine.Service.{list_objects}
use pegaprox_plugin_opnsense.Engine.Scan.{has_uuid, judge_page, scan}

module _ (env : Env) (truncated : String → ℤ) (spec : Spec) (c : Client) where
  abbrev read_page : ℕ → M Listing
  read_page page = list_objects env truncated c spec (int page) (int 200) (str "")

  -- Consecutive pages, from one on, with all their rows and the total that the last one gives.
  pub data Paged : ℕ → List Fields → ℕ → Trace → Trace → Type 0 where
    last :
        (page : ℕ) (t u : Trace) (l : Listing)
        → read_page page t ≡ (ok l, u)
        → Paged page l.rows l.total t u
    next :
        (page : ℕ) (rows : List Fields) (total : ℕ) (t u v : Trace) (l : Listing)
        → read_page page t ≡ (ok l, u)
        → Paged (page + 1) rows total u v
        → Paged page (l.rows ++ rows) total t v

  any_of-append :
      (p : Fields → Bool) (xs ys : List Fields)
      → any_of p xs ≡ false
      → any_of p ys ≡ false
      → any_of p (xs ++ ys) ≡ false
  any_of-append p [] ys h k = k
  any_of-append p (x ∷ xs) ys h k = joined (p x) (λ h. any_of-append p xs ys h k) h
    where
      joined :
          (b : Bool)
          → (any_of p xs ≡ false → any_of p (xs ++ ys) ≡ false)
          → (b || any_of p xs) ≡ false
          → (b || any_of p (xs ++ ys)) ≡ false
      joined true ih h = h
      joined false ih h = ih h

  -- The rows that were read, none of which has the uuid, and at least as many as there are.
  abbrev pub Absent : String → ℕ → ℕ → Trace → Trace → Type 0
  Absent uuid page observed t u =
      (rows : List Fields) × ((total : ℕ) × (Paged page rows total t u
          × (any_of (has_uuid uuid) rows ≡ false)
          × (total ≤ observed + length rows)))

  module _ (there incomplete exhausted : Exn) (uuid : String) where
    scan_shows :
        (left page observed : ℕ) (t : Trace)
        → (scan env truncated spec c there incomplete exhausted uuid page observed left t).0 ≡ ok tt
        → Absent uuid page observed t
            (scan env truncated spec c there incomplete exhausted uuid page observed left t).1
    unfolding scan judge_page ◌>>=◌ raise pure
    scan_shows zero page observed t e = cc
    scan_shows (suc left) page observed t e =
        read_cases
          (λ count. scan env truncated spec c there incomplete exhausted uuid (page + 1) count left)
          (scan_shows left (page + 1)) (read_page page t) refl e
      where
        read_cases :
            (rest : ℕ → M (Unit {0}))
            → ((count : ℕ) (u : Trace)
                → (rest count u).0 ≡ ok tt
                → Absent uuid (page + 1) count u (rest count u).1)
            → (p : Result Listing × Trace) → read_page page t ≡ p
            → (continue p.0
                (judge_page env truncated spec there incomplete uuid page observed rest)
                p.1).0
              ≡ ok tt
            → Absent uuid page observed t
                (continue p.0
                  (judge_page env truncated spec there incomplete uuid page observed rest)
                  p.1).1
        read_cases rest ih (raised x, u) r e = cc
        read_cases rest ih (ok l, u) r e =
            judged (any_of (has_uuid uuid) l.rows) (leb l.total (observed + length l.rows))
              (ltb (length l.rows) 200 || leb 1000 page) refl refl e
          where
            judged :
                (b1 b2 b3 : Bool)
                → any_of (has_uuid uuid) l.rows ≡ b1
                → leb l.total (observed + length l.rows) ≡ b2
                → ((if b1
                      then raise there
                      else if b2
                      then pure tt
                      else if b3
                      then raise incomplete
                      else rest (observed + length l.rows))
                    u).0
                  ≡ ok tt
                → Absent uuid page observed t
                    ((if b1
                        then raise there
                        else if b2
                        then pure tt
                        else if b3
                        then raise incomplete
                        else rest (observed + length l.rows))
                      u).1
            judged true b2 b3 h1 h2 e = cc
            judged false true b3 h1 h2 e =
                (l.rows, (l.total, (last page t u l r, h1, ground arith)))
            judged false false true h1 h2 e = cc
            judged false false false h1 h2 e =
                let (rows, (total, q)) = ih (observed + length l.rows) u e in
                (
                  l.rows ++ rows,
                  (
                    total,
                    (
                      next page rows total t u _ l r q.0,
                      any_of-append (has_uuid uuid) l.rows rows h1 q.1,
                      omega (arith, q.2, length-append l.rows rows),
                    ),
                  ),
                )

  -- A deleted object that the loop does not find was in none of the rows of consecutive pages from
  -- the first one on, and these are at least as many as the last page's total says.
  pub scan-Absent :
      (there incomplete exhausted : Exn) (uuid : String) (t : Trace)
      → (scan env truncated spec c there incomplete exhausted uuid 1 0 1000 t).0 ≡ ok tt
      → Absent uuid 1 0 t (scan env truncated spec c there incomplete exhausted uuid 1 0 1000 t).1
  scan-Absent there incomplete exhausted uuid t e =
      scan_shows there incomplete exhausted uuid 1000 1 0 t e

  pub scanned :
      (there incomplete exhausted : Exn) (uuid : String) (t u : Trace)
      → scan env truncated spec c there incomplete exhausted uuid 1 0 1000 t ≡ (ok tt, u)
      → Absent uuid 1 0 t u
  scanned there incomplete exhausted uuid t u e =
      subst (λ x. Absent uuid 1 0 t x) (ap (λ p. p.1) e)
        (scan-Absent there incomplete exhausted uuid t (ap (λ p. p.0) e))

  module _ (there incomplete exhausted exhausted' : Exn) (uuid : String) (k : ℕ) where
    -- With rounds for the pages up to the thousandth one, more rounds change nothing.
    scan_rounds :
        (left page observed : ℕ) (t : Trace)
        → page ≤ 1000
        → 1001 ≤ page + left
        → scan env truncated spec c there incomplete exhausted uuid page observed left t
          ≡ scan env truncated spec c there incomplete exhausted' uuid page observed (left + k) t
    unfolding scan judge_page ◌>>=◌
    scan_rounds zero page observed t low high = absurd (omega arith)
    scan_rounds (suc left) page observed t low high = rw (suc_add left k) (
        same_page _ _
          (λ count u more. scan_rounds left (page + 1) count u (omega (arith, more)) (omega arith))
          (read_page page t))
      where
        suc_add : (a b : ℕ) → suc a + b ≡ suc (a + b)
        suc_add a b = omega arith

        same_page :
            (rest rest' : ℕ → M (Unit {0}))
            → ((count : ℕ) (u : Trace) → page + 1 ≤ 1000 → rest count u ≡ rest' count u)
            → (p : Result Listing × Trace)
            → continue p.0
                (judge_page env truncated spec there incomplete uuid page observed rest)
                p.1
              ≡ continue p.0
                  (judge_page env truncated spec there incomplete uuid page observed rest')
                  p.1
        same_page rest rest' ih (raised x, u) = refl
        same_page rest rest' ih (ok l, u) =
            judged (any_of (has_uuid uuid) l.rows) (leb l.total (observed + length l.rows))
              (ltb (length l.rows) 200) (leb 1000 page) refl
          where
            judged :
                (b1 b2 b3 b4 : Bool)
                → leb 1000 page ≡ b4
                → (if b1
                      then raise there
                      else if b2
                      then pure tt
                      else if b3 || b4
                      then raise incomplete
                      else rest (observed + length l.rows))
                    u
                  ≡ (if b1
                        then raise there
                        else if b2
                        then pure tt
                        else if b3 || b4
                        then raise incomplete
                        else rest' (observed + length l.rows))
                      u
            judged true b2 b3 b4 h = refl
            judged false true b3 b4 h = refl
            judged false false true b4 h = refl
            judged false false false true h = refl
            judged false false false false h = ih _ u (ground arith)

    -- The loop ends within a thousand pages: more rounds change nothing, and so does what would be
    -- raised if they ran out.
    pub scan_ends :
        (t : Trace)
        → scan env truncated spec c there incomplete exhausted uuid 1 0 1000 t
          ≡ scan env truncated spec c there incomplete exhausted' uuid 1 0 (1000 + k) t
    scan_ends t = scan_rounds 1000 1 0 t (omega arith) (omega arith)
