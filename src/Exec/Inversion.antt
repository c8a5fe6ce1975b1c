-- ===== src/Exec/Inversion.antt =====
-- What is known of the parts of an action that returned.
use pegaprox_plugin_opnsense.Prelude.{Bool, true, false, ◌≡◌, refl, sym, ap, ◌∙◌, if◌then◌else◌}
use pegaprox_plugin_opnsense.Exec.{
  Exn, Result, ok, raised, Exec, pure, raise, catch, recover, continue, ◌>>=◌,
}

module _ {S A B : Type 0} where
  -- Both steps returned.
  pub bind-ok :
      (m : Exec S A) (f : A → Exec S B) (s u : S) (b : B)
      → (m >>= f) s ≡ (ok b, u)
      → (a : A) × ((t : S) × ((m s ≡ (ok a, t)) × (f a t ≡ (ok b, u))))
  unfolding ◌>>=◌
  bind-ok m f s u b e = ended (m s) refl e
    where
      ended :
          (p : Result A × S)
          → m s ≡ p
          → continue p.0 f p.1 ≡ (ok b, u)
          → (a : A) × ((t : S) × ((m s ≡ (ok a, t)) × (f a t ≡ (ok b, u))))
      ended (ok a, t) h e = (a, (t, (h, e)))
      ended (raised x, t) h e = cc

module _ {S A : Type 0} where
  pub pure-ok : (a b : A) (s u : S) → pure a s ≡ (ok b, u) → (a ≡ b) × (s ≡ u)
  unfolding pure
  pure-ok a b s u e = (cc, cc)

  pub given-ok :
      (r : Result A) (a : A) (s u : S)
      → ◌≡◌ {A = Result A × S} (r, s) (ok a, u)
      → (r ≡ ok a) × (s ≡ u)
  given-ok r a s u e = (cc, cc)

  -- Where the handler raises, the action itself returned.
  pub catch-ok :
      (test : Exn → Bool) (m : Exec S A) (h : Exn → Exec S A) (s u : S) (b : A)
      → ((e : Exn) (s : S) → (x : Exn) × ((h e s).0 ≡ raised x))
      → catch test m h s ≡ (ok b, u)
      → m s ≡ (ok b, u)
  unfolding catch raise
  catch-ok test m h s u b never e = ended (m s) refl e
    where
      handled :
          (c : Bool) (x : Exn) (t : S)
          → (if c then h x else raise x) t ≡ (ok b, u)
          → m s ≡ (ok b, u)
      handled true x t e = let (y, q) = never x t in absurd (differ (sym q ∙ ap (λ p. p.0) e))
        where
          differ : {y : Exn} → ◌≡◌ {A = Result A} (raised y) (ok b) → ⊥
          differ e = cc
      handled false x t e = cc

      ended : (p : Result A × S) → m s ≡ p → recover test h p.0 p.1 ≡ (ok b, u) → m s ≡ (ok b, u)
      ended (ok a, t) q e = q ∙ e
      ended (raised x, t) q e = handled (test x) x t e

module _ {S A B : Type 0} where
  -- A step that returned goes on with what follows.
  pub bind-runs :
      (m : Exec S A) (f : A → Exec S B) (s t : S) (a : A) (r : Result B × S)
      → m s ≡ (ok a, t)
      → f a t ≡ r
      → (m >>= f) s ≡ r
  unfolding ◌>>=◌
  bind-runs m f s t a r e h = ap (λ p. continue p.0 f p.1) e ∙ h
