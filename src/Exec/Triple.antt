-- ===== src/Exec/Triple.antt =====
-- What holds after an action that returns, given what held before it: one rule for each way to
-- build an action.
use pegaprox_plugin_opnsense.Prelude.{◌≡◌, refl, Bool, true, false, if◌then◌else◌}
use mathlib.Core.Path.{subst}
use pegaprox_plugin_opnsense.Exec.{
  Exn, Result, ok, raised, Exec, pure, raise, catch, recover, continue, ◌>>=◌,
}

-- From a state with `Pre`, if `m` returns `a`, then `Post a` holds of the state that it leaves.
pub record Triple {S A : Type 0} (Pre : S → Type 0) (m : Exec S A) (Post : A → S → Type 0)
    : Type 0 where
  pub holds : (s : S) → Pre s → (a : A) → (m s).0 ≡ ok a → Post a (m s).1

ok-injective : {A : Type 0} (a b : A) → ok a ≡ ok b → a ≡ b
ok-injective a b e = cc

module _ {S A : Type 0} {Pre : S → Type 0} {Post : A → S → Type 0} where
  pub Triple-pure : (a : A) → ((s : S) → Pre s → Post a s) → Triple Pre (pure a) Post
  unfolding pure
  Triple-pure a h = record { holds = λ s p b e. subst (λ x. Post x s) (ok-injective a b e) (h s p) }

  pub Triple-raise : (e : Exn) → Triple Pre (raise e) Post
  unfolding raise
  Triple-raise e = record { holds = λ s p b q. cc }

  pub Triple-if :
      (b : Bool) (m n : Exec S A)
      → (b ≡ true → Triple Pre m Post)
      → (b ≡ false → Triple Pre n Post)
      → Triple Pre (if b then m else n) Post
  Triple-if true m n tm tn = tm refl
  Triple-if false m n tm tn = tn refl

  pub Triple-catch :
      (test : Exn → Bool) (m : Exec S A) (h : Exn → Exec S A)
      → Triple Pre m Post
      → ((e : Exn) → Triple (λ _. Unit {0}) (h e) Post)
      → Triple Pre (catch test m h) Post
  unfolding catch raise
  Triple-catch test m h tm th = record {
    holds = λ s p a e. let (r, s') = m s in ended r s' (λ b q. tm.holds s p b q) a e;
  }
    where
      handled :
          (b : Bool) (x : Exn) (s' : S) (a : A)
          → ((if b then h x else raise x) s').0 ≡ ok a
          → Post a ((if b then h x else raise x) s').1
      handled true x s' a e = (th x).holds s' tt a e
      handled false x s' a e = cc

      ended :
          (r : Result A) (s' : S)
          → ((b : A) → r ≡ ok b → Post b s')
          → (a : A) → (recover test h r s').0 ≡ ok a
          → Post a (recover test h r s').1
      ended (ok b) s' k a e = k a e
      ended (raised x) s' k a e = handled (test x) x s' a e

module _ {S A B : Type 0} {Pre : S → Type 0} {Post : B → S → Type 0} where
  pub Triple-bind :
      (Mid : A → S → Type 0) (m : Exec S A) (f : A → Exec S B)
      → Triple Pre m Mid
      → ((a : A) → Triple (Mid a) (f a) Post)
      → Triple Pre (m >>= f) Post
  unfolding ◌>>=◌
  Triple-bind Mid m f tm tf = record {
    holds = λ s p b e. let (r, s') = m s in ended r s' (λ a q. tm.holds s p a q) b e;
  }
    where
      ended :
          (r : Result A) (s' : S)
          → ((a : A) → r ≡ ok a → Mid a s')
          → (b : B) → (continue r f s').0 ≡ ok b
          → Post b (continue r f s').1
      ended (ok a) s' k b e = (tf a).holds s' (k a refl) b e
      ended (raised x) s' k b e = cc
