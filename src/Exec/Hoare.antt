-- ===== src/Exec/Hoare.antt =====
-- What holds after an action, whether it returns or raises, given what held before it: one rule for
-- each way to build an action.
use pegaprox_plugin_opnsense.Prelude.{◌≡◌, refl, Bool, true, false, if◌then◌else◌}
use pegaprox_plugin_opnsense.Exec.{
  Exn, Result, ok, raised, Exec, pure, raise, gets, catch, recover, continue, ◌>>=◌,
}

-- How a run has to end.
abbrev pub Ends : {S A : Type 0} → (A → S → Type 0) → (Exn → S → Type 0) → Result A → S → Type 0
Ends Good Bad (ok a) s = Good a s
Ends Good Bad (raised e) s = Bad e s

-- From a state with `Pre`, `m` returns with `Good` or raises with `Bad`.
pub record Hoare {S A : Type 0} (Pre : S → Type 0) (m : Exec S A) (Good : A → S → Type 0)
    (Bad : Exn → S → Type 0) : Type 0 where
  pub ends : (s : S) → Pre s → Ends Good Bad (m s).0 (m s).1

module _ {S A : Type 0} {Pre : S → Type 0} {Good : A → S → Type 0} {Bad : Exn → S → Type 0} where
  pub Hoare-pure : (a : A) → ((s : S) → Pre s → Good a s) → Hoare Pre (pure a) Good Bad
  unfolding pure
  Hoare-pure a h = record { ends = h }

  pub Hoare-raise : (e : Exn) → ((s : S) → Pre s → Bad e s) → Hoare Pre (raise e) Good Bad
  unfolding raise
  Hoare-raise e h = record { ends = h }

  pub Hoare-gets : (f : S → A) → ((s : S) → Pre s → Good (f s) s) → Hoare Pre (gets f) Good Bad
  unfolding gets
  Hoare-gets f h = record { ends = h }

  pub Hoare-if :
      (b : Bool) (m n : Exec S A)
      → (b ≡ true → Hoare Pre m Good Bad)
      → (b ≡ false → Hoare Pre n Good Bad)
      → Hoare Pre (if b then m else n) Good Bad
  Hoare-if true m n hm hn = hm refl
  Hoare-if false m n hm hn = hn refl

  pub Hoare-catch :
      (Mid : Exn → S → Type 0) (test : Exn → Bool) (m : Exec S A) (h : Exn → Exec S A)
      → Hoare Pre m Good Mid
      → ((e : Exn) → test e ≡ true → Hoare (Mid e) (h e) Good Bad)
      → ((e : Exn) (s : S) → test e ≡ false → Mid e s → Bad e s)
      → Hoare Pre (catch test m h) Good Bad
  unfolding catch raise
  Hoare-catch Mid test m h hm hh pass = record {
    ends = λ s p. let (r, s') = m s in ended r s' (hm.ends s p);
  }
    where
      handled :
          (b : Bool) (e : Exn) (s' : S)
          → test e ≡ b
          → Mid e s'
          → Ends Good Bad ((if b then h e else raise e) s').0 ((if b then h e else raise e) s').1
      handled true e s' t q = (hh e t).ends s' q
      handled false e s' t q = pass e s' t q

      ended :
          (r : Result A) (s' : S)
          → Ends Good Mid r s'
          → Ends Good Bad (recover test h r s').0 (recover test h r s').1
      ended (ok a) s' q = q
      ended (raised e) s' q = handled (test e) e s' refl q

  pub Hoare-weaken :
      {Good' : A → S → Type 0} {Bad' : Exn → S → Type 0} (m : Exec S A)
      → ((a : A) (s : S) → Good a s → Good' a s)
      → ((e : Exn) (s : S) → Bad e s → Bad' e s)
      → Hoare Pre m Good Bad
      → Hoare Pre m Good' Bad'
  Hoare-weaken {Good'} {Bad'} m good bad h = record {
    ends = λ s p. ended (m s).0 (m s).1 (h.ends s p);
  }
    where
      ended : (r : Result A) (s : S) → Ends Good Bad r s → Ends Good' Bad' r s
      ended (ok a) s q = good a s q
      ended (raised e) s q = bad e s q

module _ {S A B : Type 0} {Pre : S → Type 0} {Good : B → S → Type 0} {Bad : Exn → S → Type 0} where
  pub Hoare-bind :
      (Mid : A → S → Type 0) (m : Exec S A) (f : A → Exec S B)
      → Hoare Pre m Mid Bad
      → ((a : A) → Hoare (Mid a) (f a) Good Bad)
      → Hoare Pre (m >>= f) Good Bad
  unfolding ◌>>=◌
  Hoare-bind Mid m f hm hf = record { ends = λ s p. let (r, s') = m s in ended r s' (hm.ends s p) }
    where
      ended :
          (r : Result A) (s' : S)
          → Ends Mid Bad r s'
          → Ends Good Bad (continue r f s').0 (continue r f s').1
      ended (ok a) s' q = (hf a).ends s' q
      ended (raised e) s' q = q

module _ {S A : Type 0} where
  trivially : (r : Result A) (s : S) → Ends {S = S} {A = A} (λ _ _. Unit {0}) (λ _ _. Unit {0}) r s
  trivially (ok a) s = tt
  trivially (raised e) s = tt

  -- Of any action, nothing is said.
  pub Hoare-any :
      (Pre : S → Type 0) (m : Exec S A) → Hoare Pre m (λ _ _. Unit {0}) (λ _ _. Unit {0})
  Hoare-any Pre m = record { ends = λ s p. trivially (m s).0 (m s).1 }
