-- ===== src/Exec/Costs.antt =====
-- Bounds on what an action adds to a measure of its state, one rule for each way to build one.
use pegaprox_plugin_opnsense.Prelude.{
  ℕ, ◌+◌, ◌≤◌, Bool, true, false, arith, inl, inr, if◌then◌else◌,
}
use pegaprox_plugin_opnsense.Exec.{
  Exn, Result, ok, raised, Exec, pure, raise, gets, catch, attempt, recover, continue, ◌>>=◌,
}

-- However `m` ends, it adds at most `n` to the measure `size`, and takes nothing off.
pub record Costs {S A : Type 0} (size : S → ℕ) (n : ℕ) (m : Exec S A) : Type 0 where
  pub above : (s : S) → size (m s).1 ≤ size s + n
  pub below : (s : S) → size s ≤ size (m s).1

module _ {S A : Type 0} {size : S → ℕ} where
  pub Costs-pure : (a : A) → Costs size 0 (pure a)
  unfolding pure
  Costs-pure a = record { above = λ s. omega arith; below = λ s. omega arith }

  pub Costs-raise : (e : Exn) → Costs size 0 (raise {A = A} e)
  unfolding raise
  Costs-raise e = record { above = λ s. omega arith; below = λ s. omega arith }

  pub Costs-gets : (f : S → A) → Costs size 0 (gets f)
  unfolding gets
  Costs-gets f = record { above = λ s. omega arith; below = λ s. omega arith }

  pub Costs-le : {m : Exec S A} (n k : ℕ) → n ≤ k → Costs size n m → Costs size k m
  Costs-le n k h c = record { above = λ s. omega (arith, c.above s); below = c.below }

  pub Costs-if :
      (b : Bool) (m n : Exec S A) (k : ℕ)
      → Costs size k m
      → Costs size k n
      → Costs size k (if b then m else n)
  Costs-if true m n k cm cn = cm
  Costs-if false m n k cm cn = cn

  recover_bounds :
      (test : Exn → Bool) (b : Bool) (e : Exn) (h : Exec S A) (j : ℕ) (s : S)
      → Costs size j h
      → (size ((if b then h else raise e) s).1 ≤ size s + j)
        × (size s ≤ size ((if b then h else raise e) s).1)
  unfolding raise
  recover_bounds test true e h j s c = (c.above s, c.below s)
  recover_bounds test false e h j s c = (omega arith, omega arith)

  pub Costs-catch :
      (test : Exn → Bool) (m : Exec S A) (h : Exn → Exec S A) (n j : ℕ)
      → Costs size n m
      → ((e : Exn) → Costs size j (h e))
      → Costs size (n + j) (catch test m h)
  unfolding catch
  Costs-catch test m h n j cm ch = record {
    above = λ s. let (r, s') = m s in bound r s s' (cm.above s) (cm.below s);
    below = λ s. let (r, s') = m s in floor r s s' (cm.below s);
  }
    where
      bound :
          (r : Result A) (s s' : S)
          → size s' ≤ size s + n
          → size s ≤ size s'
          → size (recover test h r s').1 ≤ size s + (n + j)
      bound (ok a) s s' u v = omega arith
      bound (raised e) s s' u v =
          omega (arith, (recover_bounds test (test e) e (h e) j s' (ch e)).0)

      floor : (r : Result A) (s s' : S) → size s ≤ size s' → size s ≤ size (recover test h r s').1
      floor (ok a) s s' v = v
      floor (raised e) s s' v = omega (arith, (recover_bounds test (test e) e (h e) j s' (ch e)).1)

module _ {S A B : Type 0} {size : S → ℕ} where
  pub Costs-bind :
      (m : Exec S A) (f : A → Exec S B) (n k : ℕ)
      → Costs size n m
      → ((a : A) → Costs size k (f a))
      → Costs size (n + k) (m >>= f)
  unfolding ◌>>=◌
  Costs-bind m f n k cm cf = record {
    above = λ s. let (r, s') = m s in bound r s s' (cm.above s);
    below = λ s. let (r, s') = m s in floor r s s' (cm.below s);
  }
    where
      bound :
          (r : Result A) (s s' : S)
          → size s' ≤ size s + n
          → size (continue r f s').1 ≤ size s + (n + k)
      bound (ok a) s s' u = omega (arith, (cf a).above s')
      bound (raised e) s s' u = omega arith

      floor : (r : Result A) (s s' : S) → size s ≤ size s' → size s ≤ size (continue r f s').1
      floor (ok a) s s' v = omega (arith, (cf a).below s')
      floor (raised e) s s' v = v

module _ {S A : Type 0} {size : S → ℕ} where
  pub Costs-attempt :
      (test : Exn → Bool) (m : Exec S A) (n : ℕ) → Costs size n m → Costs size n (attempt test m)
  unfolding attempt
  Costs-attempt test m n c = Costs-le (n + 0 + 0) n (omega arith) (
      Costs-catch test _ _ (n + 0) 0 (Costs-bind m _ n 0 c (λ a. Costs-pure (inr a)))
        (λ e. Costs-pure (inl e)))
