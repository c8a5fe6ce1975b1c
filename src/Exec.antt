-- ===== src/Exec.antt =====
-- Python's exceptions of this program, and actions on a state that may raise. What was done before
-- a raise stays done, so the state comes back beside the exception too.
pub mod Costs
pub mod Triple
pub mod Hoare
pub mod Inversion
use pegaprox_plugin_opnsense.Prelude.{
  ℕ, String, Bool, true, false, Option, ◌⊎◌, inl, inr, ◌≡◌, refl, if◌then◌else◌,
}
use pegaprox_plugin_opnsense.Value.{Value, Fields}

-- `class ManagementError` of `src/management/engine.py`
pub record ManagementError : Type 0 where
  pub error : String
  pub detail : String
  pub status : ℕ
  pub partial : Bool
  pub stage : Option String
  pub audit_failure : Bool
  pub validations : Fields
  pub uuid : Option String

-- The classes that the code tells apart: `OPNsenseError` with its subclasses, and the built-in ones.
-- `rejected` has the validations, `null` if there are none.
pub data Exn : Type 0 where
  opnsense : String → Exn
  auth : String → Exn
  timeout : String → Exn
  rejected : String → Value → Exn
  conflict : String → Exn
  unsafe_sync : String → Exn
  os_error : String → Exn
  value_error : String → Exn
  type_error : String → Exn
  attribute_error : String → Exn
  management : ManagementError → Exn

-- `str(e)`
unfoldable pub message : Exn → String
message (opnsense m) = m
message (auth m) = m
message (timeout m) = m
message (rejected m v) = m
message (conflict m) = m
message (unsafe_sync m) = m
message (os_error m) = m
message (value_error m) = m
message (type_error m) = m
message (attribute_error m) = m
message (management e) = e.detail

-- `isinstance(e, OPNsenseError)`
abbrev pub is_opnsense : Exn → Bool
is_opnsense (opnsense m) = true
is_opnsense (auth m) = true
is_opnsense (timeout m) = true
is_opnsense (rejected m v) = true
is_opnsense (conflict m) = true
is_opnsense (unsafe_sync m) = true
is_opnsense _ = false

-- `isinstance(e, OSError)`
abbrev pub is_os_error : Exn → Bool
is_os_error (os_error m) = true
is_os_error _ = false

-- `isinstance(e, (ValueError, TypeError))`
abbrev pub is_value_or_type : Exn → Bool
is_value_or_type (value_error m) = true
is_value_or_type (type_error m) = true
is_value_or_type _ = false

-- `isinstance(e, ManagementError)`
abbrev pub is_management : Exn → Bool
is_management (management e) = true
is_management _ = false

-- `except Exception`
abbrev pub is_any : Exn → Bool
is_any e = true

pub data Result {ℓ} (A : Type ℓ) : Type ℓ where
  ok : A → Result A
  raised : Exn → Result A

abbrev pub Exec {ℓ} : Type ℓ → Type ℓ → Type ℓ
Exec S A = S → Result A × S

module _ {ℓ} {S A : Type ℓ} where
  unfoldable pub pure : A → Exec S A
  pure a s = (ok a, s)

  unfoldable pub raise : Exn → Exec S A
  raise e s = (raised e, s)

  unfoldable pub gets : (S → A) → Exec S A
  gets f s = (ok (f s), s)

  -- `try: m except <test> as e: handler(e)`
  abbrev pub recover : (Exn → Bool) → (Exn → Exec S A) → Result A → Exec S A
  recover test handler (ok a) s = (ok a, s)
  recover test handler (raised e) s = (if test e then handler e else raise e) s

  unfoldable pub catch : (Exn → Bool) → Exec S A → (Exn → Exec S A) → Exec S A
  unfolding raise
  catch test m handler s = let (r, s') = m s in recover test handler r s'

module _ {ℓ} {S : Type ℓ} where
  unfoldable pub modify : (S → S) → Exec S (Unit {ℓ})
  modify f s = (ok tt, f s)

module _ {ℓ} {S A B : Type ℓ} where
  abbrev pub continue : Result A → (A → Exec S B) → Exec S B
  continue (ok a) f s = f a s
  continue (raised e) f s = (raised e, s)

  infixl 10 ◌>>=◌ ◌>>◌
  -- Opening this opens `pure`, `raise`, `gets` and `catch` too.
  unfoldable pub ◌>>=◌ : Exec S A → (A → Exec S B) → Exec S B
  unfolding pure raise gets catch modify
  ◌>>=◌ m f s = let (r, s') = m s in continue r f s'

  abbrev pub ◌>>◌ : Exec S A → Exec S B → Exec S B
  m >> n = m >>= λ _. n

-- `try: a = m except <test> as e`: what was raised, or the value.
module _ {S A : Type 0} where
  unfoldable pub attempt : (Exn → Bool) → Exec S A → Exec S (Exn ⊎ A)
  unfolding ◌>>=◌
  attempt test m = catch test (do a ← m; pure (inr a)) (λ e. pure (inl e))

-- How a run ended, with its equation.
pub ended-cases {ℓ} :
    {S A : Type ℓ} (p : Result A × S)
    → ((a : A) × (p ≡ (ok a, p.1))) ⊎ ((e : Exn) × (p ≡ (raised e, p.1)))
ended-cases (ok a, s) = inl (a, refl)
ended-cases (raised e, s) = inr (e, refl)

pub Result-cases {ℓ} :
    {A : Type ℓ} (r : Result A) → ((a : A) × (r ≡ ok a)) ⊎ ((e : Exn) × (r ≡ raised e))
Result-cases (ok a) = inl (a, refl)
Result-cases (raised e) = inr (e, refl)
