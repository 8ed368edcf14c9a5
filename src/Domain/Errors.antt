-- ===== src/Domain/Errors.antt =====
-- The exceptions of backend/app/domain/exceptions.py, those of the libraries that the services let
-- through or catch, and the result of a call that may raise.
use timber_ops.Prelude.{◌≡◌, refl, ◌⊎◌, inl, inr, Bool, true, false, Option, none, some}

-- One constructor for each class that is raised. The messages are not kept.
pub data Error : Type 0 where
  validation invalid_state business_rule not_found conflict : Error
  authentication permission_denied registration_disabled : Error
  -- the refusals of bootstrap_admin_service.py
  bootstrap_admin admin_already_exists existing_user_password rbac_data_incomplete : Error
  vehicle_has_history customer_has_history : Error
  paid_weighing_requires_refund reversed_billing_immutable : Error
  -- SQLAlchemy's IntegrityError and DataError, and decimal's InvalidOperation
  integrity_error data_error invalid_operation : Error
  -- ValueError and OverflowError of Python
  value_error overflow_error : Error

-- What a call comes to: it raises, or returns.
pub data Result {ℓ} (A : Type ℓ) : Type ℓ where
  err : Error → Result A
  ok : A → Result A

-- `if test: raise e`
abbrev pub raise_if : Bool → Error → Result (Unit {0})
raise_if true e = err e
raise_if false e = ok tt

-- A call, and what the method does with the object that it returns, or once it has returned.
infixl 5 ◌>>=◌
abbrev pub ◌>>=◌ {ℓ κ} : {A : Type ℓ} {B : Type κ} → Result A → (A → Result B) → Result B
err e >>= rest = err e
ok a >>= rest = rest a

infixl 5 ◌>>◌
abbrev pub ◌>>◌ {ℓ} : {B : Type ℓ} → Result (Unit {0}) → Result B → Result B
call >> rest = call >>= λ _. rest

-- `if row is None: raise e`
abbrev pub or_raise {ℓ} : {A : Type ℓ} → Option A → Error → Result A
or_raise none e = err e
or_raise (some a) e = ok a

module _ {ℓ κ} {A : Type ℓ} {B : Type κ} where
  -- A call that returns has run both of its parts.
  pub >>=-eq-ok :
      (m : Result A) (f : A → Result B) (b : B)
      → (m >>= f) ≡ ok b
      → (a : A) × (m ≡ ok a) × (f a ≡ ok b)
  >>=-eq-ok (ok a) f b h = (a, refl, h)
  >>=-eq-ok (err e) f b h = cc

pub Result-cases {ℓ} :
    {A : Type ℓ} (m : Result A) → ((a : A) × (m ≡ ok a)) ⊎ ((e : Error) × (m ≡ err e))
Result-cases (ok a) = inl (a, refl)
Result-cases (err e) = inr (e, refl)

-- A test that let the call go on has failed.
pub raise_if-eq-ok {ℓ} :
    {B : Type ℓ} (test : Bool) (e : Error) (k : Result B) (b : B)
    → (raise_if test e >> k) ≡ ok b
    → (test ≡ false) × (k ≡ ok b)
raise_if-eq-ok true e k b h = cc
raise_if-eq-ok false e k b h = (refl, h)

pub or_raise-eq-ok {ℓ} :
    {A : Type ℓ} (o : Option A) (e : Error) (a : A) → or_raise o e ≡ ok a → o ≡ some a
or_raise-eq-ok none e a h = cc
or_raise-eq-ok (some b) e a h = cc
