-- ===== src/Prelude/Result.antt =====
-- Python's exceptions as values. Each constructor is an exception class that the source raises, or
-- that a call of the source lets through, with the message that the source gives it.
use Prim.Native.Nat.{ℕ}
use Prim.Native.String.{String}
use mathlib.Core.Path.{◌≡◌, refl}
use mathlib.Core.Logic.{◌⊎◌, inl, inr}

pub data Exn : Type 0 where
  value_error governance_error audit_integrity_error : String → Exn
  execution_denied approval_rejected approval_timeout : String → Exn
  http_exception : ℕ → String → Exn
  -- what a tool raises: its class and its text
  operation_error : String → String → Exn
  type_error invalid_operation multiple_results integrity_error pending_rollback validation_error :
      Exn

pub data Result {ℓ} (A : Type ℓ) : Type ℓ where
  ok : A → Result A
  err : Exn → Result A

abbrev then_do {ℓ κ} : {A : Type ℓ} {B : Type κ} → (A → Result B) → Result A → Result B
then_do next (ok a) = next a
then_do next (err e) = err e

infixl 5 ◌>>=◌
abbrev pub ◌>>=◌ {ℓ κ} : {A : Type ℓ} {B : Type κ} → Result A → (A → Result B) → Result B
r >>= next = then_do next r

pub Result-cases {ℓ} :
    {A : Type ℓ} (r : Result A) → ((a : A) × (r ≡ ok a)) ⊎ ((e : Exn) × (r ≡ err e))
Result-cases (ok a) = inl (a, refl)
Result-cases (err e) = inr (e, refl)

module _ {ℓ κ} {A : Type ℓ} {B : Type κ} (next : A → Result B) where
  pub >>=-eq-ok :
      {b : B} (r : Result A) → r >>= next ≡ ok b → (a : A) × (r ≡ ok a) × (next a ≡ ok b)
  >>=-eq-ok (err e) h = cc
  >>=-eq-ok (ok a) h = (a, refl, h)

pub ok-injective {ℓ} : {A : Type ℓ} {a b : A} → ok a ≡ ok b → a ≡ b
ok-injective e = cc
