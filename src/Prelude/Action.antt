-- ===== src/Prelude/Action.antt =====
-- A call that changes a state and may raise: what was written before a raise stays written, so the
-- state comes back beside the exception too.
use mathlib.Core.Bool.{Bool}
use marcel_arch.Prelude.Tests.{if◌then◌else◌}
use mathlib.Core.Path.{◌≡◌, refl}
use marcel_arch.Prelude.Result.{Exn, Result, ok, err, integrity_error}

abbrev pub Action {ℓ} : Type ℓ → Type ℓ → Type ℓ
Action S A = S → Result A × S

module _ {ℓ} {S A : Type ℓ} where
  abbrev pub pure : A → Action S A
  pure a s = (ok a, s)

  abbrev pub raise : Exn → Action S A
  raise e s = (err e, s)

  abbrev pub lift : Result A → Action S A
  lift r s = (r, s)

  abbrev pub gets : (S → A) → Action S A
  gets f s = (ok (f s), s)

module _ {ℓ} {S A B : Type ℓ} where
  abbrev pub continue : Result A → (A → Action S B) → Action S B
  continue (ok a) f s = f a s
  continue (err e) f s = (err e, s)

  infixl 5 ◌>>=◌ ◌>>◌
  abbrev pub ◌>>=◌ : Action S A → (A → Action S B) → Action S B
  ◌>>=◌ m f s = let (r, s') = m s in continue r f s'

  abbrev pub ◌>>◌ : Action S A → Action S B → Action S B
  m >> n = m >>= λ _. n

abbrev pub modify : {S : Type 0} → (S → S) → Action S Unit
modify f s = (ok tt, f s)

abbrev pub raise_if : {S : Type 0} → Bool → Exn → Action S Unit
raise_if b e s = (if b then err e else ok tt, s)

-- `try: ... except IntegrityError: raise e`
module _ {S A : Type 0} (e : Exn) where
  abbrev pub replaced : Result A × S → Result A × S
  replaced (err integrity_error, s) = (err e, s)
  replaced out = out

  abbrev pub on_integrity_error : Action S A → Action S A
  on_integrity_error m s = replaced (m s)

module _ {S A B : Type 0} (f : A → Action S B) {b : B} {s' : S} where
  continue-ok :
      (out : Result A × S)
      → continue out.0 f out.1 ≡ (ok b, s')
      → (a : A) × (u : S) × (out ≡ (ok a, u)) × (f a u ≡ (ok b, s'))
  continue-ok (ok a, u) h = (a, u, refl, h)
  continue-ok (err e, u) h = cc h

  -- A chain of two calls that returns: both have returned.
  pub bind-ok :
      (m : Action S A) (s : S)
      → (m >>= f) s ≡ (ok b, s')
      → (a : A) × (u : S) × (m s ≡ (ok a, u)) × (f a u ≡ (ok b, s'))
  bind-ok m s h = continue-ok (m s) h
