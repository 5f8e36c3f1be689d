-- ===== src/Conditions/Checks.antt =====
-- One condition of `_matches` and what comes behind it.
use marcel_arch.Prelude.{
  ◌≡◌, ◌↔◌, refl, ap, Bool, true, false, Option, none, some, not, subst, if◌then◌else◌,
}
use marcel_arch.Prelude.Result.{Result, ok, err, ok-injective, >>=-eq-ok, ◌>>=◌}
use marcel_arch.Decimal.{Decimal}
use marcel_arch.Value.{Value}
use marcel_arch.Conditions.{check, amount_of, decimal_condition}
use marcel_arch.Conditions.Bounds.{Bound, decimal_condition_iff, amount_of-Fails}
use marcel_arch.Prelude.Int.{ℤ}

passed_iff :
    (r rest : Result Bool)
    → ((r >>= λ passed. if passed then rest else ok false) ≡ ok true)
      ↔ ((r ≡ ok true) × (rest ≡ ok true))
passed_iff (ok true) rest = (λ h. (refl, h), λ h. h.1)
passed_iff (ok false) rest =
    (λ h. absurd (cc (ok-injective h)), λ h. absurd (cc (ok-injective h.0)))
passed_iff (err e) rest = (λ h. absurd (cc h), λ h. absurd (cc h.0))

check_iff :
    (P : Value → Type 0) (o : Option Value) (test : Value → Result Bool) (rest : Result Bool)
    → ((v : Value) → (test v ≡ ok true) ↔ P v)
    → (check o test rest ≡ ok true) ↔ (((v : Value) → o ≡ some v → P v) × (rest ≡ ok true))
check_iff P none test rest t = (λ h. (λ v e. cc e, h), λ h. h.1)
check_iff P (some u) test rest t = (
  λ h.
      let parts = (passed_iff (test u) rest).0 h in
      (λ v e. let same : u ≡ v = cc e in subst P same ((t u).0 parts.0), parts.1),
  λ h. (passed_iff (test u) rest).1 ((t u).1 (h.0 u refl), h.1),
)

ok_iff : (b : Bool) → (ok b ≡ ok true) ↔ (b ≡ true)
ok_iff b = (ok-injective, ap ok)

not_iff : (b : Bool) → not b ≡ true → b ≡ false
not_iff true h = absurd (cc h)
not_iff false h = refl

decimal_iff :
    (test : ℤ → Decimal → Bool) (amount : Option ℤ) (v : Value)
    → ((decimal_condition v >>= λ d. ok (not (test (amount_of amount) d))) ≡ ok true)
      ↔ Bound test amount v
decimal_iff test amount v = (
  λ h.
      let (d, e, k) = >>=-eq-ok _ (decimal_condition v) h in
      let (number, sign) = (decimal_condition_iff v d).0 e in
      (
        d,
        number,
        sign,
        (amount_of-Fails test amount d).0 (not_iff (test (amount_of amount) d) (ok-injective k)),
      ),
  λ h.
      simp ((decimal_condition_iff v h.0).1 (h.1, h.2), (amount_of-Fails test amount h.0).1 h.3)
        refl,
)

-- The two forms of a condition.
pub test_iff :
    {P : Value → Type 0} (test : Value → Bool)
    → ((v : Value) → (test v ≡ true) ↔ P v)
    → (o : Option Value) (rest : Result Bool)
    → (check o (λ v. ok (test v)) rest ≡ ok true)
      ↔ (((v : Value) → o ≡ some v → P v) × (rest ≡ ok true))
test_iff {P = P} test means o rest =
    check_iff P o (λ v. ok (test v)) rest
      (λ v. (λ h. (means v).0 ((ok_iff (test v)).0 h), λ p. (ok_iff (test v)).1 ((means v).1 p)))

pub amount_iff :
    (test : ℤ → Decimal → Bool) (amount : Option ℤ) (o : Option Value) (rest : Result Bool)
    → (check o (λ v. decimal_condition v >>= λ d. ok (not (test (amount_of amount) d))) rest
        ≡ ok true)
      ↔ (((v : Value) → o ≡ some v → Bound test amount v) × (rest ≡ ok true))
amount_iff test amount o rest =
    check_iff (Bound test amount) o
      (λ v. decimal_condition v >>= λ d. ok (not (test (amount_of amount) d))) rest
      (decimal_iff test amount)

pub known_cases :
    (b : Bool) (rest : Result Bool)
    → ((if b then ok false else rest) ≡ ok true) ↔ ((b ≡ false) × (rest ≡ ok true))
known_cases true rest = (λ h. absurd (cc (ok-injective h)), λ h. absurd (cc (h.0)))
known_cases false rest = (λ h. (refl, h), λ h. h.1)
