-- ===== src/Conditions/Bounds.antt =====
-- `_decimal_condition` of marcel/core/engine.py.
use marcel_arch.Prelude.{
  suc, ◌≡◌, ◌↔◌, ◌⊎◌, refl, Bool, true, false, Option, none, some, Bool-cases, nat_eq, nat_eq_iff,
  inl, inr, sym, ap, ◌∙◌, subst,
}
use marcel_arch.Prelude.Int.{ℤ, pos, negsuc}
use marcel_arch.Prelude.Result.{ok, ok-injective}
use marcel_arch.Decimal.{Decimal, finite, infinity, nan, read_decimal}
use marcel_arch.Value.{Value, null, bool, int, float, str, list, dict}
use marcel_arch.Conditions.{decimal_of, check_sign, decimal_condition, amount_of}

-- The number that the value is, or that its text is.
abbrev NumberOf : Value → Decimal → Type 0
NumberOf (str s) d = read_decimal s ≡ some d
NumberOf (float repr) d = read_decimal repr ≡ some d
NumberOf (int (pos n)) d = d ≡ finite false n (pos 0)
NumberOf (int (negsuc n)) d = d ≡ finite true (suc n) (pos 0)
NumberOf _ d = ⊥

-- The number has no minus before it, or it is zero.
abbrev NotNegative : Decimal → Type 0
NotNegative nan = ⊥
NotNegative (infinity s) = s ≡ false
NotNegative (finite s c e) = (s ≡ false) ⊎ (c ≡ 0)

-- The amount of the intent fails the test against the number. No amount is an amount of zero.
abbrev Fails : (ℤ → Decimal → Bool) → Option ℤ → Decimal → Type 0
Fails test none d = test (pos 0) d ≡ false
Fails test (some amount) d = test amount d ≡ false

-- A bound on the amount: a number that is not negative, and that the amount is not below, by the test.
abbrev pub Bound : (ℤ → Decimal → Bool) → Option ℤ → Value → Type 0
Bound test amount v = (d : Decimal) × NumberOf v d × NotNegative d × Fails test amount d

decimal_of_iff : (v : Value) (d : Decimal) → (decimal_of v ≡ some d) ↔ NumberOf v d
unfolding decimal_of
decimal_of_iff (str s) d = (λ h. h, λ h. h)
decimal_of_iff (float s) d = (λ h. h, λ h. h)
decimal_of_iff (int (pos n)) d = (λ h. cc h, λ h. cc h)
decimal_of_iff (int (negsuc n)) d = (λ h. cc h, λ h. cc h)
decimal_of_iff null d = (λ h. cc h, λ h. absurd h)
decimal_of_iff (bool b) d = (λ h. cc h, λ h. absurd h)
decimal_of_iff (list xs) d = (λ h. cc h, λ h. absurd h)
decimal_of_iff (dict fs) d = (λ h. cc h, λ h. absurd h)

sign_kept : (x d : Decimal) → check_sign (some x) ≡ ok d → (x ≡ d) × NotNegative x
unfolding check_sign
sign_kept nan d h = cc h
sign_kept (infinity true) d h = cc h
sign_kept (infinity false) d h = (ok-injective h, refl)
sign_kept (finite false c e) d h = (ok-injective h, inl refl)
sign_kept (finite true c e) d h = elim (Bool-cases (nat_eq c 0)) [
  | inl zero ↦ (ok-injective (simp zero at h), inr ((nat_eq_iff c 0).0 zero))
  | inr other ↦ cc (simp other at h)
]

sign_ok : (x : Decimal) → NotNegative x → check_sign (some x) ≡ ok x
unfolding check_sign
sign_ok nan h = absurd h
sign_ok (infinity true) h = cc h
sign_ok (infinity false) h = refl
sign_ok (finite false c e) h = refl
sign_ok (finite true c e) (inl h) = cc h
sign_ok (finite true c e) (inr h) = simp ((nat_eq_iff c 0).1 h) refl

check_sign_iff :
    (o : Option Decimal) (d : Decimal) → (check_sign o ≡ ok d) ↔ ((o ≡ some d) × NotNegative d)
check_sign_iff none d = (λ h. unfold check_sign in cc h, λ h. cc h.0)
check_sign_iff (some x) d = (
  λ h. let (same, sign) = sign_kept x d h in (ap some same, subst NotNegative same sign),
  λ h. let same : d ≡ x = cc h.0 in sign_ok x (subst NotNegative same h.1) ∙ ap ok (sym same),
)

pub decimal_condition_iff :
    (v : Value) (d : Decimal) → (decimal_condition v ≡ ok d) ↔ (NumberOf v d × NotNegative d)
unfolding decimal_condition
decimal_condition_iff v d = (
  λ h. let (e, sign) = (check_sign_iff (decimal_of v) d).0 h in ((decimal_of_iff v d).0 e, sign),
  λ h. (check_sign_iff (decimal_of v) d).1 ((decimal_of_iff v d).1 h.0, h.1),
)

pub amount_of-Fails :
    (test : ℤ → Decimal → Bool) (amount : Option ℤ) (d : Decimal)
    → (test (amount_of amount) d ≡ false) ↔ Fails test amount d
amount_of-Fails test none d = (λ h. h, λ h. h)
amount_of-Fails test (some amount) d = (λ h. h, λ h. h)
