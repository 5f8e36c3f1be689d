-- ===== src/Value/Equality.antt =====
-- Python's `==` on the values of JSON columns. A bool is the int 0 or 1, an int and a float are
-- compared by their exact values, and a dict has no order.
use marcel_arch.Prelude.{
  ℕ, zero, suc, ◌+◌, ◌-◌, ◌*◌, ◌/◌, ◌%◌, ◌^◌, ◌≡◌, refl, Bool, true, false, Option, none, some,
  ◌==◌, ◌&&◌, ◌||◌, nat_eq, ltb, bool_eq, if◌then◌else◌,
}
use marcel_arch.Prelude.Int.{ℤ, pos, negsuc, ◌-ℤ◌, of_sign}
use marcel_arch.Decimal.{Decimal, finite, infinity, read_decimal}
use marcel_arch.Value.{
  Value, null, bool, int, float, str, list, dict, Items, nil, cons, Fields, end, field, get,
}

int_eq : ℤ → ℤ → Bool
int_eq (pos n) (pos m) = nat_eq n m
int_eq (negsuc n) (negsuc m) = nat_eq n m
int_eq _ _ = false

bits_from : ℕ → ℕ → ℕ
bits_from zero n = 0
bits_from (suc f) n = elim (nat_eq n 0) [ true ↦ 0 | false ↦ suc (bits_from f (n / 2)) ]

-- Each round halves the number, so `n` rounds are enough.
bit_length : ℕ → ℕ
unfolding bits_from
bit_length n = bits_from n n

-- A quotient by 2 ^ k, rounded half to even.
round_at : ℕ → ℕ → ℕ
round_at k n =
    let q = n / 2 ^ k in
    let r = 2 * (n % 2 ^ k) in
    let up = ltb (2 ^ k) r || (nat_eq r (2 ^ k) && nat_eq (q % 2) 1) in
    (if up then q + 1 else q) * 2 ^ k

-- The double nearest to an integer, which has 53 bits.
nearest_double : ℕ → ℕ
unfolding bit_length round_at
nearest_double n = if ltb n (2 ^ 53) then n else round_at (bit_length n - 53) n

-- c * 10 ^ e as an integer, if it is one.
whole : ℕ → ℤ → Option ℕ
whole c (pos e) = some (c * 10 ^ e)
whole c (negsuc e) = if nat_eq (c % 10 ^ suc e) 0 then some (c / 10 ^ suc e) else none

int_decimal_eq : ℤ → Decimal → Bool
unfolding whole nearest_double int_eq
int_decimal_eq n (finite s c e) = elim (whole c e) [
  | some m ↦ int_eq n (of_sign s (nearest_double m))
  | none ↦ false
]
int_decimal_eq n _ = false

same_size : ℕ → ℕ → ℤ → Bool
same_size c c' (pos k) = nat_eq (c * 10 ^ k) c'
same_size c c' (negsuc k) = nat_eq c (c' * 10 ^ suc k)

-- Two floats are equal if their shortest texts stand for one number, whatever the sign of a zero.
decimal_eq : Decimal → Decimal → Bool
unfolding same_size ◌-ℤ◌
decimal_eq (finite s c e) (finite s' c' e') =
    same_size c c' (e -ℤ e') && (bool_eq s s' || nat_eq c 0)
decimal_eq (infinity s) (infinity s') = bool_eq s s'
decimal_eq _ _ = false

-- The number that a value is, for a comparison.
pub data Numeric : Type 0 where
  whole_number : ℤ → Numeric
  real : Decimal → Numeric
  not_numeric : Numeric

float_value : Option Decimal → Numeric
float_value none = not_numeric
float_value (some d) = real d

numeric : Value → Numeric
unfolding float_value
numeric (bool true) = whole_number (pos 1)
numeric (bool false) = whole_number (pos 0)
numeric (int n) = whole_number n
numeric (float repr) = float_value (read_decimal repr)
numeric _ = not_numeric

numeric_eq : Numeric → Numeric → Bool
unfolding int_eq int_decimal_eq decimal_eq
numeric_eq (whole_number n) (whole_number m) = int_eq n m
numeric_eq (whole_number n) (real d) = int_decimal_eq n d
numeric_eq (real d) (whole_number n) = int_decimal_eq n d
numeric_eq (real d) (real e) = decimal_eq d e
numeric_eq _ _ = false

unfoldable pub size : Fields → ℕ
size end = 0
size (field k v rest) = suc (size rest)

-- `v == w`
unfoldable mutual
  unfolding numeric numeric_eq size get

  pub py_eq : Value → Value → Bool
  py_eq null w = elim w [ null ↦ true | _ ↦ false ]
  py_eq (bool b) w = numeric_eq (numeric (bool b)) (numeric w)
  py_eq (int n) w = numeric_eq (numeric (int n)) (numeric w)
  py_eq (float r) w = numeric_eq (numeric (float r)) (numeric w)
  py_eq (str s) w = elim w [ str t ↦ s == t | _ ↦ false ]
  py_eq (list xs) w = elim w [ list ys ↦ items_eq xs ys | _ ↦ false ]
  py_eq (dict fs) w = elim w [ dict gs ↦ nat_eq (size fs) (size gs) && within fs gs | _ ↦ false ]

  pub items_eq : Items → Items → Bool
  items_eq nil ys = elim ys [ nil ↦ true | _ ↦ false ]
  items_eq (cons x xs) ys = elim ys [ cons y ys ↦ py_eq x y && items_eq xs ys | nil ↦ false ]

  -- Every key of the first dict is in the second, with an equal value.
  pub within : Fields → Fields → Bool
  within end gs = true
  within (field k v rest) gs =
      elim (get k gs) [ some w ↦ py_eq v w | none ↦ false ] && within rest gs

numbers_eq :
    (py_eq (bool true) (int (pos 1)) ≡ true)
    × (py_eq (int (pos 1)) (float "1.0") ≡ true)
    × (py_eq (float "-0.0") (int (pos 0)) ≡ true)
    × (py_eq (float "1e+23") (int (pos (10 ^ 23))) ≡ false)
    × (py_eq (float "0.5") (float "0.5") ≡ true)
    × (py_eq (float "nan") (float "nan") ≡ false)
    × (py_eq (str "1") (int (pos 1)) ≡ false)
unfolding py_eq read_decimal
numbers_eq = (refl, refl, refl, refl, refl, refl, refl)

dicts_eq :
    py_eq
      (dict (field "a" null (field "b" (list (cons (bool false) nil)) end)))
      (dict (field "b" (list (cons (int (pos 0)) nil)) (field "a" null end)))
    ≡ true
unfolding py_eq
dicts_eq = refl
