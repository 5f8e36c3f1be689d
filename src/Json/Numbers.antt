-- ===== src/Json/Numbers.antt =====
-- A reader of the numbers that `write_int` and a float's text make.
use Prim.Native.Char.{code}
use marcel_arch.Prelude.{
  ℕ, zero, suc, ◌+◌, ◌*◌, ◌/◌, ◌%◌, ◌<◌, String, ◌≡◌, refl, ap, Bool, true, false, inl, inr, ltb,
  nat_eq, arith, both, Bool-cases, if◌then◌else◌,
}
use marcel_arch.Prelude.Int.{ℤ, pos, negsuc, of_sign}
use marcel_arch.Value.{Value, int, float}
use marcel_arch.Json.{digit_char, write_raw, write_digits, write_int}
use marcel_arch.Json.Texts.{digit_value, digit_value-digit_char, drop_char}
use marcel_arch.Json.Digits.{
  is_int_char, is_number_char, all_chars, first_char, split_number, split_number-write_raw,
  code-digit_char, digit-is_int_char, write_int-write_raw, all_chars-write_digits,
}

abbrev minus_first : String → Bool
minus_first = first_char (λ c. nat_eq (code c) b'-')

minus_first-write_digits :
    (f n : ℕ) (a : String) → minus_first a ≡ false → minus_first (write_digits f n a) ≡ false
unfolding write_digits
minus_first-write_digits zero n a h = h
minus_first-write_digits (suc f) n a h =
    let digit : nat_eq (code (digit_char (n % 10))) b'-' ≡ false =
      simp (code-digit_char (n % 10) (omega arith)) (ground arith) in
    elim (Bool-cases (ltb n 10)) [
      | inl e ↦ simp (e, digit) refl
      | inr e ↦
          simp e (minus_first-write_digits f (n / 10) (String.◌∷◌ (digit_char (n % 10)) a) digit)
    ]

-- A text of digits, behind the digits of `a`.
unfoldable read_digits : ℕ → String → ℕ
read_digits a String.[] = a
read_digits a (String.◌∷◌ c s) = read_digits (a * 10 + digit_value c) s

read_digits-write_digits :
    (f n : ℕ) (t : String) → n < f → read_digits 0 (write_digits f n t) ≡ read_digits n t
unfolding read_digits write_digits
read_digits-write_digits zero n t h = absurd (omega arith)
read_digits-write_digits (suc f) n t h =
    let digit = digit_value-digit_char (n % 10) (omega arith) in
    elim (Bool-cases (ltb n 10)) [
      | inl e ↦
          let same : 0 * 10 + digit_value (digit_char (n % 10)) ≡ n = ground (arith, e, digit) in
          simp e (ap (λ (k : ℕ). read_digits k t) same)
      | inr e ↦
          let whole : n / 10 * 10 + n % 10 ≡ n = omega arith in
          let fuel : n / 10 < f = ground (arith, e, h) in
          simp
            (
              e,
              read_digits-write_digits f (n / 10) (String.◌∷◌ (digit_char (n % 10)) t) fuel,
              digit,
              whole,
            )
            refl
    ]

unfoldable read_int : String → ℤ
unfolding read_digits
read_int s =
    if minus_first s then of_sign true (read_digits 0 (drop_char s)) else pos (read_digits 0 s)

read_int-write_int : (z : ℤ) → read_int (write_int z "") ≡ z
unfolding read_int write_int
read_int-write_int (pos n) =
    simp
      (
        minus_first-write_digits (suc n) n "" refl,
        read_digits-write_digits (suc n) n "" (omega arith),
      )
      refl
read_int-write_int (negsuc n) =
    simp (read_digits-write_digits (suc (suc n)) (suc n) "" (omega arith)) refl

unfoldable pub number_of : String → Value
unfolding read_int
number_of s = if all_chars is_int_char s then int (read_int s) else float s

unfoldable pub read_number : String → Value × String
unfolding split_number number_of
read_number s = let (front, rest) = split_number s in (number_of front, rest)

all_chars-number : (s : String) → all_chars is_int_char s ≡ true → all_chars is_number_char s ≡ true
all_chars-number String.[] h = refl
all_chars-number (String.◌∷◌ c s) h =
    let parts = both (is_int_char c) (all_chars is_int_char s) h in
    simp (parts.0, all_chars-number s parts.1) refl

int_text-all_chars : (z : ℤ) → all_chars is_int_char (write_int z "") ≡ true
unfolding write_int
int_text-all_chars (pos n) = all_chars-write_digits (suc n) n "" refl
int_text-all_chars (negsuc n) = all_chars-write_digits (suc (suc n)) (suc n) "" refl

pub read_number-write_int :
    (z : ℤ) (t : String)
    → first_char is_number_char t ≡ false
    → read_number (write_int z t) ≡ (int z, t)
unfolding read_number number_of
read_number-write_int z t h =
    simp
      (
        write_int-write_raw z t,
        split_number-write_raw (write_int z "") t
            (all_chars-number (write_int z "") (int_text-all_chars z)) h,
        int_text-all_chars z,
        read_int-write_int z,
      )
      refl

pub read_number-write_raw :
    (s t : String)
    → all_chars is_number_char s ≡ true
    → all_chars is_int_char s ≡ false
    → first_char is_number_char t ≡ false
    → read_number (write_raw s t) ≡ (float s, t)
unfolding read_number number_of
read_number-write_raw s t h k e = simp (split_number-write_raw s t h e, k) refl

pub first_char-write_raw :
    (s t : String)
    → all_chars is_number_char s ≡ true
    → all_chars is_int_char s ≡ false
    → first_char is_number_char (write_raw s t) ≡ true
unfolding write_raw
first_char-write_raw String.[] t h k = absurd (cc k)
first_char-write_raw (String.◌∷◌ c s) t h k = (both (is_number_char c) _ h).0

first_char-write_digits :
    (f n : ℕ) (t : String)
    → first_char is_number_char t ≡ true
    → first_char is_number_char (write_digits f n t) ≡ true
unfolding write_digits
first_char-write_digits zero n t h = h
first_char-write_digits (suc f) n t h =
    let digit : is_number_char (digit_char (n % 10)) ≡ true =
      simp (digit-is_int_char (n % 10) (omega arith)) refl in
    elim (Bool-cases (ltb n 10)) [
      | inl e ↦ simp (e, digit) refl
      | inr e ↦
          simp e (first_char-write_digits f (n / 10) (String.◌∷◌ (digit_char (n % 10)) t) digit)
    ]

first_char-some_digits :
    (f n : ℕ) (t : String) → first_char is_number_char (write_digits (suc f) n t) ≡ true
unfolding write_digits
first_char-some_digits f n t =
    let digit : is_number_char (digit_char (n % 10)) ≡ true =
      simp (digit-is_int_char (n % 10) (omega arith)) refl in
    elim (Bool-cases (ltb n 10)) [
      | inl e ↦ simp (e, digit) refl
      | inr e ↦
          simp e (first_char-write_digits f (n / 10) (String.◌∷◌ (digit_char (n % 10)) t) digit)
    ]

pub first_char-write_int : (z : ℤ) (t : String) → first_char is_number_char (write_int z t) ≡ true
unfolding write_int
first_char-write_int (pos n) t = first_char-some_digits n n t
first_char-write_int (negsuc n) t = refl
