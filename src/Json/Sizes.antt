-- ===== src/Json/Sizes.antt =====
-- A text of JSON is long enough for the reader's fuel to be taken from its length.
use Prim.Native.Char.{Char, code}
use Prim.Native.String.{count}
use marcel_arch.Prelude.{
  ℕ, zero, suc, ◌+◌, ◌*◌, ◌/◌, ◌%◌, ◌≤◌, ◌<◌, String, ◌≡◌, Bool, true, false, arith, both,
  Bool-cases, inl, inr, ltb, nat_eq, if◌then◌else◌,
}
use marcel_arch.Prelude.Int.{ℤ, pos, negsuc}
use marcel_arch.Value.{
  Value, null, bool, int, float, str, list, dict, Items, nil, cons, Fields, end, field,
}
use marcel_arch.Json.{
  digit_char, write_char, write_chars, write_text, write_raw, write_digits, write_int, float_text,
  write_value, write_items, write_fields,
}
use marcel_arch.Json.Digits.{is_int_char, all_chars}
use marcel_arch.Json.Texts.{count-cons}
use marcel_arch.Json.Read.{
  is_plain, items_plain, fields_plain, value_fuel, items_fuel, fields_fuel, plain_float,
  float_text-plain,
}

longer-if :
    (n : ℕ) (b : Bool) (x y : String) → n ≤ count x → n ≤ count y → n ≤ count (if b then x else y)
longer-if n true x y h k = h
longer-if n false x y h k = k

two-le : (c d : Char) (t : String) → suc (count t) ≤ count (String.◌∷◌ c (String.◌∷◌ d t))
two-le c d t = omega (arith, count-cons c (String.◌∷◌ d t), count-cons d t)

six-le :
    (c d : Char) (t : String)
    → suc (count t)
      ≤ count (
          String.◌∷◌ "\\"
            (String.◌∷◌ "u" (String.◌∷◌ "0" (String.◌∷◌ "0" (String.◌∷◌ c (String.◌∷◌ d t))))))
six-le c d t =
    let tail = String.◌∷◌ c (String.◌∷◌ d t) in
    omega (
      arith,
      count-cons "\\" (String.◌∷◌ "u" (String.◌∷◌ "0" (String.◌∷◌ "0" tail))),
      count-cons "u" (String.◌∷◌ "0" (String.◌∷◌ "0" tail)),
      two-le "0" "0" tail,
      two-le c d t,
    )

count-write_char : (c : Char) (t : String) → suc (count t) ≤ count (write_char c t)
unfolding write_char
count-write_char c t =
    let n = suc (count t) in
    longer-if n (nat_eq (code c) 34) _ _ (two-le "\\" "\"" t) (
      longer-if n (nat_eq (code c) 92) _ _ (two-le "\\" "\\" t) (
        longer-if n (nat_eq (code c) 10) _ _ (two-le "\\" "n" t) (
          longer-if n (nat_eq (code c) 13) _ _ (two-le "\\" "r" t) (
            longer-if n (nat_eq (code c) 9) _ _ (two-le "\\" "t" t) (
              longer-if n (nat_eq (code c) 8) _ _ (two-le "\\" "b" t) (
                longer-if n (nat_eq (code c) 12) _ _ (two-le "\\" "f" t) (
                  longer-if n (ltb (code c) 32) _ _
                    (six-le (digit_char (code c / 16)) (digit_char (code c % 16)) t)
                    (omega (arith, count-cons c t)))))))))

count-write_chars : (s t : String) → count s + count t ≤ count (write_chars s t)
unfolding write_chars
count-write_chars String.[] t = omega arith
count-write_chars (String.◌∷◌ c s) t =
    omega (arith, count-cons c s, count-write_char c (write_chars s t), count-write_chars s t)

count-write_text : (s t : String) → count s + count t + 2 ≤ count (write_text s t)
unfolding write_text
count-write_text s t = omega (
  arith,
  count-write_chars s (String.◌∷◌ "\"" t),
  count-cons "\"" t,
  count-cons "\"" (write_chars s (String.◌∷◌ "\"" t)),
)

count-write_digits : (f n : ℕ) (t : String) → count t ≤ count (write_digits f n t)
unfolding write_digits
count-write_digits zero n t = omega arith
count-write_digits (suc f) n t =
    let longer = String.◌∷◌ (digit_char (n % 10)) t in
    let step = count-cons (digit_char (n % 10)) t in
    elim (Bool-cases (ltb n 10)) [
      | inl e ↦ simp e (omega (arith, step))
      | inr e ↦ simp e (omega (arith, step, count-write_digits f (n / 10) longer))
    ]

count-some_digits : (f n : ℕ) (t : String) → count t < count (write_digits (suc f) n t)
unfolding write_digits
count-some_digits f n t =
    let longer = String.◌∷◌ (digit_char (n % 10)) t in
    let step = count-cons (digit_char (n % 10)) t in
    elim (Bool-cases (ltb n 10)) [
      | inl e ↦ simp e (omega (arith, step))
      | inr e ↦ simp e (omega (arith, step, count-write_digits f (n / 10) longer))
    ]

count-write_int : (z : ℤ) (t : String) → count t < count (write_int z t)
unfolding write_int
count-write_int (pos n) t = count-some_digits n n t
count-write_int (negsuc n) t = omega (
  arith,
  count-cons "-" (write_digits (suc (suc n)) (suc n) t),
  count-some_digits (suc n) (suc n) t,
)

count-write_raw : (s t : String) → count (write_raw s t) ≡ count s + count t
unfolding write_raw
count-write_raw String.[] t = omega arith
count-write_raw (String.◌∷◌ c s) t =
    omega (arith, count-cons c s, count-cons c (write_raw s t), count-write_raw s t)

raw-le :
    (s t : String) → all_chars is_int_char s ≡ false → 1 + 4 * count t ≤ 4 * count (write_raw s t)
raw-le String.[] t h = absurd (cc h)
raw-le (String.◌∷◌ c s) t h = omega (arith, count-write_raw (String.◌∷◌ c s) t, count-cons c s)

float-le :
    (s t : String)
    → is_plain (float s) ≡ true
    → 1 + 4 * count t ≤ 4 * count (write_raw (float_text s) t)
float-le s t h =
    let (chars, point) = plain_float s h in simp (float_text-plain s chars) (raw-le s t point)

pair-le :
    (k : String) (v : Value) (rest : Fields) (t : String)
    → value_fuel v + 4 * count (write_fields rest t)
      ≤ 4 * count (write_value v (write_fields rest t))
    → fields_fuel rest + 4 * count t ≤ 4 * count (write_fields rest t)
    → count k + value_fuel v + fields_fuel rest + 8 + 4 * count t
      ≤ 4 * count (write_text k (String.◌∷◌ ":" (write_value v (write_fields rest t))))
pair-le k v rest t h hs =
    let value = write_value v (write_fields rest t) in
    omega (arith, count-write_text k (String.◌∷◌ ":" value), count-cons ":" value, h, hs)

mutual
  unfolding write_value is_plain value_fuel write_text

  pub value_fuel-le :
      (v : Value) (t : String)
      → is_plain v ≡ true
      → value_fuel v + 4 * count t ≤ 4 * count (write_value v t)
  value_fuel-le null t h = omega (arith, count-write_raw "null" t)
  value_fuel-le (bool true) t h = omega (arith, count-write_raw "true" t)
  value_fuel-le (bool false) t h = omega (arith, count-write_raw "false" t)
  value_fuel-le (int n) t h = omega (arith, count-write_int n t)
  value_fuel-le (float s) t h = float-le s t h
  value_fuel-le (str s) t h = omega (arith, count-write_text s t)
  value_fuel-le (list nil) t h = omega (arith, two-le "[" "]" t)
  value_fuel-le (list (cons x xs)) t h =
      let (plain, plains) = both (is_plain x) _ h in
      omega (
        arith,
        count-cons "[" (write_value x (write_items xs t)),
        value_fuel-le x (write_items xs t) plain,
        items_fuel-le xs t plains,
      )
  value_fuel-le (dict end) t h = omega (arith, two-le "{" "}" t)
  value_fuel-le (dict (field k v rest)) t h =
      let (plain, plains) = both (is_plain v) _ h in
      omega (
        arith,
        count-cons "{" (write_text k (String.◌∷◌ ":" (write_value v (write_fields rest t)))),
        pair-le k v rest t (value_fuel-le v (write_fields rest t) plain)
            (fields_fuel-le rest t plains),
      )

  items_fuel-le :
      (xs : Items) (t : String)
      → items_plain xs ≡ true
      → items_fuel xs + 4 * count t ≤ 4 * count (write_items xs t)
  items_fuel-le nil t h = omega (arith, count-cons "]" t)
  items_fuel-le (cons x xs) t h =
      let (plain, plains) = both (is_plain x) _ h in
      omega (
        arith,
        count-cons "," (write_value x (write_items xs t)),
        value_fuel-le x (write_items xs t) plain,
        items_fuel-le xs t plains,
      )

  fields_fuel-le :
      (fs : Fields) (t : String)
      → fields_plain fs ≡ true
      → fields_fuel fs + 4 * count t ≤ 4 * count (write_fields fs t)
  fields_fuel-le end t h = omega (arith, count-cons "}" t)
  fields_fuel-le (field k v rest) t h =
      let (plain, plains) = both (is_plain v) _ h in
      omega (
        arith,
        count-cons "," (write_text k (String.◌∷◌ ":" (write_value v (write_fields rest t)))),
        pair-le k v rest t (value_fuel-le v (write_fields rest t) plain)
            (fields_fuel-le rest t plains),
      )
