-- ===== src/Json/Digits.antt =====
-- The characters of the numbers that `write_int` and a float's text make.
use Prim.Native.Char.{Char, code}
use marcel_arch.Prelude.{
  ℕ, zero, suc, ◌+◌, ◌/◌, ◌%◌, ◌<◌, String, ◌≡◌, refl, ap, Bool, true, false, ◌&&◌, ◌||◌, inl, inr,
  ltb, leb, nat_eq, arith, both, Bool-cases, if◌then◌else◌,
}
use marcel_arch.Prelude.Int.{ℤ, pos, negsuc}
use marcel_arch.Json.Chars.{code-ascii}
use marcel_arch.Json.{digit_char, write_raw, write_digits, write_int}

abbrev pub is_int_char : Char → Bool
is_int_char c = nat_eq (code c) b'-' || (leb b'0' (code c) && leb (code c) b'9')

abbrev pub is_number_char : Char → Bool
is_number_char c =
    is_int_char c || nat_eq (code c) b'.' || nat_eq (code c) b'e' || nat_eq (code c) b'+'

abbrev pub all_chars : (Char → Bool) → String → Bool
all_chars p String.[] = true
all_chars p (String.◌∷◌ c s) = p c && all_chars p s

abbrev pub first_char : (Char → Bool) → String → Bool
first_char p String.[] = false
first_char p (String.◌∷◌ c s) = p c

abbrev pub prepend : Char → String × String → String × String
prepend c (s, t) = (String.◌∷◌ c s, t)

-- The longest front of number characters.
unfoldable pub split_number : String → String × String
split_number String.[] = ("", "")
split_number (String.◌∷◌ c s) =
    if is_number_char c then prepend c (split_number s) else ("", String.◌∷◌ c s)

split_number_end : (t : String) → first_char is_number_char t ≡ false → split_number t ≡ ("", t)
unfolding split_number
split_number_end String.[] h = refl
split_number_end (String.◌∷◌ c t) h = simp h refl

pub split_number-write_raw :
    (s t : String)
    → all_chars is_number_char s ≡ true
    → first_char is_number_char t ≡ false
    → split_number (write_raw s t) ≡ (s, t)
unfolding split_number write_raw
split_number-write_raw String.[] t h e = split_number_end t e
split_number-write_raw (String.◌∷◌ c s) t h e =
    let parts = both (is_number_char c) (all_chars is_number_char s) h in
    simp (parts.0, split_number-write_raw s t parts.1 e) refl

pub code-digit_char : (n : ℕ) → n < 10 → code (digit_char n) ≡ 48 + n
unfolding digit_char
code-digit_char n h =
    let small : ltb n 10 ≡ true = ground (arith, h) in
    simp small (code-ascii (48 + n) (omega (arith, h)))

pub digit-is_int_char : (n : ℕ) → n < 10 → is_int_char (digit_char n) ≡ true
digit-is_int_char n h = simp (code-digit_char n h) (ground (arith, h))

write_digits-write_raw :
    (f n : ℕ) (a t : String) → write_digits f n (write_raw a t) ≡ write_raw (write_digits f n a) t
unfolding write_digits write_raw
write_digits-write_raw zero n a t = refl
write_digits-write_raw (suc f) n a t = elim (Bool-cases (ltb n 10)) [
  | inl e ↦ simp e refl
  | inr e ↦ simp e (write_digits-write_raw f (n / 10) (String.◌∷◌ (digit_char (n % 10)) a) t)
]

pub write_int-write_raw : (z : ℤ) (t : String) → write_int z t ≡ write_raw (write_int z "") t
unfolding write_int write_raw
write_int-write_raw (pos n) t = write_digits-write_raw (suc n) n "" t
write_int-write_raw (negsuc n) t =
    ap (String.◌∷◌ "-") (write_digits-write_raw (suc (suc n)) (suc n) "" t)

pub all_chars-write_digits :
    (f n : ℕ) (a : String)
    → all_chars is_int_char a ≡ true
    → all_chars is_int_char (write_digits f n a) ≡ true
unfolding write_digits
all_chars-write_digits zero n a h = h
all_chars-write_digits (suc f) n a h =
    let digit = digit-is_int_char (n % 10) (omega arith) in
    elim (Bool-cases (ltb n 10)) [
      | inl e ↦ simp (e, digit, h) refl
      | inr e ↦ simp e (
          all_chars-write_digits f (n / 10) (String.◌∷◌ (digit_char (n % 10)) a)
            (simp (digit, h) refl))
    ]
