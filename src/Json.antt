-- ===== src/Json.antt =====
-- `canonical_json` of marcel/security/audit.py with what it uses of Python's json.dumps: keys sorted,
-- no spaces, texts escaped only where they must be. Each writer puts its text before the one that it is
-- given.
pub mod Chars
pub mod Texts
pub mod Digits
pub mod Numbers
pub mod Read
pub mod Sizes
pub mod RoundTrip
pub mod Canonical
pub mod Order
mod Tests
use Prim.Native.Char.{Char, code}
use Prim.Native.String
use marcel_arch.Prelude.{
  ℕ, zero, suc, ◌+◌, ◌/◌, ◌%◌, String, Bool, true, false, ◌==◌, ltb, nat_eq, codes, if◌then◌else◌,
}
use marcel_arch.Prelude.Int.{ℤ, pos, negsuc}
use marcel_arch.Value.{
  Value, null, bool, int, float, str, list, dict, Items, nil, cons, Fields, end, field,
}
use marcel_arch.Engine.{before}
use marcel_arch.Json.Chars.{ascii}

-- `sort_keys=True`: a dict comes in the order of the code points of its keys, at every depth.
unfoldable pub insert_field : String → Value → Fields → Fields
unfolding before
insert_field k v end = field k v end
insert_field k v (field j u rest) =
    if before (codes j) (codes k)
    then field j u (insert_field k v rest)
    else field k v (field j u rest)

unfoldable mutual
  unfolding insert_field

  pub sort_value : Value → Value
  sort_value (list xs) = list (sort_items xs)
  sort_value (dict fs) = dict (sort_fields fs)
  sort_value v = v

  pub sort_items : Items → Items
  sort_items nil = nil
  sort_items (cons x xs) = cons (sort_value x) (sort_items xs)

  pub sort_fields : Fields → Fields
  sort_fields end = end
  sort_fields (field k v rest) = insert_field k (sort_value v) (sort_fields rest)

-- A digit below 16.
unfoldable pub digit_char : ℕ → Char
digit_char n = ascii (if ltb n 10 then 48 + n else 87 + n)

-- One character of a text: a quote, a backslash and the control characters are escaped.
unfoldable pub write_char : Char → String → String
unfolding digit_char
write_char c t =
    if nat_eq (code c) 34
    then String.◌∷◌ "\\" (String.◌∷◌ "\"" t)
    else if nat_eq (code c) 92
    then String.◌∷◌ "\\" (String.◌∷◌ "\\" t)
    else if nat_eq (code c) 10
    then String.◌∷◌ "\\" (String.◌∷◌ "n" t)
    else if nat_eq (code c) 13
    then String.◌∷◌ "\\" (String.◌∷◌ "r" t)
    else if nat_eq (code c) 9
    then String.◌∷◌ "\\" (String.◌∷◌ "t" t)
    else if nat_eq (code c) 8
    then String.◌∷◌ "\\" (String.◌∷◌ "b" t)
    else if nat_eq (code c) 12
    then String.◌∷◌ "\\" (String.◌∷◌ "f" t)
    else if ltb (code c) 32
    then String.◌∷◌ "\\" (
        String.◌∷◌ "u" (
          String.◌∷◌ "0" (
            String.◌∷◌ "0"
              (String.◌∷◌ (digit_char (code c / 16)) (String.◌∷◌ (digit_char (code c % 16)) t)))))
    else String.◌∷◌ c t

unfoldable pub write_chars : String → String → String
unfolding write_char
write_chars String.[] t = t
write_chars (String.◌∷◌ c s) t = write_char c (write_chars s t)

unfoldable pub write_text : String → String → String
unfolding write_chars
write_text s t = String.◌∷◌ "\"" (write_chars s (String.◌∷◌ "\"" t))

-- The text as it is.
unfoldable pub write_raw : String → String → String
write_raw String.[] t = t
write_raw (String.◌∷◌ c s) t = String.◌∷◌ c (write_raw s t)

-- Each round drops a digit, so `suc n` rounds are enough for `n`.
unfoldable pub write_digits : ℕ → ℕ → String → String
unfolding digit_char
write_digits zero n t = t
write_digits (suc f) n t =
    let longer = String.◌∷◌ (digit_char (n % 10)) t in
    let rest = write_digits f (n / 10) longer in if ltb n 10 then longer else rest

unfoldable pub write_int : ℤ → String → String
unfolding write_digits
write_int (pos n) t = write_digits (suc n) n t
write_int (negsuc n) t = String.◌∷◌ "-" (write_digits (suc (suc n)) (suc n) t)

-- The repr of a float, but for the three that are no numbers of JSON.
unfoldable pub float_text : String → String
float_text s =
    if s == "nan"
    then "NaN"
    else if s == "inf"
    then "Infinity"
    else if s == "-inf"
    then "-Infinity"
    else s

unfoldable mutual
  unfolding write_text write_raw write_int float_text

  pub write_value : Value → String → String
  write_value null t = write_raw "null" t
  write_value (bool true) t = write_raw "true" t
  write_value (bool false) t = write_raw "false" t
  write_value (int n) t = write_int n t
  write_value (float s) t = write_raw (float_text s) t
  write_value (str s) t = write_text s t
  write_value (list nil) t = String.◌∷◌ "[" (String.◌∷◌ "]" t)
  write_value (list (cons x xs)) t = String.◌∷◌ "[" (write_value x (write_items xs t))
  write_value (dict fs) t = String.◌∷◌ "{" (write_dict fs t)

  -- The items behind the first.
  pub write_items : Items → String → String
  write_items nil t = String.◌∷◌ "]" t
  write_items (cons x xs) t = String.◌∷◌ "," (write_value x (write_items xs t))

  pub write_dict : Fields → String → String
  write_dict end t = String.◌∷◌ "}" t
  write_dict (field k v rest) t =
      write_text k (String.◌∷◌ ":" (write_value v (write_fields rest t)))

  -- The fields behind the first.
  pub write_fields : Fields → String → String
  write_fields end t = String.◌∷◌ "}" t
  write_fields (field k v rest) t =
      String.◌∷◌ "," (write_text k (String.◌∷◌ ":" (write_value v (write_fields rest t))))

unfoldable pub canonical_json : Fields → String
unfolding sort_fields write_value
canonical_json value = write_value (dict (sort_fields value)) ""
