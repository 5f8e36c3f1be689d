-- ===== src/Json/Read.antt =====
-- A reader of the values that `write_value` writes. It takes a unit of fuel at each value, item, field
-- and character.
use Prim.Native.Char.{code}
use Prim.Native.String.{count}
use marcel_arch.Prelude.{
  ℕ, zero, suc, ◌+◌, ◌<◌, String, ◌≡◌, refl, Bool, true, false, ◌&&◌, not, inl, inr, ◌==◌, nat_eq,
  arith, both, Bool-cases, if◌then◌else◌, eq_iff,
}
use marcel_arch.Prelude.Int.{ℤ}
use marcel_arch.Value.{
  Value, null, bool, int, float, str, list, dict, Items, nil, cons, Fields, end, field,
}
use marcel_arch.Json.{write_text, write_raw, write_int, float_text, write_value}
use marcel_arch.Json.Texts.{drop_char, read_chars, read_chars-write_chars}
use marcel_arch.Json.Digits.{is_int_char, is_number_char, all_chars, first_char}
use marcel_arch.Json.Numbers.{
  read_number, read_number-write_int, read_number-write_raw, first_char-write_raw,
  first_char-write_int,
}

abbrev pub starts : ℕ → String → Bool
starts n = first_char (λ c. nat_eq (code c) n)

abbrev drop_chars : ℕ → String → String
drop_chars zero s = s
drop_chars (suc n) s = drop_chars n (drop_char s)

abbrev str_of : String × String → Value × String
str_of (s, t) = (str s, t)

abbrev list_of : Items × String → Value × String
list_of (xs, t) = (list xs, t)

abbrev dict_of : Fields × String → Value × String
dict_of (fs, t) = (dict fs, t)

unfoldable mutual
  unfolding read_number read_chars

  pub read_value : ℕ → String → Value × String
  read_value zero s = (null, s)
  read_value (suc f) s =
      let text = str_of (read_chars f (drop_char s)) in
      let items = list_of (read_list f (drop_char s)) in
      let fields = dict_of (read_dict f (drop_char s)) in
      if first_char is_number_char s
      then read_number s
      else if starts b'n' s
      then (null, drop_chars 4 s)
      else if starts b't' s
      then (bool true, drop_chars 4 s)
      else if starts b'f' s
      then (bool false, drop_chars 5 s)
      else if starts b'"' s
      then text
      else if starts b'[' s
      then items
      else fields

  pub read_list : ℕ → String → Items × String
  read_list zero s = (nil, s)
  read_list (suc f) s =
      let rest = read_item f s in if starts b']' s then (nil, drop_char s) else rest

  pub read_item : ℕ → String → Items × String
  read_item zero s = (nil, s)
  read_item (suc f) s =
      let (x, r) = read_value f s in let (xs, rest) = read_items f r in (cons x xs, rest)

  pub read_items : ℕ → String → Items × String
  read_items zero s = (nil, s)
  read_items (suc f) s =
      let rest = read_item f (drop_char s) in if starts b']' s then (nil, drop_char s) else rest

  pub read_dict : ℕ → String → Fields × String
  read_dict zero s = (end, s)
  read_dict (suc f) s =
      let rest = read_pair f s in if starts b'}' s then (end, drop_char s) else rest

  pub read_pair : ℕ → String → Fields × String
  read_pair zero s = (end, s)
  read_pair (suc f) s =
      let (k, colon) = read_chars f (drop_char s) in
      let (v, r) = read_value f (drop_char colon) in
      let (fs, rest) = read_fields f r in (field k v fs, rest)

  pub read_fields : ℕ → String → Fields × String
  read_fields zero s = (end, s)
  read_fields (suc f) s =
      let rest = read_pair f (drop_char s) in if starts b'}' s then (end, drop_char s) else rest

-- No float in it is infinite or not a number: `repr` then has a point or an exponent, and number
-- characters only.
unfoldable mutual
  pub is_plain : Value → Bool
  is_plain (float s) = all_chars is_number_char s && not (all_chars is_int_char s)
  is_plain (list xs) = items_plain xs
  is_plain (dict fs) = fields_plain fs
  is_plain _ = true

  pub items_plain : Items → Bool
  items_plain nil = true
  items_plain (cons x xs) = is_plain x && items_plain xs

  pub fields_plain : Fields → Bool
  fields_plain end = true
  fields_plain (field k v rest) = is_plain v && fields_plain rest

-- Fuel that is enough to read a value back.
unfoldable mutual
  pub value_fuel : Value → ℕ
  value_fuel (str s) = count s + 2
  value_fuel (list xs) = items_fuel xs + 2
  value_fuel (dict fs) = fields_fuel fs + 2
  value_fuel _ = 1

  pub items_fuel : Items → ℕ
  items_fuel nil = 1
  items_fuel (cons x xs) = value_fuel x + items_fuel xs + 2

  pub fields_fuel : Fields → ℕ
  fields_fuel end = 1
  fields_fuel (field k v rest) = count k + value_fuel v + fields_fuel rest + 3

not_word :
    (s w : String)
    → all_chars is_number_char s ≡ true
    → all_chars is_number_char w ≡ false
    → (s == w) ≡ false
not_word s w h k = elim (Bool-cases (s == w)) [
  | inl e ↦ absurd (cc (h, k, (eq_iff s w).0 e))
  | inr e ↦ e
]

pub float_text-plain : (s : String) → all_chars is_number_char s ≡ true → float_text s ≡ s
unfolding float_text
float_text-plain s h =
    simp (not_word s "nan" h refl, not_word s "inf" h refl, not_word s "-inf" h refl) refl

number_first : (s : String) → first_char is_number_char s ≡ true → starts b']' s ≡ false
number_first String.[] h = refl
number_first (String.◌∷◌ c s) h = ground arith

not-eq_true : (b : Bool) → not b ≡ true → b ≡ false
not-eq_true true h = absurd (cc h)
not-eq_true false h = refl

pub plain_float :
    (s : String)
    → is_plain (float s) ≡ true
    → (all_chars is_number_char s ≡ true) × (all_chars is_int_char s ≡ false)
unfolding is_plain
plain_float s h =
    let parts = both (all_chars is_number_char s) _ h in (parts.0, not-eq_true _ parts.1)

-- No value starts like the end of a list.
pub starts-write_value :
    (v : Value) (t : String) → is_plain v ≡ true → starts b']' (write_value v t) ≡ false
unfolding write_value is_plain write_raw write_text
starts-write_value null t h = refl
starts-write_value (bool true) t h = refl
starts-write_value (bool false) t h = refl
starts-write_value (int n) t h = number_first (write_int n t) (first_char-write_int n t)
starts-write_value (float s) t h =
    let (chars, point) = plain_float s h in
    simp (float_text-plain s chars)
      (number_first (write_raw s t) (first_char-write_raw s t chars point))
starts-write_value (str s) t h = refl
starts-write_value (list nil) t h = refl
starts-write_value (list (cons x xs)) t h = refl
starts-write_value (dict fs) t h = refl

pub read_int_lem :
    (z : ℤ) (t : String) (f : ℕ)
    → first_char is_number_char t ≡ false
    → read_value (suc f) (write_int z t) ≡ (int z, t)
unfolding read_value
read_int_lem z t f e = simp (first_char-write_int z t, read_number-write_int z t e) refl

pub read_float_lem :
    (s t : String) (f : ℕ)
    → is_plain (float s) ≡ true
    → first_char is_number_char t ≡ false
    → read_value (suc f) (write_value (float s) t) ≡ (float s, t)
unfolding read_value write_value
read_float_lem s t f h e =
    let (chars, point) = plain_float s h in
    simp
      (
        float_text-plain s chars,
        first_char-write_raw s t chars point,
        read_number-write_raw s t chars point e,
      )
      refl

pub read_str_lem :
    (s t : String) (f : ℕ) → count s < f → read_value (suc f) (write_value (str s) t) ≡ (str s, t)
unfolding read_value write_value write_text
read_str_lem s t f h = simp (read_chars-write_chars s t f h) refl
