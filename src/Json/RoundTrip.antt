-- ===== src/Json/RoundTrip.antt =====
-- `canonical_json` against the reader.
use Prim.Native.String.{count}
use marcel_arch.Prelude.{ℕ, zero, suc, ◌+◌, ◌<◌, String, ◌≡◌, refl, true, false, arith, both}
use marcel_arch.Value.{
  Value, null, bool, int, float, str, list, dict, Items, nil, cons, Fields, end, field,
}
use marcel_arch.Json.{write_text, write_raw, write_value, write_items, write_fields}
use marcel_arch.Json.Texts.{read_chars-write_chars}
use marcel_arch.Json.Digits.{is_number_char, first_char}
use marcel_arch.Json.Read.{
  read_value, read_item, read_items, read_pair, read_fields, is_plain, items_plain, fields_plain,
  value_fuel, items_fuel, fields_fuel, starts-write_value, read_int_lem, read_float_lem,
  read_str_lem,
}

items_tail : (xs : Items) (t : String) → first_char is_number_char (write_items xs t) ≡ false
unfolding write_items
items_tail nil t = refl
items_tail (cons x xs) t = refl

fields_tail : (fs : Fields) (t : String) → first_char is_number_char (write_fields fs t) ≡ false
unfolding write_fields
fields_tail end t = refl
fields_tail (field k v rest) t = refl

mutual
  unfolding read_value write_value is_plain value_fuel write_raw write_text

  pub read_value-write_value :
      (v : Value) (t : String) (f : ℕ)
      → is_plain v ≡ true
      → first_char is_number_char t ≡ false
      → value_fuel v < f
      → read_value f (write_value v t) ≡ (v, t)
  read_value-write_value v t zero h e k = absurd (omega (arith, k))
  read_value-write_value null t (suc f) h e k = refl
  read_value-write_value (bool true) t (suc f) h e k = refl
  read_value-write_value (bool false) t (suc f) h e k = refl
  read_value-write_value (int n) t (suc f) h e k = read_int_lem n t f e
  read_value-write_value (float s) t (suc f) h e k = read_float_lem s t f h e
  read_value-write_value (str s) t (suc f) h e k = read_str_lem s t f (omega (arith, k))
  read_value-write_value (list nil) t (suc zero) h e k = absurd (omega (arith, k))
  read_value-write_value (list nil) t (suc (suc f)) h e k = refl
  read_value-write_value (list (cons x xs)) t (suc zero) h e k = absurd (omega (arith, k))
  read_value-write_value (list (cons x xs)) t (suc (suc f)) h e k =
      let (plain, plains) = both (is_plain x) _ h in
      let item = read_item-write_items x xs t f plain plains (omega (arith, k)) in
      simp (starts-write_value x (write_items xs t) plain, item) refl
  read_value-write_value (dict end) t (suc zero) h e k = absurd (omega (arith, k))
  read_value-write_value (dict end) t (suc (suc f)) h e k = refl
  read_value-write_value (dict (field key v rest)) t (suc zero) h e k = absurd (omega (arith, k))
  read_value-write_value (dict (field key v rest)) t (suc (suc f)) h e k =
      let (plain, plains) = both (is_plain v) _ h in
      let pair = read_pair-write_fields key v rest t f plain plains (omega (arith, k)) in
      simp pair refl

  read_item-write_items :
      (x : Value) (xs : Items) (t : String) (f : ℕ)
      → is_plain x ≡ true
      → items_plain xs ≡ true
      → value_fuel x + items_fuel xs + 1 < f
      → read_item f (write_value x (write_items xs t)) ≡ (cons x xs, t)
  read_item-write_items x xs t zero h hs k = absurd (omega (arith, k))
  read_item-write_items x xs t (suc f) h hs k =
      simp
        (
          read_value-write_value x (write_items xs t) f h (items_tail xs t) (omega (arith, k)),
          read_items-write_items xs t f hs (omega (arith, k)),
        )
        refl

  read_items-write_items :
      (xs : Items) (t : String) (f : ℕ)
      → items_plain xs ≡ true
      → items_fuel xs < f
      → read_items f (write_items xs t) ≡ (xs, t)
  read_items-write_items xs t zero h k = absurd (omega (arith, k))
  read_items-write_items nil t (suc f) h k = refl
  read_items-write_items (cons x xs) t (suc f) h k =
      let (plain, plains) = both (is_plain x) _ h in
      read_item-write_items x xs t f plain plains (omega (arith, k))

  read_pair-write_fields :
      (key : String) (v : Value) (rest : Fields) (t : String) (f : ℕ)
      → is_plain v ≡ true
      → fields_plain rest ≡ true
      → count key + value_fuel v + fields_fuel rest + 1 < f
      → read_pair f (write_text key (String.◌∷◌ ":" (write_value v (write_fields rest t))))
        ≡ (field key v rest, t)
  read_pair-write_fields key v rest t zero h hs k = absurd (omega (arith, k))
  read_pair-write_fields key v rest t (suc f) h hs k =
      simp
        (
          read_chars-write_chars key (String.◌∷◌ ":" (write_value v (write_fields rest t))) f
              (omega (arith, k)),
          read_value-write_value v (write_fields rest t) f h (fields_tail rest t)
              (omega (arith, k)),
          read_fields-write_fields rest t f hs (omega (arith, k)),
        )
        refl

  read_fields-write_fields :
      (fs : Fields) (t : String) (f : ℕ)
      → fields_plain fs ≡ true
      → fields_fuel fs < f
      → read_fields f (write_fields fs t) ≡ (fs, t)
  read_fields-write_fields fs t zero h k = absurd (omega (arith, k))
  read_fields-write_fields end t (suc f) h k = refl
  read_fields-write_fields (field key v rest) t (suc f) h k =
      let (plain, plains) = both (is_plain v) _ h in
      read_pair-write_fields key v rest t f plain plains (omega (arith, k))
