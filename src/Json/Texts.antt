-- ===== src/Json/Texts.antt =====
-- A reader of the texts that `write_text` writes.
use Prim.Native.Char.{Char, code}
use Prim.Native.String.{count}
use Prim.Native.String.count
use text.Mathlib.TextEquality.{Char-path}
use marcel_arch.Prelude.{
  ℕ, zero, suc, ◌+◌, ◌-◌, ◌*◌, ◌/◌, ◌%◌, ◌<◌, String, ◌≡◌, refl, ap, sym, Bool, true, false, inl,
  inr, ltb, nat_eq, nat_eq_iff, arith, Bool-cases, if◌then◌else◌,
}
use marcel_arch.Json.Chars.{ascii, code-ascii, ascii-code}
use marcel_arch.Json.{digit_char, write_char, write_chars}

unfoldable pub digit_value : Char → ℕ
digit_value c = if ltb (code c) 58 then code c - 48 else code c - 87

pub digit_value-digit_char : (n : ℕ) → n < 16 → digit_value (digit_char n) ≡ n
unfolding digit_value digit_char
digit_value-digit_char n h = elim (Bool-cases (ltb n 10)) [
  | inl e ↦ simp (e, code-ascii (48 + n) (ground arith)) (ground (arith, e))
  | inr e ↦ simp (e, code-ascii (87 + n) (ground arith)) (ground (arith, e))
]

unfoldable pub read_hex : String → Char × String
read_hex (String.◌∷◌ z (String.◌∷◌ y (String.◌∷◌ a (String.◌∷◌ b r)))) =
    (ascii (16 * digit_value a + digit_value b), r)
read_hex _ = ("?", "")

-- What stands behind a backslash.
unfoldable pub read_escape : String → Char × String
unfolding read_hex
read_escape String.[] = ("?", "")
read_escape (String.◌∷◌ c r) =
    if nat_eq (code c) b'u'
    then read_hex r
    else if nat_eq (code c) b'n'
    then ("\n", r)
    else if nat_eq (code c) b'r'
    then ("\r", r)
    else if nat_eq (code c) b't'
    then ("\t", r)
    else if nat_eq (code c) b'b'
    then (ascii 8, r)
    else if nat_eq (code c) b'f'
    then (ascii 12, r)
    else (c, r)

unfoldable pub read_char : String → Char × String
unfolding read_escape
read_char String.[] = ("?", "")
read_char (String.◌∷◌ c r) = if nat_eq (code c) 92 then read_escape r else (c, r)

same_char :
    (c d : Char) (t : String)
    → nat_eq (code c) (code d) ≡ true
    → ◌≡◌ {A = Char × String} (d, t) (c, t)
same_char c d t h =
    ap (λ (x : Char). (x, t)) (Char-path d c (sym ((nat_eq_iff (code c) (code d)).0 h)))

hex_digits : (n : ℕ) → 16 * (n / 16) + n % 16 ≡ n
hex_digits n = omega arith

read_char-write_char : (c : Char) (t : String) → read_char (write_char c t) ≡ (c, t)
unfolding read_char write_char
read_char-write_char c t = elim (Bool-cases (nat_eq (code c) 34)) [
  | inl e ↦ simp e (same_char c "\"" t e)
  | inr q34 ↦ elim (Bool-cases (nat_eq (code c) 92)) [
    | inl e ↦ simp (q34, e) (same_char c "\\" t e)
    | inr q92 ↦ elim (Bool-cases (nat_eq (code c) 10)) [
      | inl e ↦ simp (q34, q92, e) (same_char c "\n" t e)
      | inr q10 ↦ elim (Bool-cases (nat_eq (code c) 13)) [
        | inl e ↦ simp (q34, q92, q10, e) (same_char c "\r" t e)
        | inr q13 ↦ elim (Bool-cases (nat_eq (code c) 9)) [
          | inl e ↦ simp (q34, q92, q10, q13, e) (same_char c "\t" t e)
          | inr q9 ↦ elim (Bool-cases (nat_eq (code c) 8)) [
            | inl e ↦ simp (q34, q92, q10, q13, q9, e) (same_char c (ascii 8) t e)
            | inr q8 ↦ elim (Bool-cases (nat_eq (code c) 12)) [
              | inl e ↦ simp (q34, q92, q10, q13, q9, q8, e) (same_char c (ascii 12) t e)
              | inr q12 ↦ elim (Bool-cases (ltb (code c) 32)) [
                | inl e ↦
                    simp
                      (
                        q34,
                        q92,
                        q10,
                        q13,
                        q9,
                        q8,
                        q12,
                        e,
                        digit_value-digit_char (code c / 16) (ground (arith, e)),
                        digit_value-digit_char (code c % 16) (omega arith),
                        hex_digits (code c),
                        ascii-code c (ground (arith, e)),
                      )
                      refl
                | inr e ↦ simp (q34, q92, q10, q13, q9, q8, q12, e) refl
              ]
            ]
          ]
        ]
      ]
    ]
  ]
]

abbrev pub drop_char : String → String
drop_char String.[] = ""
drop_char (String.◌∷◌ c r) = r

abbrev pub starts_quote : String → Bool
starts_quote String.[] = false
starts_quote (String.◌∷◌ c r) = nat_eq (code c) 34

starts_quote-write_char : (c : Char) (t : String) → starts_quote (write_char c t) ≡ false
unfolding write_char
starts_quote-write_char c t = ground arith

-- The characters up to a quote; each one takes a unit of fuel.
unfoldable pub read_chars : ℕ → String → String × String
unfolding read_char
read_chars zero s = ("", s)
read_chars (suc f) s =
    let (c, r) = read_char s in
    let (cs, rest) = read_chars f r in
    if starts_quote s then ("", drop_char s) else (String.◌∷◌ c cs, rest)

pub count-cons : (c : Char) (s : String) → count (String.◌∷◌ c s) ≡ suc (count s)
count-cons c s = count.cons c s

pub read_chars-write_chars :
    (s t : String) (f : ℕ) → count s < f → read_chars f (write_chars s (String.◌∷◌ "\"" t)) ≡ (s, t)
unfolding read_chars write_chars
read_chars-write_chars s t zero h = absurd (omega arith)
read_chars-write_chars String.[] t (suc f) h = refl
read_chars-write_chars (String.◌∷◌ c s) t (suc f) h =
    let rest = write_chars s (String.◌∷◌ "\"" t) in
    simp
      (
        read_char-write_char c rest,
        starts_quote-write_char c rest,
        read_chars-write_chars s t f (omega (arith, h, count-cons c s)),
      )
      refl
