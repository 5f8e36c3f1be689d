-- ===== src/Decimal.antt =====
-- `decimal.Decimal` as marcel/core/engine.py uses it on the conditions of a rule: read from a text,
-- tested for its sign, and compared with an amount. The digits that are read are those of ASCII.
mod Scan
mod Tests
use Scan.{is_digit, strip, without_underscores, span_digits, number, signed, strip_prefix, is_word}
use marcel_arch.Prelude.{
  ℕ, suc, ◌*◌, ◌^◌, String, Bool, true, false, Option, none, some, List, [], ◌∷◌, ◌++◌, ◌||◌, map,
  nat_eq, codes, lower, length, all, if◌then◌else◌,
}
use marcel_arch.Prelude.Int.{ℤ, pos, negsuc, ◌+ℤ◌, ◌-ℤ◌, ltb_ℤ, leb_ℤ, of_sign, scale}

-- `finite s c e` is c * 10 ^ e, negative if `s`.
pub data Decimal : Type 0 where
  finite : Bool → ℕ → ℤ → Decimal
  infinity : Bool → Decimal
  nan : Decimal

all_digits : Bool → List ℕ × List ℕ → Option ℤ
all_digits s ([], rest) = none
all_digits s (d ∷ ds, []) = some (of_sign s (number (d ∷ ds)))
all_digits s (d ∷ ds, c ∷ rest) = none

-- The exponent part: nothing, or `E`, a sign and digits up to the end.
exponent : List ℕ → Option ℤ
unfolding all_digits
exponent [] = some (pos 0)
exponent (c ∷ cs) =
    let (s, rest) = signed cs in if nat_eq c b'e' then all_digits s (span_digits rest) else none

fraction : List ℕ → List ℕ × List ℕ
fraction [] = ([], [])
fraction (c ∷ cs) = if nat_eq c b'.' then span_digits cs else ([], c ∷ cs)

-- The digits before the point, those after it, and the exponent.
assemble : Bool → List ℕ → List ℕ → Option ℤ → Option Decimal
assemble s whole part none = none
assemble s [] [] (some e) = none
assemble s whole part (some e) = some (finite s (number (whole ++ part)) (e -ℤ pos (length part)))

read_finite : Bool → List ℕ → Option Decimal
unfolding assemble fraction exponent
read_finite s cs =
    let (whole, rest) = span_digits cs in
    let (part, end) = fraction rest in assemble s whole part (exponent end)

is_nan : List ℕ → Bool
is_nan cs = elim (strip_prefix (codes "nan") cs) [
  | some rest ↦ all is_digit rest
  | none ↦ elim (strip_prefix (codes "snan") cs) [ some rest ↦ all is_digit rest | none ↦ false ]
]

read_unsigned : Bool × List ℕ → Option Decimal
unfolding read_finite is_nan
read_unsigned (s, cs) =
    if is_word (codes "inf") cs || is_word (codes "infinity") cs
    then some (infinity s)
    else if is_nan cs
    then some nan
    else read_finite s cs

-- `Decimal(text)`, with `none` for what raises.
unfoldable pub read_decimal : String → Option Decimal
unfolding read_unsigned strip number
read_decimal text = read_unsigned (signed (map lower (without_underscores (strip (codes text)))))

-- An amount in units of 10^-40 against c * 10 ^ e, by a test on integers.
compare_at : (ℤ → ℤ → Bool) → ℤ → Bool → ℕ → ℤ → Bool
compare_at test amount s c (pos k) = test amount (of_sign s (c * 10 ^ k))
compare_at test amount s c (negsuc k) = test (scale amount (10 ^ suc k)) (of_sign s c)

-- `amount < decimal` and `amount <= decimal`, for a decimal that is not NaN.
unfoldable pub amount_lt : ℤ → Decimal → Bool
unfolding compare_at scale ◌+ℤ◌
amount_lt amount (finite s c e) = compare_at ltb_ℤ amount s c (e +ℤ pos 40)
amount_lt amount (infinity s) = if s then false else true
amount_lt amount nan = false

unfoldable pub amount_le : ℤ → Decimal → Bool
unfolding compare_at scale ◌+ℤ◌
amount_le amount (finite s c e) = compare_at leb_ℤ amount s c (e +ℤ pos 40)
amount_le amount (infinity s) = if s then false else true
amount_le amount nan = false
