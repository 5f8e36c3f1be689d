-- ===== src/Prelude/Text.antt =====
-- What the source does with texts: f-strings, `str` of a count, and `strip` as a test.
use Prim.Native.Nat.{ℕ, zero, suc, ◌+◌, ◌/◌, ◌%◌}
use Prim.Native.Char.{code}
use Prim.Native.String
use Prim.Native.String.{String}
use mathlib.Core.Bool.{Bool, true, false, ◌&&◌, ◌||◌}
use mathlib.Core.Path.{◌≡◌, refl}
use mathlib.Core.List.{List, [], ◌∷◌, ◌++◌}
use native.Mathlib.Omega.{arith}
use marcel_arch.Prelude.Tests.{ltb, leb, nat_eq, if◌then◌else◌}

-- An f-string, as the list of its parts.
abbrev pub join : List String → String
join [] = ""
join (s ∷ ss) = String.◌++◌ s (join ss)

digit : ℕ → String
digit n =
    if nat_eq n 0
    then "0"
    else if nat_eq n 1
    then "1"
    else if nat_eq n 2
    then "2"
    else if nat_eq n 3
    then "3"
    else if nat_eq n 4
    then "4"
    else if nat_eq n 5
    then "5"
    else if nat_eq n 6
    then "6"
    else if nat_eq n 7
    then "7"
    else if nat_eq n 8
    then "8"
    else "9"

-- Each round drops a digit, so `suc n` rounds are enough for `n`.
str_from : ℕ → ℕ → String → String
str_from zero n acc = acc
str_from (suc f) n acc =
    let longer = String.◌++◌ (digit (n % 10)) acc in
    let rest = str_from f (n / 10) longer in if ltb n 10 then longer else rest

-- `str(n)` of an int that is not negative.
unfoldable pub str_nat : ℕ → String
unfolding str_from digit
str_nat n = str_from (suc n) n ""

-- `str.isspace` of one character.
unfoldable pub is_space : ℕ → Bool
is_space c =
    (leb 9 c && leb c 13)
    || (leb 28 c && leb c 32)
    || nat_eq c 0x85
    || nat_eq c 0xa0
    || nat_eq c 0x1680
    || (leb 0x2000 c && leb c 0x200a)
    || nat_eq c 0x2028
    || nat_eq c 0x2029
    || nat_eq c 0x202f
    || nat_eq c 0x205f
    || nat_eq c 0x3000

-- `not s.strip()`: the text has white space only.
unfoldable pub is_blank : String → Bool
unfolding is_space
is_blank String.[] = true
is_blank (String.◌∷◌ c s) = is_space (code c) && is_blank s

-- The code points of a text. `String` has its own `[]` and `∷`.
abbrev pub codes : String → List ℕ
codes String.[] = []
codes (String.◌∷◌ c s) = code c ∷ codes s

abbrev pub is_prefix : List ℕ → List ℕ → Bool
is_prefix [] cs = true
is_prefix (p ∷ ps) [] = false
is_prefix (p ∷ ps) (c ∷ cs) = nat_eq p c && is_prefix ps cs

pub is_prefix-append : (ps qs cs : List ℕ) → is_prefix (ps ++ qs) cs ≡ true → is_prefix ps cs ≡ true
is_prefix-append [] qs cs h = refl
is_prefix-append (p ∷ ps) qs [] h = ground arith
is_prefix-append (p ∷ ps) qs (c ∷ cs) h = ground (arith, is_prefix-append ps qs cs)

pub is_prefix-clash :
    (p q : ℕ) (ps qs cs : List ℕ)
    → nat_eq p q ≡ false
    → is_prefix (p ∷ ps) cs ≡ true
    → is_prefix (q ∷ qs) cs ≡ false
is_prefix-clash p q ps qs [] d h = refl
is_prefix-clash p q ps qs (c ∷ cs) d h = ground arith

-- `text.startswith(prefix)`
abbrev pub starts_with : String → String → Bool
starts_with prefix text = is_prefix (codes prefix) (codes text)

abbrev pub same_codes : List ℕ → List ℕ → Bool
same_codes [] [] = true
same_codes (c ∷ cs) (d ∷ ds) = nat_eq c d && same_codes cs ds
same_codes _ _ = false

-- `lower` of an ASCII character.
abbrev pub lower : ℕ → ℕ
lower c = if leb b'A' c && leb c b'Z' then c + 32 else c
