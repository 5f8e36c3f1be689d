-- ===== src/Decimal/Scan.antt =====
-- The pieces of a decimal's text, over code points.
use mathlib.Core.List.{reverse}
use marcel_arch.Prelude.{
  ℕ, ◌+◌, ◌-◌, ◌*◌, Bool, true, false, Option, none, some, List, [], ◌∷◌, ◌&&◌, leb, nat_eq,
  is_space, not, keep, if◌then◌else◌,
}

abbrev pub is_digit : ℕ → Bool
is_digit c = leb b'0' c && leb c b'9'

drop_spaces : List ℕ → List ℕ
unfolding is_space
drop_spaces [] = []
drop_spaces (c ∷ cs) = let rest = drop_spaces cs in if is_space c then rest else c ∷ cs

-- `value.strip()`
unfoldable pub strip : List ℕ → List ℕ
unfolding drop_spaces
strip cs = reverse (drop_spaces (reverse (drop_spaces cs)))

-- `value.replace("_", "")`
abbrev pub without_underscores : List ℕ → List ℕ
without_underscores = keep (λ c. not (nat_eq c b'_'))

-- The digits at the front, and the rest.
abbrev pub span_digits : List ℕ → List ℕ × List ℕ
span_digits [] = ([], [])
span_digits (c ∷ cs) =
    let (ds, rest) = span_digits cs in if is_digit c then (c ∷ ds, rest) else ([], c ∷ cs)

number_from : ℕ → List ℕ → ℕ
number_from n [] = n
number_from n (d ∷ ds) = number_from (n * 10 + (d - b'0')) ds

unfoldable pub number : List ℕ → ℕ
unfolding number_from
number ds = number_from 0 ds

-- A sign, if there is one: true for a minus.
abbrev pub signed : List ℕ → Bool × List ℕ
signed [] = (false, [])
signed (c ∷ cs) =
    if nat_eq c b'-' then (true, cs) else if nat_eq c b'+' then (false, cs) else (false, c ∷ cs)

abbrev pub strip_prefix : List ℕ → List ℕ → Option (List ℕ)
strip_prefix [] cs = some cs
strip_prefix (p ∷ ps) [] = none
strip_prefix (p ∷ ps) (c ∷ cs) = if nat_eq p c then strip_prefix ps cs else none

abbrev pub is_word : List ℕ → List ℕ → Bool
is_word ps cs = elim (strip_prefix ps cs) [ some [] ↦ true | _ ↦ false ]
