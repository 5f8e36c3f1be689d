-- ===== src/Decimal/Tests.antt =====
use marcel_arch.Prelude.{◌≡◌, refl, true, false, none, some, ◌*◌, ◌^◌}
use marcel_arch.Prelude.Int.{pos, negsuc, ◌-ℤ◌}
use marcel_arch.Decimal.{finite, infinity, nan, read_decimal, amount_lt, amount_le}

reads :
    (read_decimal " 5_000 " ≡ some (finite false 5000 (pos 0)))
    × (read_decimal "-0.25E+3" ≡ some (finite true 25 (pos 1)))
    × (read_decimal "1e-7" ≡ some (finite false 1 (negsuc 6)))
    × (read_decimal ".5" ≡ some (finite false 5 (negsuc 0)))
    × (read_decimal "Infinity" ≡ some (infinity false))
    × (read_decimal "sNaN12" ≡ some nan)
    × (read_decimal "True" ≡ none)
    × (read_decimal "." ≡ none)
    × (read_decimal "1e" ≡ none)
unfolding read_decimal ◌-ℤ◌
reads = (refl, refl, refl, refl, refl, refl, refl, refl, refl)

compares :
    (amount_lt (pos (5 * 10 ^ 40)) (finite false 5000 (negsuc 2)) ≡ false)
    × (amount_le (pos (5 * 10 ^ 40)) (finite false 5000 (negsuc 2)) ≡ true)
    × (amount_lt (pos (5 * 10 ^ 40)) (finite false 1 (pos 1)) ≡ true)
    × (amount_lt (pos 0) (finite false 1 (negsuc 49)) ≡ true)
unfolding amount_lt amount_le
compares = (refl, refl, refl, refl)
