-- ===== src/Redis/Memory.antt =====
-- A server in memory, with exact numbers and replies without the cents: it meets all that `Redis` asks
-- for. Its times to live never run out.
use marcel_arch.Prelude.{
  ℕ, suc, ◌-◌, ◌*◌, ◌/◌, ◌^◌, ◌<◌, true, String, ◌≡◌, refl, inl, inr, Option, none, some, List, [],
  ◌∷◌, ◌==◌, ◌&&◌, not, is_some, arith, Option-cases, if◌then◌else◌,
}
use marcel_arch.Prelude.Int.{ℤ, pos, negsuc, ◌-ℤ◌, ltb_ℤ, of_sign}
use marcel_arch.Redis.{Redis}

abbrev pub Keys : Type 0
Keys = List (String × ℤ)

abbrev pub lookup : Keys → String → Option ℤ
lookup [] k = none
lookup ((j, v) ∷ s) k = if j == k then some v else lookup s k

abbrev pub put : Keys → String → ℤ → ℕ → Keys
put s k v ttl = (k, v) ∷ s

abbrev pub put_nx : Keys → String → ℤ → ℕ → Keys
put_nx s k v ttl = if is_some (lookup s k) then s else (k, v) ∷ s

pub lookup-put_nx :
    (s : Keys) (k j : String) (v : ℤ) (ttl : ℕ)
    → 0 < ttl
    → lookup (put_nx s k v ttl) j
      ≡ (if k == j && not (is_some (lookup s k)) then some v else lookup s j)
lookup-put_nx s k j v ttl h = elim (Option-cases (lookup s k)) [
  | inl e ↦ rw e (ground arith)
  | inr (a, e) ↦ rw e (ground arith)
]

-- A number is in units of 10^-40.
abbrev units_of : ℤ → ℤ
units_of (pos n) = pos (n * 10 ^ 40)
units_of (negsuc n) = negsuc (suc n * 10 ^ 40 - 1)

-- The integer part.
abbrev whole : ℤ → ℤ
whole (pos n) = pos (n / 10 ^ 40)
whole (negsuc n) = of_sign true (suc n / 10 ^ 40)

abbrev pub memory : Redis
memory = record {
  State = Keys;
  get = lookup;
  set = put;
  set_nx = put_nx;
  get-set = λ s k j v ttl h. refl;
  get-set_nx = lookup-put_nx;
  Number = ℤ;
  literal = units_of;
  tonumber = λ n. n;
  tostring = λ n. n;
  sub = ◌-ℤ◌;
  lt = ltb_ℤ;
  to_reply = whole;
  to_reply-one = refl;
  to_reply-minus_one = refl;
  IsExact = λ n. Unit;
  lt-IsExact = λ a b h k. refl;
  sub-IsExact = λ a b h k le. (refl, tt);
}
