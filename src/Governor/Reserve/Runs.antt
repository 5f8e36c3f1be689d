-- ===== src/Governor/Reserve/Runs.antt =====
-- Runs of reservations on one budget, with amounts that the server's Lua computes exactly.
use marcel_arch.Prelude.{
  String, ◌≡◌, inl, inr, Bool, true, false, Option, List, [], ◌∷◌, sym, ◌∙◌, arith, eq_refl,
  Bool-cases, All,
}
use marcel_arch.Prelude.Int.{ℤ, pos, ◌+ℤ◌, ◌≤ℤ◌, ltb_ℤ, leb_ℤ, int_laws, ltb_ℤ-false, parts_of_eq}
use marcel_arch.Prelude.Result.{Result, ok, err}
use marcel_arch.Models.{Budget, budgets_of}
use marcel_arch.Redis.{Redis}
use marcel_arch.World.{World}
use marcel_arch.Governor.{reservation_ttl_seconds, budget_key, database_remaining, reserve}
use marcel_arch.Governor.Reserve.{
  available, too_much, left_over, take, reserve_granted, reserve_refused, reserve_short,
  reserve_bad,
}

-- What a reply grants of the amount that was asked for.
abbrev pub granted : ℤ → Result (Bool × Option ℤ) → ℤ
granted amount (ok (true, left)) = amount
granted amount (ok (false, left)) = pos 0
granted amount (err e) = pos 0

module _ (redis : Redis) (agent_id currency : String) where
  -- Reservations one after the other: the sum of what is granted, and the last state.
  pub reserve_all : List ℤ → World redis.State → ℤ × World redis.State
  reserve_all [] w = (pos 0, w)
  reserve_all (amount ∷ amounts) w =
      let (r, w') = reserve redis agent_id currency amount w in
      let (total, w'') = reserve_all amounts w' in (granted amount r +ℤ total, w'')

  module _ (b : Budget) (active : b.active ≡ true) where
    -- The row is found, and what is available is exact and not negative.
    pub record IsReady (w : World redis.State) : Type 0 where
      pub found : budgets_of agent_id currency w.db.budgets ≡ b ∷ []
      pub exact : redis.IsExact (available redis agent_id currency b w.cache)
      pub nonneg : pos 0 ≤ℤ available redis agent_id currency b w.cache

    abbrev Conserves : ℤ → World redis.State → Result (Bool × Option ℤ) × World redis.State → Type 0
    Conserves amount w (r, w') =
        IsReady w'
        × (available redis agent_id currency b w'.cache +ℤ granted amount r
            ≡ available redis agent_id currency b w.cache)

    available-take :
        (amount : ℤ) (s : redis.State)
        → available redis agent_id currency b (take redis agent_id currency b amount s)
          ≡ left_over redis agent_id currency b amount s
    available-take amount s =
        let key = budget_key agent_id currency in
        rw (
          redis.get-set s key key (left_over redis agent_id currency b amount s)
              reservation_ttl_seconds (omega arith),
          eq_refl key,
        )

    reserve_takes :
        (amount : ℤ) (w : World redis.State)
        → redis.IsExact amount
        → IsReady w
        → leb_ℤ amount (pos 0) ≡ false
        → ltb_ℤ (database_remaining b) amount ≡ false
        → too_much redis agent_id currency b amount w.cache ≡ false
        → Conserves amount w (reserve redis agent_id currency amount w)
    reserve_takes amount w e h p q r =
        let a = available redis agent_id currency b w.cache in
        let covered : ltb_ℤ a amount ≡ false = sym (redis.lt-IsExact a amount h.exact e) ∙ r in
        let bounded : amount ≤ℤ a = ltb_ℤ-false a amount covered in
        let subtracted = redis.sub-IsExact a amount h.exact e bounded in
        let left = available-take amount w.cache ∙ subtracted.0 in
        rw (reserve_granted redis agent_id currency amount w b h.found active p q r) (
          record {
            found = h.found;
            exact = rw left subtracted.1;
            nonneg = rw left (omega int_laws);
          },
          rw left (omega int_laws),
        )

    reserve_keeps :
        (amount : ℤ) (w : World redis.State)
        → redis.IsExact amount
        → IsReady w
        → Conserves amount w (reserve redis agent_id currency amount w)
    reserve_keeps amount w e h = elim (Bool-cases (leb_ℤ amount (pos 0))) [
      | inl bad ↦ rw (reserve_bad redis agent_id currency amount w bad) (h, omega int_laws)
      | inr p ↦ elim (Bool-cases (ltb_ℤ (database_remaining b) amount)) [
        | inl q ↦
            rw (reserve_short redis agent_id currency amount w b h.found active p q)
              (h, omega int_laws)
        | inr q ↦ elim (Bool-cases (too_much redis agent_id currency b amount w.cache)) [
          | inl r ↦
              rw (reserve_refused redis agent_id currency amount w b h.found active p q r)
                (h, omega int_laws)
          | inr r ↦ reserve_takes amount w e h p q r
        ]
      ]
    ]

    -- Any run of exact reservations on an active budget, with no other call between them: what is
    -- granted in all and what is available after it add up to what was available before it, and
    -- what is available stays at zero or more. So no more is granted than was available.
    pub reserve_all_conserves :
        (amounts : List ℤ) (w : World redis.State)
        → All redis.IsExact amounts
        → IsReady w
        → let (total, w') = reserve_all amounts w in
          (available redis agent_id currency b w'.cache +ℤ total
            ≡ available redis agent_id currency b w.cache)
          × (pos 0 ≤ℤ available redis agent_id currency b w'.cache)
          × (total ≤ℤ available redis agent_id currency b w.cache)
    unfolding reserve_all
    reserve_all_conserves [] w e h = (omega int_laws, h.nonneg, omega (int_laws, h.nonneg))
    reserve_all_conserves (amount ∷ amounts) w e h =
        let one = reserve_keeps amount w e.0 h in
        let moved = parts_of_eq one.1 in
        let nonneg = one.0.nonneg in
        let rest =
          reserve_all_conserves amounts (reserve redis agent_id currency amount w).1 e.1 one.0 in
        (
          omega (int_laws, moved, parts_of_eq rest.0),
          rest.1,
          omega (int_laws, moved, rest.2, rest.1, nonneg),
        )
