-- ===== src/Governor/Reserve.antt =====
-- What `reserve` does on every branch, and runs of reservations on one budget.
pub mod Runs
use marcel_arch.Prelude.{
  ℕ, String, ◌≡◌, refl, inl, inr, Bool, true, false, Option, some, List, [], ◌∷◌, arith, ◌==◌,
  Bool-cases, one-cases, if◌then◌else◌,
}
use marcel_arch.Prelude.Int.{ℤ, pos, negsuc, ◌≤ℤ◌, ltb_ℤ, leb_ℤ, max_ℤ}
use marcel_arch.Prelude.Result.{Result, ok, err, value_error}
use marcel_arch.Models.{Budget, budgets_of}
use marcel_arch.Redis.{Redis}
use marcel_arch.World.{World}
use marcel_arch.Governor.{
  reservation_ttl_seconds, budget_key, database_remaining, current_amount, of_int, read_reply,
  reserve_script, reserve,
}

module _ (redis : Redis) (agent_id currency : String) where
  -- What a reservation can still take: the cached amount, or what the ledger has left.
  abbrev pub available : Budget → redis.State → ℤ
  available b s =
      current_amount redis (redis.get s (budget_key agent_id currency))
        (max_ℤ (database_remaining b) (pos 0))

  -- The script's test `current < amount`.
  abbrev pub too_much : Budget → ℤ → redis.State → Bool
  too_much b amount s = redis.lt (redis.tonumber (available b s)) (redis.tonumber amount)

  -- What the script writes: the text of `current - amount`.
  abbrev pub left_over : Budget → ℤ → redis.State → ℤ
  left_over b amount s =
      redis.tostring (redis.sub (redis.tonumber (available b s)) (redis.tonumber amount))

  abbrev pub take : Budget → ℤ → redis.State → redis.State
  take b amount s =
      redis.set s (budget_key agent_id currency) (left_over b amount s) reservation_ttl_seconds

  abbrev script : Budget → ℤ → redis.State → List ℤ × redis.State
  script b amount s =
      reserve_script redis (budget_key agent_id currency) (max_ℤ (database_remaining b) (pos 0))
        amount reservation_ttl_seconds s

  script_granted :
      (b : Budget) (amount : ℤ) (s : redis.State)
      → too_much b amount s ≡ false
      → script b amount s ≡ (
        pos 1
            ∷ redis.to_reply (redis.sub (redis.tonumber (available b s)) (redis.tonumber amount))
            ∷ [],
        take b amount s,
      )
  unfolding reserve_script
  script_granted b amount s h = rw (h, redis.to_reply-one)

  script_refused :
      (b : Budget) (amount : ℤ) (s : redis.State)
      → too_much b amount s ≡ true
      → script b amount s ≡ (negsuc 0 ∷ redis.to_reply (redis.tonumber (available b s)) ∷ [], s)
  unfolding reserve_script
  script_refused b amount s h = rw (h, redis.to_reply-minus_one)

  -- What is true when `reserve` grants an amount.
  pub record Granted (amount : ℤ) (w w' : World redis.State) : Type 0 where
    pub before : Budget
    pub found : budgets_of agent_id currency w.db.budgets ≡ before ∷ []
    pub active : before.active ≡ true
    pub is_positive : pos 1 ≤ℤ amount
    pub within : amount ≤ℤ database_remaining before
    pub enough : too_much before amount w.cache ≡ false
    pub state : w' ≡ record w { cache = take before amount w.cache }

  abbrev pub ReserveSpec :
      ℤ → World redis.State → Result (Bool × Option ℤ) × World redis.State → Type 0
  ReserveSpec amount w (ok (true, left), w') = Granted amount w w'
  ReserveSpec amount w (ok (false, left), w') = w' ≡ w
  ReserveSpec amount w (err e, w') = w' ≡ w

  module _ (amount : ℤ) (w : World redis.State) (b : Budget)
      (found : budgets_of agent_id currency w.db.budgets ≡ b ∷ []) (active : b.active ≡ true)
      (positive : leb_ℤ amount (pos 0) ≡ false) where
    -- The ledger has enough left: the script decides.
    pub reserve_by_script :
        ltb_ℤ (database_remaining b) amount ≡ false
        → reserve redis agent_id currency amount w
          ≡ read_reply redis
              (script b amount w.cache).0
              (record w { cache = (script b amount w.cache).1 })
    unfolding reserve
    reserve_by_script q = simp (positive, found, active, q)

    pub reserve_short :
        ltb_ℤ (database_remaining b) amount ≡ true
        → reserve redis agent_id currency amount w
          ≡ (ok (false, some (max_ℤ (database_remaining b) (pos 0))), w)
    unfolding reserve
    reserve_short q = simp (positive, found, active, q)

    pub reserve_granted :
        ltb_ℤ (database_remaining b) amount ≡ false
        → too_much b amount w.cache ≡ false
        → reserve redis agent_id currency amount w ≡ (
          ok (
            true,
            some (
                of_int (
                  redis.to_reply
                    (redis.sub (redis.tonumber (available b w.cache)) (redis.tonumber amount)))),
          ),
          record w { cache = take b amount w.cache },
        )
    reserve_granted q r = rw (reserve_by_script q, script_granted b amount w.cache r)

    pub reserve_refused :
        ltb_ℤ (database_remaining b) amount ≡ false
        → too_much b amount w.cache ≡ true
        → reserve redis agent_id currency amount w
          ≡ (ok (false, some (of_int (redis.to_reply (redis.tonumber (available b w.cache))))), w)
    reserve_refused q r = rw (reserve_by_script q, script_refused b amount w.cache r)

    reserve_found : ReserveSpec amount w (reserve redis agent_id currency amount w)
    reserve_found = elim (Bool-cases (ltb_ℤ (database_remaining b) amount)) [
      | inl q ↦ rw (reserve_short q)
      | inr q ↦ elim (Bool-cases (too_much b amount w.cache)) [
        | inl r ↦ rw (reserve_refused q r)
        | inr r ↦ rw (reserve_granted q r) (record {
          before = b;
          found = found;
          active = active;
          is_positive = ground arith;
          within = ground arith;
          enough = r;
          state = refl;
        })
      ]
    ]

  pub reserve_bad :
      (amount : ℤ) (w : World redis.State)
      → leb_ℤ amount (pos 0) ≡ true
      → reserve redis agent_id currency amount w
        ≡ (err (value_error "Reservation amount must be positive"), w)
  unfolding reserve
  reserve_bad amount w h = simp h

  -- `reserve` grants only a positive amount that the one active row of the budget has left and that
  -- the script finds covered; then it takes the amount from the cached one and touches nothing else.
  -- Where it refuses or raises, the state is as before.
  pub reserve_lem :
      (amount : ℤ) (w : World redis.State)
      → ReserveSpec amount w (reserve redis agent_id currency amount w)
  unfolding reserve
  reserve_lem amount w = elim (Bool-cases (leb_ℤ amount (pos 0))) [
    | inl bad ↦ simp bad
    | inr p ↦ elim (one-cases (budgets_of agent_id currency w.db.budgets)) [
      | inl h ↦ simp (p, h)
      | inr (inl (b, h)) ↦ elim (Bool-cases b.active) [
        | inl a ↦ reserve_found amount w b h a p
        | inr a ↦ simp (p, h, a)
      ]
      | inr (inr (b, c, rest, h)) ↦ simp (p, h)
    ]
  ]
