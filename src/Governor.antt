-- ===== src/Governor.antt =====
-- `TokenBucketGovernor` of marcel/core/engine.py. An amount is a `Decimal`, counted in units of
-- 10^-40, which is finer than any decimal that the program or the server's Lua writes.
pub mod Rows
pub mod Commit
pub mod Reserve
pub mod Cache
pub mod Steps
mod Tests
use marcel_arch.Prelude.{
  ℕ, zero, suc, ◌+◌, ◌*◌, ◌-◌, ◌^◌, String, Bool, true, false, Option, none, some, List, [], ◌∷◌,
  join, if◌then◌else◌,
}
use marcel_arch.Prelude.Int.{ℤ, pos, negsuc, ◌+ℤ◌, ◌-ℤ◌, ltb_ℤ, leb_ℤ, max_ℤ}
use marcel_arch.Prelude.Result.{value_error, governance_error, invalid_operation}
use marcel_arch.Prelude.Action.{Action, pure, raise, gets, modify, raise_if, ◌>>=◌, ◌>>◌}
use marcel_arch.Models.{Budget, scalar_one_or_none, is_budget_of, budgets_of}
use marcel_arch.Redis.{Redis}
use marcel_arch.World.{World}

abbrev pub units_per_one : ℕ
units_per_one = 10 ^ 40

-- `Decimal(str(n))` of an integer.
unfoldable pub of_int : ℤ → ℤ
of_int (pos n) = pos (n * units_per_one)
of_int (negsuc n) = negsuc (suc n * units_per_one - 1)

-- The default of `reservation_ttl_seconds`, which main.py keeps.
abbrev pub reservation_ttl_seconds : ℕ
reservation_ttl_seconds = 86400

-- `_key`
unfoldable pub budget_key : String → String → String
budget_key agent_id currency = join ("marcel:budget:" ∷ agent_id ∷ ":" ∷ currency ∷ [])

-- `budget.limit_amount - budget.consumed_amount`
abbrev pub database_remaining : Budget → ℤ
database_remaining b = b.limit_amount -ℤ b.consumed_amount

-- The test `budget is None or not budget.active`, passed on as an option.
abbrev pub if_active : Option Budget → Option Budget
if_active none = none
if_active (some b) = if b.active then some b else none

-- The row of a budget, written back.
unfoldable pub put_budget : Budget → List Budget → List Budget
put_budget new [] = []
put_budget new (b ∷ rest) =
    (if is_budget_of new.agent_id new.currency b then new else b) ∷ put_budget new rest

-- The row after `budget.consumed_amount += amount` and the two lines below it.
unfoldable pub spend : ℤ → ℕ → Budget → Budget
spend amount now b = record b {
  consumed_amount = b.consumed_amount +ℤ amount;
  version = b.version + 1;
  updated_at = now;
}

module _ (redis : Redis) where
  open redis use {State, get, set, set_nx, literal, tonumber, tostring, sub, lt, to_reply}

  -- `_get_budget`
  unfoldable pub get_budget : String → String → Action (World State) (Option Budget)
  unfolding scalar_one_or_none
  get_budget agent_id currency w =
      (scalar_one_or_none (budgets_of agent_id currency w.db.budgets), w)

  -- `redis.set(key, str(amount), ex=...)`
  abbrev pub set_key : String → ℤ → Action (World State) Unit
  set_key key amount =
      modify (λ w. record w { cache = set w.cache key amount reservation_ttl_seconds })

  -- `Decimal(str(cached))`, which raises on `None`.
  abbrev pub cached_amount : Option ℤ → Action (World State) (Option ℤ)
  cached_amount none = raise invalid_operation
  cached_amount (some amount) = pure (some amount)

  unfoldable pub fill_cache : String → Budget → Option ℤ → Action (World State) (Option ℤ)
  fill_cache key b none = do
    modify (λ w. record w {
      cache = set_nx w.cache key (max_ℤ (database_remaining b) (pos 0)) reservation_ttl_seconds;
    })
    cached ← gets (λ w. get w.cache key)
    cached_amount cached
  fill_cache key b (some amount) = pure (some amount)

  unfoldable pub remaining_of : String → String → Option Budget → Action (World State) (Option ℤ)
  unfolding fill_cache
  remaining_of agent_id currency none = pure none
  remaining_of agent_id currency (some b) = do
    cached ← gets (λ w. get w.cache (budget_key agent_id currency))
    fill_cache (budget_key agent_id currency) b cached

  unfoldable pub remaining : String → String → Action (World State) (Option ℤ)
  unfolding get_budget remaining_of
  remaining agent_id currency = do
    budget ← get_budget agent_id currency
    remaining_of agent_id currency (if_active budget)

  -- `current` of the script: `tonumber(redis.call('GET', KEYS[1]) or ARGV[1])`.
  abbrev pub current_amount : Option ℤ → ℤ → ℤ
  current_amount none default = default
  current_amount (some amount) default = amount

  -- `_RESERVE_SCRIPT`, run by EVAL: the reply and the keys that it leaves.
  unfoldable pub reserve_script : String → ℤ → ℤ → ℕ → State → List ℤ × State
  reserve_script key default amount ttl s =
      let current = tonumber (current_amount (get s key) default) in
      let wanted = tonumber amount in
      let left = sub current wanted in
      if lt current wanted
      then (to_reply (literal (negsuc 0)) ∷ to_reply current ∷ [], s)
      else (to_reply (literal (pos 1)) ∷ to_reply left ∷ [], set s key (tostring left) ttl)

  -- `int(result[0]) == 1`
  abbrev pub is_one : ℤ → Bool
  is_one (pos (suc zero)) = true
  is_one _ = false

  abbrev pub read_reply : List ℤ → Action (World State) (Bool × Option ℤ)
  read_reply (allowed ∷ left ∷ []) = pure (is_one allowed, some (of_int left))
  read_reply _ = raise (governance_error "Unexpected Redis budget reservation response")

  unfoldable pub reserve_active :
      String → String → ℤ → Option Budget → Action (World State) (Bool × Option ℤ)
  unfolding reserve_script
  reserve_active agent_id currency amount none = pure (false, none)
  reserve_active agent_id currency amount (some b) =
      if ltb_ℤ (database_remaining b) amount
      then pure (false, some (max_ℤ (database_remaining b) (pos 0)))
      else λ w.
          let (reply, cache) =
            reserve_script (budget_key agent_id currency) (max_ℤ (database_remaining b) (pos 0))
              amount reservation_ttl_seconds w.cache in
          read_reply reply (record w { cache = cache })

  unfoldable pub reserve : String → String → ℤ → Action (World State) (Bool × Option ℤ)
  unfolding get_budget reserve_active
  reserve agent_id currency amount = do
    raise_if (leb_ℤ amount (pos 0)) (value_error "Reservation amount must be positive")
    budget ← get_budget agent_id currency
    reserve_active agent_id currency amount (if_active budget)

  unfoldable pub commit_active : ℤ → ℕ → Option Budget → Action (World State) Budget
  commit_active amount now none =
      raise (governance_error "No active budget exists for this agent and currency")
  commit_active amount now (some b) = do
    raise_if (ltb_ℤ b.limit_amount (b.consumed_amount +ℤ amount))
        (governance_error "Budget cap exceeded during commit")
    modify (λ w. record w {
      db = record w.db { budgets = put_budget (spend amount now b) w.db.budgets };
    })
    pure (spend amount now b)

  unfoldable pub commit : String → String → ℤ → ℕ → Action (World State) Budget
  unfolding get_budget commit_active
  commit agent_id currency amount now = do
    raise_if (leb_ℤ amount (pos 0)) (value_error "Commit amount must be positive")
    budget ← get_budget agent_id currency
    commit_active amount now (if_active budget)

  abbrev pub refill : String → Option Budget → Action (World State) Unit
  refill key none = pure tt
  refill key (some b) = set_key key (max_ℤ (database_remaining b) (pos 0))

  unfoldable pub release : String → String → ℤ → Action (World State) Unit
  unfolding get_budget
  release agent_id currency amount =
      if leb_ℤ amount (pos 0)
      then pure tt
      else do budget ← get_budget agent_id currency; refill (budget_key agent_id currency) budget

  unfoldable pub reset : String → String → ℤ → Action (World State) Unit
  reset agent_id currency amount = do
    raise_if (ltb_ℤ amount (pos 0)) (value_error "remaining cannot be negative")
    set_key (budget_key agent_id currency) amount
