-- ===== src/Governor/Steps.antt =====
-- The calls on the governor as steps, in any order and by any callers, with keys that may expire or
-- be evicted at any time between two calls.
use marcel_arch.Prelude.{ℕ, String, ◌≡◌, Bool, true, false, ap, Option, arith}
use marcel_arch.Prelude.Int.{ℤ}
use marcel_arch.Prelude.Result.{Result, ok, err}
use marcel_arch.Models.{Budget}
use marcel_arch.Redis.{Redis}
use marcel_arch.World.{World}
use marcel_arch.Governor.{spend, reserve, remaining, commit, release, reset}
use marcel_arch.Governor.Rows.{AllCapped, AllCapped-put_budget}
use marcel_arch.Governor.Commit.{CommitSpec, commit_lem}
use marcel_arch.Governor.Reserve.{ReserveSpec, reserve_lem}

module _ (redis : Redis) where
  pub data Step (w : World redis.State) : World redis.State → Type 0 where
    reserve_step :
        (agent_id currency : String) (amount : ℤ)
        → Step w (reserve redis agent_id currency amount w).1
    commit_step :
        (agent_id currency : String) (amount : ℤ) (now : ℕ)
        → Step w (commit redis agent_id currency amount now w).1
    release_step :
        (agent_id currency : String) (amount : ℤ)
        → Step w (release redis agent_id currency amount w).1
    reset_step :
        (agent_id currency : String) (amount : ℤ)
        → Step w (reset redis agent_id currency amount w).1
    remaining_step : (agent_id currency : String) → Step w (remaining redis agent_id currency w).1
    expire_step : (cache : redis.State) → Step w (record w { cache = cache })

  pub data Reach (w : World redis.State) : World redis.State → Type 0 where
    here : Reach w w
    next : {u v : World redis.State} → Reach w u → Step u v → Reach w v

  pub granted-rows :
      (agent_id currency : String) (amount : ℤ) (w : World redis.State)
      (r : Result (Bool × Option ℤ) × World redis.State)
      → ReserveSpec redis agent_id currency amount w r
      → r.1.db ≡ w.db
  granted-rows agent_id currency amount w (ok (true, left), w') h =
      ap (λ (v : World redis.State). v.db) h.state
  granted-rows agent_id currency amount w (ok (false, left), w') h =
      ap (λ (v : World redis.State). v.db) h
  granted-rows agent_id currency amount w (err e, w') h = ap (λ (v : World redis.State). v.db) h

  committed-AllCapped :
      (agent_id currency : String) (amount : ℤ) (now : ℕ) (w : World redis.State)
      (r : Result Budget × World redis.State)
      → CommitSpec redis agent_id currency amount now w r
      → AllCapped w.db.budgets
      → AllCapped r.1.db.budgets
  unfolding spend
  committed-AllCapped agent_id currency amount now w (ok b, w') h k =
      rw h.state (AllCapped-put_budget b w.db.budgets (rw h.row h.within) k)
  committed-AllCapped agent_id currency amount now w (err e, w') h k = rw h.1 k

  pub remaining-rows :
      (agent_id currency : String) (w : World redis.State)
      → (remaining redis agent_id currency w).1.db ≡ w.db
  unfolding remaining
  remaining-rows agent_id currency w = ground arith

  pub release-rows :
      (agent_id currency : String) (amount : ℤ) (w : World redis.State)
      → (release redis agent_id currency amount w).1.db ≡ w.db
  unfolding release
  release-rows agent_id currency amount w = ground arith

  pub reset-rows :
      (agent_id currency : String) (amount : ℤ) (w : World redis.State)
      → (reset redis agent_id currency amount w).1.db ≡ w.db
  unfolding reset
  reset-rows agent_id currency amount w = ground arith

  Step-AllCapped :
      {w v : World redis.State} → Step w v → AllCapped w.db.budgets → AllCapped v.db.budgets
  Step-AllCapped {w} (reserve_step a c x) h =
      rw (granted-rows a c x w (reserve redis a c x w) (reserve_lem redis a c x w)) h
  Step-AllCapped {w} (commit_step a c x now) h =
      committed-AllCapped a c x now w (commit redis a c x now w) (commit_lem redis a c x now w) h
  Step-AllCapped {w} (release_step a c x) h = rw (release-rows a c x w) h
  Step-AllCapped {w} (reset_step a c x) h = rw (reset-rows a c x w) h
  Step-AllCapped {w} (remaining_step a c) h = rw (remaining-rows a c w) h
  Step-AllCapped (expire_step cache) h = h

  -- If no budget has consumed more than its limit, then none has after any calls on the governor, in
  -- any order, with whatever losses of cached amounts between them.
  pub Reach-AllCapped :
      {w v : World redis.State} → Reach w v → AllCapped w.db.budgets → AllCapped v.db.budgets
  Reach-AllCapped here h = h
  Reach-AllCapped (next r s) h = Step-AllCapped s (Reach-AllCapped r h)
