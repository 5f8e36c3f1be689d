-- ===== src/Governor/Tests.antt =====
-- Runs of the governor, and its theorems at concrete budgets.
use marcel_arch.Prelude.{ℕ, ◌*◌, ◌^◌, ◌≡◌, refl, true, false, Option, none, some, [], ◌∷◌, arith}
use marcel_arch.Prelude.Int.{ℤ, pos, ◌+ℤ◌, ◌-ℤ◌, ◌≤ℤ◌}
use marcel_arch.Prelude.Result.{ok, err, governance_error}
use marcel_arch.Models.{Budget}
use marcel_arch.Redis.Memory.{memory}
use marcel_arch.World.{Db, World}
use marcel_arch.Governor.{
  budget_key, put_budget, spend, database_remaining, reserve, commit, release, remaining, of_int,
}
use marcel_arch.Governor.Rows.{AllCapped}
use marcel_arch.Governor.Commit.{CommitSpec, commit_lem}
use marcel_arch.Governor.Reserve.{available, ReserveSpec, reserve_lem}
use marcel_arch.Governor.Reserve.Runs.{IsReady, reserve_all, reserve_all_conserves}
use marcel_arch.Governor.Cache.{reserve-release}
use marcel_arch.Governor.Steps.{
  Reach, here, next, reserve_step, commit_step, expire_step, Reach-AllCapped,
}

-- A whole amount.
abbrev whole : ℕ → ℤ
whole n = pos (n * 10 ^ 40)

abbrev budget : Budget
budget = record {
  id = "b1";
  agent_id = "agent-1";
  currency = "USD";
  limit_amount = whole 100;
  consumed_amount = whole 20;
  version = 3;
  active = true;
  created_at = 0;
  updated_at = 0;
}

abbrev db : Db
db = record {
  agents = [];
  budgets = record budget { id = "b0"; currency = "EUR" } ∷ budget ∷ [];
  policies = [];
  audit_logs = [];
  hitl_transactions = [];
}

abbrev start : World memory.State
start = record { db = db; cache = [] }

reserves :
    ((reserve memory "agent-1" "USD" (whole 50) start).0 ≡ ok (true, some (whole 30)))
    × ((reserve memory "agent-1" "USD" (whole 90) start).0 ≡ ok (false, some (whole 80)))
    × ((reserve memory "agent-1" "GBP" (whole 1) start).0 ≡ ok (false, none))
unfolding reserve of_int ◌-ℤ◌
reserves = (refl, refl, refl)

commits :
    ((commit memory "agent-1" "USD" (whole 81) 7 start).0
      ≡ err (governance_error "Budget cap exceeded during commit"))
    × ((remaining memory "agent-1" "USD" (commit memory "agent-1" "USD" (whole 80) 7 start).1).0
        ≡ ok (some (whole 0)))
unfolding commit remaining put_budget spend budget_key ◌-ℤ◌ ◌+ℤ◌
commits = (refl, refl)

commit_lem_example :
    CommitSpec memory "agent-1" "USD"
      (whole 5)
      7
      start
      (commit memory "agent-1" "USD" (whole 5) 7 start)
commit_lem_example = commit_lem memory "agent-1" "USD" (whole 5) 7 start

reserve_lem_example :
    ReserveSpec memory "agent-1" "USD"
      (whole 5)
      start
      (reserve memory "agent-1" "USD" (whole 5) start)
reserve_lem_example = reserve_lem memory "agent-1" "USD" (whole 5) start

ready : IsReady memory "agent-1" "USD" budget refl start
unfolding ◌-ℤ◌
ready = record { found = refl; exact = tt; nonneg = omega arith }

reserve_all_conserves_example :
    let (total, w) =
      reserve_all memory "agent-1" "USD" (whole 50 ∷ whole 50 ∷ whole 30 ∷ []) start in
    (available memory "agent-1" "USD" budget w.cache +ℤ total
      ≡ available memory "agent-1" "USD" budget start.cache)
    × (pos 0 ≤ℤ available memory "agent-1" "USD" budget w.cache)
    × (total ≤ℤ available memory "agent-1" "USD" budget start.cache)
reserve_all_conserves_example =
    reserve_all_conserves memory "agent-1" "USD" budget refl (whole 50 ∷ whole 50 ∷ whole 30 ∷ [])
      start (tt, (tt, (tt, tt))) ready

abbrev reserved : World memory.State
reserved = (reserve memory "agent-1" "USD" (whole 80) start).1

-- Two agents reserve and one of them commits, and the key is lost on the way.
abbrev later : World memory.State
later = (commit memory "agent-1" "USD" (whole 80) 9 (record reserved { cache = [] })).1

run : Reach memory start later
run =
    next (next (next here (reserve_step "agent-1" "USD" (whole 80))) (expire_step []))
      (commit_step "agent-1" "USD" (whole 80) 9)

Reach-AllCapped_example : AllCapped later.db.budgets
Reach-AllCapped_example = Reach-AllCapped memory run (omega arith)

-- The first reservation of 80 is still open when a release of 1 makes room for another of 80.
reserve-release_example :
    (left : Option ℤ) × ((reserve memory "agent-1" "USD"
        (database_remaining budget)
        (release memory "agent-1" "USD" (whole 1) reserved).1).0
      ≡ ok (true, left))
unfolding reserve ◌-ℤ◌
reserve-release_example =
    reserve-release memory "agent-1" "USD" reserved budget refl (whole 1) (omega arith) refl
      (omega arith) tt
