-- ===== src/Ledger/Tests.antt =====
-- A booking and a new limit on an account of one hundred.
use marcel_arch.Prelude.{◌≡◌, true, [], ◌∷◌, ◌*◌, ◌^◌, arith}
use marcel_arch.Prelude.Int.{pos}
use marcel_arch.Value.{end}
use marcel_arch.Models.{Budget, budgets_of}
use marcel_arch.Schemas.{BudgetUpsert}
use marcel_arch.Redis.Memory.{memory}
use marcel_arch.World.{World}
use marcel_arch.Governor.{commit}
use marcel_arch.Router.{upsert_budget}
use marcel_arch.Ledger.Commits.{CommitRefines, commit-Refines}
use marcel_arch.Ledger.Upserts.{UpsertRefines, upsert_budget-Refines}
use marcel_arch.Samples.{services, toy, signer, blank}

abbrev row : Budget
row = record {
  id = "b1";
  agent_id = "agent-1";
  currency = "USD";
  limit_amount = pos (100 * 10 ^ 40);
  consumed_amount = pos (30 * 10 ^ 40);
  version = 1;
  active = true;
  created_at = 0;
  updated_at = 0;
}

abbrev funded : World memory.State
funded = record blank {
  db = record blank.db {
    agents =
        record {
          id = "agent-1";
          display_name = "Treasury";
          tenant_id = "acme";
          allowed_actions = "*" ∷ [];
          risk_tier = "low";
          active = true;
          metadata_json = end;
          created_at = 0;
          updated_at = 0;
        }
        ∷ [];
    budgets = row ∷ [];
  };
}

is_active : (b : Budget) → budgets_of "agent-1" "USD" funded.db.budgets ≡ b ∷ [] → b.active ≡ true
is_active b h = cc h

commit-Refines_example :
    CommitRefines memory "agent-1" "USD"
      (pos (40 * 10 ^ 40))
      7
      funded
      (omega arith)
      is_active
      (commit memory "agent-1" "USD" (pos (40 * 10 ^ 40)) 7 funded)
commit-Refines_example =
    commit-Refines memory "agent-1" "USD" (pos (40 * 10 ^ 40)) 7 funded (omega arith) is_active

abbrev lower : BudgetUpsert
lower = record { limit_amount = pos (50 * 10 ^ 40); currency = "USD" }

upsert_budget-Refines_example :
    UpsertRefines services toy signer "b2" "agent-1" lower "50" "dana" 3 4 funded
      (upsert_budget services toy signer "b2" "agent-1" lower "50" "dana" 3 4 funded)
upsert_budget-Refines_example =
    upsert_budget-Refines services toy signer "b2" "agent-1" lower "50" "dana" 3 4 funded
      (omega arith)
