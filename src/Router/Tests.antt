-- ===== src/Router/Tests.antt =====
-- Runs of the endpoints on an empty database and behind a registration.
use marcel_arch.Prelude.{◌≡◌, refl, true, [], ◌∷◌, ◌*◌, ◌^◌, arith}
use marcel_arch.Prelude.Int.{pos}
use marcel_arch.Prelude.Result.{err, http_exception}
use marcel_arch.Value.{end}
use marcel_arch.Schemas.{AgentCreate, BudgetUpsert, PolicyCreate}
use marcel_arch.Redis.Memory.{memory}
use marcel_arch.World.{World}
use marcel_arch.Router.{register_agent, upsert_budget}
use marcel_arch.Router.Budgets.{UpsertSpec, upsert_budget_lem}
use marcel_arch.Json.{canonical_json}
use marcel_arch.Samples.{services, toy, signer, blank}

abbrev agent : AgentCreate
agent = record {
  id = "agent-1";
  display_name = "Treasury";
  tenant_id = "acme";
  allowed_actions = "*" ∷ [];
  risk_tier = "low";
  metadata = end;
}

abbrev budget : BudgetUpsert
budget = record { limit_amount = pos (100 * 10 ^ 40); currency = "USD" }

abbrev policy : PolicyCreate
policy = record { name = "limits"; version = 1; enabled = true; priority = 100; definition = end }

abbrev registered : World memory.State
registered = (register_agent services toy signer agent "dana" 1 2 blank).1

again :
    (register_agent services toy signer agent "dana" 3 4 registered).0
    ≡ err (http_exception 409 "Agent ID already exists")
unfolding register_agent canonical_json
again = refl

upsert_budget_lem_example :
    UpsertSpec services toy signer "b1" "agent-1" budget "100" "dana" 3 4 registered
      (upsert_budget services toy signer "b1" "agent-1" budget "100" "dana" 3 4 registered)
upsert_budget_lem_example =
    upsert_budget_lem services toy signer "b1" "agent-1" budget "100" "dana" 3 4 registered
      (omega arith)
