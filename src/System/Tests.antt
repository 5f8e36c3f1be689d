-- ===== src/System/Tests.antt =====
-- Three calls from an empty database.
use marcel_arch.Prelude.{refl, [], ◌∷◌, ◌*◌, ◌^◌, arith}
use marcel_arch.Prelude.Int.{pos}
use marcel_arch.Value.{end}
use marcel_arch.Schemas.{AgentCreate, BudgetUpsert}
use marcel_arch.Redis.Memory.{memory}
use marcel_arch.World.{World}
use marcel_arch.Router.{register_agent, upsert_budget}
use marcel_arch.System.Sound.{IsSound}
use marcel_arch.System.Reach.{
  Reach, here, next, register_step, budget_step, server_step, Reach-IsSound,
}
use marcel_arch.Samples.{services, toy, signer, blank, blank-IsSound}

abbrev agent : AgentCreate
agent = record {
  id = "agent-1";
  display_name = "Treasury";
  tenant_id = "acme";
  allowed_actions = "*" ∷ [];
  risk_tier = "low";
  metadata = end;
}

abbrev budget : BudgetUpsert
budget = record { limit_amount = pos (100 * 10 ^ 40); currency = "USD" }

abbrev registered : World memory.State
registered = (register_agent services toy signer agent "dana" 1 2 blank).1

abbrev lost : World memory.State
lost = record registered { cache = [] }

abbrev funded : World memory.State
funded = (upsert_budget services toy signer "b1" "agent-1" budget "100" "dana" 3 4 lost).1

calls : Reach services toy signer blank funded
calls =
    next (next (next here (register_step agent "dana" 1 2)) (server_step []))
      (budget_step "b1" "agent-1" budget (omega arith) "100" "dana" 3 4)

Reach-IsSound_example : IsSound toy signer funded
Reach-IsSound_example = Reach-IsSound services toy signer (λ t. refl) calls blank-IsSound
