-- ===== src/Tables.antt =====
-- The rows that the endpoints of marcel/api/router.py write, and the responses that they read off
-- them.
use marcel_arch.Prelude.{
  ℕ, ◌+◌, String, Bool, true, Option, none, some, [], ◌∷◌, ◌++◌, ◌==◌, ◌&&◌, ◌||◌, any, nat_eq,
  if◌then◌else◌,
}
use marcel_arch.Prelude.Int.{ℤ, pos, ltb_ℤ, max_ℤ}
use marcel_arch.Prelude.Result.{ok, err, http_exception, integrity_error}
use marcel_arch.Prelude.Action.{Action, pure, raise_if, modify, ◌>>◌}
use marcel_arch.Value.{Fields, dict}
use marcel_arch.Models.{Agent, Budget, Policy, HitlTransaction, status_value, is_budget_of}
use marcel_arch.Schemas.{
  AgentCreate, AgentResponse, BudgetUpsert, BudgetResponse, PolicyCreate, PolicyResponse,
  HitlResponse,
}
use marcel_arch.World.{World}
use marcel_arch.Governor.{put_budget, database_remaining}

-- `budget_response`
unfoldable pub budget_response : Budget → BudgetResponse
budget_response b = record {
  agent_id = b.agent_id;
  currency = b.currency;
  limit_amount = b.limit_amount;
  consumed_amount = b.consumed_amount;
  remaining_amount = max_ℤ (pos 0) (database_remaining b);
  active = b.active;
  version = b.version;
  updated_at = b.updated_at;
}

-- `hitl_response`
unfoldable pub hitl_response : HitlTransaction → HitlResponse
hitl_response t = record {
  id = t.id;
  idempotency_key = t.idempotency_key;
  agent_id = t.agent_id;
  action = t.action;
  requested_amount = t.requested_amount;
  currency = t.currency;
  risk_score = t.risk_score;
  reasons = t.reasons;
  status = status_value t.status;
  reviewer_id = t.reviewer_id;
  reviewer_comment = t.reviewer_comment;
  expires_at = t.expires_at;
  resolved_at = t.resolved_at;
  created_at = t.created_at;
}

unfoldable pub agent_response : Agent → AgentResponse
agent_response a = record {
  id = a.id;
  display_name = a.display_name;
  tenant_id = a.tenant_id;
  allowed_actions = a.allowed_actions;
  risk_tier = a.risk_tier;
  active = a.active;
  metadata = a.metadata_json;
  created_at = a.created_at;
  updated_at = a.updated_at;
}

unfoldable pub policy_response : Policy → Fields → PolicyResponse
policy_response p definition = record {
  id = p.id;
  name = p.name;
  version = p.version;
  enabled = p.enabled;
  priority = p.priority;
  definition = definition;
  created_at = p.created_at;
  updated_at = p.updated_at;
}

-- The new rows.
unfoldable pub new_agent : AgentCreate → ℕ → Agent
new_agent payload now = record {
  id = payload.id;
  display_name = payload.display_name;
  tenant_id = payload.tenant_id;
  allowed_actions = payload.allowed_actions;
  risk_tier = payload.risk_tier;
  active = true;
  metadata_json = payload.metadata;
  created_at = now;
  updated_at = now;
}

unfoldable pub new_budget : String → String → BudgetUpsert → ℕ → Budget
new_budget id agent_id payload now = record {
  id = id;
  agent_id = agent_id;
  currency = payload.currency;
  limit_amount = payload.limit_amount;
  consumed_amount = pos 0;
  version = 1;
  active = true;
  created_at = now;
  updated_at = now;
}

unfoldable pub new_policy : String → PolicyCreate → ℕ → Policy
new_policy id payload now = record {
  id = id;
  name = payload.name;
  version = payload.version;
  enabled = payload.enabled;
  priority = payload.priority;
  definition = dict payload.definition;
  created_at = now;
  updated_at = now;
}

-- The row after the three assignments of `upsert_budget`.
unfoldable pub set_limit : ℤ → ℕ → Budget → Budget
set_limit limit now b = record b { limit_amount = limit; version = b.version + 1; updated_at = now }

-- The columns that are unique: two rows with the same ones do not fit into one table.
abbrev pub same_agent : Agent → Agent → Bool
same_agent new a = a.id == new.id

abbrev pub same_budget : Budget → Budget → Bool
same_budget new b = b.id == new.id || is_budget_of new.agent_id new.currency b

abbrev pub same_policy : Policy → Policy → Bool
same_policy new p = p.id == new.id || (p.name == new.name && nat_eq p.version new.version)

module _ {C : Type 0} where
  -- `session.add` of a row and the `flush` behind it.
  unfoldable pub add_agent : Agent → Action (World C) Unit
  add_agent a w =
      if any (same_agent a) w.db.agents
      then (err integrity_error, w)
      else (ok tt, record w { db = record w.db { agents = w.db.agents ++ a ∷ [] } })

  unfoldable pub add_budget : Budget → Action (World C) Unit
  add_budget b w =
      if any (same_budget b) w.db.budgets
      then (err integrity_error, w)
      else (ok tt, record w { db = record w.db { budgets = w.db.budgets ++ b ∷ [] } })

  unfoldable pub add_policy : Policy → Action (World C) Unit
  add_policy p w =
      if any (same_policy p) w.db.policies
      then (err integrity_error, w)
      else (ok tt, record w { db = record w.db { policies = w.db.policies ++ p ∷ [] } })

  -- The two branches of `upsert_budget`, with the flush.
  unfoldable pub place_budget : Budget → ℤ → ℕ → Option Budget → Action (World C) Budget
  unfolding add_budget
  place_budget new limit now none = do add_budget new; pure new
  place_budget new limit now (some b) = do
    raise_if (ltb_ℤ limit b.consumed_amount)
        (http_exception 422 "Budget limit cannot be lower than already consumed amount")
    modify (λ w. record w {
      db = record w.db { budgets = put_budget (set_limit limit now b) w.db.budgets };
    })
    pure (set_limit limit now b)
