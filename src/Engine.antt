-- ===== src/Engine.antt =====
-- `DeterministicPolicyEngine.evaluate` of marcel/core/engine.py.
mod Decide
pub mod Verdict
pub mod FailClosed
pub mod Allows
pub mod Fewer
pub mod Order
pub mod Ids
pub mod Decided
pub mod Decision
mod Tests
unfoldable pub use Decide.{
  is_deny, is_approval, outcome_of, base_risk, max_score, reasons_or_default, before, insert,
  sorted_set, decide, refusal,
}
use marcel_arch.Formats.{Formats}
use marcel_arch.Prelude.{
  ℕ, String, Bool, true, false, Option, none, some, List, [], ◌∷◌, ◌++◌, ◌==◌, ◌&&◌, ◌||◌, not,
  keep, if◌then◌else◌,
}
use marcel_arch.Prelude.Int.{ℤ, ltb_ℤ}
use marcel_arch.Prelude.Action.{Action, pure, lift, gets, ◌>>=◌}
use marcel_arch.Models.{Agent, Policy, scalar_one_or_none}
use marcel_arch.World.{World}
use marcel_arch.Schemas.{ExecutionIntent, PolicyDecision, deny, require_approval}
use marcel_arch.Services.{Services}
use marcel_arch.Conditions.{member}
use marcel_arch.Rules.{RuleResult, evaluate_policies}
use marcel_arch.Governor.{remaining}

-- `select(Agent).where(Agent.id == intent.agent_id)`
abbrev pub agents_of : String → List Agent → List Agent
agents_of id = keep (λ a. a.id == id)

abbrev pub if_active : Option Agent → Option Agent
if_active none = none
if_active (some a) = if a.active then some a else none

-- `Policy.enabled.is_(True)`
abbrev pub enabled_policies : List Policy → List Policy
enabled_policies = keep (λ p. p.enabled)

-- The negation of `intent.action not in allowed and "*" not in allowed`.
abbrev pub is_allowed : Agent → String → Bool
is_allowed agent action = member action agent.allowed_actions || member "*" agent.allowed_actions

-- The two results that the budget can add.
abbrev pub no_budget : RuleResult
no_budget = record {
  outcome = deny;
  risk_score = 100;
  reason = "No active budget assigned";
  policy_id = "system-budget";
}

abbrev pub over_budget : RuleResult
over_budget = record {
  outcome = require_approval;
  risk_score = 90;
  reason = "Requested amount exceeds remaining budget";
  policy_id = "system-budget";
}

abbrev pub budget_results : ℤ → Option ℤ → List RuleResult
budget_results amount none = no_budget ∷ []
budget_results amount (some left) = if ltb_ℤ left amount then over_budget ∷ [] else []

-- What the budget adds to the results of the rules, or a decision that is final.
pub data BudgetCheck : Type 0 where
  final : PolicyDecision → BudgetCheck
  checked : Option ℤ → List RuleResult → BudgetCheck

abbrev pub budget_checked : ℤ → Option ℤ → BudgetCheck
budget_checked amount left = checked left (budget_results amount left)

abbrev pub conclude : Formats → Agent → List RuleResult → BudgetCheck → PolicyDecision
conclude formats agent results (final decision) = decision
conclude formats agent results (checked left more) = decide formats agent (results ++ more) left

module _ (services : Services) where
  open services.redis use {State}

  abbrev pub find_agent : String → Action (World State) (Option Agent)
  find_agent id w = (scalar_one_or_none (agents_of id w.db.agents), w)

  -- The part of `evaluate` on `intent.requested_amount`.
  unfoldable pub check_budget : String → Option ℤ → Option String → Action (World State) BudgetCheck
  check_budget agent_id none currency = pure (checked none [])
  check_budget agent_id (some amount) none =
      pure (final (refusal "Currency is required for financial intent"))
  check_budget agent_id (some amount) (some currency) = do
    left ← remaining services.redis agent_id currency
    pure (budget_checked amount left)

  unfoldable pub evaluate_active :
      ExecutionIntent → Option Agent → Action (World State) PolicyDecision
  unfolding check_budget
  evaluate_active intent none = pure (refusal "Agent is not registered or active")
  evaluate_active intent (some agent) =
      if not (is_allowed agent intent.action)
      then pure (refusal "Action is not allowed for agent")
      else do
        policies ← gets (λ w. services.order_policies (enabled_policies w.db.policies))
        results ← lift (evaluate_policies services.formats agent intent policies)
        budget ← check_budget intent.agent_id intent.requested_amount intent.currency
        pure (conclude services.formats agent results budget)

  unfoldable pub evaluate : ExecutionIntent → Action (World State) PolicyDecision
  unfolding evaluate_active scalar_one_or_none
  evaluate intent = do found ← find_agent intent.agent_id; evaluate_active intent (if_active found)
