-- ===== src/Engine/Tests.antt =====
-- Runs of the engine, and its theorems at a concrete policy.
use mathlib.Core.List.{reverse, reverse_perm}
use mathlib.Core.List.Perm
use marcel_arch.Prelude.{ℕ, ◌*◌, ◌^◌, ◌≡◌, ◌↔◌, refl, true, ◌⊎◌, none, some, [], ◌∷◌}
use marcel_arch.Prelude.Int.{pos, ◌-ℤ◌}
use marcel_arch.Prelude.Result.{ok, err, type_error}
use marcel_arch.Value.{Value, int, str, list, dict, nil, cons, Fields, end, field}
use marcel_arch.Decimal.{read_decimal, amount_lt}
use marcel_arch.Models.{Agent, Budget, Policy}
use marcel_arch.Schemas.{ExecutionIntent, PolicyDecision, allow, deny, require_approval}
use marcel_arch.Formats.{Formats}
use marcel_arch.Services.{Services}
use marcel_arch.Redis.Memory.{memory}
use marcel_arch.World.{World}
use marcel_arch.Governor.{remaining, budget_key}
use marcel_arch.Conditions.{matches, match_string_list, decimal_condition}
use marcel_arch.Rules.{RuleResult, read_reason, evaluate_rule, evaluate_policy, evaluate_policies}
use marcel_arch.Engine.{insert, decide, evaluate}
use marcel_arch.Engine.Decision.{IsRefused, HasResults, evaluate-cases}
use marcel_arch.Conditions.Matches.{Satisfied, matches_iff}
use marcel_arch.Engine.FailClosed.{Cleared, evaluate-allow}
use marcel_arch.Engine.Allows.{Allows, evaluate-allow_iff}
use marcel_arch.Engine.Fewer.{with_policies, evaluate_fewer_policies}
use marcel_arch.Engine.Order.{summary, evaluate_same_in_any_order}

abbrev formats : Formats
formats = record { to_text = λ v. ""; dumps = λ v. ""; trim = λ t. t }

abbrev services : Services
services = record {
  redis = memory;
  formats = formats;
  order_policies = λ ps. ps;
  order_policies-perm = λ ps. Perm.refl ps;
}

abbrev agent : Agent
agent = record {
  id = "treasury-agent-01";
  display_name = "Treasury";
  tenant_id = "acme";
  allowed_actions = "payment.submit" ∷ [];
  risk_tier = "high";
  active = true;
  metadata_json = end;
  created_at = 0;
  updated_at = 0;
}

-- The policy of the README: payments of 5,000 or more are reviewed.
abbrev review : Value
review = dict (
    field "rules"
      (list (
        cons
          (dict (
            field "when"
              (dict (
                field "actions" (list (cons (str "payment.submit") nil))
                  (field "amount_gte" (str "5000") end)))
              (field "effect" (str "require_approval")
                (field "risk_score" (int (pos 85)) (field "reason" (str "review") end)))))
          nil))
      end)

abbrev policy : Policy
policy = record {
  id = "p1";
  name = "high-value-payment-review";
  version = 1;
  enabled = true;
  priority = 10;
  definition = review;
  created_at = 0;
  updated_at = 0;
}

abbrev budget : Budget
budget = record {
  id = "b1";
  agent_id = "treasury-agent-01";
  currency = "USD";
  limit_amount = pos (25000 * 10 ^ 40);
  consumed_amount = pos 0;
  version = 1;
  active = true;
  created_at = 0;
  updated_at = 0;
}

abbrev start : World memory.State
start = record {
  db = record {
    agents = agent ∷ [];
    budgets = budget ∷ [];
    policies = policy ∷ [];
    audit_logs = [];
    hitl_transactions = [];
  };
  cache = [];
}

abbrev payment : ℕ → ExecutionIntent
payment n = record {
  agent_id = "treasury-agent-01";
  action = "payment.submit";
  payload = end;
  requested_amount = some (pos (n * 10 ^ 40));
  currency = some "USD";
  idempotency_key = "payment-2026-00000001";
  correlation_id = none;
}

abbrev cleared : PolicyDecision
cleared = record {
  outcome = allow;
  risk_score = 50;
  reasons = "All deterministic controls passed" ∷ [];
  policy_ids = [];
  remaining_budget = some (pos (25000 * 10 ^ 40));
  hitl_transaction_id = none;
}

small_payment : (evaluate services (payment 4999) start).0 ≡ ok cleared
unfolding evaluate evaluate_policies evaluate_policy evaluate_rule matches match_string_list
    decimal_condition amount_lt read_decimal remaining budget_key decide ◌-ℤ◌
small_payment = refl

payment-Cleared : Cleared services (payment 4999) start
payment-Cleared = evaluate-allow services (payment 4999) start cleared small_payment refl

evaluate-allow_iff_example :
    Allows (evaluate services (payment 4999)) start ↔ Cleared services (payment 4999) start
evaluate-allow_iff_example = evaluate-allow_iff services (payment 4999) start

evaluate_fewer_policies_example : Allows (evaluate services (payment 4999)) (with_policies [] start)
evaluate_fewer_policies_example =
    evaluate_fewer_policies services (payment 4999) start [] start.db.policies
      (cleared, small_payment, refl)

abbrev reviewed : RuleResult
reviewed = record {
  outcome = require_approval;
  risk_score = 85;
  reason = "review";
  policy_id = "p1";
}

abbrev denied : RuleResult
denied = record { outcome = deny; risk_score = 100; reason = "no"; policy_id = "p0" }

large_payment : evaluate_policy formats policy agent (payment 5000) ≡ ok (reviewed ∷ [])
unfolding evaluate_policy evaluate_rule matches match_string_list decimal_condition amount_lt
    read_decimal ◌-ℤ◌ read_reason
large_payment = refl

abbrev awaiting : PolicyDecision
awaiting = record {
  outcome = require_approval;
  risk_score = 85;
  reasons = "review" ∷ [];
  policy_ids = "p1" ∷ [];
  remaining_budget = some (pos (25000 * 10 ^ 40));
  hitl_transaction_id = none;
}

larger_payment : (evaluate services (payment 5000) start).0 ≡ ok awaiting
unfolding evaluate evaluate_policies evaluate_policy evaluate_rule matches match_string_list
    decimal_condition amount_lt read_decimal remaining budget_key decide ◌-ℤ◌ read_reason insert
larger_payment = refl

evaluate-cases_example :
    IsRefused services (payment 5000) start awaiting
    ⊎ HasResults services (payment 5000) start awaiting
evaluate-cases_example = evaluate-cases services (payment 5000) start awaiting larger_payment

abbrev conditions : Fields
conditions =
    field "actions" (list (cons (str "payment.submit") nil)) (field "amount_gte" (str "5000") end)

matches_iff_example :
    (matches formats (dict conditions) agent (payment 5000) ≡ ok true)
    ↔ Satisfied formats agent (payment 5000) conditions
matches_iff_example = matches_iff formats agent (payment 5000) conditions

evaluate_same_in_any_order_example :
    summary (evaluate services (payment 5000) start).0
    ≡ summary
        (evaluate
          (record {
            redis = memory;
            formats = formats;
            order_policies = reverse;
            order_policies-perm = reverse_perm;
          })
          (payment 5000)
          start).0
evaluate_same_in_any_order_example =
    evaluate_same_in_any_order memory formats (λ ps. ps) reverse (λ ps. Perm.refl ps) reverse_perm
      (payment 5000) start

-- An effect with no hash makes every intent that the rule matches fail.
unhashable_effect :
    evaluate_policy formats
      (record policy {
        definition =
            dict (field "rules" (list (cons (dict (field "effect" (list nil) end)) nil)) end);
      })
      agent
      (payment 1)
    ≡ err type_error
unfolding evaluate_policy evaluate_rule matches
unhashable_effect = refl
