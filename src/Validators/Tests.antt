-- ===== src/Validators/Tests.antt =====
-- Messages that are accepted, and some that are not.
use marcel_arch.Prelude.{String, ◌≡◌, refl, none, some, List, [], ◌∷◌, ◌*◌, ◌^◌}
use marcel_arch.Prelude.Int.{pos}
use marcel_arch.Prelude.Result.{ok, err, validation_error}
use marcel_arch.Value.{end}
use marcel_arch.Engine.{insert, before}
use marcel_arch.Schemas.{BudgetUpsert, ExecutionIntent}
use marcel_arch.Validators.{strip, validate_actions, validate_budget, validate_intent}
use marcel_arch.Validators.Actions.{ActionsSpec, validate_actions_lem}
use marcel_arch.Samples.{plain}

abbrev sent : List String
sent = " payment.submit" ∷ "   " ∷ "*" ∷ "payment.submit " ∷ []

abbrev kept : List String
kept = "*" ∷ "payment.submit" ∷ []

normal : validate_actions sent ≡ ok kept
unfolding validate_actions insert before
normal = refl

blank_only : validate_actions ("  " ∷ []) ≡ err validation_error
unfolding validate_actions
blank_only = refl

validate_actions_lem_example : ActionsSpec sent (validate_actions sent)
validate_actions_lem_example = validate_actions_lem sent

abbrev budget : BudgetUpsert
budget = record { limit_amount = pos (100 * 10 ^ 40); currency = " USD" }

abbrev stripped_budget : BudgetUpsert
stripped_budget = record { limit_amount = pos (100 * 10 ^ 40); currency = "USD" }

fits : validate_budget plain budget ≡ ok stripped_budget
unfolding validate_budget strip
fits = refl

too_fine :
    validate_budget plain (record { limit_amount = pos (10 ^ 35); currency = "USD" })
    ≡ err validation_error
unfolding validate_budget strip
too_fine = refl

no_letter :
    validate_budget plain (record { limit_amount = pos (10 ^ 40); currency = "U5D" })
    ≡ err validation_error
unfolding validate_budget strip
no_letter = refl

abbrev intent : ExecutionIntent
intent = record {
  agent_id = "agent-1";
  action = "payment.submit";
  payload = end;
  requested_amount = some (pos (40 * 10 ^ 40));
  currency = some "USD";
  idempotency_key = "payment-2026-00000001";
  correlation_id = none;
}

intent_accepted : validate_intent plain intent ≡ ok intent
unfolding validate_intent strip
intent_accepted = refl
