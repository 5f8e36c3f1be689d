-- ===== src/Rules.antt =====
-- `RuleResult` and `_evaluate_policy` of marcel/core/engine.py.
pub mod Bounds
use marcel_arch.Prelude.{
  ℕ, ◌+◌, String, true, false, Option, none, some, List, [], ◌∷◌, ◌++◌, ◌==◌, leb, join, str_nat,
  is_blank, if◌then◌else◌,
}
use marcel_arch.Prelude.Int.{pos}
use marcel_arch.Prelude.Result.{Result, ok, err, type_error, ◌>>=◌}
use marcel_arch.Value.{Value, bool, int, str, list, dict, Items, nil, cons, Fields, end, get_or}
use marcel_arch.Models.{Agent, Policy}
use marcel_arch.Schemas.{ExecutionIntent, Outcome, allow, deny, require_approval}
use marcel_arch.Formats.{Formats}
use marcel_arch.Conditions.{matches}

pub record RuleResult : Type 0 where
  pub outcome : Outcome
  pub risk_score : ℕ
  pub reason : String
  pub policy_id : String

abbrev pub denial : String → Policy → RuleResult
denial reason policy = record {
  outcome = deny;
  risk_score = 100;
  reason = reason;
  policy_id = policy.id;
}

-- The test of the effect against the set of the three. A list or a dict has no hash.
unfoldable pub read_effect : Value → Result (Option Outcome)
read_effect (str s) =
    if s == "allow"
    then ok (some allow)
    else if s == "deny"
    then ok (some deny)
    else if s == "require_approval"
    then ok (some require_approval)
    else ok none
read_effect (list xs) = err type_error
read_effect (dict fs) = err type_error
read_effect _ = ok none

-- A risk score is an int from 0 to 100; a bool is an int.
unfoldable pub read_risk_score : Value → Option ℕ
read_risk_score (int (pos n)) = if leb n 100 then some n else none
read_risk_score (bool true) = some 1
read_risk_score (bool false) = some 0
read_risk_score _ = none

unfoldable pub read_reason : String → Value → String
unfolding is_blank
read_reason default (str s) = if is_blank s then default else s
read_reason default _ = default

-- `f"Policy {policy.name} rule {index} matched"`
unfoldable pub matched_reason : Policy → ℕ → String
unfolding str_nat
matched_reason policy index =
    join ("Policy " ∷ policy.name ∷ " rule " ∷ str_nat index ∷ " matched" ∷ [])

-- The body of the loop below the match, once the effect is read.
unfoldable pub apply_rule : Policy → ℕ → Fields → Option Outcome → Option ℕ → RuleResult
apply_rule policy index rule none score =
    denial (join ("Invalid effect in policy rule " ∷ str_nat index ∷ [])) policy
apply_rule policy index rule (some effect) none =
    denial (join ("Invalid risk_score in policy rule " ∷ str_nat index ∷ [])) policy
apply_rule policy index rule (some effect) (some score) = record {
  outcome = effect;
  risk_score = score;
  reason =
      read_reason (matched_reason policy index)
        (get_or "reason" (str (matched_reason policy index)) rule);
  policy_id = policy.id;
}

unfoldable pub apply_matched : Policy → ℕ → Fields → Result (List RuleResult)
unfolding get_or read_effect read_risk_score apply_rule
apply_matched policy index rule = do
  effect ← read_effect (get_or "effect" (str "deny") rule)
  ok (
      apply_rule policy index rule effect
        (read_risk_score (get_or "risk_score" (int (pos 50)) rule))
      ∷ [])

module _ (formats : Formats) (policy : Policy) (agent : Agent) (intent : ExecutionIntent) where
  unfoldable pub evaluate_rule : ℕ → Value → Result (List RuleResult)
  unfolding get_or apply_matched
  evaluate_rule index (dict rule) = do
    matched ← matches formats (get_or "when" (dict end) rule) agent intent
    if matched then apply_matched policy index rule else ok []
  evaluate_rule index _ =
      ok (denial (join ("Malformed rule at index " ∷ str_nat index ∷ [])) policy ∷ [])

  unfoldable pub evaluate_rules : ℕ → Items → Result (List RuleResult)
  evaluate_rules index nil = ok []
  evaluate_rules index (cons rule rules) = do
    here ← evaluate_rule index rule
    rest ← evaluate_rules (index + 1) rules
    ok (here ++ rest)

  unfoldable pub rules_of : Value → Result (List RuleResult)
  unfolding evaluate_rules
  rules_of (list rules) = evaluate_rules 0 rules
  rules_of _ = ok (denial "Policy rules must be a list" policy ∷ [])

  unfoldable pub evaluate_definition : Value → Result (List RuleResult)
  unfolding rules_of get_or
  evaluate_definition (dict definition) = rules_of (get_or "rules" (list nil) definition)
  evaluate_definition _ = ok (denial "Policy definition is malformed" policy ∷ [])

  unfoldable pub evaluate_policy : Result (List RuleResult)
  unfolding evaluate_definition
  evaluate_policy = evaluate_definition policy.definition

module _ (formats : Formats) (agent : Agent) (intent : ExecutionIntent) where
  -- The loop of `evaluate` over the policies.
  unfoldable pub evaluate_policies : List Policy → Result (List RuleResult)
  evaluate_policies [] = ok []
  evaluate_policies (policy ∷ policies) = do
    here ← evaluate_policy formats policy agent intent
    rest ← evaluate_policies policies
    ok (here ++ rest)
