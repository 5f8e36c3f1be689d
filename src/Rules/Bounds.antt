-- ===== src/Rules/Bounds.antt =====
-- What the results of a policy's rules can be, whatever the policy holds.
use marcel_arch.Prelude.{
  ℕ, ◌+◌, ◌≤◌, ◌≡◌, refl, Bool, true, false, Option, none, some, List, [], ◌∷◌, ◌++◌, arith, All,
  All-append, if◌then◌else◌,
}
use marcel_arch.Prelude.Int.{pos}
use marcel_arch.Prelude.Result.{Result, ok, err, >>=-eq-ok, ok-injective, ◌>>=◌}
use marcel_arch.Value.{Value, bool, int, str, list, dict, Items, nil, cons, Fields, end, get_or}
use marcel_arch.Models.{Agent, Policy}
use marcel_arch.Schemas.{ExecutionIntent, Outcome}
use marcel_arch.Formats.{Formats}
use marcel_arch.Conditions.{matches}
use marcel_arch.Rules.{
  RuleResult, read_effect, read_risk_score, apply_rule, apply_matched, evaluate_rule,
  evaluate_rules, rules_of, evaluate_definition, evaluate_policy, evaluate_policies,
}

-- A score in range, from the policy that is evaluated.
abbrev pub IsFrom : Policy → RuleResult → Type 0
IsFrom policy r = (r.risk_score ≤ 100) × (r.policy_id ≡ policy.id)

read_risk_score-le : (v : Value) (n : ℕ) → read_risk_score v ≡ some n → n ≤ 100
unfolding read_risk_score
read_risk_score-le (int (pos m)) n h = ground arith
read_risk_score-le (bool true) n h = ground arith
read_risk_score-le _ n h = ground arith

apply_rule-IsFrom :
    (policy : Policy) (index : ℕ) (rule : Fields) (effect : Option Outcome) (v : Value)
    → IsFrom policy (apply_rule policy index rule effect (read_risk_score v))
unfolding apply_rule
apply_rule-IsFrom policy index rule none v = (omega arith, refl)
apply_rule-IsFrom policy index rule (some effect) v = go (read_risk_score v) (read_risk_score-le v)
  where
    go :
        (score : Option ℕ)
        → ((n : ℕ) → score ≡ some n → n ≤ 100)
        → IsFrom policy (apply_rule policy index rule (some effect) score)
    go none h = (omega arith, refl)
    go (some n) h = (h n refl, refl)

module _ (formats : Formats) (policy : Policy) (agent : Agent) (intent : ExecutionIntent) where
  abbrev Fine : Result (List RuleResult) → Type 0
  Fine (ok results) = All (IsFrom policy) results
  Fine (err e) = Unit

  apply_matched-Fine : (index : ℕ) (rule : Fields) → Fine (apply_matched policy index rule)
  unfolding apply_matched
  apply_matched-Fine index rule = go (read_effect (get_or "effect" (str "deny") rule))
    where
      go :
          (r : Result (Option Outcome))
          → Fine (
              r >>= λ effect. ok (
                apply_rule policy index rule effect
                  (read_risk_score (get_or "risk_score" (int (pos 50)) rule))
                ∷ []))
      go (ok effect) =
          (apply_rule-IsFrom policy index rule effect (get_or "risk_score" (int (pos 50)) rule), tt)
      go (err e) = tt

  matched-Fine :
      (index : ℕ) (rule : Fields) (m : Result Bool)
      → Fine (m >>= λ matched. if matched then apply_matched policy index rule else ok [])
  matched-Fine index rule (ok true) = apply_matched-Fine index rule
  matched-Fine index rule (ok false) = tt
  matched-Fine index rule (err e) = tt

  evaluate_rule-Fine :
      (index : ℕ) (rule : Value) → Fine (evaluate_rule formats policy agent intent index rule)
  unfolding evaluate_rule
  evaluate_rule-Fine index (dict rule) =
      matched-Fine index rule (matches formats (get_or "when" (dict end) rule) agent intent)
  evaluate_rule-Fine index _ = ((omega arith, refl), tt)

  both-Fine :
      (r s : Result (List RuleResult))
      → Fine r
      → Fine s
      → Fine (r >>= λ here. s >>= λ rest. ok (here ++ rest))
  both-Fine (ok xs) (ok ys) h k = All-append (IsFrom policy) xs ys h k
  both-Fine (ok xs) (err e) h k = tt
  both-Fine (err e) s h k = tt

  evaluate_rules-Fine :
      (index : ℕ) (rules : Items) → Fine (evaluate_rules formats policy agent intent index rules)
  unfolding evaluate_rules
  evaluate_rules-Fine index nil = tt
  evaluate_rules-Fine index (cons rule rules) =
      both-Fine (evaluate_rule formats policy agent intent index rule)
        (evaluate_rules formats policy agent intent (index + 1) rules)
        (evaluate_rule-Fine index rule) (evaluate_rules-Fine (index + 1) rules)

  rules_of-Fine : (rules : Value) → Fine (rules_of formats policy agent intent rules)
  unfolding rules_of
  rules_of-Fine (list rules) = evaluate_rules-Fine 0 rules
  rules_of-Fine _ = ((omega arith, refl), tt)

  definition-Fine : (v : Value) → Fine (evaluate_definition formats policy agent intent v)
  unfolding evaluate_definition
  definition-Fine (dict d) = rules_of-Fine (get_or "rules" (list nil) d)
  definition-Fine _ = ((omega arith, refl), tt)

  -- Whatever a policy's definition is, each result of its evaluation has a score of at most 100 and
  -- the policy's id.
  pub evaluate_policy-IsFrom :
      (results : List RuleResult)
      → evaluate_policy formats policy agent intent ≡ ok results
      → All (IsFrom policy) results
  unfolding evaluate_policy
  evaluate_policy-IsFrom results h = rw h at (definition-Fine policy.definition)

module _ (formats : Formats) (agent : Agent) (intent : ExecutionIntent) where
  weaken :
      (policy : Policy) (results : List RuleResult)
      → All (IsFrom policy) results
      → All (λ r. r.risk_score ≤ 100) results
  weaken policy [] h = tt
  weaken policy (r ∷ rs) h = (h.0.0, weaken policy rs h.1)

  -- Every score of a run over any policies is at most 100.
  pub evaluate_policies-le :
      (policies : List Policy) (results : List RuleResult)
      → evaluate_policies formats agent intent policies ≡ ok results
      → All (λ r. r.risk_score ≤ 100) results
  unfolding evaluate_policies
  evaluate_policies-le [] results h = ground arith
  evaluate_policies-le (policy ∷ policies) results h =
      let (here, e, h') = >>=-eq-ok _ (evaluate_policy formats policy agent intent) h in
      let (rest, e', h'') = >>=-eq-ok _ (evaluate_policies formats agent intent policies) h' in
      rw (← ok-injective h'') (
        All-append (λ r. r.risk_score ≤ 100) here rest
          (weaken policy here (evaluate_policy-IsFrom formats policy agent intent here e))
          (evaluate_policies-le policies rest e'))
