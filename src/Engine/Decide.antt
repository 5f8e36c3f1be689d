-- ===== src/Engine/Decide.antt =====
-- From the results of the rules to a decision: the last part of `evaluate`, and `_base_risk`.
use marcel_arch.Formats.{Formats}
use marcel_arch.Prelude.{
  ℕ, String, Bool, true, false, Option, none, List, [], ◌∷◌, map, max, min, ◌==◌, any, codes, ltb,
  nat_eq, if◌then◌else◌,
}
use marcel_arch.Prelude.Int.{ℤ}
use marcel_arch.Models.{Agent}
use marcel_arch.Schemas.{Outcome, allow, deny, require_approval, PolicyDecision}
use marcel_arch.Rules.{RuleResult}

abbrev pub is_deny : RuleResult → Bool
is_deny r = elim r.outcome [ deny ↦ true | _ ↦ false ]

abbrev pub is_approval : RuleResult → Bool
is_approval r = elim r.outcome [ require_approval ↦ true | _ ↦ false ]

unfoldable pub outcome_of : List RuleResult → Outcome
outcome_of results =
    if any is_deny results
    then deny
    else if any is_approval results
    then require_approval
    else allow

-- `_base_risk`
unfoldable pub base_risk : String → ℕ
base_risk tier =
    if tier == "low"
    then 10
    else if tier == "standard"
    then 25
    else if tier == "high"
    then 50
    else if tier == "critical"
    then 75
    else 100

-- `max([base, *scores])`
abbrev pub max_score : ℕ → List RuleResult → ℕ
max_score base [] = base
max_score base (r ∷ rs) = max_score (max base r.risk_score) rs

abbrev pub reasons_or_default : List String → List String
reasons_or_default [] = "All deterministic controls passed" ∷ []
reasons_or_default (r ∷ rs) = r ∷ rs

-- The order of Python's texts, by code points.
unfoldable pub before : List ℕ → List ℕ → Bool
before cs [] = false
before [] (d ∷ ds) = true
before (c ∷ cs) (d ∷ ds) = if nat_eq c d then before cs ds else ltb c d

unfoldable pub insert : String → List String → List String
insert s [] = s ∷ []
insert s (t ∷ ts) =
    if s == t then t ∷ ts else if before (codes s) (codes t) then s ∷ t ∷ ts else t ∷ insert s ts

-- `sorted(set(texts))`
unfoldable pub sorted_set : List String → List String
sorted_set [] = []
sorted_set (s ∷ ss) = insert s (sorted_set ss)

-- The two lists of texts are stripped by `PolicyDecision`, behind the sorting. The texts that stand in
-- the source have no white space to strip.
unfoldable pub decide : Formats → Agent → List RuleResult → Option ℤ → PolicyDecision
unfolding outcome_of base_risk sorted_set
decide formats agent results remaining = record {
  outcome = outcome_of results;
  risk_score = min 100 (max_score (base_risk agent.risk_tier) results);
  reasons = reasons_or_default (map (λ r. formats.trim r.reason) results);
  policy_ids = map formats.trim (sorted_set (map (λ r. r.policy_id) results));
  remaining_budget = remaining;
  hitl_transaction_id = none;
}

-- The decisions that `evaluate` returns before any rule counts.
abbrev pub refusal : String → PolicyDecision
refusal reason = record {
  outcome = deny;
  risk_score = 100;
  reasons = reason ∷ [];
  policy_ids = [];
  remaining_budget = none;
  hitl_transaction_id = none;
}
