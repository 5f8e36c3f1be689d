-- ===== src/Engine/Decided.antt =====
-- `decide`: what a decision says of the results that it is made of.
use marcel_arch.Formats.{Formats}
use marcel_arch.Prelude.{
  String, ◌≤◌, ◌≡◌, ◌⊎◌, refl, ◌||◌, inl, inr, true, Option, none, some, List, [], ◌∷◌, ◌==◌,
  nat_eq, arith, any, All, map, Bool-cases,
}
use marcel_arch.Prelude.Int.{ℤ, ◌≤ℤ◌, ltb_ℤ}
use marcel_arch.Models.{Agent}
use marcel_arch.Schemas.{PolicyDecision, deny, require_approval}
use marcel_arch.Conditions.{member}
use marcel_arch.Rules.{RuleResult}
use marcel_arch.Engine.{budget_results, base_risk, decide, reasons_or_default}
use marcel_arch.Engine.Verdict.{severity, strictest, severity-outcome_of, decide-risk_score}
use marcel_arch.Engine.Ids.{IsIncreasing, decide-policy_ids}

-- The reasons of the results in their order, stripped, or the default where there are none.
abbrev HasReasons : Formats → List RuleResult → List String → Type 0
HasReasons formats [] reasons = reasons ≡ "All deterministic controls passed" ∷ []
HasReasons formats (r ∷ rs) reasons =
    reasons ≡ formats.trim r.reason ∷ map (λ x. formats.trim x.reason) rs

-- A decision on the results of an agent's intent.
pub record IsDecided (formats : Formats) (agent : Agent) (results : List RuleResult)
    (d : PolicyDecision) : Type 0 where
  pub strict : severity d.outcome ≡ strictest results
  pub low : base_risk agent.risk_tier ≤ d.risk_score
  pub high : d.risk_score ≤ 100
  pub covers : All (λ r. r.risk_score ≤ d.risk_score) results
  pub attained :
      (nat_eq (base_risk agent.risk_tier) d.risk_score
        || any (λ r. nat_eq r.risk_score d.risk_score) results)
      ≡ true
  pub ids : List String
  pub stripped : d.policy_ids ≡ map formats.trim ids
  pub increasing : IsIncreasing ids
  pub sources : (k : String) → member k ids ≡ any (λ r. r.policy_id == k) results
  pub reasons : HasReasons formats results d.reasons

-- What the budget adds to the results: a denial if there is none, a demand of approval if the amount
-- is more than what is left, and else nothing.
abbrev pub Adds : ℤ → Option ℤ → List RuleResult → Type 0
Adds amount none budget =
    budget
    ≡ record {
      outcome = deny;
      risk_score = 100;
      reason = "No active budget assigned";
      policy_id = "system-budget";
    }
      ∷ []
Adds amount (some left) budget =
    ((amount ≤ℤ left) × (budget ≡ []))
    ⊎ ((¬ (amount ≤ℤ left))
        × (budget
            ≡ record {
              outcome = require_approval;
              risk_score = 90;
              reason = "Requested amount exceeds remaining budget";
              policy_id = "system-budget";
            }
              ∷ []))

HasReasons_lem :
    (formats : Formats) (results : List RuleResult)
    → HasReasons formats results (reasons_or_default (map (λ r. formats.trim r.reason) results))
HasReasons_lem formats [] = refl
HasReasons_lem formats (r ∷ rs) = refl

pub budget_results-Adds :
    (amount : ℤ) (left : Option ℤ) → Adds amount left (budget_results amount left)
budget_results-Adds amount none = refl
budget_results-Adds amount (some left) = elim (Bool-cases (ltb_ℤ left amount)) [
  | inl e ↦ simp e (inr (ground arith, refl))
  | inr e ↦ simp e (inl (ground arith, refl))
]

pub decide-IsDecided :
    (formats : Formats) (agent : Agent) (results : List RuleResult) (left : Option ℤ)
    → All (λ r. r.risk_score ≤ 100) results
    → IsDecided formats agent results (decide formats agent results left)
unfolding decide
decide-IsDecided formats agent results left h =
    let score = decide-risk_score formats agent results left h in
    let ids = decide-policy_ids formats agent results left in
    record {
      strict = severity-outcome_of results;
      low = score.1;
      high = score.0;
      covers = score.2;
      attained = score.3;
      ids = ids.0;
      stripped = ids.1;
      increasing = ids.2;
      sources = ids.3;
      reasons = HasReasons_lem formats results;
    }

pub budget_results-le :
    (amount : ℤ) (left : Option ℤ) → All (λ r. r.risk_score ≤ 100) (budget_results amount left)
budget_results-le amount none = (omega arith, tt)
budget_results-le amount (some left) = elim (Bool-cases (ltb_ℤ left amount)) [
  | inl e ↦ simp e (omega arith, tt)
  | inr e ↦ simp e tt
]
