-- ===== src/Engine/Verdict.antt =====
-- How the results of the rules make the outcome and the risk score.
use marcel_arch.Formats.{Formats}
use marcel_arch.Prelude.{
  ℕ, String, ◌≤◌, ◌≡◌, refl, ap, sym, ◌∙◌, ◌||◌, Bool, true, false, Option, List, [], ◌∷◌, ◌++◌,
  max, min, nat_eq, arith, any, All, if◌then◌else◌,
}
use marcel_arch.Prelude.Int.{ℤ}
use marcel_arch.Models.{Agent}
use marcel_arch.Schemas.{Outcome, allow, deny, require_approval}
use marcel_arch.Rules.{RuleResult}
use marcel_arch.Engine.{is_deny, is_approval, outcome_of, base_risk, max_score, decide}

-- How strict an outcome is.
abbrev pub severity : Outcome → ℕ
severity allow = 0
severity require_approval = 1
severity deny = 2

severity_zero : (o : Outcome) → severity o ≡ 0 → o ≡ allow
severity_zero allow h = refl
severity_zero deny h = absurd (omega arith)
severity_zero require_approval h = absurd (omega arith)

-- The strictest of the results, by a plain recursion.
abbrev pub strictest : List RuleResult → ℕ
strictest [] = 0
strictest (r ∷ rs) = max (severity r.outcome) (strictest rs)

severity_step :
    (o : Outcome) (d a : Bool)
    → severity (
        if (elim o [ deny ↦ true | _ ↦ false ]) || d
        then deny
        else if (elim o [ require_approval ↦ true | _ ↦ false ]) || a
        then require_approval
        else allow)
      ≡ max (severity o) (severity (if d then deny else if a then require_approval else allow))
severity_step allow d a = ground arith
severity_step deny d a = ground arith
severity_step require_approval d a = ground arith

-- The outcome of any results is the strictest of them, deny before require_approval before allow,
-- and allow if there are none.
pub severity-outcome_of :
    (results : List RuleResult) → severity (outcome_of results) ≡ strictest results
unfolding outcome_of
severity-outcome_of [] = refl
severity-outcome_of (r ∷ rs) =
    severity_step r.outcome (any is_deny rs) (any is_approval rs)
    ∙ ap (max (severity r.outcome)) (severity-outcome_of rs)

pub strictest-append :
    (xs ys : List RuleResult) → strictest (xs ++ ys) ≡ max (strictest xs) (strictest ys)
strictest-append [] ys = omega arith
strictest-append (x ∷ xs) ys = omega (arith, strictest-append xs ys)

strictest_zero :
    (results : List RuleResult) → strictest results ≡ 0 → All (λ r. r.outcome ≡ allow) results
strictest_zero [] h = tt
strictest_zero (r ∷ rs) h = (severity_zero r.outcome (omega arith), strictest_zero rs (omega arith))

pub outcome_of-allow :
    (results : List RuleResult) → outcome_of results ≡ allow → All (λ r. r.outcome ≡ allow) results
outcome_of-allow results h =
    strictest_zero results (sym (severity-outcome_of results) ∙ ap severity h)

-- The scores.
pub base-le-max_score : (base : ℕ) (results : List RuleResult) → base ≤ max_score base results
base-le-max_score base [] = omega arith
base-le-max_score base (r ∷ rs) = omega (arith, base-le-max_score (max base r.risk_score) rs)

pub All-le-max_score :
    (base : ℕ) (results : List RuleResult)
    → All (λ r. r.risk_score ≤ max_score base results) results
All-le-max_score base [] = tt
All-le-max_score base (r ∷ rs) = (
  omega (arith, base-le-max_score (max base r.risk_score) rs),
  All-le-max_score (max base r.risk_score) rs,
)

pub max_score-le :
    (bound base : ℕ) (results : List RuleResult)
    → base ≤ bound
    → All (λ r. r.risk_score ≤ bound) results
    → max_score base results ≤ bound
max_score-le bound base [] h k = h
max_score-le bound base (r ∷ rs) h k =
    max_score-le bound (max base r.risk_score) rs (omega (arith, k.0)) k.1

pub base_risk-le : (tier : String) → base_risk tier ≤ 100
unfolding base_risk
base_risk-le tier = ground arith

capped :
    (m : ℕ) (results : List RuleResult)
    → m ≤ 100
    → All (λ r. r.risk_score ≤ m) results
    → All (λ r. r.risk_score ≤ min 100 m) results
capped m [] h k = tt
capped m (r ∷ rs) h k = (omega (arith, k.0), capped m rs h k.1)

-- The greatest score is the base or that of a result.
max_score-attained :
    (base : ℕ) (results : List RuleResult)
    → (nat_eq base (max_score base results)
        || any (λ r. nat_eq r.risk_score (max_score base results)) results)
      ≡ true
max_score-attained base [] = ground arith
max_score-attained base (r ∷ rs) = ground (arith, max_score-attained (max base r.risk_score) rs)

-- If no result scores above 100, the score of the decision is at most 100, is at least the base risk
-- of the agent's tier and every result's score, and is one of these.
pub decide-risk_score :
    (formats : Formats) (agent : Agent) (results : List RuleResult) (left : Option ℤ)
    → All (λ r. r.risk_score ≤ 100) results
    → let score = (decide formats agent results left).risk_score in
      (score ≤ 100)
      × (base_risk agent.risk_tier ≤ score)
      × All (λ r. r.risk_score ≤ score) results
      × ((nat_eq (base_risk agent.risk_tier) score || any (λ r. nat_eq r.risk_score score) results)
          ≡ true)
unfolding decide
decide-risk_score formats agent results left h =
    let base = base_risk agent.risk_tier in
    let low = base-le-max_score base results in
    let high = max_score-le 100 base results (base_risk-le agent.risk_tier) h in
    let score : min 100 (max_score base results) ≡ max_score base results = omega arith in
    (
      omega arith,
      omega (arith, low, base_risk-le agent.risk_tier),
      capped (max_score base results) results high (All-le-max_score base results),
      rw score (max_score-attained base results),
    )
