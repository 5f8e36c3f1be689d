-- ===== src/Engine/Decision.antt =====
-- What a decision of `evaluate` says about the results behind it.
use marcel_arch.Prelude.{
  String, ◌≤◌, ◌≡◌, ◌⊎◌, refl, sym, ap, inl, inr, true, false, Option, none, some, List, [], ◌∷◌,
  ◌++◌, All, All-append, Bool-cases, one-cases, is_some, subst,
}
use marcel_arch.Prelude.Int.{ℤ}
use marcel_arch.Prelude.Result.{Result, ok, ok-injective, Result-cases}
use marcel_arch.Models.{Agent}
use marcel_arch.World.{World}
use marcel_arch.Schemas.{ExecutionIntent, PolicyDecision, deny}
use marcel_arch.Services.{Services}
use marcel_arch.Rules.{RuleResult, evaluate_policies}
use marcel_arch.Rules.Bounds.{evaluate_policies-le}
use marcel_arch.Governor.{remaining}
use marcel_arch.Engine.{
  agents_of, enabled_policies, is_allowed, budget_results, check_budget, evaluate_active, evaluate,
  decide,
}
use marcel_arch.Engine.FailClosed.{tail}
use marcel_arch.Engine.Decided.{
  IsDecided, Adds, budget_results-Adds, decide-IsDecided, budget_results-le,
}

-- A denial for this reason alone, with the highest score.
abbrev denied : String → PolicyDecision
denied reason = record {
  outcome = deny;
  risk_score = 100;
  reasons = reason ∷ [];
  policy_ids = [];
  remaining_budget = none;
  hitl_transaction_id = none;
}

module _ (services : Services) (intent : ExecutionIntent) (w : World services.redis.State) where
  -- The decisions that no rule has a part in.
  pub data IsRefused (d : PolicyDecision) : Type 0 where
    unknown :
        agents_of intent.agent_id w.db.agents ≡ []
        → d ≡ denied "Agent is not registered or active"
        → IsRefused d
    inactive :
        (agent : Agent)
        → agents_of intent.agent_id w.db.agents ≡ agent ∷ []
        → agent.active ≡ false
        → d ≡ denied "Agent is not registered or active"
        → IsRefused d
    no_right :
        (agent : Agent)
        → agents_of intent.agent_id w.db.agents ≡ agent ∷ []
        → agent.active ≡ true
        → is_allowed agent intent.action ≡ false
        → d ≡ denied "Action is not allowed for agent"
        → IsRefused d
    no_currency :
        is_some intent.requested_amount ≡ true
        → intent.currency ≡ none
        → d ≡ denied "Currency is required for financial intent"
        → IsRefused d

  -- What the budget adds where the intent has this amount and currency, and what remains of it.
  abbrev IsBudget : Option ℤ → Option String → Option ℤ → List RuleResult → Type 0
  IsBudget none currency left budget = (left ≡ none) × (budget ≡ [])
  IsBudget (some amount) none left budget = ⊥
  IsBudget (some amount) (some currency) left budget =
      ((remaining services.redis intent.agent_id currency w).0 ≡ ok left) × Adds amount left budget

  -- A decision on the results of the rules of every enabled policy, and of the budget behind them.
  pub record HasResults (d : PolicyDecision) : Type 0 where
    pub agent : Agent
    pub found : agents_of intent.agent_id w.db.agents ≡ agent ∷ []
    pub active : agent.active ≡ true
    pub permitted : is_allowed agent intent.action ≡ true
    pub results : List RuleResult
    pub evaluated :
        evaluate_policies services.formats agent intent
          (services.order_policies (enabled_policies w.db.policies))
        ≡ ok results
    pub budget : List RuleResult
    pub added : IsBudget intent.requested_amount intent.currency d.remaining_budget budget
    pub decided : IsDecided services.formats agent (results ++ budget) d

  abbrev OfBudget : Agent → List RuleResult → Option ℤ → Option String → PolicyDecision → Type 0
  OfBudget agent results amount currency d =
      (budget : List RuleResult) × IsBudget amount currency d.remaining_budget budget
      × IsDecided services.formats agent (results ++ budget) d

  abbrev Ends : Agent → List RuleResult → Option ℤ → Option String → PolicyDecision → Type 0
  Ends agent results amount currency d =
      ((is_some amount ≡ true)
        × (currency ≡ none)
        × (d ≡ denied "Currency is required for financial intent"))
      ⊎ OfBudget agent results amount currency d

  of_decide :
      (agent : Agent) (results more : List RuleResult) (left : Option ℤ) (amount : Option ℤ)
      (currency : Option String) (d : PolicyDecision)
      → All (λ r. r.risk_score ≤ 100) results
      → All (λ r. r.risk_score ≤ 100) more
      → IsBudget amount currency left more
      → ◌≡◌ {A = Result PolicyDecision}
          (ok (decide services.formats agent (results ++ more) left))
          (ok d)
      → OfBudget agent results amount currency d
  unfolding decide
  of_decide agent results more left amount currency d h k budget e =
      let same = ok-injective e in
      (
        more,
        subst (λ x. IsBudget amount currency x more)
            (ap (λ (x : PolicyDecision). x.remaining_budget) same) budget,
        subst (IsDecided services.formats agent (results ++ more)) same (
            decide-IsDecided services.formats agent (results ++ more) left
              (All-append _ results more h k)),
      )

  tail-Ends :
      (agent : Agent) (results : List RuleResult) (amount : Option ℤ) (currency : Option String)
      (d : PolicyDecision)
      → All (λ r. r.risk_score ≤ 100) results
      → (tail services w agent results intent.agent_id amount currency w).0 ≡ ok d
      → Ends agent results amount currency d
  unfolding check_budget
  tail-Ends agent results none currency d h e =
      inr (of_decide agent results [] none none currency d h tt (refl, refl) e)
  tail-Ends agent results (some amount) none d h e = inl (refl, refl, sym (ok-injective e))
  tail-Ends agent results (some amount) (some currency) d h e =
      elim (Result-cases (remaining services.redis intent.agent_id currency w).0) [
        | inl (left, q) ↦ inr (
            of_decide agent results (budget_results amount left) left (some amount) (some currency)
              d h (budget_results-le amount left) (q, budget_results-Adds amount left) (rw q at e))
        | inr (x, q) ↦ cc (rw q at e)
      ]

  active-cases :
      (agent : Agent) (d : PolicyDecision)
      → agents_of intent.agent_id w.db.agents ≡ agent ∷ []
      → agent.active ≡ true
      → (evaluate_active services intent (some agent) w).0 ≡ ok d
      → IsRefused d ⊎ HasResults d
  unfolding evaluate_active
  active-cases agent d f a e = elim (Bool-cases (is_allowed agent intent.action)) [
    | inr none_given ↦
        inl (no_right agent f a none_given (sym (ok-injective (simp none_given at e))))
    | inl right ↦
        elim (Result-cases (
          evaluate_policies services.formats agent intent
            (services.order_policies (enabled_policies w.db.policies)))) [
              | inl (results, q) ↦
                  let small = evaluate_policies-le services.formats agent intent _ results q in
                  elim (tail-Ends agent results intent.requested_amount intent.currency d small
                    (simp (right, q) at e)) [
                      | inl (amount, currency, same) ↦ inl (no_currency amount currency same)
                      | inr (budget, added, decided) ↦ inr (record {
                        agent = agent;
                        found = f;
                        active = a;
                        permitted = right;
                        results = results;
                        evaluated = q;
                        budget = budget;
                        added = added;
                        decided = decided;
                      })
                    ]
              | inr (x, q) ↦ cc (simp (right, q) at e)
            ]
  ]

  -- Every decision that `evaluate` returns is either a denial with the score 100, for the one
  -- reason that holds, or a decision on the results of the rules of every enabled policy and of
  -- the budget. The budget adds nothing without an amount or where the amount is within what
  -- remains of it, a denial where there is none, and else a demand of approval; what remains is
  -- in the decision. Its outcome is the strictest of the results. Its score is at most 100, at
  -- least the base risk of the agent's tier and every result's score, and one of these. Its
  -- policy ids are those of the results in order, each once, and then stripped; its reasons are
  -- those of the results in their order, stripped, or the default.
  pub evaluate-cases :
      (d : PolicyDecision) → (evaluate services intent w).0 ≡ ok d → IsRefused d ⊎ HasResults d
  unfolding evaluate
  evaluate-cases d e = elim (one-cases (agents_of intent.agent_id w.db.agents)) [
    | inl f ↦ inl (unknown f (sym (ok-injective (simp f at e))))
    | inr (inl (agent, f)) ↦ elim (Bool-cases agent.active) [
      | inl a ↦ active-cases agent d f a (simp (f, a) at e)
      | inr a ↦ inl (inactive agent f a (sym (ok-injective (simp (f, a) at e))))
    ]
    | inr (inr (b, c, rest, f)) ↦ cc (simp f at e)
  ]
