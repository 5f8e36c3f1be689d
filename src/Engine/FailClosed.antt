-- ===== src/Engine/FailClosed.antt =====
-- What a decision of `evaluate` says about the state: the engine fails closed.
use marcel_arch.Formats.{Formats}
use marcel_arch.Prelude.{
  String, ◌≡◌, ap, ◌∙◌, inl, inr, true, Option, none, some, List, [], ◌∷◌, ◌++◌, All, Bool-cases,
  one-cases,
}
use marcel_arch.Prelude.Int.{ℤ, ◌≤ℤ◌, ltb_ℤ, ltb_ℤ-false}
use marcel_arch.Prelude.Result.{ok, ok-injective, Result-cases}
use marcel_arch.Prelude.Action.{Action, pure, ◌>>=◌}
use marcel_arch.Models.{Agent}
use marcel_arch.World.{World}
use marcel_arch.Schemas.{ExecutionIntent, PolicyDecision, allow}
use marcel_arch.Services.{Services}
use marcel_arch.Rules.{RuleResult, evaluate_policies}
use marcel_arch.Governor.{remaining}
use marcel_arch.Engine.{
  agents_of, enabled_policies, is_allowed, over_budget, budget_results, conclude, check_budget,
  evaluate_active, evaluate, decide,
}
use marcel_arch.Engine.Verdict.{outcome_of-allow}

abbrev pub AllAllow : List RuleResult → Type 0
AllAllow = All (λ r. r.outcome ≡ allow)

AllAllow-append : (xs ys : List RuleResult) → AllAllow (xs ++ ys) → AllAllow xs × AllAllow ys
AllAllow-append [] ys h = (tt, h)
AllAllow-append (x ∷ xs) ys h = let (hx, hy) = AllAllow-append xs ys h.1 in ((h.0, hx), hy)

decide-allow :
    (formats : Formats) (agent : Agent) (results more : List RuleResult) (left : Option ℤ)
    → (decide formats agent (results ++ more) left).outcome ≡ allow
    → AllAllow results × AllAllow more
unfolding decide
decide-allow formats agent results more left h =
    AllAllow-append results more (outcome_of-allow (results ++ more) h)

within_budget : (amount left : ℤ) → AllAllow (budget_results amount (some left)) → amount ≤ℤ left
within_budget amount left h = elim (Bool-cases (ltb_ℤ left amount)) [
  | inl over ↦ absurd (impossible (rw over at h))
  | inr fits ↦ ltb_ℤ-false left amount fits
]
  where
    impossible : AllAllow (over_budget ∷ []) → ⊥
    impossible k = cc (k.0)

module _ (services : Services) (w : World services.redis.State) where
  -- The amount, if there is one, has a currency and an active budget with as much left.
  abbrev pub IsFunded : String → Option ℤ → Option String → Type 0
  IsFunded agent_id none currency = Unit
  IsFunded agent_id (some amount) none = ⊥
  IsFunded agent_id (some amount) (some currency) =
      (left : ℤ) × ((remaining services.redis agent_id currency w).0 ≡ ok (some left))
      × (amount ≤ℤ left)

  abbrev pub tail :
      Agent
      → List RuleResult
      → String
      → Option ℤ
      → Option String
      → Action (World services.redis.State) PolicyDecision
  tail agent results agent_id amount currency =
      check_budget services agent_id amount currency >>= λ budget.
      pure (conclude services.formats agent results budget)

  tail-allow :
      (agent : Agent) (results : List RuleResult) (agent_id : String) (amount : Option ℤ)
      (currency : Option String) (d : PolicyDecision)
      → (tail agent results agent_id amount currency w).0 ≡ ok d
      → d.outcome ≡ allow
      → AllAllow results × IsFunded agent_id amount currency
  unfolding check_budget
  tail-allow agent results agent_id none currency d e h = (
    (decide-allow services.formats agent results [] none
        (ap (λ (d : PolicyDecision). d.outcome) (ok-injective e) ∙ h)).0,
    tt,
  )
  tail-allow agent results agent_id (some amount) none d e h = cc (ok-injective e)
  tail-allow agent results agent_id (some amount) (some currency) d e h =
      elim (Result-cases (remaining services.redis agent_id currency w).0) [
        | inl (none, q) ↦
            let e' = ap (λ (d : PolicyDecision). d.outcome) (ok-injective (rw q at e)) in
            let parts = decide-allow services.formats agent results _ none (e' ∙ h) in
            absurd (cc parts.1.0)
        | inl (some left, q) ↦
            let e' = ap (λ (d : PolicyDecision). d.outcome) (ok-injective (rw q at e)) in
            let parts =
              decide-allow services.formats agent results (budget_results amount (some left))
                (some left) (e' ∙ h) in
            (parts.0, (left, q, within_budget amount left parts.1))
        | inr (x, q) ↦ cc (rw q at e)
      ]

module _ (services : Services) (intent : ExecutionIntent) (w : World services.redis.State) where
  -- Everything that an allowed intent has behind it.
  pub record Cleared : Type 0 where
    pub agent : Agent
    pub found : agents_of intent.agent_id w.db.agents ≡ agent ∷ []
    pub active : agent.active ≡ true
    pub permitted : is_allowed agent intent.action ≡ true
    pub results : List RuleResult
    pub evaluated :
        evaluate_policies services.formats agent intent
          (services.order_policies (enabled_policies w.db.policies))
        ≡ ok results
    pub none_object : AllAllow results
    pub funded : IsFunded services w intent.agent_id intent.requested_amount intent.currency

  active-allow :
      (agent : Agent) (d : PolicyDecision)
      → agents_of intent.agent_id w.db.agents ≡ agent ∷ []
      → agent.active ≡ true
      → (evaluate_active services intent (some agent) w).0 ≡ ok d
      → d.outcome ≡ allow
      → Cleared
  unfolding evaluate_active
  active-allow agent d f a e h = elim (Bool-cases (is_allowed agent intent.action)) [
    | inr no_right ↦ cc (h, ok-injective (simp no_right at e))
    | inl right ↦
        elim (Result-cases (
          evaluate_policies services.formats agent intent
            (services.order_policies (enabled_policies w.db.policies)))) [
              | inl (results, q) ↦
                  let parts =
                    tail-allow services w agent results intent.agent_id intent.requested_amount
                      intent.currency d (simp (right, q) at e) h in
                  record {
                    agent = agent;
                    found = f;
                    active = a;
                    permitted = right;
                    results = results;
                    evaluated = q;
                    none_object = parts.0;
                    funded = parts.1;
                  }
              | inr (x, q) ↦ cc (simp (right, q) at e)
            ]
  ]

  -- Where `evaluate` decides allow, the agent is the one with that id, it is active and the action is
  -- among its own; every result of every enabled policy's rules is allow; and an amount, if one is
  -- requested, has a currency in which an active budget has at least as much left.
  pub evaluate-allow :
      (d : PolicyDecision) → (evaluate services intent w).0 ≡ ok d → d.outcome ≡ allow → Cleared
  unfolding evaluate
  evaluate-allow d e h = elim (one-cases (agents_of intent.agent_id w.db.agents)) [
    | inl f ↦ cc (h, ok-injective (simp f at e))
    | inr (inl (agent, f)) ↦ elim (Bool-cases agent.active) [
      | inl a ↦ active-allow agent d f a (simp (f, a) at e) h
      | inr a ↦ cc (h, ok-injective (simp (f, a) at e))
    ]
    | inr (inr (b, c, rest, f)) ↦ cc (simp f at e)
  ]
