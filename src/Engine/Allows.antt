-- ===== src/Engine/Allows.antt =====
-- When `evaluate` of marcel/core/engine.py decides allow.
use marcel_arch.Formats.{Formats}
use marcel_arch.Prelude.{
  String, ◌≡◌, ◌↔◌, refl, false, Option, none, some, List, [], ◌∷◌, ◌++◌, any, All-append, arith,
}
use marcel_arch.Prelude.Int.{ℤ, ◌≤ℤ◌, ltb_ℤ}
use marcel_arch.Prelude.Result.{Result, ok}
use marcel_arch.Models.{Agent}
use marcel_arch.World.{World}
use marcel_arch.Schemas.{ExecutionIntent, PolicyDecision, allow}
use marcel_arch.Services.{Services}
use marcel_arch.Rules.{RuleResult}
use marcel_arch.Engine.{
  is_deny, is_approval, outcome_of, decide, budget_results, check_budget, evaluate_active, evaluate,
}
use marcel_arch.Engine.FailClosed.{AllAllow, IsFunded, tail, Cleared, evaluate-allow}

none_deny : (results : List RuleResult) → AllAllow results → any is_deny results ≡ false
none_deny [] h = refl
none_deny (r ∷ rs) h = ground (arith, h.0, none_deny rs h.1)

none_approval : (results : List RuleResult) → AllAllow results → any is_approval results ≡ false
none_approval [] h = refl
none_approval (r ∷ rs) h = ground (arith, h.0, none_approval rs h.1)

outcome_of-AllAllow : (results : List RuleResult) → AllAllow results → outcome_of results ≡ allow
unfolding outcome_of
outcome_of-AllAllow results h = simp (none_deny results h, none_approval results h) refl

decide-AllAllow :
    (formats : Formats) (agent : Agent) (results more : List RuleResult) (left : Option ℤ)
    → AllAllow results
    → AllAllow more
    → (decide formats agent (results ++ more) left).outcome ≡ allow
unfolding decide
decide-AllAllow formats agent results more left h k =
    outcome_of-AllAllow (results ++ more) (All-append _ results more h k)

not_over : (amount left : ℤ) → amount ≤ℤ left → ltb_ℤ left amount ≡ false
not_over amount left h = ground arith

covered : (amount left : ℤ) → amount ≤ℤ left → AllAllow (budget_results amount (some left))
covered amount left h = simp (not_over amount left h) tt

-- A call that decides allow.
abbrev pub Allows : {S : Type 0} → (S → Result PolicyDecision × S) → S → Type 0
Allows m w = (d : PolicyDecision) × ((m w).0 ≡ ok d) × (d.outcome ≡ allow)

module _ (services : Services) (w : World services.redis.State) where
  tail-Allows :
      (agent : Agent) (results : List RuleResult) (agent_id : String) (amount : Option ℤ)
      (currency : Option String)
      → AllAllow results
      → IsFunded services w agent_id amount currency
      → Allows (tail services w agent results agent_id amount currency) w
  unfolding check_budget
  tail-Allows agent results agent_id none currency h k =
      (_, refl, decide-AllAllow services.formats agent results [] none h tt)
  tail-Allows agent results agent_id (some amount) none h k = absurd k
  tail-Allows agent results agent_id (some amount) (some currency) h (left, read, fits) = (
    decide services.formats agent (results ++ budget_results amount (some left)) (some left),
    simp read refl,
    decide-AllAllow services.formats agent results (budget_results amount (some left)) (some left) h
        (covered amount left fits),
  )

module _ (services : Services) (intent : ExecutionIntent) (w : World services.redis.State) where
  evaluate-Cleared : Cleared services intent w → Allows (evaluate services intent) w
  unfolding evaluate evaluate_active
  evaluate-Cleared h =
      simp (h.found, h.active, h.permitted, h.evaluated)
        (tail-Allows services w h.agent h.results intent.agent_id intent.requested_amount
          intent.currency h.none_object h.funded)

  -- `evaluate` decides allow exactly if: the agent is the one with that id, it is active and the action,
  -- or `*`, is among its own; the evaluation of the enabled policies does not raise, and every result is
  -- allow; and an amount, if one is requested, has a currency in which an active budget has at least as
  -- much left.
  pub evaluate-allow_iff : Allows (evaluate services intent) w ↔ Cleared services intent w
  evaluate-allow_iff = (λ h. evaluate-allow services intent w h.0 h.1 h.2, evaluate-Cleared)
