-- ===== src/Engine/Order.antt =====
-- The order in which the database returns the policies does not matter to a decision.
use mathlib.Core.List.{Perm, Permᴰ}
use mathlib.Core.Logic.{∥∥₁_elim}
use native.Mathlib.Nat.{ℕ_set}
use marcel_arch.Prelude.{
  ℕ, String, ◌≡◌, refl, sym, ◌∙◌, inl, inr, true, Option, none, some, List, [], ◌∷◌, ◌++◌, max,
  arith, Bool-cases, one-cases,
}
use marcel_arch.Prelude.Int.{ℤ}
use marcel_arch.Prelude.Result.{Result, ok, err, Result-cases, ◌>>=◌}
use marcel_arch.Models.{Agent, Policy}
use marcel_arch.World.{World}
use marcel_arch.Schemas.{ExecutionIntent, PolicyDecision}
use marcel_arch.Rules.{RuleResult, evaluate_policy, evaluate_policies}
use marcel_arch.Governor.{remaining}
use marcel_arch.Formats.{Formats}
use marcel_arch.Services.{Services}
use marcel_arch.Engine.FailClosed.{tail}
use marcel_arch.Redis.{Redis}
use marcel_arch.Engine.{
  base_risk, max_score, decide, BudgetCheck, final, checked, conclude, check_budget, agents_of,
  enabled_policies, is_allowed, evaluate_active, evaluate, refusal, budget_checked,
}
use marcel_arch.Engine.Verdict.{severity, strictest, strictest-append, severity-outcome_of}

weighed_set : IsSet (Option (ℕ × ℕ))
weighed_set = hlevel ℕ_set

-- The strictest outcome and the greatest score of a list of results, or that there is none.
abbrev weigh : Result (List RuleResult) → Option (ℕ × ℕ)
weigh (ok results) = some (strictest results, max_score 0 results)
weigh (err e) = none

abbrev heavier : Option (ℕ × ℕ) → Option (ℕ × ℕ) → Option (ℕ × ℕ)
heavier none y = none
heavier (some x) none = none
heavier (some (a, b)) (some (c, d)) = some (max a c, max b d)

max_score-base :
    (base : ℕ) (results : List RuleResult) → max_score base results ≡ max base (max_score 0 results)
max_score-base base [] = omega arith
max_score-base base (r ∷ rs) =
    omega (arith, max_score-base (max base r.risk_score) rs, max_score-base (max 0 r.risk_score) rs)

max_score-append :
    (xs ys : List RuleResult) → max_score 0 (xs ++ ys) ≡ max (max_score 0 xs) (max_score 0 ys)
max_score-append [] ys = omega arith
max_score-append (x ∷ xs) ys = omega (
  arith,
  max_score-append xs ys,
  max_score-base (max 0 x.risk_score) (xs ++ ys),
  max_score-base (max 0 x.risk_score) xs,
)

weigh-both :
    (r s : Result (List RuleResult))
    → weigh (r >>= λ here. s >>= λ rest. ok (here ++ rest)) ≡ heavier (weigh r) (weigh s)
weigh-both (ok xs) (ok ys) = cc (strictest-append xs ys, max_score-append xs ys)
weigh-both (ok xs) (err e) = refl
weigh-both (err e) s = refl

heavier_swap : (x y z : Option (ℕ × ℕ)) → heavier x (heavier y z) ≡ heavier y (heavier x z)
heavier_swap x y z = ground arith

module _ (formats : Formats) (agent : Agent) (intent : ExecutionIntent) where
  abbrev run : List Policy → Result (List RuleResult)
  run = evaluate_policies formats agent intent

  weigh-cons :
      (p : Policy) (ps : List Policy)
      → weigh (run (p ∷ ps))
        ≡ heavier (weigh (evaluate_policy formats p agent intent)) (weigh (run ps))
  unfolding evaluate_policies
  weigh-cons p ps =
      weigh-both (evaluate_policy formats p agent intent)
        (evaluate_policies formats agent intent ps)

  weigh_swap :
      (p q : Policy) (ps : List Policy) → weigh (run (p ∷ q ∷ ps)) ≡ weigh (run (q ∷ p ∷ ps))
  weigh_swap p q ps =
      rw (weigh-cons p (q ∷ ps), weigh-cons q ps, weigh-cons q (p ∷ ps), weigh-cons p ps)
        (heavier_swap (weigh (evaluate_policy formats p agent intent))
          (weigh (evaluate_policy formats q agent intent)) (weigh (run ps)))

  weigh-permᴰ : {ps qs : List Policy} → Permᴰ ps qs → weigh (run ps) ≡ weigh (run qs)
  weigh-permᴰ Permᴰ.nil = refl
  weigh-permᴰ (Permᴰ.cons {a = p} {b = q} {l₁ = ps} {l₂ = qs} e h) =
      weigh-cons p ps ∙ rw (e, weigh-permᴰ h) (sym (weigh-cons q qs))
  weigh-permᴰ (Permᴰ.swap {a = p} {b = q} {a' = p'} {b' = q'} {l = ps} e f) =
      rw (e, f) (weigh_swap q' p' ps)
  weigh-permᴰ (Permᴰ.trans h k) = weigh-permᴰ h ∙ weigh-permᴰ k

  weigh-perm : {ps qs : List Policy} → Perm ps qs → weigh (run ps) ≡ weigh (run qs)
  weigh-perm h = ∥∥₁_elim h (weighed_set _ _) weigh-permᴰ

-- The outcome, by its severity, and the risk score of a decision, or that there is none.
abbrev pub summary : Result PolicyDecision → Option (ℕ × ℕ)
summary (ok d) = some (severity d.outcome, d.risk_score)
summary (err e) = none

summary-decide :
    (formats : Formats) (agent : Agent) (xs ys more : List RuleResult) (left : Option ℤ)
    → weigh (ok xs) ≡ weigh (ok ys)
    → summary (ok (decide formats agent (xs ++ more) left))
      ≡ summary (ok (decide formats agent (ys ++ more) left))
unfolding decide
summary-decide formats agent xs ys more left h =
    rw
      (
        severity-outcome_of (xs ++ more),
        severity-outcome_of (ys ++ more),
        strictest-append xs more,
        strictest-append ys more,
        max_score-base (base_risk agent.risk_tier) (xs ++ more),
        max_score-base (base_risk agent.risk_tier) (ys ++ more),
        max_score-append xs more,
        max_score-append ys more,
      )
      (cc h)

summary-conclude :
    (formats : Formats) (agent : Agent) (xs ys : List RuleResult) (b : BudgetCheck)
    → weigh (ok xs) ≡ weigh (ok ys)
    → summary (ok (conclude formats agent xs b)) ≡ summary (ok (conclude formats agent ys b))
summary-conclude formats agent xs ys (final d) h = refl
summary-conclude formats agent xs ys (checked left more) h =
    summary-decide formats agent xs ys more left h

module _ (redis : Redis) (formats : Formats) (order order' : List Policy → List Policy)
    (order-perm : (policies : List Policy) → Perm (order policies) policies)
    (order'-perm : (policies : List Policy) → Perm (order' policies) policies)
    (intent : ExecutionIntent) (w : World redis.State) where
  abbrev one : Services
  one = record {
    redis = redis;
    formats = formats;
    order_policies = order;
    order_policies-perm = order-perm;
  }

  abbrev other : Services
  other = record {
    redis = redis;
    formats = formats;
    order_policies = order';
    order_policies-perm = order'-perm;
  }

  policies-weigh :
      (agent : Agent)
      → weigh (run formats agent intent (order (enabled_policies w.db.policies)))
        ≡ weigh (run formats agent intent (order' (enabled_policies w.db.policies)))
  policies-weigh agent =
      weigh-perm formats agent intent (order-perm (enabled_policies w.db.policies))
      ∙ sym (weigh-perm formats agent intent (order'-perm (enabled_policies w.db.policies)))

  check_same :
      (agent : Agent) (xs ys : List RuleResult) (agent_id : String) (amount : Option ℤ)
      (currency : Option String)
      → weigh (ok xs) ≡ weigh (ok ys)
      → summary (tail one w agent xs agent_id amount currency w).0
        ≡ summary (tail other w agent ys agent_id amount currency w).0
  unfolding check_budget
  check_same agent xs ys agent_id none currency h =
      summary-conclude formats agent xs ys (checked none []) h
  check_same agent xs ys agent_id (some amount) none h =
      summary-conclude formats agent xs ys
        (final (refusal "Currency is required for financial intent")) h
  check_same agent xs ys agent_id (some amount) (some currency) h =
      elim (Result-cases (remaining redis agent_id currency w).0) [
        | inl (left, q) ↦ rw q (summary-conclude formats agent xs ys (budget_checked amount left) h)
        | inr (e, q) ↦ rw q
      ]

  active_same :
      (agent : Agent)
      → is_allowed agent intent.action ≡ true
      → summary (evaluate_active one intent (some agent) w).0
        ≡ summary (evaluate_active other intent (some agent) w).0
  unfolding evaluate_active
  active_same agent right =
      let ps = order (enabled_policies w.db.policies) in
      let qs = order' (enabled_policies w.db.policies) in
      let same = policies-weigh agent in
      elim (Result-cases (run formats agent intent ps)) [
        | inl (xs, p) ↦ elim (Result-cases (run formats agent intent qs)) [
          | inl (ys, q) ↦
              simp (right, p, q)
                (check_same agent xs ys intent.agent_id intent.requested_amount intent.currency
                  (simp (p, q) at same))
          | inr (e, q) ↦ cc (simp (p, q) at same)
        ]
        | inr (e, p) ↦ elim (Result-cases (run formats agent intent qs)) [
          | inl (ys, q) ↦ cc (simp (p, q) at same)
          | inr (e', q) ↦ simp (right, p, q)
        ]
      ]

  -- In whatever order the database returns the enabled policies, `evaluate` raises or decides alike,
  -- and where it decides, with the same outcome and the same risk score.
  pub evaluate_same_in_any_order :
      summary (evaluate one intent w).0 ≡ summary (evaluate other intent w).0
  unfolding evaluate
  evaluate_same_in_any_order = elim (one-cases (agents_of intent.agent_id w.db.agents)) [
    | inl f ↦ simp f
    | inr (inl (agent, f)) ↦ elim (Bool-cases agent.active) [
      | inl a ↦ elim (Bool-cases (is_allowed agent intent.action)) [
        | inl right ↦ simp (f, a) (active_same agent right)
        | inr no_right ↦ simp (f, a, evaluate_active, no_right)
      ]
      | inr a ↦ simp (f, a)
    ]
    | inr (inr (b, c, rest, f)) ↦ simp f
  ]
