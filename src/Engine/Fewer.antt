-- ===== src/Engine/Fewer.antt =====
-- `evaluate` under some policies and under fewer of them.
use mathlib.Core.List.{Perm, Permᴰ}
use mathlib.Core.Logic.{∥∥₁_elim}
use marcel_arch.Prelude.{
  String, ◌≡◌, refl, sym, ap, ◌∙◌, inl, inr, Bool, true, false, Option, none, some, List, [], ◌∷◌,
  ◌++◌, ◌&&◌, all, both, keep, arith, one-cases, Option-cases, Bool-cases,
}
use marcel_arch.Prelude.Int.{ℤ}
use marcel_arch.Prelude.Result.{Result, ok, err, Result-cases, ◌>>=◌}
use marcel_arch.Models.{Agent, Policy, budgets_of}
use marcel_arch.World.{World}
use marcel_arch.Redis.{Redis}
use marcel_arch.Schemas.{Outcome, ExecutionIntent, allow, deny, require_approval}
use marcel_arch.Services.{Services}
use marcel_arch.Formats.{Formats}
use marcel_arch.Rules.{RuleResult, evaluate_policy, evaluate_policies}
use marcel_arch.Governor.{remaining, budget_key, cached_amount}
use marcel_arch.Engine.{enabled_policies, evaluate}
use marcel_arch.Engine.FailClosed.{AllAllow, IsFunded, Cleared}
use marcel_arch.Engine.Allows.{Allows, evaluate-allow_iff}

module _ {A : Type 0} (p : A → Bool) where
  all-append : (xs ys : List A) → all p (xs ++ ys) ≡ (all p xs && all p ys)
  all-append [] ys = refl
  all-append (x ∷ xs) ys = ground (arith, all-append xs ys)

  all-permᴰ : {xs ys : List A} → Permᴰ xs ys → all p xs ≡ all p ys
  all-permᴰ Permᴰ.nil = refl
  all-permᴰ (Permᴰ.cons {a = x} {b = y} {l₁ = xs} {l₂ = ys} e h) = rw (e, all-permᴰ h)
  all-permᴰ (Permᴰ.swap {a = x} {b = y} {a' = x'} {b' = y'} {l = xs} e f) = rw (e, f) (ground arith)
  all-permᴰ (Permᴰ.trans h k) = all-permᴰ h ∙ all-permᴰ k

keep-append :
    {A : Type 0} (p : A → Bool) (xs ys : List A) → keep p (xs ++ ys) ≡ keep p xs ++ keep p ys
keep-append p [] ys = refl
keep-append p (x ∷ xs) ys = ground (arith, keep-append p xs ys)

abbrev is_allow : Outcome → Bool
is_allow allow = true
is_allow _ = false

is_allow-eq : (o : Outcome) → is_allow o ≡ true → o ≡ allow
is_allow-eq allow h = refl
is_allow-eq deny h = absurd (cc h)
is_allow-eq require_approval h = absurd (cc h)

abbrev all_allow : List RuleResult → Bool
all_allow = all (λ r. is_allow r.outcome)

AllAllow-of_all : (rs : List RuleResult) → all_allow rs ≡ true → AllAllow rs
AllAllow-of_all [] h = tt
AllAllow-of_all (r ∷ rs) h =
    let parts = both (is_allow r.outcome) (all_allow rs) h in
    (is_allow-eq r.outcome parts.0, AllAllow-of_all rs parts.1)

all-of_AllAllow : (rs : List RuleResult) → AllAllow rs → all_allow rs ≡ true
all-of_AllAllow [] h = refl
all-of_AllAllow (r ∷ rs) h = simp (h.0, all-of_AllAllow rs h.1) refl

-- An evaluation that returns and in which nothing objects.
abbrev agrees : Result (List RuleResult) → Bool
agrees (ok rs) = all_allow rs
agrees (err e) = false

agrees-both :
    (r s : Result (List RuleResult))
    → agrees (r >>= λ here. s >>= λ rest. ok (here ++ rest)) ≡ (agrees r && agrees s)
agrees-both (ok xs) (ok ys) = all-append (λ r. is_allow r.outcome) xs ys
agrees-both (ok xs) (err e) = ground arith
agrees-both (err e) s = refl

module _ (formats : Formats) (agent : Agent) (intent : ExecutionIntent) where
  -- The policy does not object to the intent.
  abbrev policy_agrees : Policy → Bool
  policy_agrees p = agrees (evaluate_policy formats p agent intent)

  agrees-policies :
      (ps : List Policy) → agrees (evaluate_policies formats agent intent ps) ≡ all policy_agrees ps
  unfolding evaluate_policies
  agrees-policies [] = refl
  agrees-policies (p ∷ ps) =
      agrees-both (evaluate_policy formats p agent intent)
        (evaluate_policies formats agent intent ps)
      ∙ rw (agrees-policies ps)

Bool_set : IsSet Bool
Bool_set = hlevel

all-perm : {A : Type 0} (p : A → Bool) {xs ys : List A} → Perm xs ys → all p xs ≡ all p ys
all-perm p h = ∥∥₁_elim h (Bool_set _ _) (all-permᴰ p)

abbrev pub with_policies : {C : Type 0} → List Policy → World C → World C
with_policies ps w = record w { db = record w.db { policies = ps } }

cached_amount-state :
    (redis : Redis) (o : Option ℤ) (v w : World redis.State)
    → (cached_amount redis o v).0 ≡ (cached_amount redis o w).0
cached_amount-state redis none v w = refl
cached_amount-state redis (some amount) v w = refl

-- What is left of a budget does not depend on the policies.
remaining-with_policies :
    (redis : Redis) (agent_id currency : String) (w : World redis.State) (ps : List Policy)
    → (remaining redis agent_id currency (with_policies ps w)).0
      ≡ (remaining redis agent_id currency w).0
unfolding remaining
remaining-with_policies redis agent_id currency w ps =
    elim (one-cases (budgets_of agent_id currency w.db.budgets)) [
      | inl e ↦ simp e refl
      | inr (inr (b, c, rest, e)) ↦ simp e refl
      | inr (inl (b, e)) ↦ elim (Bool-cases b.active) [
        | inr i ↦ simp (e, i) refl
        | inl a ↦ elim (Option-cases (redis.get w.cache (budget_key agent_id currency))) [
          | inl q ↦ simp (e, a, q) (cached_amount-state redis (redis.get _ _) _ _)
          | inr (amount, q) ↦ simp (e, a, q) refl
        ]
      ]
    ]

module _ (services : Services) (intent : ExecutionIntent) (w : World services.redis.State)
    (xs ys : List Policy) where
  abbrev test : Agent → Policy → Bool
  test agent = policy_agrees services.formats agent intent

  -- The results of some policies, in the order of the database.
  abbrev results_of : Agent → List Policy → Result (List RuleResult)
  results_of agent ps =
      evaluate_policies services.formats agent intent
        (services.order_policies (enabled_policies ps))

  agrees-results_of :
      (agent : Agent) (ps : List Policy)
      → agrees (results_of agent ps) ≡ all (test agent) (enabled_policies ps)
  agrees-results_of agent ps =
      agrees-policies services.formats agent intent (services.order_policies (enabled_policies ps))
      ∙ all-perm (test agent) (services.order_policies-perm (enabled_policies ps))

  fewer_agree :
      (agent : Agent)
      → agrees (results_of agent (xs ++ ys)) ≡ true
      → agrees (results_of agent xs) ≡ true
  fewer_agree agent h =
      agrees-results_of agent xs
      ∙ (both (all (test agent) (enabled_policies xs)) (all (test agent) (enabled_policies ys)) (
          sym (all-append (test agent) (enabled_policies xs) (enabled_policies ys))
          ∙ ap (all (test agent)) (sym (keep-append (λ p. p.enabled) xs ys))
          ∙ sym (agrees-results_of agent (xs ++ ys))
          ∙ h)).0

  funded_still :
      (agent_id : String) (amount : Option ℤ) (currency : Option String)
      → IsFunded services (with_policies (xs ++ ys) w) agent_id amount currency
      → IsFunded services (with_policies xs w) agent_id amount currency
  funded_still agent_id none currency h = tt
  funded_still agent_id (some amount) none h = h
  funded_still agent_id (some amount) (some currency) (left, read, fits) = (
    left,
    remaining-with_policies services.redis agent_id currency w xs
        ∙ sym (remaining-with_policies services.redis agent_id currency w (xs ++ ys))
        ∙ read,
    fits,
  )

  fewer-Cleared :
      Cleared services intent (with_policies (xs ++ ys) w)
      → Cleared services intent (with_policies xs w)
  fewer-Cleared h =
      let agree =
        fewer_agree h.agent (ap agrees h.evaluated ∙ all-of_AllAllow h.results h.none_object) in
      elim (Result-cases (results_of h.agent xs)) [
        | inl (results, e) ↦ record {
          agent = h.agent;
          found = h.found;
          active = h.active;
          permitted = h.permitted;
          results = results;
          evaluated = e;
          none_object = AllAllow-of_all results (rw e at agree);
          funded = funded_still intent.agent_id intent.requested_amount intent.currency h.funded;
        }
        | inr (x, e) ↦ absurd (cc (rw e at agree))
      ]

  -- An intent that is allowed under some policies is allowed if the last of them are taken away,
  -- all else in the state being the same: a policy that is added turns no refusal into an
  -- allowance.
  pub evaluate_fewer_policies :
      Allows (evaluate services intent) (with_policies (xs ++ ys) w)
      → Allows (evaluate services intent) (with_policies xs w)
  evaluate_fewer_policies h =
      (evaluate-allow_iff services intent (with_policies xs w)).1
        (fewer-Cleared ((evaluate-allow_iff services intent (with_policies (xs ++ ys) w)).0 h))
