-- ===== src/System/Calls.antt =====
-- Soundness under the calls of the endpoints.
use marcel_arch.Prelude.{
  ℕ, String, ◌≡◌, refl, Option, none, some, [], ◌∷◌, inl, inr, arith, Bool-cases, one-cases,
}
use marcel_arch.Prelude.Int.{ℤ, pos, ◌≤ℤ◌, ltb_ℤ, int_laws}
use marcel_arch.Prelude.Action.{Action, ◌>>=◌}
use marcel_arch.Models.{Agent, Budget, budgets_of}
use marcel_arch.Schemas.{AgentCreate, BudgetUpsert, PolicyCreate}
use marcel_arch.World.{World}
use marcel_arch.Services.{Services}
use marcel_arch.Digests.{Digests}
use marcel_arch.Governor.{get_budget, reset, database_remaining}
use marcel_arch.Governor.Steps.{reset-rows}
use marcel_arch.Governor.Rows.{budgets_of_sound}
use marcel_arch.Audit.{AuditSigner}
use marcel_arch.Tables.{new_agent, new_budget, new_policy, set_limit, place_budget}
use marcel_arch.Engine.{find_agent}
use marcel_arch.Router.{register_agent, publish_budget, upsert_for, upsert_budget, create_policy}
use marcel_arch.System.Sound.{
  IsSound, Keeps, Keeps-db, bind-IsSound, Keeps-bind, Keeps-transaction, Keeps-on_integrity_error,
  Keeps-append, Keeps-pure, Keeps-raise,
}
use marcel_arch.System.Writes.{
  put_budget-IsSound, Keeps-add_agent, Keeps-add_policy, Keeps-add_budget,
}

module _ (services : Services) (digests : Digests) (signer : AuditSigner)
    (same_text : (t : ℕ) → digests.loaded_text t ≡ digests.aware_text t) where
  open services.redis use {State}

  pub Keeps-register_agent :
      (payload : AgentCreate) (subject : String) (now logged_at : ℕ)
      → Keeps digests signer (register_agent services digests signer payload subject now logged_at)
  unfolding register_agent
  Keeps-register_agent payload subject now logged_at = Keeps-transaction digests signer _ (
      Keeps-bind digests signer _ _
        (Keeps-on_integrity_error digests signer _ _
          (Keeps-add_agent digests signer (new_agent payload now)))
        (λ _.
          Keeps-bind digests signer _ _
            (Keeps-append digests signer same_text "agent_registered" subject _ logged_at)
            (λ r. Keeps-pure digests signer _)))

  pub Keeps-create_policy :
      (id : String) (payload : PolicyCreate) (subject : String) (now logged_at : ℕ)
      → Keeps digests signer
          (create_policy services digests signer id payload subject now logged_at)
  unfolding create_policy
  Keeps-create_policy id payload subject now logged_at = Keeps-transaction digests signer _ (
      Keeps-bind digests signer _ _
        (Keeps-on_integrity_error digests signer _ _
          (Keeps-add_policy digests signer (new_policy id payload now)))
        (λ _.
          Keeps-bind digests signer _ _
            (Keeps-append digests signer same_text "policy_created" subject _ logged_at)
            (λ r. Keeps-pure digests signer _)))

  Keeps-reset :
      (agent_id currency : String) (amount : ℤ)
      → Keeps digests signer (reset services.redis agent_id currency amount)
  Keeps-reset agent_id currency amount =
      Keeps-db digests signer _ (reset-rows services.redis agent_id currency amount)

  Keeps-publish_budget :
      (agent_id currency subject amount_text : String) (logged_at : ℕ) (b : Budget)
      → Keeps digests signer
          (publish_budget services digests signer agent_id currency subject amount_text logged_at b)
  unfolding publish_budget
  Keeps-publish_budget agent_id currency subject amount_text logged_at b =
      Keeps-bind digests signer _ _ (Keeps-reset agent_id currency (database_remaining b)) (λ _.
        Keeps-bind digests signer _ _
          (Keeps-append digests signer same_text "budget_updated" subject _ logged_at)
          (λ r. Keeps-pure digests signer _))

  -- What follows the query for a budget starts at a state in which its answer is known.
  pub Keeps-get_budget :
      {A : Type 0} (agent_id currency : String) (f : Option Budget → Action (World State) A)
      → ((w : World State)
          → budgets_of agent_id currency w.db.budgets ≡ []
          → IsSound digests signer w
          → IsSound digests signer (f none w).1)
      → ((b : Budget) (w : World State)
          → budgets_of agent_id currency w.db.budgets ≡ b ∷ []
          → IsSound digests signer w
          → IsSound digests signer (f (some b) w).1)
      → Keeps digests signer (get_budget services.redis agent_id currency >>= f)
  unfolding get_budget
  Keeps-get_budget agent_id currency f missing found = record {
    apply = λ w h. elim (one-cases (budgets_of agent_id currency w.db.budgets)) [
      | inl e ↦ simp e (missing w e h)
      | inr (inl (b, e)) ↦ simp e (found b w e h)
      | inr (inr (b, c, rest, e)) ↦ simp e h
    ];
  }

  -- The row of a budget that is found is given its limit.
  limit-IsSound :
      (agent_id currency : String) (b new : Budget) (limit : ℤ) (now : ℕ) (w : World State)
      → budgets_of agent_id currency w.db.budgets ≡ b ∷ []
      → IsSound digests signer w
      → IsSound digests signer (place_budget new limit now (some b) w).1
  unfolding place_budget set_limit
  limit-IsSound agent_id currency b new limit now w found h =
      let (ea, ec) = budgets_of_sound agent_id currency b [] w.db.budgets found in
      elim (Bool-cases (ltb_ℤ limit b.consumed_amount)) [
        | inl low ↦ simp low h
        | inr fits ↦ simp fits (
            put_budget-IsSound digests signer agent_id currency b (set_limit limit now b) w found ea
              ec (ground arith) h)
      ]

  module _ (id agent_id : String) (payload : BudgetUpsert)
      (is_positive : pos 1 ≤ℤ payload.limit_amount) (amount_text subject : String)
      (now logged_at : ℕ) where
    Keeps-place_new :
        Keeps digests signer {C = State}
          (place_budget (new_budget id agent_id payload now) payload.limit_amount now none)
    unfolding place_budget new_budget
    Keeps-place_new =
        Keeps-bind digests signer _ _
          (Keeps-add_budget digests signer (new_budget id agent_id payload now)
            (omega (int_laws, is_positive)))
          (λ _. Keeps-pure digests signer _)

    Keeps-upsert_for :
        (agent : Option Agent)
        → Keeps digests signer (
            upsert_for services digests signer id agent_id payload amount_text subject now logged_at
              agent)
    unfolding upsert_for
    Keeps-upsert_for none = Keeps-raise digests signer _
    Keeps-upsert_for (some agent) =
        Keeps-get_budget agent_id payload.currency _
          (λ w e h.
            bind-IsSound digests signer _
              (place_budget (new_budget id agent_id payload now) payload.limit_amount now none) w
              (Keeps-place_new.apply w h)
              (Keeps-publish_budget agent_id payload.currency subject amount_text logged_at))
          (λ b w e h.
            bind-IsSound digests signer _
              (place_budget (new_budget id agent_id payload now) payload.limit_amount now (some b))
              w
              (limit-IsSound agent_id payload.currency b (new_budget id agent_id payload now)
                payload.limit_amount now w e h)
              (Keeps-publish_budget agent_id payload.currency subject amount_text logged_at))

    pub Keeps-upsert_budget : Keeps digests signer (
        upsert_budget services digests signer id agent_id payload amount_text subject now logged_at)
    unfolding upsert_budget
    Keeps-upsert_budget = Keeps-transaction digests signer _ (
        Keeps-bind digests signer _ _
          (Keeps-db digests signer (find_agent services agent_id) (λ w. refl)) Keeps-upsert_for)
