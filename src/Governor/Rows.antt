-- ===== src/Governor/Rows.antt =====
-- The budget rows under `put_budget`.
use marcel_arch.Prelude.{
  String, ◌≡◌, refl, ◌≢◌, ◌⊎◌, inl, inr, List, [], ◌∷◌, arith, eq_iff, All, Bool-cases,
}
use marcel_arch.Prelude.Int.{◌≤ℤ◌}
use marcel_arch.Models.{Budget, is_budget_of, budgets_of}
use marcel_arch.Governor.{put_budget}

-- No budget has consumed more than its limit.
abbrev pub IsCapped : Budget → Type 0
IsCapped b = b.consumed_amount ≤ℤ b.limit_amount

abbrev pub AllCapped : List Budget → Type 0
AllCapped = All IsCapped

module _ (new : Budget) {agent_id currency : String} where
  put_budget_absent :
      (rows : List Budget)
      → new.agent_id ≡ agent_id
      → new.currency ≡ currency
      → budgets_of agent_id currency rows ≡ []
      → budgets_of agent_id currency (put_budget new rows) ≡ []
  unfolding put_budget
  put_budget_absent [] ea ec h = refl
  put_budget_absent (b ∷ rows) ea ec h = ground (arith, put_budget_absent rows ea ec)

  -- The row that was found is the one that is written.
  pub budgets_of-put_budget :
      (b : Budget) (rows : List Budget)
      → new.agent_id ≡ agent_id
      → new.currency ≡ currency
      → budgets_of agent_id currency rows ≡ b ∷ []
      → budgets_of agent_id currency (put_budget new rows) ≡ new ∷ []
  unfolding put_budget
  budgets_of-put_budget b [] ea ec h = ground arith
  budgets_of-put_budget b (r ∷ rows) ea ec h = ground (
    arith,
    budgets_of-put_budget b rows ea ec,
    put_budget_absent rows ea ec,
    eq_iff new.agent_id agent_id,
    eq_iff new.currency currency,
  )

-- The budgets of any other agent or currency stay as they are.
pub budgets_of-put_budget_ne :
    (new : Budget) (agent_id currency : String) (rows : List Budget)
    → ((new.agent_id ≢ agent_id) ⊎ (new.currency ≢ currency))
    → budgets_of agent_id currency (put_budget new rows) ≡ budgets_of agent_id currency rows
unfolding put_budget
budgets_of-put_budget_ne new agent_id currency [] h = refl
budgets_of-put_budget_ne new agent_id currency (r ∷ rows) h = ground (
  arith,
  budgets_of-put_budget_ne new agent_id currency rows h,
  eq_iff r.agent_id new.agent_id,
  eq_iff r.currency new.currency,
  eq_iff r.agent_id agent_id,
  eq_iff r.currency currency,
  eq_iff new.agent_id agent_id,
  eq_iff new.currency currency,
)

pub AllCapped-put_budget :
    (new : Budget) (rows : List Budget)
    → IsCapped new
    → AllCapped rows
    → AllCapped (put_budget new rows)
unfolding put_budget
AllCapped-put_budget new [] h k = tt
AllCapped-put_budget new (b ∷ rows) h k =
    elim (Bool-cases (is_budget_of new.agent_id new.currency b)) [
      | inl e ↦ rw e (h, AllCapped-put_budget new rows h k.1)
      | inr e ↦ rw e (k.0, AllCapped-put_budget new rows h k.1)
    ]

-- A row that a query finds has the agent and the currency that were asked for.
pub budgets_of_sound :
    (agent_id currency : String) (b : Budget) (rest rows : List Budget)
    → budgets_of agent_id currency rows ≡ b ∷ rest
    → (b.agent_id ≡ agent_id) × (b.currency ≡ currency)
budgets_of_sound agent_id currency b rest [] h = ground arith
budgets_of_sound agent_id currency b rest (r ∷ rows) h = ground (
  arith,
  budgets_of_sound agent_id currency b rest rows,
  eq_iff r.agent_id agent_id,
  eq_iff r.currency currency,
)
