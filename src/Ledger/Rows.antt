-- ===== src/Ledger/Rows.antt =====
-- The rows of the budgets, as the accounts of the abstract ledger read them.
use marcel_arch.Prelude.{
  String, ◌≡◌, ◌≢◌, ◌⊎◌, ap, sym, ◌∙◌, inl, inr, true, false, List, [], ◌∷◌, ◌++◌, arith, eq_iff,
  eq_refl,
}
use marcel_arch.Models.{Budget, is_budget_of, budgets_of}
use marcel_arch.Governor.{put_budget}
use marcel_arch.Governor.Rows.{budgets_of-put_budget_ne}
use marcel_arch.Ledger.{account_of}

-- A row behind the table is found by a query for its key, and by no other.
pub budgets_of-append :
    (agent_id currency : String) (new : Budget) (rows : List Budget)
    → is_budget_of agent_id currency new ≡ true
    → budgets_of agent_id currency rows ≡ []
    → budgets_of agent_id currency (rows ++ new ∷ []) ≡ new ∷ []
budgets_of-append agent_id currency new [] own h = rw own
budgets_of-append agent_id currency new (b ∷ rows) own h =
    ground (arith, budgets_of-append agent_id currency new rows own)

pub budgets_of-append_ne :
    (agent_id currency : String) (new : Budget) (rows : List Budget)
    → is_budget_of agent_id currency new ≡ false
    → budgets_of agent_id currency (rows ++ new ∷ []) ≡ budgets_of agent_id currency rows
budgets_of-append_ne agent_id currency new [] other = rw other
budgets_of-append_ne agent_id currency new (b ∷ rows) other =
    ground (arith, budgets_of-append_ne agent_id currency new rows other)

pub is_budget_of-own : (b : Budget) → is_budget_of b.agent_id b.currency b ≡ true
is_budget_of-own b = rw (eq_refl b.agent_id, eq_refl b.currency)

pub is_budget_of-other :
    (b : Budget) (agent_id currency : String)
    → ((b.agent_id ≢ agent_id) ⊎ (b.currency ≢ currency))
    → is_budget_of agent_id currency b ≡ false
is_budget_of-other b agent_id currency h =
    ground (arith, eq_iff b.agent_id agent_id, eq_iff b.currency currency)

-- A row that has the key is written: the rows with another key stay.
pub elsewhere_of :
    (new : Budget) (agent_id currency agent_id' currency' : String) (rows : List Budget)
    → new.agent_id ≡ agent_id
    → new.currency ≡ currency
    → ((agent_id ≢ agent_id') ⊎ (currency ≢ currency'))
    → account_of (budgets_of agent_id' currency' (put_budget new rows))
      ≡ account_of (budgets_of agent_id' currency' rows)
elsewhere_of new agent_id currency agent_id' currency' rows ea ec (inl ne) =
    ap account_of
      (budgets_of-put_budget_ne new agent_id' currency' rows (inl (λ e. ne (sym ea ∙ e))))
elsewhere_of new agent_id currency agent_id' currency' rows ea ec (inr ne) =
    ap account_of
      (budgets_of-put_budget_ne new agent_id' currency' rows (inr (λ e. ne (sym ec ∙ e))))
