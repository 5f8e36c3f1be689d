-- ===== src/Ledger/Upserts.antt =====
-- `upsert_budget` beside the allotment on the abstract ledger.
use marcel_arch.Prelude.{ℕ, String, ◌≡◌, refl, ap, ◌∙◌, some, List, [], arith}
use marcel_arch.Prelude.Int.{ℤ, pos, ◌≤ℤ◌}
use marcel_arch.Prelude.Result.{Result, ok, err}
use marcel_arch.Models.{Budget, budgets_of}
use marcel_arch.Schemas.{BudgetUpsert, BudgetResponse}
use marcel_arch.World.{World}
use marcel_arch.Services.{Services}
use marcel_arch.Digests.{Digests}
use marcel_arch.Audit.{AuditSigner}
use marcel_arch.Governor.Rows.{budgets_of-put_budget, budgets_of_sound}
use marcel_arch.Tables.{budget_response, new_budget, set_limit}
use marcel_arch.Router.{upsert_budget}
use marcel_arch.Router.Budgets.{Placed, created, changed, UpsertSpec, upsert_budget_lem}
use marcel_arch.Ledger.Rows.{
  elsewhere_of, budgets_of-append, budgets_of-append_ne, is_budget_of-own, is_budget_of-other,
}
use marcel_arch.Ledger.{Account, account_of, account, allot, Changed}

allot_covered :
    (new limit consumed : ℤ)
    → consumed ≤ℤ new
    → allot new (some (record { limit = limit; consumed = consumed }))
      ≡ some (record { limit = new; consumed = consumed })
allot_covered new limit consumed h = ground arith

module _ (services : Services) (digests : Digests) (signer : AuditSigner) (id agent_id : String)
    (payload : BudgetUpsert) (amount_text subject : String) (now logged_at : ℕ)
    (w : World services.redis.State) where
  open services.redis use {State}

  -- Only a budget that the new limit covers is changed, or none was there.
  abbrev pub UpsertRefines : Result BudgetResponse × World State → Type 0
  UpsertRefines (ok response, w') =
      (a : Account) × (allot payload.limit_amount (account w agent_id payload.currency) ≡ some a)
      × (response.limit_amount ≡ a.limit)
      × (response.consumed_amount ≡ a.consumed)
      × Changed agent_id payload.currency a w w'
  UpsertRefines (err e, w') =
      (agent_id' currency' : String)
      → account w' agent_id' currency' ≡ account w agent_id' currency'

  Placed-Refines :
      (row : Budget) (rows : List Budget) (w' : World State)
      → Placed services digests signer id agent_id payload amount_text subject now logged_at w row
          rows
      → w'.db.budgets ≡ rows
      → (allot payload.limit_amount (account w agent_id payload.currency)
          ≡ some (record { limit = row.limit_amount; consumed = row.consumed_amount }))
        × Changed agent_id payload.currency
            (record { limit = row.limit_amount; consumed = row.consumed_amount })
            w
            w'
  unfolding new_budget set_limit
  Placed-Refines row rows w' (created absent free) e =
      let fresh = new_budget id agent_id payload now in
      (
        simp absent refl,
        record {
          there =
              ap (λ rows. account_of (budgets_of agent_id payload.currency rows)) e
              ∙ ap account_of (
                  budgets_of-append agent_id payload.currency fresh w.db.budgets
                    (is_budget_of-own fresh) absent);
          elsewhere = λ agent_id' currency' ne.
              ap (λ rows. account_of (budgets_of agent_id' currency' rows)) e
              ∙ ap account_of (
                  budgets_of-append_ne agent_id' currency' fresh w.db.budgets
                    (is_budget_of-other fresh agent_id' currency' ne));
        },
      )
  Placed-Refines row rows w' (changed b old covers) e =
      let row = set_limit payload.limit_amount now b in
      let sound = budgets_of_sound agent_id payload.currency b [] w.db.budgets old in
      (
        simp old (allot_covered payload.limit_amount b.limit_amount b.consumed_amount covers),
        record {
          there =
              ap (λ rows. account_of (budgets_of agent_id payload.currency rows)) e
              ∙ ap account_of (budgets_of-put_budget row b w.db.budgets sound.0 sound.1 old);
          elsewhere = λ agent_id' currency' ne.
              ap (λ rows. account_of (budgets_of agent_id' currency' rows)) e
              ∙ elsewhere_of row agent_id payload.currency agent_id' currency' w.db.budgets sound.0
                  sound.1 ne;
        },
      )

  refine_upsert :
      (out : Result BudgetResponse × World State)
      → UpsertSpec services digests signer id agent_id payload amount_text subject now logged_at w
          out
      → UpsertRefines out
  unfolding budget_response
  refine_upsert (ok response, w') h =
      let placed =
        Placed-Refines h.row h.rows w' h.placed (ap (λ (v : World State). v.db.budgets) h.state) in
      (
        record { limit = h.row.limit_amount; consumed = h.row.consumed_amount },
        placed.0,
        ap (λ (r : BudgetResponse). r.limit_amount) h.read,
        ap (λ (r : BudgetResponse). r.consumed_amount) h.read,
        placed.1,
      )
  refine_upsert (err e, w') h =
      λ agent_id' currency'. ap (λ db. account_of (budgets_of agent_id' currency' db.budgets)) h.1

  -- For a positive limit: where `upsert_budget` returns it has allotted the limit on the abstract
  -- ledger, which did not refuse it, the response shows the account, and every other account is as
  -- before; and where it raises, every account is as before.
  pub upsert_budget-Refines :
      pos 1 ≤ℤ payload.limit_amount
      → UpsertRefines (
          upsert_budget services digests signer id agent_id payload amount_text subject now
            logged_at w)
  upsert_budget-Refines h =
      refine_upsert
        (upsert_budget services digests signer id agent_id payload amount_text subject now logged_at
          w)
        (upsert_budget_lem services digests signer id agent_id payload amount_text subject now
          logged_at w h)
