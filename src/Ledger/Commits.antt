-- ===== src/Ledger/Commits.antt =====
-- `commit` beside the booking on the abstract ledger.
use marcel_arch.Prelude.{
  ℕ, suc, ◌≤◌, String, ◌≡◌, refl, ap, subst, ◌∙◌, true, Option, none, some, List, [], ◌∷◌, arith,
  length,
}
use marcel_arch.Prelude.Int.{ℤ, pos, ◌+ℤ◌, ◌≤ℤ◌}
use marcel_arch.Prelude.Keep.{AtMostOne}
use marcel_arch.Prelude.Result.{Result, ok, err}
use marcel_arch.Models.{Budget, is_budget_of, budgets_of}
use marcel_arch.Redis.{Redis}
use marcel_arch.World.{World}
use marcel_arch.Governor.{spend, commit}
use marcel_arch.Governor.Rows.{budgets_of_sound}
use marcel_arch.Governor.Commit.{
  Spent, Refused, bad_amount, missing, ambiguous, inactive, over_cap, CommitSpec, commit_lem,
}
use marcel_arch.Ledger.Rows.{elsewhere_of}
use marcel_arch.Ledger.{Account, account_of, account, charge, Changed}

charge_bad : (amount : ℤ) (o : Option Account) → amount ≤ℤ pos 0 → charge amount o ≡ none
charge_bad amount none h = refl
charge_bad amount (some a) h = ground arith

charge_over :
    (amount limit consumed : ℤ)
    → ¬ (consumed +ℤ amount ≤ℤ limit)
    → charge amount (some (record { limit = limit; consumed = consumed })) ≡ none
charge_over amount limit consumed h = ground arith

charge_within :
    (amount limit consumed : ℤ)
    → pos 1 ≤ℤ amount
    → consumed +ℤ amount ≤ℤ limit
    → charge amount (some (record { limit = limit; consumed = consumed }))
      ≡ some (record { limit = limit; consumed = consumed +ℤ amount })
charge_within amount limit consumed p h = ground arith

not_two : (n : ℕ) → ¬ (suc (suc n) ≤ 1)
not_two n h = omega arith

module _ (redis : Redis) (agent_id currency : String) (amount : ℤ) (now : ℕ) (w : World redis.State)
    (one : AtMostOne (is_budget_of agent_id currency) w.db.budgets)
    (all_active : (b : Budget)
      → budgets_of agent_id currency w.db.budgets ≡ b ∷ []
      → b.active ≡ true) where
  abbrev pub CommitRefines : Result Budget × World redis.State → Type 0
  CommitRefines (ok b, w') =
      (a : Account) × (charge amount (account w agent_id currency) ≡ some a)
      × Changed agent_id currency a w w'
  CommitRefines (err e, w') = (charge amount (account w agent_id currency) ≡ none) × (w' ≡ w)

  Spent-Refines :
      (b' : Budget) (w' : World redis.State)
      → Spent redis agent_id currency amount now w w' b'
      → CommitRefines (ok b', w')
  unfolding spend
  Spent-Refines b' w' h =
      let sound = budgets_of_sound agent_id currency h.before [] w.db.budgets h.found in
      let before = h.before in
      (
        record { limit = before.limit_amount; consumed = before.consumed_amount +ℤ amount },
        simp h.found (
            charge_within amount before.limit_amount before.consumed_amount h.is_positive h.within),
        record {
          there =
              ap account_of h.written
              ∙ ap
                  (λ (b : Budget).
                    some (record { limit = b.limit_amount; consumed = b.consumed_amount }))
                  h.row;
          elsewhere = λ agent_id' currency' ne.
              ap (λ (v : World redis.State). account v agent_id' currency') h.state
              ∙ elsewhere_of b' agent_id currency agent_id' currency' w.db.budgets
                  (ap (λ (b : Budget). b.agent_id) h.row ∙ sound.0)
                  (ap (λ (b : Budget). b.currency) h.row ∙ sound.1) ne;
        },
      )

  Refused-Refines :
      Refused redis agent_id currency amount now w
      → charge amount (account w agent_id currency) ≡ none
  Refused-Refines (bad_amount h) = charge_bad amount (account w agent_id currency) h
  Refused-Refines (missing h) = simp h refl
  Refused-Refines (ambiguous b c rest h) =
      absurd (not_two (length rest) (subst (λ (rows : List Budget). length rows ≤ 1) h one))
  Refused-Refines (inactive b h e) = absurd (cc (all_active b h, e))
  Refused-Refines (over_cap b h e) = simp h (charge_over amount b.limit_amount b.consumed_amount e)

  refine :
      (out : Result Budget × World redis.State)
      → CommitSpec redis agent_id currency amount now w out
      → CommitRefines out
  refine (ok b', w') h = Spent-Refines b' w' h
  refine (err e, w') h = (Refused-Refines h.0, h.1)

  -- Where the agent has one budget in the currency at most, and it is active, `commit` is the booking
  -- on the abstract ledger: it returns exactly if the booking is not refused, the account is then the
  -- booked one and every other account is as before; and where it raises, nothing has changed.
  pub commit-Refines : CommitRefines (commit redis agent_id currency amount now w)
  commit-Refines =
      refine (commit redis agent_id currency amount now w)
        (commit_lem redis agent_id currency amount now w)
