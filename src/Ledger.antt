-- ===== src/Ledger.antt =====
-- The budgets as an abstract ledger: an account for an agent and a currency, whatever rows the table
-- holds, in which order and with which ids, versions and times.
pub mod Rows
pub mod Commits
pub mod Upserts
mod Tests
use marcel_arch.Prelude.{String, ◌≡◌, ◌≢◌, ◌⊎◌, Option, none, some, List, [], ◌∷◌, if◌then◌else◌}
use marcel_arch.Prelude.Int.{ℤ, pos, ◌+ℤ◌, ltb_ℤ, leb_ℤ}
use marcel_arch.Models.{Budget, budgets_of}
use marcel_arch.World.{World}

pub record Account : Type 0 where
  pub limit : ℤ
  pub consumed : ℤ

abbrev pub account_of : List Budget → Option Account
account_of [] = none
account_of (b ∷ rest) = some (record { limit = b.limit_amount; consumed = b.consumed_amount })

-- The account of an agent in a currency.
abbrev pub account : {C : Type 0} → World C → String → String → Option Account
account w agent_id currency = account_of (budgets_of agent_id currency w.db.budgets)

-- The account after an amount is booked on it; `none` if that is refused.
abbrev pub charge : ℤ → Option Account → Option Account
charge amount none = none
charge amount (some a) =
    if leb_ℤ amount (pos 0)
    then none
    else if ltb_ℤ a.limit (a.consumed +ℤ amount)
    then none
    else some (record { limit = a.limit; consumed = a.consumed +ℤ amount })

-- The account after a limit is set.
abbrev pub allot : ℤ → Option Account → Option Account
allot limit none = some (record { limit = limit; consumed = pos 0 })
allot limit (some a) =
    if ltb_ℤ limit a.consumed then none else some (record { limit = limit; consumed = a.consumed })

-- The account of the agent in the currency is `a`, and every other one is as before.
pub record Changed {C : Type 0} (agent_id currency : String) (a : Account) (w w' : World C)
    : Type 0 where
  pub there : account w' agent_id currency ≡ some a
  pub elsewhere :
      (agent_id' currency' : String)
      → ((agent_id ≢ agent_id') ⊎ (currency ≢ currency'))
      → account w' agent_id' currency' ≡ account w agent_id' currency'
