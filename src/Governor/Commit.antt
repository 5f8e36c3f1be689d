-- ===== src/Governor/Commit.antt =====
-- What `commit` does on every branch: the authoritative ledger and its cap.
use marcel_arch.Prelude.{
  ℕ, ◌+◌, String, ◌≡◌, refl, inl, inr, true, false, List, [], ◌∷◌, ◌∙◌, arith, Bool-cases,
  one-cases,
}
use marcel_arch.Prelude.Int.{ℤ, pos, ◌+ℤ◌, ◌≤ℤ◌, ltb_ℤ, leb_ℤ}
use marcel_arch.Prelude.Result.{Result, ok, err}
use marcel_arch.Models.{Budget, budgets_of}
use marcel_arch.Redis.{Redis}
use marcel_arch.World.{World}
use marcel_arch.Governor.{put_budget, spend, commit}
use marcel_arch.Governor.Rows.{budgets_of-put_budget, budgets_of_sound}

pub spend_key :
    (amount : ℤ) (now : ℕ) (b : Budget)
    → ((spend amount now b).agent_id ≡ b.agent_id) × ((spend amount now b).currency ≡ b.currency)
unfolding spend
spend_key amount now b = (refl, refl)

module _ (redis : Redis) (agent_id currency : String) (amount : ℤ) (now : ℕ) where
  -- The row with the amount added to what it has consumed, and its next version.
  abbrev pub charged : Budget → Budget
  charged b = record b {
    consumed_amount = b.consumed_amount +ℤ amount;
    version = b.version + 1;
    updated_at = now;
  }

  -- What is true of the rows and the keys when a commit of `w` returns.
  pub record Spent (w w' : World redis.State) (b' : Budget) : Type 0 where
    pub before : Budget
    pub found : budgets_of agent_id currency w.db.budgets ≡ before ∷ []
    pub active : before.active ≡ true
    pub is_positive : pos 1 ≤ℤ amount
    pub within : before.consumed_amount +ℤ amount ≤ℤ before.limit_amount
    pub row : b' ≡ charged before
    pub written : budgets_of agent_id currency w'.db.budgets ≡ b' ∷ []
    pub state : w' ≡ record w { db = record w.db { budgets = put_budget b' w.db.budgets } }

  -- Why a commit raises.
  pub data Refused (w : World redis.State) : Type 0 where
    bad_amount : amount ≤ℤ pos 0 → Refused w
    missing : budgets_of agent_id currency w.db.budgets ≡ [] → Refused w
    ambiguous :
        (b c : Budget) (rest : List Budget)
        → budgets_of agent_id currency w.db.budgets ≡ b ∷ c ∷ rest
        → Refused w
    inactive :
        (b : Budget)
        → budgets_of agent_id currency w.db.budgets ≡ b ∷ []
        → b.active ≡ false
        → Refused w
    over_cap :
        (b : Budget)
        → budgets_of agent_id currency w.db.budgets ≡ b ∷ []
        → ¬ (b.consumed_amount +ℤ amount ≤ℤ b.limit_amount)
        → Refused w

  abbrev pub CommitSpec : World redis.State → Result Budget × World redis.State → Type 0
  CommitSpec w (ok b', w') = Spent w w' b'
  CommitSpec w (err e, w') = Refused w × (w' ≡ w)

  pub spend-charged : (b : Budget) → spend amount now b ≡ charged b
  unfolding spend
  spend-charged b = refl

  -- One active row was found, and the amount is positive.
  commit_found :
      (w : World redis.State) (b : Budget)
      → budgets_of agent_id currency w.db.budgets ≡ b ∷ []
      → b.active ≡ true
      → leb_ℤ amount (pos 0) ≡ false
      → CommitSpec w (commit redis agent_id currency amount now w)
  unfolding commit
  commit_found w b h a p =
      let sound = budgets_of_sound agent_id currency b [] w.db.budgets h in
      let key = spend_key amount now b in
      elim (Bool-cases (ltb_ℤ b.limit_amount (b.consumed_amount +ℤ amount))) [
        | inl over ↦ simp (p, h, a, over) (over_cap b h (ground arith), refl)
        | inr fits ↦
            simp (p, h, a, fits)
              (record {
                before = b;
                found = h;
                active = a;
                is_positive = ground arith;
                within = ground arith;
                row = spend-charged b;
                written =
                    budgets_of-put_budget (spend amount now b) b w.db.budgets (key.0 ∙ sound.0)
                      (key.1 ∙ sound.1) h;
                state = refl;
              })
      ]

  -- A commit either raises and changes nothing, for one of the five reasons; or the one row of the
  -- budget is active, has room for the positive amount, and is written back with the amount added to
  -- what it has consumed and its version raised by one, all else in the state being as before.
  pub commit_lem :
      (w : World redis.State) → CommitSpec w (commit redis agent_id currency amount now w)
  unfolding commit
  commit_lem w = elim (Bool-cases (leb_ℤ amount (pos 0))) [
    | inl bad ↦ simp bad (bad_amount (ground arith), refl)
    | inr p ↦ elim (one-cases (budgets_of agent_id currency w.db.budgets)) [
      | inl h ↦ simp (p, h) (missing h, refl)
      | inr (inl (b, h)) ↦ elim (Bool-cases b.active) [
        | inl a ↦ commit_found w b h a p
        | inr a ↦ simp (p, h, a) (inactive b h a, refl)
      ]
      | inr (inr (b, c, rest, h)) ↦ simp (p, h) (ambiguous b c rest h, refl)
    ]
  ]
