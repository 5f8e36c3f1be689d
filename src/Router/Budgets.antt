-- ===== src/Router/Budgets.antt =====
-- `upsert_budget`: what it writes, and when it raises.
use marcel_arch.Prelude.{
  ℕ, String, ◌≡◌, refl, ap, true, false, List, [], ◌∷◌, ◌++◌, inl, inr, any, arith, Bool-cases,
  one-cases,
}
use marcel_arch.Prelude.Int.{pos, ◌-ℤ◌, ◌≤ℤ◌, ltb_ℤ, int_laws}
use marcel_arch.Prelude.Result.{Exn, Result, ok, err, http_exception}
use marcel_arch.Prelude.Action.{pure, continue}
use marcel_arch.Value.{Fields, str, end, field}
use marcel_arch.Models.{Agent, Budget, AuditLog, budgets_of}
use marcel_arch.Schemas.{BudgetUpsert, BudgetResponse}
use marcel_arch.World.{World, settle}
use marcel_arch.Services.{Services}
use marcel_arch.Digests.{Digests}
use marcel_arch.Governor.{
  put_budget, budget_key, database_remaining, reservation_ttl_seconds, reset,
}
use marcel_arch.Engine.{agents_of}
use marcel_arch.Audit.{AuditSigner, append}
use marcel_arch.Audit.Append.{AppendSpec, append_lem}
use marcel_arch.Tables.{budget_response, new_budget, set_limit, same_budget}
use marcel_arch.Router.{publish_budget, upsert_budget}

module _ (services : Services) (digests : Digests) (signer : AuditSigner) (id agent_id : String)
    (payload : BudgetUpsert) (amount_text subject : String) (now logged_at : ℕ)
    (w : World services.redis.State) where
  open services.redis use {State, set}

  abbrev fresh : Budget
  fresh = new_budget id agent_id payload now

  -- The row that is written, and the table with it.
  pub data Placed : Budget → List Budget → Type 0 where
    created :
        budgets_of agent_id payload.currency w.db.budgets ≡ []
        → any (same_budget fresh) w.db.budgets ≡ false
        → Placed fresh (w.db.budgets ++ fresh ∷ [])
    changed :
        (b : Budget)
        → budgets_of agent_id payload.currency w.db.budgets ≡ b ∷ []
        → b.consumed_amount ≤ℤ payload.limit_amount
        → Placed
            (set_limit payload.limit_amount now b)
            (put_budget (set_limit payload.limit_amount now b) w.db.budgets)

  -- What is true when a budget is set.
  pub record Upserted (response : BudgetResponse) (w' : World State) : Type 0 where
    pub agent : Agent
    pub found : agents_of agent_id w.db.agents ≡ agent ∷ []
    pub row : Budget
    pub rows : List Budget
    pub placed : Placed row rows
    pub read : response ≡ budget_response row
    pub entry : AuditLog
    pub state : w' ≡ record w {
      db = record w.db { budgets = rows; audit_logs = w.db.audit_logs ++ entry ∷ [] };
      cache =
          set w.cache
            (budget_key agent_id payload.currency)
            (database_remaining row)
            reservation_ttl_seconds;
    }

  -- Why nothing is written to the database.
  pub data Rejected (e : Exn) : Type 0 where
    no_agent :
        agents_of agent_id w.db.agents ≡ [] → e ≡ http_exception 404 "Agent not found" → Rejected e
    low_limit :
        (b : Budget)
        → budgets_of agent_id payload.currency w.db.budgets ≡ b ∷ []
        → ltb_ℤ payload.limit_amount b.consumed_amount ≡ true
        → e ≡ http_exception 422 "Budget limit cannot be lower than already consumed amount"
        → Rejected e
    two_agents :
        (a b : Agent) (rest : List Agent)
        → agents_of agent_id w.db.agents ≡ a ∷ b ∷ rest
        → Rejected e
    two_budgets :
        (b c : Budget) (rest : List Budget)
        → budgets_of agent_id payload.currency w.db.budgets ≡ b ∷ c ∷ rest
        → Rejected e
    taken : any (same_budget fresh) w.db.budgets ≡ true → Rejected e
    unlogged :
        (u : World State) (event_payload : Fields)
        → (append digests signer "budget_updated" subject event_payload logged_at u).0 ≡ err e
        → Rejected e

  abbrev pub UpsertSpec : Result BudgetResponse × World State → Type 0
  UpsertSpec (ok response, w') = Upserted response w'
  UpsertSpec (err e, w') = Rejected e × (w'.db ≡ w.db)

  abbrev payload_fields : Fields
  payload_fields =
      field "agent_id" (str agent_id)
        (field "currency" (str payload.currency) (field "limit_amount" (str amount_text) end))

  module _ (agent : Agent) (found : agents_of agent_id w.db.agents ≡ agent ∷ []) (row : Budget)
      (rows : List Budget) (placed : Placed row rows)
      (covers : ltb_ℤ (database_remaining row) (pos 0) ≡ false) where
    abbrev reset_world : World State
    reset_world = record w {
      db = record w.db { budgets = rows };
      cache =
          set w.cache (budget_key agent_id payload.currency) (database_remaining row)
            reservation_ttl_seconds;
    }

    finish :
        (out : Result AuditLog × World State)
        → append digests signer "budget_updated" subject payload_fields logged_at reset_world ≡ out
        → AppendSpec digests signer "budget_updated" subject payload_fields logged_at reset_world
            out
        → UpsertSpec (settle w.db (continue out.0 (λ _. pure (budget_response row)) out.1))
    finish (ok entry, w') e h = record {
      agent = agent;
      found = found;
      row = row;
      rows = rows;
      placed = placed;
      read = refl;
      entry = entry;
      state = h.state;
    }
    finish (err x, w') e h = (
      unlogged reset_world payload_fields (ap (λ (o : Result AuditLog × World State). o.0) e),
      refl,
    )

    publish_lem : UpsertSpec (
        settle w.db (
          publish_budget services digests signer agent_id payload.currency subject amount_text
            logged_at row
            (record w { db = record w.db { budgets = rows } })))
    unfolding publish_budget reset
    publish_lem = simp covers (
        finish (append digests signer "budget_updated" subject payload_fields logged_at reset_world)
          refl
          (append_lem digests signer "budget_updated" subject payload_fields logged_at reset_world))

  module _ (agent : Agent) (found : agents_of agent_id w.db.agents ≡ agent ∷ [])
      (is_positive : pos 1 ≤ℤ payload.limit_amount) where
    fresh_covers : ltb_ℤ (database_remaining fresh) (pos 0) ≡ false
    unfolding new_budget
    fresh_covers = grind (int_laws, is_positive)

    limit_covers :
        (b : Budget)
        → b.consumed_amount ≤ℤ payload.limit_amount
        → ltb_ℤ (payload.limit_amount -ℤ b.consumed_amount) (pos 0) ≡ false
    limit_covers b h = grind int_laws

    create_lem :
        budgets_of agent_id payload.currency w.db.budgets ≡ []
        → UpsertSpec (
            upsert_budget services digests signer id agent_id payload amount_text subject now
              logged_at w)
    unfolding upsert_budget
    create_lem missing = elim (Bool-cases (any (same_budget fresh) w.db.budgets)) [
      | inl clash ↦ simp (found, missing, clash) (taken clash, refl)
      | inr free ↦
          simp (found, missing, free)
            (publish_lem agent found fresh _ (created missing free) fresh_covers)
    ]

    change_lem :
        (b : Budget)
        → budgets_of agent_id payload.currency w.db.budgets ≡ b ∷ []
        → UpsertSpec (
            upsert_budget services digests signer id agent_id payload amount_text subject now
              logged_at w)
    unfolding upsert_budget set_limit
    change_lem b old = elim (Bool-cases (ltb_ℤ payload.limit_amount b.consumed_amount)) [
      | inl low ↦ simp (found, old, low) (low_limit b old low refl, refl)
      | inr fits ↦
          simp (found, old, fits)
            (publish_lem agent found (set_limit payload.limit_amount now b) _
              (changed b old (ground arith)) (limit_covers b (ground arith)))
    ]

  -- For a positive limit: where `upsert_budget` returns, the agent exists, its one budget in the
  -- currency is new with nothing consumed, or is the old one with the new limit, which covers what it
  -- has consumed; the log has one more row, the cached amount is what the ledger then has left, and all
  -- else is as before. Where it raises, for one of the six reasons, the database is as before.
  pub upsert_budget_lem :
      pos 1 ≤ℤ payload.limit_amount
      → UpsertSpec (
          upsert_budget services digests signer id agent_id payload amount_text subject now
            logged_at w)
  unfolding upsert_budget
  upsert_budget_lem is_positive = elim (one-cases (agents_of agent_id w.db.agents)) [
    | inl e ↦ simp e (no_agent e refl, refl)
    | inr (inr (a, b, rest, e)) ↦ simp e (two_agents a b rest e, refl)
    | inr (inl (agent, e)) ↦ elim (one-cases (budgets_of agent_id payload.currency w.db.budgets)) [
      | inl none_before ↦ create_lem agent e is_positive none_before
      | inr (inl (b, old)) ↦ change_lem agent e is_positive b old
      | inr (inr (b, c, rest, old)) ↦ simp (e, old) (two_budgets b c rest old, refl)
    ]
  ]
