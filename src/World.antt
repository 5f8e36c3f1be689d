-- ===== src/World.antt =====
-- The state that the services share: the database and the server's keys. A session's transaction
-- is a call on that state.
use marcel_arch.Prelude.{List}
use marcel_arch.Prelude.Result.{Result, ok, err}
use marcel_arch.Prelude.Action.{Action}
use marcel_arch.Models.{Budget, Agent, Policy, AuditLog, HitlTransaction}

pub record Db : Type 0 where
  pub agents : List Agent
  pub budgets : List Budget
  pub policies : List Policy
  pub audit_logs : List AuditLog
  pub hitl_transactions : List HitlTransaction

pub record World (C : Type 0) : Type 0 where
  pub db : Db
  pub cache : C

-- `async with session.begin()`: what is raised rolls the database back, and not the server's keys.
abbrev pub settle : {C A : Type 0} → Db → Result A × World C → Result A × World C
settle db (ok a, w) = (ok a, w)
settle db (err e, w) = (err e, record w { db = db })

unfoldable pub transaction : {C A : Type 0} → Action (World C) A → Action (World C) A
transaction body w = settle w.db (body w)
