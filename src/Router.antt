-- ===== src/Router.antt =====
-- The endpoints of marcel/api/router.py, behind the check of the caller's roles (Auth) and the
-- validation of the message. `subject` is `str(principal["sub"])`; the ids of new rows and the times
-- of the clock are arguments. `resolve_hitl` is in Hitl.
pub mod Budgets
pub mod Creation
mod Tests
use marcel_arch.Prelude.{ℕ, String, Option, none, some, List}
use marcel_arch.Prelude.Int.{pos}
use marcel_arch.Prelude.Result.{Result, err, http_exception, approval_rejected, approval_timeout}
use marcel_arch.Prelude.Action.{Action, pure, raise, on_integrity_error, ◌>>=◌, ◌>>◌}
use marcel_arch.Value.{str, int, end, field}
use marcel_arch.Models.{Agent, Budget, HitlTransaction}
use marcel_arch.Schemas.{
  AgentCreate, AgentResponse, BudgetUpsert, BudgetResponse, PolicyCreate, PolicyResponse,
  HitlResponse, ExecutionIntent, PolicyDecision,
}
use marcel_arch.World.{World, transaction}
use marcel_arch.Services.{Services}
use marcel_arch.Digests.{Digests}
use marcel_arch.Governor.{get_budget, reset, database_remaining}
use marcel_arch.Engine.{find_agent}
use marcel_arch.Audit.{AuditSigner, append}
use marcel_arch.Hitl.{find_transaction}
use marcel_arch.Tables.{
  budget_response, hitl_response, agent_response, policy_response, new_agent, new_budget,
  new_policy, add_agent, add_policy, place_budget,
}
use marcel_arch.Waiting.{Frame, Round}
use marcel_arch.Interceptor.{evaluate_or_wait}

-- The two `except` clauses of `evaluate_intent`.
abbrev pub http_error : {S A : Type 0} → Result A × S → Result A × S
http_error (err (approval_rejected detail), s) = (err (http_exception 403 detail), s)
http_error (err (approval_timeout detail), s) = (err (http_exception 408 detail), s)
http_error out = out

module _ {C : Type 0} where
  abbrev pub found_response : Option HitlTransaction → Action (World C) HitlResponse
  found_response none = raise (http_exception 404 "HITL transaction not found")
  found_response (some t) = pure (hitl_response t)

  unfoldable pub get_hitl : String → Action (World C) HitlResponse
  unfolding find_transaction
  get_hitl id = do found ← find_transaction id; found_response found

module _ (services : Services) (digests : Digests) (signer : AuditSigner) where
  open services.redis use {State}

  unfoldable pub register_agent : AgentCreate → String → ℕ → ℕ → Action (World State) AgentResponse
  unfolding new_agent add_agent append transaction agent_response
  register_agent payload subject now logged_at = transaction (do
    on_integrity_error (http_exception 409 "Agent ID already exists")
        (add_agent (new_agent payload now))
    append digests signer "agent_registered" subject (field "agent_id" (str payload.id) end)
        logged_at
    pure (agent_response (new_agent payload now)))

  -- The second part of `upsert_budget`: the reset of the key, and the log.
  unfoldable pub publish_budget :
      String → String → String → String → ℕ → Budget → Action (World State) BudgetResponse
  unfolding reset append budget_response
  publish_budget agent_id currency subject amount_text logged_at b = do
    reset services.redis agent_id currency (database_remaining b)
    append digests signer "budget_updated" subject
        (field "agent_id" (str agent_id)
          (field "currency" (str currency) (field "limit_amount" (str amount_text) end)))
        logged_at
    pure (budget_response b)

  unfoldable pub upsert_for :
      String
      → String
      → BudgetUpsert
      → String
      → String
      → ℕ
      → ℕ
      → Option Agent
      → Action (World State) BudgetResponse
  unfolding get_budget place_budget new_budget publish_budget
  upsert_for id agent_id payload amount_text subject now logged_at none =
      raise (http_exception 404 "Agent not found")
  upsert_for id agent_id payload amount_text subject now logged_at (some agent) = do
    found ← get_budget services.redis agent_id payload.currency
    b ← place_budget (new_budget id agent_id payload now) payload.limit_amount now found
    publish_budget agent_id payload.currency subject amount_text logged_at b

  -- `upsert_budget`. `amount_text` is `str(payload.limit_amount)`.
  unfoldable pub upsert_budget :
      String → String → BudgetUpsert → String → String → ℕ → ℕ → Action (World State) BudgetResponse
  unfolding upsert_for transaction
  upsert_budget id agent_id payload amount_text subject now logged_at = transaction (do
    agent ← find_agent services agent_id
    upsert_for id agent_id payload amount_text subject now logged_at agent)

  unfoldable pub create_policy :
      String → PolicyCreate → String → ℕ → ℕ → Action (World State) PolicyResponse
  unfolding new_policy add_policy append transaction policy_response
  create_policy id payload subject now logged_at = transaction (do
    on_integrity_error (http_exception 409 "Policy name and version already exist")
        (add_policy (new_policy id payload now))
    append digests signer "policy_created" subject
        (field "policy_id" (str id)
          (field "name" (str payload.name) (field "version" (int (pos payload.version)) end)))
        logged_at
    pure (policy_response (new_policy id payload now) payload.definition))

  unfoldable pub evaluate_intent :
      Frame
      → ExecutionIntent
      → String
      → List (Round State)
      → Action (World State) (Option PolicyDecision)
  unfolding evaluate_or_wait
  evaluate_intent frame payload subject rounds w =
      http_error (evaluate_or_wait services digests signer frame payload subject rounds w)
