-- ===== src/Interceptor.antt =====
-- `AgentInterceptor` of marcel/core/interceptor.py. `dump_intent` and `dump_decision` stand for
-- `model_dump(mode="json")` of the two messages. The message that `_publish_hitl_request` sends is
-- not a part of the state.
pub mod Execute
pub mod Failures
pub mod Endings
pub mod Routes
pub mod Admission
pub mod Wrap
mod Tests
use marcel_arch.Prelude.{
  ℕ, String, Bool, true, false, Option, none, some, List, [], ◌∷◌, ◌++◌, ◌==◌, max, join,
  if◌then◌else◌,
}
use marcel_arch.Prelude.Int.{ℤ}
use marcel_arch.Prelude.Result.{execution_denied, approval_rejected, operation_error}
use marcel_arch.Prelude.Action.{Action, pure, raise, ◌>>=◌, ◌>>◌}
use marcel_arch.Value.{str, dict, Fields, end, field}
use marcel_arch.Schemas.{ExecutionIntent, PolicyDecision, Outcome, allow, deny, require_approval}
use marcel_arch.World.{World, transaction}
use marcel_arch.Services.{Services}
use marcel_arch.Digests.{Digests}
use marcel_arch.Governor.{reserve, commit, release, reset, database_remaining}
use marcel_arch.Engine.{evaluate}
use marcel_arch.Audit.{AuditSigner, append}
use marcel_arch.Hitl.{create_or_get_hitl}
use marcel_arch.Waiting.{Frame, Round, await_rounds}

-- How a tool ends: with a result, or with an exception of a class and a text.
pub data ToolResult (R : Type 0) : Type 0 where
  returned : R → ToolResult R
  raised : String → String → ToolResult R

-- `"; ".join(reasons)`
unfoldable pub join_reasons : List String → String
join_reasons [] = ""
join_reasons (s ∷ []) = s
join_reasons (s ∷ r ∷ rest) = join (s ∷ "; " ∷ join_reasons (r ∷ rest) ∷ [])

-- The copy of the decision where the reservation fails.
unfoldable pub not_reserved : PolicyDecision → Option ℤ → PolicyDecision
not_reserved decision left = record decision {
  outcome = require_approval;
  risk_score = max decision.risk_score 90;
  reasons = decision.reasons ++ "Budget reservation failed" ∷ [];
  remaining_budget = left;
}

abbrev pub reserved_or_not : PolicyDecision → Bool × Option ℤ → PolicyDecision
reserved_or_not decision (true, left) = decision
reserved_or_not decision (false, left) = not_reserved decision left

-- What the first block of `evaluate_or_wait` does: it returns, or goes on to wait.
pub data Evaluation : Type 0 where
  final : PolicyDecision → Evaluation
  waits : PolicyDecision → String → Evaluation

module _ (services : Services) (digests : Digests) (signer : AuditSigner) (frame : Frame) where
  open services.redis use {State}
  open frame use {now, finished}

  abbrev pub log : String → String → Fields → ℕ → Action (World State) Unit
  log event_type actor_id payload now =
      append digests signer event_type actor_id payload now >>= λ _. pure tt

  -- The branch for an allowed intent.
  unfoldable pub reserve_allowed :
      String → PolicyDecision → Option ℤ → Option String → Action (World State) Evaluation
  unfolding reserve
  reserve_allowed agent_id decision (some amount) (some currency) = do
    out ← reserve services.redis agent_id currency amount
    pure (final (reserved_or_not decision out))
  reserve_allowed agent_id decision _ _ = pure (final decision)

  unfoldable pub ask_human : ExecutionIntent → PolicyDecision → Action (World State) Evaluation
  unfolding create_or_get_hitl
  ask_human intent decision = do
    t ←
        create_or_get_hitl digests signer frame.new_id frame.approval_timeout_seconds
          (frame.dump_intent intent) intent decision now now
    pure (waits (record decision { hitl_transaction_id = some t.id }) t.id)

  unfoldable pub route :
      ExecutionIntent → PolicyDecision → Outcome → Action (World State) Evaluation
  unfolding reserve_allowed ask_human
  route intent decision deny = pure (final decision)
  route intent decision allow =
      reserve_allowed intent.agent_id decision intent.requested_amount intent.currency
  route intent decision require_approval = ask_human intent decision

  -- The block of `evaluate_or_wait` inside the transaction.
  unfoldable pub evaluate_and_log : ExecutionIntent → String → Action (World State) Evaluation
  unfolding route evaluate append transaction
  evaluate_and_log intent actor_id = transaction (do
    decision ← evaluate services intent
    log "execution_intent_evaluated" actor_id
        (field "intent" (dict (frame.dump_intent intent))
          (field "decision" (dict (frame.dump_decision decision)) end))
        now
    route intent decision decision.outcome)

  -- The end of `evaluate_or_wait`.
  unfoldable pub wait_if_asked :
      ExecutionIntent
      → String
      → List (Round State)
      → Evaluation
      → Action (World State) (Option PolicyDecision)
  unfolding await_rounds
  wait_if_asked intent actor_id rounds (final decision) = pure (some decision)
  wait_if_asked intent actor_id rounds (waits decision id) =
      if id == ""
      then pure (some decision)
      else await_rounds services digests signer frame intent id actor_id rounds

  unfoldable pub evaluate_or_wait :
      ExecutionIntent → String → List (Round State) → Action (World State) (Option PolicyDecision)
  unfolding evaluate_and_log wait_if_asked
  evaluate_or_wait intent actor_id rounds = do
    evaluation ← evaluate_and_log intent actor_id
    wait_if_asked intent actor_id rounds evaluation

  unfoldable pub book : String → Option ℤ → Option String → Action (World State) Unit
  unfolding commit reset
  book agent_id (some amount) (some currency) = do
    b ← commit services.redis agent_id currency amount finished
    reset services.redis agent_id currency (database_remaining b)
  book agent_id _ _ = pure tt

  -- `_commit_execution`
  unfoldable pub commit_execution : ExecutionIntent → String → Action (World State) Unit
  unfolding book append transaction
  commit_execution intent actor_id = transaction (do
    book intent.agent_id intent.requested_amount intent.currency
    log "execution_completed" actor_id (field "intent" (dict (frame.dump_intent intent)) end)
        finished)

  unfoldable pub unreserve : String → Option ℤ → Option String → Action (World State) Unit
  unfolding release
  unreserve agent_id (some amount) (some currency) = release services.redis agent_id currency amount
  unreserve agent_id _ _ = pure tt

  -- `_record_execution_failure`
  unfoldable pub record_execution_failure :
      ExecutionIntent → String → String → String → Action (World State) Unit
  unfolding unreserve append transaction
  record_execution_failure intent actor_id error_type error = transaction (do
    unreserve intent.agent_id intent.requested_amount intent.currency
    log "execution_failed" actor_id
        (field "intent" (dict (frame.dump_intent intent))
          (field "error_type" (str error_type) (field "error" (str (frame.cut error)) end)))
        finished)

  module _ {R : Type 0} (operation : World State → ToolResult R × World State) where
    unfoldable pub conclude_operation :
        ExecutionIntent → String → ToolResult R → Action (World State) (Option R)
    unfolding commit_execution record_execution_failure
    conclude_operation intent actor_id (returned r) = do
      commit_execution intent actor_id
      pure (some r)
    conclude_operation intent actor_id (raised error_type error) = do
      record_execution_failure intent actor_id error_type error
      raise (operation_error error_type error)

    unfoldable pub run_if_allowed :
        ExecutionIntent → String → Option PolicyDecision → Action (World State) (Option R)
    unfolding conclude_operation join_reasons
    run_if_allowed intent actor_id none = pure none
    run_if_allowed intent actor_id (some decision) = elim decision.outcome [
      | deny ↦ raise (execution_denied (join_reasons decision.reasons))
      | require_approval ↦ raise (approval_rejected "Execution was not approved")
      | allow ↦ λ w. conclude_operation intent actor_id (operation w).0 (operation w).1
    ]

    -- `execute`. Its result is `none` where it still waits behind the last round.
    unfoldable pub execute :
        ExecutionIntent → String → List (Round State) → Action (World State) (Option R)
    unfolding evaluate_or_wait run_if_allowed
    execute intent actor_id rounds = do
      decision ← evaluate_or_wait intent actor_id rounds
      run_if_allowed intent actor_id decision
