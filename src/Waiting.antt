-- ===== src/Waiting.antt =====
-- `_await_resolution` and `_resolution_decision` of marcel/core/interceptor.py: the wait for a
-- human's answer, over the rounds of its loop.
pub mod Rounds
pub mod Answers
use marcel_arch.Prelude.{
  ℕ, String, Bool, true, false, Option, none, some, List, [], ◌∷◌, ◌||◌, leb, if◌then◌else◌,
}
use marcel_arch.Prelude.Int.{ℤ}
use marcel_arch.Prelude.Result.{approval_rejected, approval_timeout}
use marcel_arch.Prelude.Action.{Action, pure, raise, modify, ◌>>=◌, ◌>>◌}
use marcel_arch.Value.{Fields}
use marcel_arch.Models.{HitlStatus, approved, rejected, expired}
use marcel_arch.Schemas.{ExecutionIntent, PolicyDecision, allow, deny}
use marcel_arch.World.{World, transaction}
use marcel_arch.Services.{Services}
use marcel_arch.Digests.{Digests}
use marcel_arch.Governor.{reserve}
use marcel_arch.Audit.{AuditSigner}
use marcel_arch.Hitl.{get_transaction_status, expire_transaction}

-- `{HitlStatus.APPROVED, HitlStatus.REJECTED, HitlStatus.EXPIRED}`
abbrev pub is_resolved : HitlStatus → Bool
is_resolved approved = true
is_resolved rejected = true
is_resolved expired = true
is_resolved _ = false

-- The decision after an approval, from what the reservation returned.
abbrev pub approval : String → PolicyDecision
approval id = record {
  outcome = allow;
  risk_score = 0;
  reasons = "HITL approval granted" ∷ [];
  policy_ids = [];
  remaining_budget = none;
  hitl_transaction_id = some id;
}

abbrev pub approval_if : String → Bool × Option ℤ → PolicyDecision
approval_if id (true, left) = approval id
approval_if id (false, left) = record {
  outcome = deny;
  risk_score = 100;
  reasons = "Budget reservation failed after approval" ∷ [];
  policy_ids = "system-budget" ∷ [];
  remaining_budget = left;
  hitl_transaction_id = some id;
}

-- The settings and the parameters of the calls: the id of a new row, the first 1,000
-- characters of a text, and the times of the clock, one for each block that reads it: `now` for the
-- evaluation, `finished` for what follows the tool, and the end of the wait on the loop's clock.
pub record Frame : Type 0 where
  pub approval_timeout_seconds : ℕ
  pub dump_intent : ExecutionIntent → Fields
  pub dump_decision : PolicyDecision → Fields
  pub cut : String → String
  pub new_id : String
  pub now : ℕ
  pub deadline : ℕ
  pub finished : ℕ

-- One round of the loop of `_await_resolution`: the two clocks when it begins, what other sessions
-- do to the state until it ends, and whether it ends with a message.
pub record Round (C : Type 0) : Type 0 where
  pub clock : ℕ
  pub now : ℕ
  pub others : World C → World C
  pub message : Bool

module _ (services : Services) (digests : Digests) (signer : AuditSigner) (frame : Frame) where
  open services.redis use {State}

  unfoldable pub settle_approved :
      String → String → Option ℤ → Option String → Action (World State) PolicyDecision
  unfolding reserve transaction
  settle_approved id agent_id (some amount) (some currency) = do
    out ← transaction (reserve services.redis agent_id currency amount)
    pure (approval_if id out)
  settle_approved id agent_id _ _ = pure (approval id)

  -- `_resolution_decision`
  unfoldable pub resolution_decision :
      ExecutionIntent → String → HitlStatus → Action (World State) PolicyDecision
  unfolding settle_approved
  resolution_decision intent id approved =
      settle_approved id intent.agent_id intent.requested_amount intent.currency
  resolution_decision intent id expired = raise (approval_timeout "HITL approval expired")
  resolution_decision intent id _ = raise (approval_rejected "HITL approval rejected")

  unfoldable pub time_out : String → String → ℕ → Action (World State) (Option PolicyDecision)
  unfolding expire_transaction
  time_out id actor_id now = do
    expire_transaction digests signer id actor_id now now
    raise (approval_timeout "HITL approval timed out")

  unfoldable pub decide_on :
      ExecutionIntent → String → HitlStatus → Action (World State) (Option PolicyDecision)
  unfolding resolution_decision
  decide_on intent id status = do
    decision ← resolution_decision intent id status
    pure (some decision)

  -- The loop of `_await_resolution`. Behind the last round that is given, it still waits: `none`.
  unfoldable pub await_rounds :
      ExecutionIntent
      → String
      → String
      → List (Round State)
      → Action (World State) (Option PolicyDecision)
  unfolding time_out decide_on get_transaction_status
  await_rounds intent id actor_id [] = pure none
  await_rounds intent id actor_id (r ∷ rest) =
      let later = await_rounds intent id actor_id rest in
      if leb frame.deadline r.clock then time_out id actor_id r.now else do
        modify r.others
        status ← get_transaction_status id
        if r.message || is_resolved status then decide_on intent id status else later
