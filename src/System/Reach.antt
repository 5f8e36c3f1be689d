-- ===== src/System/Reach.antt =====
-- Every interleaving of the calls, each a transaction of its own.
use marcel_arch.Prelude.{ℕ, String, ◌≡◌, refl, Option}
use marcel_arch.Prelude.Int.{ℤ, pos, ◌≤ℤ◌}
use marcel_arch.Schemas.{AgentCreate, BudgetUpsert, PolicyCreate, ExecutionIntent}
use marcel_arch.World.{World}
use marcel_arch.Services.{Services}
use marcel_arch.Digests.{Digests}
use marcel_arch.Audit.{AuditSigner}
use marcel_arch.Hitl.{expire_transaction, resolve_hitl}
use marcel_arch.Waiting.{Frame, settle_approved}
use marcel_arch.Interceptor.{evaluate_and_log, commit_execution, record_execution_failure}
use marcel_arch.Router.{register_agent, upsert_budget, create_policy}
use marcel_arch.System.Sound.{IsSound, IsSound-db}
use marcel_arch.System.Calls.{Keeps-register_agent, Keeps-create_policy, Keeps-upsert_budget}
use marcel_arch.System.Approvals.{Keeps-expire_transaction, Keeps-resolve_hitl}
use marcel_arch.System.Interceptions.{
  Keeps-evaluate_and_log, Keeps-settle_approved, Keeps-commit_execution,
  Keeps-record_execution_failure,
}

module _ (services : Services) (digests : Digests) (signer : AuditSigner) where
  open services.redis use {State}

  -- The state behind one call, whether it returned or raised. A limit is positive, as the schema of
  -- its message demands; the server may lose or change any of its keys at any time.
  pub data Step (w : World State) : World State → Type 0 where
    register_step :
        (payload : AgentCreate) (subject : String) (now logged_at : ℕ)
        → Step w (register_agent services digests signer payload subject now logged_at w).1
    budget_step :
        (id agent_id : String) (payload : BudgetUpsert)
        → pos 1 ≤ℤ payload.limit_amount
        → (amount_text subject : String) (now logged_at : ℕ)
        → Step w
            (upsert_budget services digests signer id agent_id payload amount_text subject now
              logged_at w).1
    policy_step :
        (id : String) (payload : PolicyCreate) (subject : String) (now logged_at : ℕ)
        → Step w (create_policy services digests signer id payload subject now logged_at w).1
    resolve_step :
        (id decision : String) (comment : Option String) (reviewer : String) (now logged_at : ℕ)
        → Step w (resolve_hitl digests signer id decision comment reviewer now logged_at w).1
    evaluate_step :
        (frame : Frame) (intent : ExecutionIntent) (actor_id : String)
        → Step w (evaluate_and_log services digests signer frame intent actor_id w).1
    expire_step :
        (id actor_id : String) (now logged_at : ℕ)
        → Step w (expire_transaction digests signer id actor_id now logged_at w).1
    approve_step :
        (frame : Frame) (id agent_id : String) (amount : Option ℤ) (currency : Option String)
        → Step w (settle_approved services digests signer frame id agent_id amount currency w).1
    commit_step :
        (frame : Frame) (intent : ExecutionIntent) (actor_id : String)
        → Step w (commit_execution services digests signer frame intent actor_id w).1
    failure_step :
        (frame : Frame) (intent : ExecutionIntent) (actor_id error_type error : String)
        → Step w
            (record_execution_failure services digests signer frame intent actor_id error_type error
              w).1
    server_step : (cache : State) → Step w (record w { cache = cache })

  pub data Reach (w : World State) : World State → Type 0 where
    here : Reach w w
    next : {u v : World State} → Reach w u → Step u v → Reach w v

  module _ (same_text : (t : ℕ) → digests.loaded_text t ≡ digests.aware_text t) where
    Step-IsSound :
        {w v : World State} → Step w v → IsSound digests signer w → IsSound digests signer v
    Step-IsSound {w} (register_step payload subject now logged_at) h =
        (Keeps-register_agent services digests signer same_text payload subject now logged_at).apply
          w h
    Step-IsSound {w} (budget_step id agent_id payload is_positive text subject now logged_at) h =
        (Keeps-upsert_budget services digests signer same_text id agent_id payload is_positive text
            subject now logged_at).apply
          w h
    Step-IsSound {w} (policy_step id payload subject now logged_at) h =
        (Keeps-create_policy services digests signer same_text id payload subject now
            logged_at).apply
          w h
    Step-IsSound {w} (resolve_step id decision comment reviewer now logged_at) h =
        (Keeps-resolve_hitl digests signer same_text id decision comment reviewer now
            logged_at).apply
          w h
    Step-IsSound {w} (evaluate_step frame intent actor_id) h =
        (Keeps-evaluate_and_log services digests signer same_text frame intent actor_id).apply w h
    Step-IsSound {w} (expire_step id actor_id now logged_at) h =
        (Keeps-expire_transaction digests signer same_text id actor_id now logged_at).apply w h
    Step-IsSound {w} (approve_step frame id agent_id amount currency) h =
        (Keeps-settle_approved services digests signer same_text frame id agent_id amount
            currency).apply
          w h
    Step-IsSound {w} (commit_step frame intent actor_id) h =
        (Keeps-commit_execution services digests signer same_text frame intent actor_id).apply w h
    Step-IsSound {w} (failure_step frame intent actor_id error_type error) h =
        (Keeps-record_execution_failure services digests signer same_text frame intent actor_id
            error_type error).apply
          w h
    Step-IsSound {w} (server_step cache) h =
        IsSound-db digests signer w (record w { cache = cache }) refl h

    -- If the database gives a time back with the text that it had, then every sequence of calls of
    -- the endpoints, with positive limits, and of the transactions of the interceptor, by any
    -- callers, returned or raised, and with any change of the server's keys between them, leaves a
    -- sound state sound: each query for one row finds at most one, no budget has consumed more than
    -- its limit, and the log verifies.
    pub Reach-IsSound :
        {w v : World State} → Reach w v → IsSound digests signer w → IsSound digests signer v
    Reach-IsSound here h = h
    Reach-IsSound (next r s) h = Step-IsSound s (Reach-IsSound r h)
