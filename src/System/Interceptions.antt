-- ===== src/System/Interceptions.antt =====
-- Soundness under the calls of the interceptor.
use marcel_arch.Prelude.{ℕ, String, ◌≡◌, refl, Option, none, some, [], not}
use marcel_arch.Prelude.Int.{ℤ}
use marcel_arch.Prelude.Result.{Result, ok, err}
use marcel_arch.Value.{Fields}
use marcel_arch.Models.{Agent, Budget}
use marcel_arch.Schemas.{ExecutionIntent, PolicyDecision, Outcome, allow, deny, require_approval}
use marcel_arch.World.{World}
use marcel_arch.Services.{Services}
use marcel_arch.Digests.{Digests}
use marcel_arch.Rules.{evaluate_policies}
use marcel_arch.Governor.{spend, reserve, commit, database_remaining}
use marcel_arch.Governor.Rows.{budgets_of_sound}
use marcel_arch.Governor.Commit.{CommitSpec, commit_lem}
use marcel_arch.Governor.Reserve.{reserve_lem}
use marcel_arch.Governor.Steps.{granted-rows, remaining-rows, release-rows, reset-rows}
use marcel_arch.Engine.{
  find_agent, if_active, is_allowed, conclude, enabled_policies, check_budget, evaluate_active,
  evaluate,
}
use marcel_arch.Audit.{AuditSigner}
use marcel_arch.Waiting.{Frame, settle_approved}
use marcel_arch.Interceptor.{
  log, reserve_allowed, ask_human, route, evaluate_and_log, book, commit_execution, unreserve,
  record_execution_failure,
}
use marcel_arch.System.Sound.{
  IsSound, Keeps, Keeps-db, Keeps-bind, Keeps-pure, Keeps-gets, Keeps-lift, Keeps-transaction,
  Keeps-append,
}
use marcel_arch.System.Writes.{put_budget-IsSound}
use marcel_arch.System.Approvals.{Keeps-if, Keeps-create_or_get_hitl}

module _ (services : Services) (digests : Digests) (signer : AuditSigner)
    (same_text : (t : ℕ) → digests.loaded_text t ≡ digests.aware_text t) where
  open services.redis use {State}

  Keeps-reserve :
      (agent_id currency : String) (amount : ℤ)
      → Keeps digests signer (reserve services.redis agent_id currency amount)
  Keeps-reserve agent_id currency amount = Keeps-db digests signer _ (λ w.
      granted-rows services.redis agent_id currency amount w _
        (reserve_lem services.redis agent_id currency amount w))

  Keeps-check_budget :
      (agent_id : String) (amount : Option ℤ) (currency : Option String)
      → Keeps digests signer (check_budget services agent_id amount currency)
  unfolding check_budget
  Keeps-check_budget agent_id none currency = Keeps-pure digests signer _
  Keeps-check_budget agent_id (some amount) none = Keeps-pure digests signer _
  Keeps-check_budget agent_id (some amount) (some currency) =
      Keeps-bind digests signer _ _
        (Keeps-db digests signer _ (remaining-rows services.redis agent_id currency))
        (λ left. Keeps-pure digests signer _)

  Keeps-evaluate_active :
      (intent : ExecutionIntent) (agent : Option Agent)
      → Keeps digests signer (evaluate_active services intent agent)
  unfolding evaluate_active
  Keeps-evaluate_active intent none = Keeps-pure digests signer _
  Keeps-evaluate_active intent (some agent) =
      Keeps-if digests signer same_text (not (is_allowed agent intent.action)) _ _
        (Keeps-pure digests signer _)
        (Keeps-bind digests signer _ _
          (Keeps-gets digests signer
            (λ w. services.order_policies (enabled_policies w.db.policies)))
          (λ policies.
            Keeps-bind digests signer _ _
              (Keeps-lift digests signer (evaluate_policies services.formats agent intent policies))
              (λ results.
                Keeps-bind digests signer _ _
                  (Keeps-check_budget intent.agent_id intent.requested_amount intent.currency)
                  (λ budget.
                    Keeps-pure digests signer (conclude services.formats agent results budget)))))

  Keeps-evaluate : (intent : ExecutionIntent) → Keeps digests signer (evaluate services intent)
  unfolding evaluate
  Keeps-evaluate intent =
      Keeps-bind digests signer _ _
        (Keeps-db digests signer (find_agent services intent.agent_id) (λ w. refl))
        (λ found. Keeps-evaluate_active intent (if_active found))

  module _ (frame : Frame) where
    Keeps-log :
        (event_type actor_id : String) (payload : Fields) (now : ℕ)
        → Keeps digests signer (log services digests signer frame event_type actor_id payload now)
    Keeps-log event_type actor_id payload now =
        Keeps-bind digests signer _ _
          (Keeps-append digests signer same_text event_type actor_id payload now)
          (λ r. Keeps-pure digests signer _)

    Keeps-reserve_allowed :
        (agent_id : String) (decision : PolicyDecision) (amount : Option ℤ)
        (currency : Option String)
        → Keeps digests signer
            (reserve_allowed services digests signer frame agent_id decision amount currency)
    unfolding reserve_allowed
    Keeps-reserve_allowed agent_id decision none currency = Keeps-pure digests signer _
    Keeps-reserve_allowed agent_id decision (some amount) none = Keeps-pure digests signer _
    Keeps-reserve_allowed agent_id decision (some amount) (some currency) =
        Keeps-bind digests signer _ _ (Keeps-reserve agent_id currency amount)
          (λ out. Keeps-pure digests signer _)

    Keeps-ask_human :
        (intent : ExecutionIntent) (decision : PolicyDecision)
        → Keeps digests signer (ask_human services digests signer frame intent decision)
    unfolding ask_human
    Keeps-ask_human intent decision =
        Keeps-bind digests signer _ _
          (Keeps-create_or_get_hitl digests signer same_text frame.new_id
            frame.approval_timeout_seconds (frame.dump_intent intent) intent decision frame.now
            frame.now)
          (λ t. Keeps-pure digests signer _)

    Keeps-route :
        (intent : ExecutionIntent) (decision : PolicyDecision) (outcome : Outcome)
        → Keeps digests signer (route services digests signer frame intent decision outcome)
    unfolding route
    Keeps-route intent decision deny = Keeps-pure digests signer _
    Keeps-route intent decision allow =
        Keeps-reserve_allowed intent.agent_id decision intent.requested_amount intent.currency
    Keeps-route intent decision require_approval = Keeps-ask_human intent decision

    pub Keeps-evaluate_and_log :
        (intent : ExecutionIntent) (actor_id : String)
        → Keeps digests signer (evaluate_and_log services digests signer frame intent actor_id)
    unfolding evaluate_and_log
    Keeps-evaluate_and_log intent actor_id = Keeps-transaction digests signer _ (
        Keeps-bind digests signer _ _ (Keeps-evaluate intent) (λ decision.
          Keeps-bind digests signer _ _
            (Keeps-log "execution_intent_evaluated" actor_id _ frame.now)
            (λ _. Keeps-route intent decision decision.outcome)))

    pub Keeps-settle_approved :
        (id agent_id : String) (amount : Option ℤ) (currency : Option String)
        → Keeps digests signer
            (settle_approved services digests signer frame id agent_id amount currency)
    unfolding settle_approved
    Keeps-settle_approved id agent_id none currency = Keeps-pure digests signer _
    Keeps-settle_approved id agent_id (some amount) none = Keeps-pure digests signer _
    Keeps-settle_approved id agent_id (some amount) (some currency) =
        Keeps-bind digests signer _ _
          (Keeps-transaction digests signer _ (Keeps-reserve agent_id currency amount))
          (λ out. Keeps-pure digests signer _)

    committed-IsSound :
        (agent_id currency : String) (amount : ℤ) (now : ℕ) (w : World State)
        (out : Result Budget × World State)
        → CommitSpec services.redis agent_id currency amount now w out
        → IsSound digests signer w
        → IsSound digests signer out.1
    unfolding spend
    committed-IsSound agent_id currency amount now w (ok b, w') c h =
        let (ea, ec) = budgets_of_sound agent_id currency c.before [] w.db.budgets c.found in
        rw (c.state, c.row)
          (put_budget-IsSound digests signer agent_id currency c.before (spend amount now c.before)
            w c.found ea ec c.within h)
    committed-IsSound agent_id currency amount now w (err e, w') c h = rw c.1 h

    Keeps-commit :
        (agent_id currency : String) (amount : ℤ) (now : ℕ)
        → Keeps digests signer (commit services.redis agent_id currency amount now)
    Keeps-commit agent_id currency amount now = record {
      apply = λ w h.
          committed-IsSound agent_id currency amount now w _
            (commit_lem services.redis agent_id currency amount now w) h;
    }

    Keeps-book :
        (agent_id : String) (amount : Option ℤ) (currency : Option String)
        → Keeps digests signer (book services digests signer frame agent_id amount currency)
    unfolding book
    Keeps-book agent_id none currency = Keeps-pure digests signer _
    Keeps-book agent_id (some amount) none = Keeps-pure digests signer _
    Keeps-book agent_id (some amount) (some currency) =
        Keeps-bind digests signer _ _ (Keeps-commit agent_id currency amount frame.finished) (λ b.
          Keeps-db digests signer _
            (reset-rows services.redis agent_id currency (database_remaining b)))

    pub Keeps-commit_execution :
        (intent : ExecutionIntent) (actor_id : String)
        → Keeps digests signer (commit_execution services digests signer frame intent actor_id)
    unfolding commit_execution
    Keeps-commit_execution intent actor_id = Keeps-transaction digests signer _ (
        Keeps-bind digests signer _ _
          (Keeps-book intent.agent_id intent.requested_amount intent.currency)
          (λ _. Keeps-log "execution_completed" actor_id _ frame.finished))

    Keeps-unreserve :
        (agent_id : String) (amount : Option ℤ) (currency : Option String)
        → Keeps digests signer (unreserve services digests signer frame agent_id amount currency)
    unfolding unreserve
    Keeps-unreserve agent_id none currency = Keeps-pure digests signer _
    Keeps-unreserve agent_id (some amount) none = Keeps-pure digests signer _
    Keeps-unreserve agent_id (some amount) (some currency) =
        Keeps-db digests signer _ (release-rows services.redis agent_id currency amount)

    pub Keeps-record_execution_failure :
        (intent : ExecutionIntent) (actor_id error_type error : String)
        → Keeps digests signer (
            record_execution_failure services digests signer frame intent actor_id error_type error)
    unfolding record_execution_failure
    Keeps-record_execution_failure intent actor_id error_type error =
        Keeps-transaction digests signer _ (
          Keeps-bind digests signer _ _
            (Keeps-unreserve intent.agent_id intent.requested_amount intent.currency)
            (λ _. Keeps-log "execution_failed" actor_id _ frame.finished))
