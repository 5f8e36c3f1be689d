-- ===== src/Interceptor/Endings.antt =====
-- Every way in which `execute` ends.
use marcel_arch.Prelude.{String, ◌≡◌, refl, ◌⊎◌, Option, none, some, List, inl, inr}
use marcel_arch.Prelude.Result.{
  Exn, Result, ok, err, execution_denied, approval_rejected, operation_error,
}
use marcel_arch.Prelude.Action.{continue, pure}
use marcel_arch.Schemas.{ExecutionIntent, PolicyDecision, Outcome, allow, deny, require_approval}
use marcel_arch.World.{World, transaction}
use marcel_arch.Services.{Services}
use marcel_arch.Digests.{Digests}
use marcel_arch.Audit.{AuditSigner}
use marcel_arch.Waiting.{Frame, Round}
use marcel_arch.Interceptor.{
  ToolResult, returned, raised, join_reasons, commit_execution, record_execution_failure,
  evaluate_or_wait, conclude_operation, run_if_allowed, execute,
}
use marcel_arch.Interceptor.Execute.{IsCharged, commit_execution-IsCharged}
use marcel_arch.Interceptor.Failures.{
  settle-err, FailureSpec, IsBooked, IsUnbooked, record_execution_failure_lem,
}

module _ (services : Services) (digests : Digests) (signer : AuditSigner) (frame : Frame)
    (intent : ExecutionIntent) (actor_id : String) where
  open services.redis use {State}

  module _ {R : Type 0} (operation : World State → ToolResult R × World State) where
    -- The tool has returned `r` in the state `v`.
    abbrev Charged : R → World State → Result (Option R) × World State → Type 0
    Charged r v (ok x, w) =
        (x ≡ some r)
        × IsCharged services digests signer frame intent actor_id intent.requested_amount
            intent.currency v w
        × (commit_execution services digests signer frame intent actor_id v ≡ (ok tt, w))
    Charged r v (err e, w) =
        (w.db ≡ v.db)
        × (commit_execution services digests signer frame intent actor_id v ≡ (err e, w))

    -- The tool has raised in the state `v`.
    abbrev Failed : String → String → World State → Result (Option R) × World State → Type 0
    Failed error_type error v (ok x, w) = ⊥
    Failed error_type error v (err e, w) =
        ((e ≡ operation_error error_type error)
          × IsBooked services digests signer frame intent actor_id error_type error v w)
        ⊎ ((w.db ≡ v.db)
            × IsUnbooked services digests signer frame intent actor_id error_type error v e)

    abbrev Run : ToolResult R → World State → Result (Option R) × World State → Type 0
    Run (returned r) v out = Charged r v out
    Run (raised error_type error) v out = Failed error_type error v out

    abbrev Decided :
        PolicyDecision → Outcome → World State → Result (Option R) × World State → Type 0
    Decided d deny u out = out ≡ (err (execution_denied (join_reasons d.reasons)), u)
    Decided d require_approval u out =
        out ≡ (err (approval_rejected "Execution was not approved"), u)
    Decided d allow u out = Run (operation u).0 (operation u).1 out

    -- What a run ends in, by what `evaluate_or_wait` ended in.
    abbrev pub Ending :
        Result (Option PolicyDecision) × World State → Result (Option R) × World State → Type 0
    Ending (err e, u) out = out ≡ (err e, u)
    Ending (ok none, u) out = out ≡ (ok none, u)
    Ending (ok (some d), u) out = Decided d d.outcome u out

    uncharged :
        (v w : World State) (e : Exn)
        → commit_execution services digests signer frame intent actor_id v ≡ (err e, w)
        → w.db ≡ v.db
    unfolding commit_execution transaction
    uncharged v w e h = settle-err v.db _ h

    Charged_lem :
        (r : R) (v : World State) (out : Result (Unit {0}) × World State)
        → commit_execution services digests signer frame intent actor_id v ≡ out
        → Charged r v (continue out.0 (λ _. pure (some r)) out.1)
    Charged_lem r v (ok done, w) h =
        (refl, commit_execution-IsCharged services digests signer frame intent actor_id v w h, h)
    Charged_lem r v (err e, w) h = (uncharged v w e h, h)

    Failed_lem :
        (error_type error : String) (v : World State) (out : Result (Unit {0}) × World State)
        → FailureSpec services digests signer frame intent actor_id error_type error v out
        → Failed error_type error v
            (continue out.0 (λ _ w. (err (operation_error error_type error), w)) out.1)
    Failed_lem error_type error v (ok done, w) h = inl (refl, h)
    Failed_lem error_type error v (err e, w) h = inr h

    Run_lem :
        (out : ToolResult R) (v : World State)
        → Run out v
            (conclude_operation services digests signer frame operation intent actor_id out v)
    unfolding conclude_operation
    Run_lem (returned r) v =
        Charged_lem r v (commit_execution services digests signer frame intent actor_id v) refl
    Run_lem (raised error_type error) v =
        Failed_lem error_type error v
          (record_execution_failure services digests signer frame intent actor_id error_type error
            v)
          (record_execution_failure_lem services digests signer frame intent actor_id error_type
            error v)

    Decided_lem :
        (d : PolicyDecision) (o : Outcome) (u : World State)
        → d.outcome ≡ o
        → Decided d o u
            (run_if_allowed services digests signer frame operation intent actor_id (some d) u)
    unfolding run_if_allowed
    Decided_lem d deny u e = simp e refl
    Decided_lem d require_approval u e = simp e refl
    Decided_lem d allow u e = simp e (Run_lem (operation u).0 (operation u).1)

    ended :
        (out : Result (Option PolicyDecision) × World State)
        → Ending out (
            continue out.0
              (run_if_allowed services digests signer frame operation intent actor_id)
              out.1)
    unfolding run_if_allowed
    ended (err e, u) = refl
    ended (ok none, u) = refl
    ended (ok (some d), u) = Decided_lem d d.outcome u refl

    -- `execute` ends in one of these ways. It ends as `evaluate_or_wait` does where that raises or still
    -- waits. Where the decision is not allow it raises, in the state that `evaluate_or_wait` left, and
    -- the tool does not run. Where the tool returns, its result is returned, the budget charged; or the
    -- booking raises, and the database is as the tool left it. Where the tool raises, its exception is
    -- raised, with one new row of the log that says so with the intent and the error, and an amount with
    -- a currency released; or the release or the append to the log has raised, which is what is raised
    -- then, and the database is as the tool left it.
    pub execute_lem :
        (rounds : List (Round State)) (w : World State)
        → Ending
            (evaluate_or_wait services digests signer frame intent actor_id rounds w)
            (execute services digests signer frame operation intent actor_id rounds w)
    unfolding execute
    execute_lem rounds w =
        ended (evaluate_or_wait services digests signer frame intent actor_id rounds w)
