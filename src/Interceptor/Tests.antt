-- ===== src/Interceptor/Tests.antt =====
-- Runs of the interceptor, and the theorems on it at a concrete budget.
use marcel_arch.Prelude.{ℕ, ◌*◌, ◌^◌, ◌≡◌, ◌⊎◌, refl, arith, true, false, none, some, List, [], ◌∷◌}
use marcel_arch.Prelude.Int.{ℤ, pos, ◌-ℤ◌, ◌+ℤ◌}
use marcel_arch.Prelude.Result.{operation_error, ok, err}
use marcel_arch.Value.{end}
use marcel_arch.Models.{HitlTransaction, pending, approved}
use marcel_arch.Schemas.{ExecutionIntent, PolicyDecision, allow}
use marcel_arch.Redis.Memory.{memory}
use marcel_arch.World.{World}
use marcel_arch.Json.{canonical_json}
use marcel_arch.Samples.{services, toy, signer}
use marcel_arch.Governor.{budget_key, spend, reserve, remaining, of_int}
use marcel_arch.Rules.{evaluate_policies}
use marcel_arch.Engine.{evaluate, decide, refusal}
use marcel_arch.Audit.{append}
use marcel_arch.Hitl.{get_transaction_status}
use marcel_arch.Waiting.{Frame, Round, approval, await_rounds}
use marcel_arch.Waiting.Rounds.{HasEnded, Approved, await_rounds-HasEnded, await_rounds-Approved}
use marcel_arch.Waiting.Answers.{Answered, at_last, still_pending, await_rounds-Answered}
use marcel_arch.Interceptor.{
  ToolResult, returned, raised, unreserve, record_execution_failure, evaluate_or_wait, execute,
}
use marcel_arch.Interceptor.Execute.{Ran, execute-Ran}
use marcel_arch.Interceptor.Admission.{Direct, ByHuman, evaluate_or_wait-allow}
use marcel_arch.Interceptor.Endings.{Ending, execute_lem}

abbrev frame : Frame
frame = record {
  approval_timeout_seconds = 900;
  dump_intent = λ i. end;
  dump_decision = λ d. end;
  cut = λ text. text;
  new_id = "t1";
  now = 5;
  deadline = 1000;
  finished = 9;
}

abbrev usd : ℕ → ℤ
usd n = pos (n * 10 ^ 40)

abbrev intent : ExecutionIntent
intent = record {
  agent_id = "agent-1";
  action = "payment.submit";
  payload = end;
  requested_amount = some (usd 40);
  currency = some "USD";
  idempotency_key = "payment-2026-00000001";
  correlation_id = none;
}

abbrev row : HitlTransaction
row = record {
  id = "t1";
  idempotency_key = "payment-2026-00000001";
  agent_id = "agent-1";
  action = "payment.submit";
  intent_payload = end;
  requested_amount = some (usd 40);
  currency = some "USD";
  risk_score = 85;
  reasons = [];
  status = approved;
  reviewer_id = some "dana";
  reviewer_comment = none;
  expires_at = 900000005;
  resolved_at = some 8;
  created_at = 5;
  updated_at = 8;
}

abbrev start : World memory.State
start = record {
  db = record {
    agents =
        record {
          id = "agent-1";
          display_name = "Treasury";
          tenant_id = "acme";
          allowed_actions = "*" ∷ [];
          risk_tier = "low";
          active = true;
          metadata_json = end;
          created_at = 0;
          updated_at = 0;
        }
        ∷ [];
    budgets =
        record {
          id = "b1";
          agent_id = "agent-1";
          currency = "USD";
          limit_amount = usd 100;
          consumed_amount = pos 0;
          version = 1;
          active = true;
          created_at = 0;
          updated_at = 0;
        }
        ∷ [];
    policies = [];
    audit_logs = [];
    hitl_transactions = [];
  };
  cache = [];
}

-- The first round ends with no message; in the second a reviewer approves.
abbrev rounds : List (Round memory.State)
rounds =
    record { clock = 100; now = 6; others = λ w. w; message = false }
    ∷ record {
      clock = 101;
      now = 8;
      others = λ w. record w { db = record w.db { hitl_transactions = row ∷ [] } };
      message = true;
    }
    ∷ record { clock = 1000; now = 9; others = λ w. w; message = false }
    ∷ []

abbrev waiting : World memory.State
waiting = record start {
  db = record start.db { hitl_transactions = record row { status = pending } ∷ [] };
}

await_rounds-HasEnded_example :
    HasEnded (await_rounds services toy signer frame intent "t1" "dana" rounds waiting).0
await_rounds-HasEnded_example =
    await_rounds-HasEnded services toy signer frame intent "t1" "dana" rounds waiting refl

abbrev approved_world : World memory.State
approved_world = (await_rounds services toy signer frame intent "t1" "dana" rounds waiting).1

waited :
    await_rounds services toy signer frame intent "t1" "dana" rounds waiting
    ≡ (ok (some (approval "t1")), approved_world)
unfolding await_rounds get_transaction_status reserve ◌-ℤ◌
waited = refl

await_rounds-Approved_example :
    Approved services toy signer frame intent "t1" "dana" rounds waiting
      (approval "t1")
      approved_world
await_rounds-Approved_example =
    await_rounds-Approved services toy signer frame intent "t1" "dana" rounds waiting approved_world
      (approval "t1") waited refl

first_pending : (get_transaction_status "t1" waiting).0 ≡ ok pending
unfolding get_transaction_status
first_pending = refl

abbrev answered_world : World memory.State
answered_world = record waiting { db = record waiting.db { hitl_transactions = row ∷ [] } }

then_approved : (get_transaction_status "t1" answered_world).0 ≡ ok approved
unfolding get_transaction_status
then_approved = refl

reserves : (reserve memory "agent-1" "USD" (usd 40) answered_world).0 ≡ ok (true, some (usd 60))
unfolding reserve ◌-ℤ◌ of_int
reserves = refl

answered : Answered services toy signer frame intent "t1" "dana" rounds waiting
answered =
    still_pending (omega arith) first_pending refl
      (at_last (omega arith) then_approved (some (usd 60), reserves))

await_rounds-Answered_example :
    (await_rounds services toy signer frame intent "t1" "dana" rounds waiting).0
    ≡ ok (some (approval "t1"))
await_rounds-Answered_example =
    await_rounds-Answered services toy signer frame intent "t1" "dana" rounds waiting answered

abbrev tool : World memory.State → ToolResult ℕ × World memory.State
tool w = (returned 7, w)

abbrev paid : World memory.State
paid = (execute services toy signer frame tool intent "dana" [] start).1

pays : execute services toy signer frame tool intent "dana" [] start ≡ (ok (some 7), paid)
unfolding execute evaluate_or_wait evaluate decide append reserve remaining evaluate_policies
    budget_key ◌-ℤ◌ ◌+ℤ◌ spend canonical_json
pays = refl

execute-Ran_example : Ran services toy signer frame intent "dana" tool [] start paid 7
execute-Ran_example = execute-Ran services toy signer frame intent "dana" tool [] start paid 7 pays

abbrev unknown : World memory.State
unknown = record start { db = record start.db { agents = [] } }

abbrev refused : World memory.State
refused = (evaluate_or_wait services toy signer frame intent "dana" [] unknown).1

abbrev no_agent : PolicyDecision
no_agent = refusal "Agent is not registered or active"

refuses :
    evaluate_or_wait services toy signer frame intent "dana" [] unknown
    ≡ (ok (some no_agent), refused)
unfolding evaluate_or_wait evaluate append canonical_json
refuses = refl

-- A tool that raises.
abbrev broken : World memory.State → ToolResult ℕ × World memory.State
broken w = (raised "TimeoutError" "no answer", w)

fails :
    (execute services toy signer frame broken intent "dana" [] start).0
    ≡ err (operation_error "TimeoutError" "no answer")
unfolding execute evaluate_or_wait evaluate decide append reserve remaining evaluate_policies
    budget_key ◌-ℤ◌ ◌+ℤ◌ canonical_json record_execution_failure unreserve
fails = refl

execute_lem_example :
    Ending services toy signer frame intent "dana" broken
      (evaluate_or_wait services toy signer frame intent "dana" [] start)
      (execute services toy signer frame broken intent "dana" [] start)
execute_lem_example = execute_lem services toy signer frame intent "dana" broken [] start

abbrev granted : PolicyDecision
granted = record {
  outcome = allow;
  risk_score = 10;
  reasons = "All deterministic controls passed" ∷ [];
  policy_ids = [];
  remaining_budget = some (usd 100);
  hitl_transaction_id = none;
}

abbrev held : World memory.State
held = (evaluate_or_wait services toy signer frame intent "dana" [] start).1

grants :
    evaluate_or_wait services toy signer frame intent "dana" [] start ≡ (ok (some granted), held)
unfolding evaluate_or_wait evaluate decide append reserve remaining evaluate_policies budget_key
    ◌-ℤ◌ canonical_json
grants = refl

evaluate_or_wait-allow_example :
    Direct services toy signer frame intent "dana" start granted held
    ⊎ ByHuman services toy signer frame intent "dana" [] start granted held
evaluate_or_wait-allow_example =
    evaluate_or_wait-allow services toy signer frame intent "dana" [] start held granted grants refl
