-- ===== src/Endpoints/Tests.antt =====
-- Requests to an empty database.
use marcel_arch.Prelude.{ℕ, arith, length, ◌≡◌, ◌≢◌, refl, ap, none, some, [], ◌∷◌}
use marcel_arch.Prelude.Result.{ok, err, http_exception}
use marcel_arch.Value.{Fields, end}
use marcel_arch.Engine.{insert, before}
use marcel_arch.Auth.{Credentials, require_role, require_principal, run_body, create_access_token}
use marcel_arch.Auth.Guards.{IsAdmitted}
use marcel_arch.Redis.Memory.{memory}
use marcel_arch.World.{World}
use marcel_arch.System.Sound.{IsSound}
use marcel_arch.Validators.{strip, validate_intent}
use marcel_arch.Router.{register_agent}
use marcel_arch.Endpoints.{Request, post_agent, accepted_roles, subject_of, Arrival, respond, serve}
use marcel_arch.Schemas.{ExecutionIntent, PolicyDecision, allow}
use marcel_arch.Waiting.{Frame}
use marcel_arch.Audit.{append}
use marcel_arch.Engine.{evaluate, decide}
use marcel_arch.Rules.{evaluate_policies}
use marcel_arch.Interceptor.{evaluate_or_wait}
use marcel_arch.Endpoints.Intents.{serve_intent, IsBehind, serve_intent-allow}
use marcel_arch.Endpoints.Requests.{serve-IsAdmitted, serve-IsSound}
use marcel_arch.Json.{canonical_json}
use marcel_arch.Samples.{services, toy, signer, open_tokens, settings, plain, blank, blank-IsSound}

abbrev request : Request
request = post_agent (record {
  id = "agent-1";
  display_name = "Treasury";
  tenant_id = "acme";
  allowed_actions = "*" ∷ [];
  risk_tier = "low";
  metadata = end;
})

abbrev header : Credentials open_tokens settings
header = record {
  scheme = "Bearer";
  credentials = create_access_token open_tokens settings "dana" ("operator" ∷ []) 1000;
}

abbrev arrival : Arrival
arrival = record { new_id = "x1"; seconds = 2000; now = 2000000000; logged_at = 2000000001 }

without_token :
    serve services toy signer open_tokens settings plain request none arrival blank
    ≡ (err (http_exception 401 "Bearer token required"), blank)
unfolding serve run_body require_role require_principal
without_token = refl

abbrev agent_count : World memory.State → ℕ
agent_count w = length w.db.agents

registers :
    agent_count
      (serve services toy signer open_tokens settings plain request (some header) arrival blank).1
    ≡ 1
unfolding serve run_body require_role require_principal create_access_token respond strip insert
    before register_agent canonical_json
registers = refl

one_or_none : (n : ℕ) → n ≡ 1 → n ≢ 0
one_or_none n h e = omega arith

changes :
    (serve services toy signer open_tokens settings plain request (some header) arrival blank).1
    ≢ blank
changes e = one_or_none _ registers (ap agent_count e)

serve-IsAdmitted_example :
    (p : Fields) × IsAdmitted open_tokens settings (accepted_roles request) 2000 (some header) p
    × (serve services toy signer open_tokens settings plain request (some header) arrival blank
        ≡ respond services toy signer open_tokens settings plain request arrival
            (subject_of p)
            blank)
serve-IsAdmitted_example =
    serve-IsAdmitted services toy signer open_tokens settings plain request (some header) arrival
      blank changes

serve-IsSound_example :
    IsSound toy signer
      (serve services toy signer open_tokens settings plain request (some header) arrival blank).1
serve-IsSound_example =
    serve-IsSound services toy signer open_tokens settings plain (λ t. refl) request (some header)
      arrival blank blank-IsSound

abbrev frame : Frame
frame = record {
  approval_timeout_seconds = 900;
  dump_intent = λ i. end;
  dump_decision = λ d. end;
  cut = λ text. text;
  new_id = "t1";
  now = 5;
  deadline = 1000;
  finished = 9;
}

abbrev message : ExecutionIntent
message = record {
  agent_id = " agent-1";
  action = "payment.submit";
  payload = end;
  requested_amount = none;
  currency = none;
  idempotency_key = "payment-2026-00000001";
  correlation_id = none;
}

abbrev with_agent : World memory.State
with_agent =
    (serve services toy signer open_tokens settings plain request (some header) arrival blank).1

abbrev granted : PolicyDecision
granted = record {
  outcome = allow;
  risk_score = 10;
  reasons = "All deterministic controls passed" ∷ [];
  policy_ids = [];
  remaining_budget = none;
  hitl_transaction_id = none;
}

abbrev answered : World memory.State
answered =
    (serve_intent services toy signer open_tokens settings plain message (some header) 2000 frame []
      with_agent).1

answers :
    serve_intent services toy signer open_tokens settings plain message
      (some header)
      2000
      frame
      []
      with_agent
    ≡ (ok (some granted), answered)
unfolding serve serve_intent run_body require_role require_principal create_access_token respond
    strip insert before register_agent canonical_json validate_intent evaluate_or_wait evaluate
    decide evaluate_policies append
answers = refl

serve_intent-allow_example :
    IsBehind services toy signer open_tokens settings plain message
      (some header)
      2000
      frame
      []
      with_agent
      granted
      answered
serve_intent-allow_example =
    serve_intent-allow services toy signer open_tokens settings plain message (some header) 2000
      frame [] with_agent answered granted answers refl
