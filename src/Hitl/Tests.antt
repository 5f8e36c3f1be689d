-- ===== src/Hitl/Tests.antt =====
-- Runs of the transactions that wait, and the theorems on them at concrete rows.
use marcel_arch.Prelude.{◌≡◌, refl, none, some, [], ◌∷◌}
use marcel_arch.Prelude.Int.{pos}
use marcel_arch.Prelude.Result.{ok, err, http_exception}
use marcel_arch.Value.{end}
use marcel_arch.Models.{HitlTransaction, pending, approved}
use marcel_arch.Schemas.{ExecutionIntent, PolicyDecision, require_approval}
use marcel_arch.World.{World, transaction}
use marcel_arch.Json.{canonical_json}
use marcel_arch.Samples.{toy, signer}
use marcel_arch.Audit.{append}
use marcel_arch.Hitl.{
  transactions_of, new_transaction, settle_as, create_or_get_hitl, expire_transaction, resolve_hitl,
  get_transaction_status,
}
use marcel_arch.Hitl.Create.{CreateSpec, create_or_get_hitl_lem}
use marcel_arch.Hitl.Expire.{ExpireSpec, expire_transaction_lem}
use marcel_arch.Hitl.Resolve.{ResolveSpec, resolve_hitl_lem}
use marcel_arch.Hitl.Final.{Step, Reach, Reach-final}

abbrev empty : World Unit
empty = record {
  db = record { agents = []; budgets = []; policies = []; audit_logs = []; hitl_transactions = [] };
  cache = tt;
}

abbrev intent : ExecutionIntent
intent = record {
  agent_id = "treasury-agent-01";
  action = "payment.submit";
  payload = end;
  requested_amount = some (pos 7500);
  currency = some "USD";
  idempotency_key = "payment-2026-00000001";
  correlation_id = none;
}

abbrev decision : PolicyDecision
decision = record {
  outcome = require_approval;
  risk_score = 85;
  reasons = "High-value payment" ∷ [];
  policy_ids = "p1" ∷ [];
  remaining_budget = none;
  hitl_transaction_id = none;
}

-- Asked for at the time 10, and open for 900 seconds.
abbrev waiting : World Unit
waiting = (transaction (create_or_get_hitl toy signer "t1" 900 end intent decision 10 11) empty).1

-- A reviewer who comes in time.
abbrev answered : World Unit
answered = (resolve_hitl toy signer "t1" "approved" none "dana" 20 21 waiting).1

asked : (get_transaction_status "t1" waiting).0 ≡ ok pending
unfolding get_transaction_status create_or_get_hitl transaction append new_transaction
    canonical_json
asked = refl

granted : (get_transaction_status "t1" answered).0 ≡ ok approved
unfolding get_transaction_status create_or_get_hitl transaction append resolve_hitl new_transaction
    settle_as canonical_json
granted = refl

-- A reviewer who comes too late is refused, and the transaction goes on waiting.
too_late :
    let out = resolve_hitl toy signer "t1" "approved" none "dana" 900000010 21 waiting in
    (out.0 ≡ err (http_exception 409 "HITL transaction has expired"))
    × ((get_transaction_status "t1" out.1).0 ≡ ok pending)
unfolding get_transaction_status create_or_get_hitl transaction append resolve_hitl new_transaction
    settle_as canonical_json
too_late = (refl, refl)

create_or_get_hitl_lem_example :
    CreateSpec toy signer "t1" 900 end intent decision 10 11 empty
      (transaction (create_or_get_hitl toy signer "t1" 900 end intent decision 10 11) empty)
create_or_get_hitl_lem_example =
    create_or_get_hitl_lem toy signer "t1" 900 end intent decision 10 11 empty

expire_transaction_lem_example :
    ExpireSpec toy signer "t1" "dana" 30 31 waiting
      (expire_transaction toy signer "t1" "dana" 30 31 waiting)
expire_transaction_lem_example = expire_transaction_lem toy signer "t1" "dana" 30 31 waiting

resolve_hitl_lem_example :
    ResolveSpec toy signer "t1" "approved" none "dana" 20 21 waiting
      (resolve_hitl toy signer "t1" "approved" none "dana" 20 21 waiting)
resolve_hitl_lem_example = resolve_hitl_lem toy signer "t1" "approved" none "dana" 20 21 waiting

abbrev approved_row : HitlTransaction
approved_row = record {
  id = "t1";
  idempotency_key = "payment-2026-00000001";
  agent_id = "treasury-agent-01";
  action = "payment.submit";
  intent_payload = end;
  requested_amount = some (pos 7500);
  currency = some "USD";
  risk_score = 85;
  reasons = "High-value payment" ∷ [];
  status = approved;
  reviewer_id = some "dana";
  reviewer_comment = none;
  expires_at = 900000010;
  resolved_at = some 20;
  created_at = 10;
  updated_at = 20;
}

has_row : transactions_of "t1" answered.db.hitl_transactions ≡ approved_row ∷ []
unfolding create_or_get_hitl transaction append resolve_hitl new_transaction settle_as
    canonical_json
has_row = refl

abbrev after : World Unit
after = (expire_transaction toy signer "t1" "dana" 40 41 answered).1

Reach-final_example : transactions_of "t1" after.db.hitl_transactions ≡ approved_row ∷ []
Reach-final_example =
    Reach-final toy signer "t1" approved_row refl has_row
      (Reach.next Reach.here (Step.expire_step "t1" "dana" 40 41))
