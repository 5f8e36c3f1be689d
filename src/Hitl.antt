-- ===== src/Hitl.antt =====
-- The transactions that wait for a human: `_create_or_get_hitl`, `_get_transaction_status` and
-- `_expire_transaction` of marcel/core/interceptor.py, and `resolve_hitl` of marcel/api/router.py.
-- The message that `resolve_hitl` publishes is not a part of the state.
pub mod Rows
pub mod Resolve
pub mod Expire
pub mod Create
pub mod Final
mod Tests
use marcel_arch.Prelude.{
  ℕ, ◌+◌, ◌*◌, String, Bool, true, false, Option, none, some, List, [], ◌∷◌, ◌++◌, ◌==◌, ◌||◌, not,
  any, keep, leb, join, if◌then◌else◌,
}
use marcel_arch.Prelude.Int.{pos}
use marcel_arch.Prelude.Result.{ok, err, governance_error, http_exception, pending_rollback}
use marcel_arch.Prelude.Action.{Action, pure, raise, lift, gets, modify, raise_if, ◌>>=◌, ◌>>◌}
use marcel_arch.Value.{Value, null, int, str, list, dict, Items, nil, cons, Fields, end, field}
use marcel_arch.Models.{
  HitlStatus, pending, approved, rejected, expired, cancelled, status_value, HitlTransaction,
  scalar_one_or_none,
}
use marcel_arch.Schemas.{ExecutionIntent, PolicyDecision}
use marcel_arch.World.{World, transaction}
use marcel_arch.Digests.{Digests}
use marcel_arch.Audit.{AuditSigner, append}

abbrev pub is_pending : HitlStatus → Bool
is_pending pending = true
is_pending _ = false

-- `select(HitlTransaction).where(HitlTransaction.id == transaction_id)`
abbrev pub transactions_of : String → List HitlTransaction → List HitlTransaction
transactions_of id = keep (λ t. t.id == id)

-- `select(HitlTransaction).where(HitlTransaction.idempotency_key == intent.idempotency_key)`
abbrev pub transactions_for : String → List HitlTransaction → List HitlTransaction
transactions_for key = keep (λ t. t.idempotency_key == key)

-- The row of a transaction, written back.
unfoldable pub put_transaction : HitlTransaction → List HitlTransaction → List HitlTransaction
put_transaction new [] = []
put_transaction new (t ∷ rest) = (if t.id == new.id then new else t) ∷ put_transaction new rest

abbrev pub optional_text : Option String → Value
optional_text none = null
optional_text (some text) = str text

abbrev pub texts : List String → Items
texts [] = nil
texts (s ∷ ss) = cons (str s) (texts ss)

-- The columns that are unique.
abbrev pub same_transaction : HitlTransaction → HitlTransaction → Bool
same_transaction new t = t.id == new.id || t.idempotency_key == new.idempotency_key

-- The row after the three assignments of an expiry.
unfoldable pub expire : ℕ → HitlTransaction → HitlTransaction
expire now t = record t { status = expired; resolved_at = some now; updated_at = now }

-- The row after the five assignments of a resolution.
unfoldable pub settle_as : String → Option String → String → ℕ → HitlTransaction → HitlTransaction
settle_as decision comment reviewer now t = record t {
  status = if decision == "approved" then approved else rejected;
  reviewer_id = some reviewer;
  reviewer_comment = comment;
  resolved_at = some now;
  updated_at = now;
}

-- The new row. The default of its id is a random UUID, an argument here.
unfoldable pub new_transaction : String → ℕ → ℕ → ExecutionIntent → PolicyDecision → HitlTransaction
new_transaction id timeout now intent decision = record {
  id = id;
  idempotency_key = intent.idempotency_key;
  agent_id = intent.agent_id;
  action = intent.action;
  intent_payload = intent.payload;
  requested_amount = intent.requested_amount;
  currency = intent.currency;
  risk_score = decision.risk_score;
  reasons = decision.reasons;
  status = pending;
  reviewer_id = none;
  reviewer_comment = none;
  expires_at = now + timeout * 1000000;
  resolved_at = none;
  created_at = now;
  updated_at = now;
}

module _ {C : Type 0} where
  unfoldable pub find_transaction : String → Action (World C) (Option HitlTransaction)
  unfolding scalar_one_or_none
  find_transaction id w = (scalar_one_or_none (transactions_of id w.db.hitl_transactions), w)

  abbrev pub status_of : Option HitlTransaction → Action (World C) HitlStatus
  status_of none = raise (governance_error "HITL transaction no longer exists")
  status_of (some t) = pure t.status

  -- `_get_transaction_status`
  unfoldable pub get_transaction_status : String → Action (World C) HitlStatus
  unfolding find_transaction
  get_transaction_status id = do found ← find_transaction id; status_of found

  unfoldable pub write_transaction : HitlTransaction → Action (World C) Unit
  unfolding put_transaction
  write_transaction t = modify (λ w. record w {
    db = record w.db { hitl_transactions = put_transaction t w.db.hitl_transactions };
  })

  -- `session.add(transaction)` and `session.flush()`. A flush that fails leaves a session on which
  -- the query of the handler raises.
  unfoldable pub add_transaction : HitlTransaction → Action (World C) Unit
  add_transaction t w =
      if any (same_transaction t) w.db.hitl_transactions then (err pending_rollback, w) else (
        ok tt,
        record w { db = record w.db { hitl_transactions = w.db.hitl_transactions ++ t ∷ [] } },
      )

module _ (digests : Digests) (signer : AuditSigner) {C : Type 0} where
  -- `hitl_requested` in the log. `dump` stands for `intent.model_dump(mode="json")`.
  unfoldable pub log_request :
      Fields → ExecutionIntent → PolicyDecision → ℕ → HitlTransaction → Action (World C) Unit
  unfolding append
  log_request dump intent decision logged_at t = do
    append digests signer "hitl_requested" intent.agent_id
        (field "hitl_transaction_id" (str t.id) (
          field "intent" (dict dump) (
            field "risk_score" (int (pos decision.risk_score))
              (field "reasons" (list (texts decision.reasons)) end))))
        logged_at
    pure tt

  unfoldable pub create_unless :
      HitlTransaction
      → Fields
      → ExecutionIntent
      → PolicyDecision
      → ℕ
      → Option HitlTransaction
      → Action (World C) HitlTransaction
  unfolding add_transaction log_request
  create_unless t dump intent decision logged_at (some existing) = pure existing
  create_unless t dump intent decision logged_at none = do
    add_transaction t
    log_request dump intent decision logged_at t
    pure t

  -- `_create_or_get_hitl`
  unfoldable pub create_or_get_hitl :
      String
      → ℕ
      → Fields
      → ExecutionIntent
      → PolicyDecision
      → ℕ
      → ℕ
      → Action (World C) HitlTransaction
  unfolding create_unless scalar_one_or_none
  create_or_get_hitl id timeout dump intent decision now logged_at = do
    rows ← gets (λ w. transactions_for intent.idempotency_key w.db.hitl_transactions)
    existing ← lift (scalar_one_or_none rows)
    create_unless (new_transaction id timeout now intent decision) dump intent decision logged_at
        existing

  unfoldable pub expire_pending :
      String → String → ℕ → ℕ → Option HitlTransaction → Action (World C) Unit
  unfolding write_transaction append
  expire_pending id actor_id now logged_at none = pure tt
  expire_pending id actor_id now logged_at (some t) =
      if not (is_pending t.status) then pure tt else do
        write_transaction (expire now t)
        append digests signer "hitl_expired" actor_id (field "hitl_transaction_id" (str id) end)
            logged_at
        pure tt

  -- `_expire_transaction`
  unfoldable pub expire_transaction : String → String → ℕ → ℕ → Action (World C) Unit
  unfolding expire_pending find_transaction transaction
  expire_transaction id actor_id now logged_at =
      transaction (do found ← find_transaction id; expire_pending id actor_id now logged_at found)

  -- The transaction came too late: it is marked, and the exception undoes that.
  unfoldable pub refuse_late : ℕ → HitlTransaction → Action (World C) HitlTransaction
  unfolding write_transaction
  refuse_late now t = do
    write_transaction (expire now t)
    raise (http_exception 409 "HITL transaction has expired")

  unfoldable pub resolve_pending :
      String → Option String → String → ℕ → ℕ → HitlTransaction → Action (World C) HitlTransaction
  unfolding write_transaction append
  resolve_pending decision comment reviewer now logged_at t = do
    write_transaction (settle_as decision comment reviewer now t)
    append digests signer "hitl_resolved" reviewer
        (field "hitl_transaction_id" (str t.id)
          (field "decision" (str decision) (field "comment" (optional_text comment) end)))
        logged_at
    pure (settle_as decision comment reviewer now t)

  unfoldable pub resolve_found :
      String
      → Option String
      → String
      → ℕ
      → ℕ
      → Option HitlTransaction
      → Action (World C) HitlTransaction
  unfolding refuse_late resolve_pending
  resolve_found decision comment reviewer now logged_at none =
      raise (http_exception 404 "HITL transaction not found")
  resolve_found decision comment reviewer now logged_at (some t) =
      if not (is_pending t.status)
      then raise
          (http_exception 409 (join ("HITL transaction is already " ∷ status_value t.status ∷ [])))
      else if leb t.expires_at now
      then refuse_late now t
      else resolve_pending decision comment reviewer now logged_at t

  -- `resolve_hitl`, for the principal `reviewer`.
  unfoldable pub resolve_hitl :
      String → String → Option String → String → ℕ → ℕ → Action (World C) HitlTransaction
  unfolding resolve_found find_transaction transaction
  resolve_hitl id decision comment reviewer now logged_at =
      transaction (do
        found ← find_transaction id
        resolve_found decision comment reviewer now logged_at found)
