-- ===== src/Hitl/Create.antt =====
-- `_create_or_get_hitl`: a new transaction, or the one that has the idempotency key.
use marcel_arch.Prelude.{
  ℕ, ◌+◌, ◌*◌, none, String, ◌≡◌, refl, ap, ◌⊎◌, false, [], ◌∷◌, ◌++◌, inl, inr, any, Bool-cases,
  one-cases,
}
use marcel_arch.Prelude.Int.{pos}
use marcel_arch.Prelude.Result.{Result, ok, err}
use marcel_arch.Prelude.Action.{pure, continue}
use marcel_arch.Value.{int, str, list, dict, Fields, end, field}
use marcel_arch.Models.{AuditLog, HitlTransaction, pending}
use marcel_arch.Schemas.{ExecutionIntent, PolicyDecision}
use marcel_arch.World.{World, settle, transaction}
use marcel_arch.Digests.{Digests}
use marcel_arch.Audit.{AuditSigner, append, new_record}
use marcel_arch.Audit.Append.{AppendSpec, append_lem}
use marcel_arch.Hitl.{
  texts, transactions_for, same_transaction, new_transaction, create_or_get_hitl,
}

module _ (digests : Digests) (signer : AuditSigner) {C : Type 0} (id : String) (timeout : ℕ)
    (dump : Fields) (intent : ExecutionIntent) (decision : PolicyDecision) (now logged_at : ℕ)
    (w : World C) where
  abbrev pub fresh : HitlTransaction
  fresh = new_transaction id timeout now intent decision

  -- The row of a transaction that waits for an answer to this intent.
  abbrev pub waiting_row : HitlTransaction
  waiting_row = record {
    id = id;
    idempotency_key = intent.idempotency_key;
    agent_id = intent.agent_id;
    action = intent.action;
    intent_payload = intent.payload;
    requested_amount = intent.requested_amount;
    currency = intent.currency;
    risk_score = decision.risk_score;
    reasons = decision.reasons;
    status = pending;
    reviewer_id = none;
    reviewer_comment = none;
    expires_at = now + timeout * 1000000;
    resolved_at = none;
    created_at = now;
    updated_at = now;
  }

  -- What is true when a transaction is new.
  pub record Created (t : HitlTransaction) (w' : World C) : Type 0 where
    pub none_before : transactions_for intent.idempotency_key w.db.hitl_transactions ≡ []
    pub row : t ≡ waiting_row
    pub unique : any (same_transaction t) w.db.hitl_transactions ≡ false
    pub entry : AuditLog
    pub event_type : entry.event_type ≡ "hitl_requested"
    pub actor : entry.actor_id ≡ intent.agent_id
    pub state : w' ≡ record w {
      db = record w.db {
        hitl_transactions = w.db.hitl_transactions ++ t ∷ [];
        audit_logs = w.db.audit_logs ++ entry ∷ [];
      };
    }

  abbrev pub CreateSpec : Result HitlTransaction × World C → Type 0
  CreateSpec (ok t, w') =
      Created t w'
      ⊎ ((transactions_for intent.idempotency_key w.db.hitl_transactions ≡ t ∷ []) × (w' ≡ w))
  CreateSpec (err e, w') = w' ≡ w

  abbrev payload : Fields
  payload = field "hitl_transaction_id" (str id) (
      field "intent" (dict dump) (
        field "risk_score" (int (pos decision.risk_score))
          (field "reasons" (list (texts decision.reasons)) end)))

  abbrev added : World C
  added = record w { db = record w.db { hitl_transactions = w.db.hitl_transactions ++ fresh ∷ [] } }

  finish :
      transactions_for intent.idempotency_key w.db.hitl_transactions ≡ []
      → any (same_transaction fresh) w.db.hitl_transactions ≡ false
      → (out : Result AuditLog × World C)
      → AppendSpec digests signer "hitl_requested" intent.agent_id payload logged_at added out
      → CreateSpec (
          settle w.db
            (let (r, v) = continue out.0 (λ _. pure tt) out.1 in continue r (λ _. pure fresh) v))
  unfolding new_transaction new_record
  finish none_before free (ok entry, w') h = inl (record {
    none_before = none_before;
    row = refl;
    unique = free;
    entry = entry;
    event_type = ap (λ (a : AuditLog). a.event_type) h.row;
    actor = ap (λ (a : AuditLog). a.actor_id) h.row;
    state = h.state;
  })
  finish none_before free (err e, w') h = ap (λ (v : World C). record v { db = w.db }) h.0

  create_fresh :
      transactions_for intent.idempotency_key w.db.hitl_transactions ≡ []
      → any (same_transaction fresh) w.db.hitl_transactions ≡ false
      → CreateSpec (
          transaction
            (create_or_get_hitl digests signer id timeout dump intent decision now logged_at)
            w)
  unfolding transaction create_or_get_hitl new_transaction
  create_fresh h free =
      simp (h, free)
        (finish h free
          (append digests signer "hitl_requested" intent.agent_id payload logged_at added)
          (append_lem digests signer "hitl_requested" intent.agent_id payload logged_at added))

  -- In a transaction of its own, `_create_or_get_hitl` returns the one row that has the idempotency
  -- key, whatever its intent and its status, and changes nothing; or, if there is none, it adds a
  -- row for this intent and the score and the reasons of this decision, which is pending until the
  -- timeout is over, and one row of the log, with the agent as its actor, and changes nothing else; or it raises, and nothing
  -- has changed.
  pub create_or_get_hitl_lem : CreateSpec (
      transaction
        (create_or_get_hitl digests signer id timeout dump intent decision now logged_at)
        w)
  unfolding transaction create_or_get_hitl
  create_or_get_hitl_lem =
      elim (one-cases (transactions_for intent.idempotency_key w.db.hitl_transactions)) [
        | inl h ↦ elim (Bool-cases (any (same_transaction fresh) w.db.hitl_transactions)) [
          | inl clash ↦ simp (h, clash) refl
          | inr free ↦ create_fresh h free
        ]
        | inr (inr (b, c, rest, h)) ↦ simp h refl
        | inr (inl (b, h)) ↦ simp h (inr (refl, refl))
      ]
