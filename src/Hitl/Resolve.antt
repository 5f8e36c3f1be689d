-- ===== src/Hitl/Resolve.antt =====
-- `resolve_hitl`: what a reviewer's decision changes.
use marcel_arch.Prelude.{
  ℕ, ◌<◌, String, ◌≡◌, refl, ap, ◌∙◌, true, false, Option, some, ◌==◌, if◌then◌else◌, [], ◌∷◌, ◌++◌,
  inl, inr, arith, leb, Bool-cases, one-cases,
}
use marcel_arch.Prelude.Result.{Result, ok, err}
use marcel_arch.Prelude.Action.{pure, continue}
use marcel_arch.Value.{str, Fields, end, field}
use marcel_arch.Models.{AuditLog, HitlTransaction, approved, rejected}
use marcel_arch.World.{World, settle}
use marcel_arch.Digests.{Digests}
use marcel_arch.Audit.{AuditSigner, append, new_record}
use marcel_arch.Audit.Append.{AppendSpec, append_lem}
use marcel_arch.Hitl.{
  is_pending, transactions_of, optional_text, settle_as, put_transaction, resolve_hitl,
}
use marcel_arch.Hitl.Rows.{transactions_of_sound, transactions_of-put_transaction}

module _ (digests : Digests) (signer : AuditSigner) {C : Type 0} (id decision : String)
    (comment : Option String) (reviewer : String) (now logged_at : ℕ) (w : World C) where
  -- The row with the decision, the reviewer and the times.
  abbrev pub as_resolved : HitlTransaction → HitlTransaction
  as_resolved t = record t {
    status = if decision == "approved" then approved else rejected;
    reviewer_id = some reviewer;
    reviewer_comment = comment;
    resolved_at = some now;
    updated_at = now;
  }

  -- What is true when a resolution returns.
  pub record Resolved (t : HitlTransaction) (w' : World C) : Type 0 where
    pub before : HitlTransaction
    pub found : transactions_of id w.db.hitl_transactions ≡ before ∷ []
    pub waiting : is_pending before.status ≡ true
    pub in_time : now < before.expires_at
    pub row : t ≡ as_resolved before
    pub written : transactions_of id w'.db.hitl_transactions ≡ t ∷ []
    pub entry : AuditLog
    pub event_type : entry.event_type ≡ "hitl_resolved"
    pub actor : entry.actor_id ≡ reviewer
    pub payload :
        entry.event_payload
        ≡ field "hitl_transaction_id"
            (str before.id)
            (field "decision" (str decision) (field "comment" (optional_text comment) end))
    pub state : w' ≡ record w {
      db = record w.db {
        hitl_transactions = put_transaction t w.db.hitl_transactions;
        audit_logs = w.db.audit_logs ++ entry ∷ [];
      };
    }

  abbrev pub ResolveSpec : Result HitlTransaction × World C → Type 0
  ResolveSpec (ok t, w') = Resolved t w'
  ResolveSpec (err e, w') = w' ≡ w

  module _ (b : HitlTransaction) (found : transactions_of id w.db.hitl_transactions ≡ b ∷ [])
      (waiting : is_pending b.status ≡ true) (in_time : now < b.expires_at) where
    abbrev row : HitlTransaction
    row = settle_as decision comment reviewer now b

    abbrev marked : World C
    marked = record w {
      db = record w.db { hitl_transactions = put_transaction row w.db.hitl_transactions };
    }

    abbrev payload : Fields
    payload =
        field "hitl_transaction_id" (str b.id)
          (field "decision" (str decision) (field "comment" (optional_text comment) end))

    row-id : row.id ≡ id
    unfolding settle_as
    row-id = transactions_of_sound id b [] w.db.hitl_transactions found

    finish :
        (out : Result AuditLog × World C)
        → AppendSpec digests signer "hitl_resolved" reviewer payload logged_at marked out
        → ResolveSpec (settle w.db (continue out.0 (λ _. pure row) out.1))
    unfolding settle_as new_record
    finish (ok entry, w') h = record {
      before = b;
      found = found;
      waiting = waiting;
      in_time = in_time;
      row = refl;
      written =
          ap (λ (v : World C). transactions_of id v.db.hitl_transactions) h.state
          ∙ transactions_of-put_transaction row id b w.db.hitl_transactions row-id found;
      entry = entry;
      event_type = ap (λ (a : AuditLog). a.event_type) h.row;
      actor = ap (λ (a : AuditLog). a.actor_id) h.row;
      payload = ap (λ (a : AuditLog). a.event_payload) h.row;
      state = h.state;
    }
    finish (err e, w') h = ap (λ (v : World C). record v { db = w.db }) h.0

    resolve_in_time :
        ResolveSpec (resolve_hitl digests signer id decision comment reviewer now logged_at w)
    unfolding resolve_hitl
    resolve_in_time =
        let late : leb b.expires_at now ≡ false = ground arith in
        simp (found, waiting, late)
          (finish (append digests signer "hitl_resolved" reviewer payload logged_at marked)
            (append_lem digests signer "hitl_resolved" reviewer payload logged_at marked))

  -- `resolve_hitl` returns only for a transaction that waits and whose time is not over; then its one
  -- row, which is returned, is approved if the decision is the text approved and else rejected, and has
  -- the reviewer, the comment and the time; the log has one more row, which names the transaction,
  -- the decision and the comment, and all else is as before. Where it raises, nothing has changed: also where the time is over, so such a transaction
  -- goes on waiting.
  pub resolve_hitl_lem :
      ResolveSpec (resolve_hitl digests signer id decision comment reviewer now logged_at w)
  unfolding resolve_hitl
  resolve_hitl_lem = elim (one-cases (transactions_of id w.db.hitl_transactions)) [
    | inl h ↦ simp h refl
    | inr (inr (b, c, rest, h)) ↦ simp h refl
    | inr (inl (b, h)) ↦ elim (Bool-cases (is_pending b.status)) [
      | inr p ↦ simp (h, p) refl
      | inl p ↦ elim (Bool-cases (leb b.expires_at now)) [
        | inl q ↦ simp (h, p, q) refl
        | inr q ↦ resolve_in_time b h p (ground arith)
      ]
    ]
  ]
