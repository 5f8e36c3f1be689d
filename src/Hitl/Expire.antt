-- ===== src/Hitl/Expire.antt =====
-- `_expire_transaction`: what the end of the waiting changes.
use marcel_arch.Prelude.{
  ℕ, String, ◌≡◌, refl, ap, ◌∙◌, ◌⊎◌, some, true, false, [], ◌∷◌, ◌++◌, inl, inr, Bool-cases,
  one-cases,
}
use marcel_arch.Prelude.Result.{Result, ok, err}
use marcel_arch.Prelude.Action.{pure, continue}
use marcel_arch.Value.{str, Fields, end, field}
use marcel_arch.Models.{AuditLog, HitlTransaction, expired}
use marcel_arch.World.{World, settle}
use marcel_arch.Digests.{Digests}
use marcel_arch.Audit.{AuditSigner, append, new_record}
use marcel_arch.Audit.Append.{AppendSpec, append_lem}
use marcel_arch.Hitl.{is_pending, transactions_of, expire, put_transaction, expire_transaction}
use marcel_arch.Hitl.Rows.{transactions_of_sound, transactions_of-put_transaction}

module _ (digests : Digests) (signer : AuditSigner) {C : Type 0} (id actor_id : String)
    (now logged_at : ℕ) (w : World C) where
  -- The row with its new status and its two times.
  abbrev pub as_expired : HitlTransaction → HitlTransaction
  as_expired t = record t { status = expired; resolved_at = some now; updated_at = now }

  -- What is true when a transaction is marked as expired.
  pub record Expired (w' : World C) : Type 0 where
    pub before : HitlTransaction
    pub found : transactions_of id w.db.hitl_transactions ≡ before ∷ []
    pub waiting : is_pending before.status ≡ true
    pub written : transactions_of id w'.db.hitl_transactions ≡ as_expired before ∷ []
    pub entry : AuditLog
    pub event_type : entry.event_type ≡ "hitl_expired"
    pub actor : entry.actor_id ≡ actor_id
    pub payload : entry.event_payload ≡ field "hitl_transaction_id" (str id) end
    pub state : w' ≡ record w {
      db = record w.db {
        hitl_transactions = put_transaction (as_expired before) w.db.hitl_transactions;
        audit_logs = w.db.audit_logs ++ entry ∷ [];
      };
    }

  -- Why there is nothing to mark.
  pub data Nothing : Type 0 where
    missing : transactions_of id w.db.hitl_transactions ≡ [] → Nothing
    resolved :
        (t : HitlTransaction)
        → transactions_of id w.db.hitl_transactions ≡ t ∷ []
        → is_pending t.status ≡ false
        → Nothing

  abbrev pub ExpireSpec : Result (Unit {0}) × World C → Type 0
  ExpireSpec (ok _, w') = Expired w' ⊎ (Nothing × (w' ≡ w))
  ExpireSpec (err e, w') = w' ≡ w

  module _ (b : HitlTransaction) (found : transactions_of id w.db.hitl_transactions ≡ b ∷ [])
      (waiting : is_pending b.status ≡ true) where
    abbrev marked : World C
    marked = record w {
      db = record w.db {
        hitl_transactions = put_transaction (expire now b) w.db.hitl_transactions;
      };
    }

    abbrev payload : Fields
    payload = field "hitl_transaction_id" (str id) end

    expired-id : (expire now b).id ≡ id
    unfolding expire
    expired-id = transactions_of_sound id b [] w.db.hitl_transactions found

    finish :
        (out : Result AuditLog × World C)
        → AppendSpec digests signer "hitl_expired" actor_id payload logged_at marked out
        → ExpireSpec (settle w.db (continue out.0 (λ _. pure tt) out.1))
    unfolding expire new_record
    finish (ok entry, w') h = inl (record {
      before = b;
      found = found;
      waiting = waiting;
      written =
          ap (λ (v : World C). transactions_of id v.db.hitl_transactions) h.state
          ∙ transactions_of-put_transaction (expire now b) id b w.db.hitl_transactions expired-id
              found;
      entry = entry;
      event_type = ap (λ (a : AuditLog). a.event_type) h.row;
      actor = ap (λ (a : AuditLog). a.actor_id) h.row;
      payload = ap (λ (a : AuditLog). a.event_payload) h.row;
      state = h.state;
    })
    finish (err e, w') h = ap (λ (v : World C). record v { db = w.db }) h.0

    expire_waiting : ExpireSpec (expire_transaction digests signer id actor_id now logged_at w)
    unfolding expire_transaction
    expire_waiting =
        simp (found, waiting)
          (finish (append digests signer "hitl_expired" actor_id payload logged_at marked)
            (append_lem digests signer "hitl_expired" actor_id payload logged_at marked))

  -- `_expire_transaction` gives the one row of a transaction that waits the status expired and the time
  -- as that of its resolution and its update, adds one row to the log that names the transaction and
  -- the actor, and changes nothing else; where the transaction is missing or no longer waits, and where it raises,
  -- nothing has changed.
  pub expire_transaction_lem :
      ExpireSpec (expire_transaction digests signer id actor_id now logged_at w)
  unfolding expire_transaction
  expire_transaction_lem = elim (one-cases (transactions_of id w.db.hitl_transactions)) [
    | inl h ↦ simp h (inr (missing h, refl))
    | inr (inr (b, c, rest, h)) ↦ simp h refl
    | inr (inl (b, h)) ↦ elim (Bool-cases (is_pending b.status)) [
      | inr p ↦ simp (h, p) (inr (resolved b h p, refl))
      | inl p ↦ expire_waiting b h p
    ]
  ]
