-- ===== src/System/Approvals.antt =====
-- Soundness under the calls on a transaction that waits.
use marcel_arch.Prelude.{
  ℕ, String, ◌≡◌, refl, Bool, true, false, Option, none, some, [], ◌∷◌, not, leb, inl, inr,
  Bool-cases, one-cases, if◌then◌else◌,
}
use marcel_arch.Prelude.Result.{http_exception}
use marcel_arch.Prelude.Action.{Action, ◌>>=◌, ◌>>◌}
use marcel_arch.Value.{Fields}
use marcel_arch.Models.{HitlTransaction, scalar_one_or_none}
use marcel_arch.Schemas.{ExecutionIntent, PolicyDecision}
use marcel_arch.World.{World}
use marcel_arch.Digests.{Digests}
use marcel_arch.Audit.{AuditSigner}
use marcel_arch.Hitl.{
  is_pending, transactions_of, transactions_for, expire, settle_as, find_transaction,
  write_transaction, log_request, create_unless, create_or_get_hitl, expire_pending,
  expire_transaction, refuse_late, resolve_pending, resolve_found, resolve_hitl, new_transaction,
}
use marcel_arch.System.Sound.{
  IsSound, Keeps, Keeps-gets, Keeps-lift, Keeps-bind, Keeps-pure, Keeps-raise, Keeps-transaction,
  Keeps-append,
}
use marcel_arch.System.Writes.{put_transaction-IsSound, Keeps-add_transaction}

module _ (digests : Digests) (signer : AuditSigner) {C : Type 0}
    (same_text : (t : ℕ) → digests.loaded_text t ≡ digests.aware_text t) where
  -- A test between two calls that keep soundness.
  pub Keeps-if :
      {A : Type 0} (b : Bool) (m n : Action (World C) A)
      → Keeps digests signer m
      → Keeps digests signer n
      → Keeps digests signer (if b then m else n)
  Keeps-if true m n h k = h
  Keeps-if false m n h k = k

  -- What follows the query for a transaction starts at a state in which its answer is known.
  Keeps-find_transaction :
      {A : Type 0} (id : String) (f : Option HitlTransaction → Action (World C) A)
      → Keeps digests signer (f none)
      → ((t : HitlTransaction) (w : World C)
          → transactions_of id w.db.hitl_transactions ≡ t ∷ []
          → IsSound digests signer w
          → IsSound digests signer (f (some t) w).1)
      → Keeps digests signer (find_transaction id >>= f)
  unfolding find_transaction
  Keeps-find_transaction id f missing found = record {
    apply = λ w h. elim (one-cases (transactions_of id w.db.hitl_transactions)) [
      | inl e ↦ simp e (missing.apply w h)
      | inr (inl (t, e)) ↦ simp e (found t w e h)
      | inr (inr (t, u, rest, e)) ↦ simp e h
    ];
  }

  Keeps-create_unless :
      (t : HitlTransaction) (dump : Fields) (intent : ExecutionIntent) (decision : PolicyDecision)
      (logged_at : ℕ) (existing : Option HitlTransaction)
      → Keeps digests signer {C = C}
          (create_unless digests signer t dump intent decision logged_at existing)
  unfolding create_unless log_request
  Keeps-create_unless t dump intent decision logged_at (some s) = Keeps-pure digests signer s
  Keeps-create_unless t dump intent decision logged_at none =
      Keeps-bind digests signer _ _ (Keeps-add_transaction digests signer t) (λ _.
        Keeps-bind digests signer _ _
          (Keeps-bind digests signer _ _
            (Keeps-append digests signer same_text "hitl_requested" intent.agent_id _ logged_at)
            (λ r. Keeps-pure digests signer _))
          (λ _. Keeps-pure digests signer _))

  pub Keeps-create_or_get_hitl :
      (id : String) (timeout : ℕ) (dump : Fields) (intent : ExecutionIntent)
      (decision : PolicyDecision) (now logged_at : ℕ)
      → Keeps digests signer {C = C}
          (create_or_get_hitl digests signer id timeout dump intent decision now logged_at)
  unfolding create_or_get_hitl
  Keeps-create_or_get_hitl id timeout dump intent decision now logged_at =
      Keeps-bind digests signer _ _
        (Keeps-gets digests signer
          (λ w. transactions_for intent.idempotency_key w.db.hitl_transactions))
        (λ rows.
          Keeps-bind digests signer _ _ (Keeps-lift digests signer (scalar_one_or_none rows)) (
            Keeps-create_unless (new_transaction id timeout now intent decision) dump intent
              decision logged_at))

  module _ (id : String) (t new : HitlTransaction) (same_id : new.id ≡ t.id)
      (same_key : new.idempotency_key ≡ t.idempotency_key) where
    -- The write of a row that was found, with what follows it.
    written-IsSound :
        {A : Type 0} (w : World C) (m : Action (World C) A)
        → transactions_of id w.db.hitl_transactions ≡ t ∷ []
        → IsSound digests signer w
        → Keeps digests signer m
        → IsSound digests signer ((write_transaction new >> m) w).1
    unfolding write_transaction
    written-IsSound w m e h k =
        k.apply _ (put_transaction-IsSound digests signer id t new w e same_id same_key h)

  pub Keeps-expire_transaction :
      (id actor_id : String) (now logged_at : ℕ)
      → Keeps digests signer {C = C} (expire_transaction digests signer id actor_id now logged_at)
  unfolding expire_transaction expire_pending expire
  Keeps-expire_transaction id actor_id now logged_at = Keeps-transaction digests signer _ (
      Keeps-find_transaction id _ (Keeps-pure digests signer _) (λ t w e h.
        elim (Bool-cases (not (is_pending t.status))) [
          | inl settled ↦ simp settled h
          | inr waiting ↦ simp waiting (
              written-IsSound id t (expire now t) refl refl w _ e h (
                Keeps-bind digests signer _ _
                  (Keeps-append digests signer same_text "hitl_expired" actor_id _ logged_at)
                  (λ r. Keeps-pure digests signer _)))
        ]))

  resolve-IsSound :
      (id decision : String) (comment : Option String) (reviewer : String) (now logged_at : ℕ)
      (t : HitlTransaction) (w : World C)
      → transactions_of id w.db.hitl_transactions ≡ t ∷ []
      → IsSound digests signer w
      → IsSound digests signer
          (resolve_found digests signer decision comment reviewer now logged_at (some t) w).1
  unfolding resolve_found refuse_late resolve_pending expire settle_as
  resolve-IsSound id decision comment reviewer now logged_at t w e h =
      elim (Bool-cases (not (is_pending t.status))) [
        | inl settled ↦ simp settled h
        | inr waiting ↦ elim (Bool-cases (leb t.expires_at now)) [
          | inl late ↦
              simp (waiting, late)
                (written-IsSound id t (expire now t) refl refl {A = HitlTransaction} w _ e h
                  (Keeps-raise digests signer (http_exception 409 "HITL transaction has expired")))
          | inr early ↦
              simp (waiting, early)
                (written-IsSound id t (settle_as decision comment reviewer now t) refl refl w _ e h
                  (Keeps-bind digests signer _ _
                    (Keeps-append digests signer same_text "hitl_resolved" reviewer _ logged_at)
                    (λ r. Keeps-pure digests signer _)))
        ]
      ]

  pub Keeps-resolve_hitl :
      (id decision : String) (comment : Option String) (reviewer : String) (now logged_at : ℕ)
      → Keeps digests signer {C = C}
          (resolve_hitl digests signer id decision comment reviewer now logged_at)
  unfolding resolve_hitl resolve_found
  Keeps-resolve_hitl id decision comment reviewer now logged_at =
      Keeps-transaction digests signer _ (
        Keeps-find_transaction id _ (Keeps-raise digests signer _)
          (resolve-IsSound id decision comment reviewer now logged_at))
