-- ===== src/Hitl/Final.antt =====
-- The states of a transaction: once it no longer waits, no call changes it.
use marcel_arch.Prelude.{
  ℕ, String, ◌≡◌, sym, ap, ◌∙◌, true, false, Option, List, [], ◌∷◌, ◌==◌, inl, inr, eq_iff,
  Bool-cases,
}
use marcel_arch.Prelude.Result.{Result, ok, err}
use marcel_arch.Value.{Fields}
use marcel_arch.Models.{HitlTransaction}
use marcel_arch.Schemas.{ExecutionIntent, PolicyDecision}
use marcel_arch.World.{World, transaction}
use marcel_arch.Digests.{Digests}
use marcel_arch.Audit.{AuditSigner}
use marcel_arch.Hitl.{
  is_pending, transactions_of, put_transaction, create_or_get_hitl, expire_transaction,
  resolve_hitl,
}
use marcel_arch.Hitl.Rows.{
  transactions_of_sound, transactions_of-put_transaction_ne, transactions_of-append,
}
use marcel_arch.Hitl.Create.{CreateSpec, create_or_get_hitl_lem}
use marcel_arch.Hitl.Expire.{ExpireSpec, expire_transaction_lem}
use marcel_arch.Hitl.Resolve.{ResolveSpec, resolve_hitl_lem}

-- A write to a row that waited leaves a row that no longer waits.
put_transaction_final :
    (new before t : HitlTransaction) (key id : String) (rows : List HitlTransaction)
    → transactions_of key rows ≡ before ∷ []
    → is_pending before.status ≡ true
    → new.id ≡ key
    → transactions_of id rows ≡ t ∷ []
    → is_pending t.status ≡ false
    → transactions_of id (put_transaction new rows) ≡ t ∷ []
put_transaction_final new before t key id rows found waiting name h final =
    elim (Bool-cases (new.id == id)) [
      | inr other ↦ transactions_of-put_transaction_ne new id rows other ∙ h
      | inl same ↦
          let e : key ≡ id = sym name ∙ (eq_iff new.id id).0 same in
          let heads = sym found ∙ ap (λ k. transactions_of k rows) e ∙ h in
          absurd (cc (heads, waiting, final))
    ]

module _ (digests : Digests) (signer : AuditSigner) {C : Type 0} where
  -- The calls that touch transactions, each in a transaction of the database, and any other change of
  -- the state that leaves them alone.
  pub data Step (w : World C) : World C → Type 0 where
    create_step :
        (id : String) (timeout : ℕ) (dump : Fields) (intent : ExecutionIntent)
        (decision : PolicyDecision) (now logged_at : ℕ)
        → Step w
            (transaction
              (create_or_get_hitl digests signer id timeout dump intent decision now logged_at)
              w).1
    expire_step :
        (id actor_id : String) (now logged_at : ℕ)
        → Step w (expire_transaction digests signer id actor_id now logged_at w).1
    resolve_step :
        (id decision : String) (comment : Option String) (reviewer : String) (now logged_at : ℕ)
        → Step w (resolve_hitl digests signer id decision comment reviewer now logged_at w).1
    other_step : (v : World C) → v.db.hitl_transactions ≡ w.db.hitl_transactions → Step w v

  pub data Reach (w : World C) : World C → Type 0 where
    here : Reach w w
    next : {u v : World C} → Reach w u → Step u v → Reach w v

  module _ (id : String) (t : HitlTransaction) (final : is_pending t.status ≡ false) where
    abbrev Stays : World C → Type 0
    Stays v = transactions_of id v.db.hitl_transactions ≡ t ∷ []

    create-Stays :
        (key : String) (timeout : ℕ) (dump : Fields) (intent : ExecutionIntent)
        (decision : PolicyDecision) (now logged_at : ℕ) (w : World C)
        (out : Result HitlTransaction × World C)
        → CreateSpec digests signer key timeout dump intent decision now logged_at w out
        → Stays w
        → Stays out.1
    create-Stays key timeout dump intent decision now logged_at w (ok r, w') (inl c) h =
        rw c.state (transactions_of-append r id t [] w.db.hitl_transactions c.unique h)
    create-Stays key timeout dump intent decision now logged_at w (ok r, w') (inr c) h = rw c.1 h
    create-Stays key timeout dump intent decision now logged_at w (err e, w') c h = rw c h

    expire-Stays :
        (key actor_id : String) (now logged_at : ℕ) (w : World C)
        (out : Result (Unit {0}) × World C)
        → ExpireSpec digests signer key actor_id now logged_at w out
        → Stays w
        → Stays out.1
    expire-Stays key actor_id now logged_at w (ok r, w') (inl c) h = rw c.state (
        put_transaction_final _ c.before t key id w.db.hitl_transactions c.found c.waiting
          (transactions_of_sound key _ [] w'.db.hitl_transactions c.written) h final)
    expire-Stays key actor_id now logged_at w (ok r, w') (inr c) h = rw c.1 h
    expire-Stays key actor_id now logged_at w (err e, w') c h = rw c h

    resolve-Stays :
        (key decision : String) (comment : Option String) (reviewer : String) (now logged_at : ℕ)
        (w : World C) (out : Result HitlTransaction × World C)
        → ResolveSpec digests signer key decision comment reviewer now logged_at w out
        → Stays w
        → Stays out.1
    resolve-Stays key decision comment reviewer now logged_at w (ok r, w') c h = rw c.state (
        put_transaction_final r c.before t key id w.db.hitl_transactions c.found c.waiting
          (transactions_of_sound key r [] w'.db.hitl_transactions c.written) h final)
    resolve-Stays key decision comment reviewer now logged_at w (err e, w') c h = rw c h

    Step-Stays : {w v : World C} → Step w v → Stays w → Stays v
    Step-Stays {w} (create_step key timeout dump intent decision now logged_at) h =
        create-Stays key timeout dump intent decision now logged_at w _
          (create_or_get_hitl_lem digests signer key timeout dump intent decision now logged_at w) h
    Step-Stays {w} (expire_step key actor_id now logged_at) h =
        expire-Stays key actor_id now logged_at w _
          (expire_transaction_lem digests signer key actor_id now logged_at w) h
    Step-Stays {w} (resolve_step key decision comment reviewer now logged_at) h =
        resolve-Stays key decision comment reviewer now logged_at w _
          (resolve_hitl_lem digests signer key decision comment reviewer now logged_at w) h
    Step-Stays (other_step v same) h = rw same h

    -- A transaction that no longer waits keeps its row, its status with it, through every sequence of
    -- requests, expiries and resolutions and of changes that leave the transactions alone.
    pub Reach-final :
        {w v : World C}
        → transactions_of id w.db.hitl_transactions ≡ t ∷ []
        → Reach w v
        → transactions_of id v.db.hitl_transactions ≡ t ∷ []
    Reach-final h here = h
    Reach-final h (next r s) = Step-Stays s (Reach-final h r)
