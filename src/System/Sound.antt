-- ===== src/System/Sound.antt =====
-- What holds of the database between two calls, and how calls that keep it are put together.
use marcel_arch.Prelude.{ℕ, ◌+◌, String, ◌≡◌, refl, sym, subst, ◌==◌, ◌&&◌, nat_eq, arith}
use marcel_arch.Prelude.Keep.{AtMostOne}
use marcel_arch.Prelude.Result.{Exn, Result, ok, err}
use marcel_arch.Prelude.Action.{
  Action, pure, raise, lift, gets, continue, replaced, on_integrity_error, ◌>>=◌,
}
use marcel_arch.Value.{Fields}
use marcel_arch.Models.{AuditLog, is_budget_of}
use marcel_arch.World.{World, settle, transaction}
use marcel_arch.Digests.{Digests}
use marcel_arch.Governor.Rows.{AllCapped}
use marcel_arch.Audit.{AuditSigner, append, verify_chain}
use marcel_arch.Audit.Append.{AppendSpec, append_lem, verify_chain-append}

module _ (digests : Digests) (signer : AuditSigner) {C : Type 0} where
  -- Every query for one row finds at most one, no budget has consumed more than its limit, and the
  -- log verifies.
  pub record IsSound (w : World C) : Type 0 where
    pub agents_one : (id : String) → AtMostOne (λ a. a.id == id) w.db.agents
    pub budgets_one :
        (agent_id currency : String) → AtMostOne (is_budget_of agent_id currency) w.db.budgets
    pub capped : AllCapped w.db.budgets
    pub policies_one :
        (name : String) (version : ℕ)
        → AtMostOne (λ p. p.name == name && nat_eq p.version version) w.db.policies
    pub transactions_one : (id : String) → AtMostOne (λ t. t.id == id) w.db.hitl_transactions
    pub keys_one : (key : String) → AtMostOne (λ t. t.idempotency_key == key) w.db.hitl_transactions
    pub verified : (n : ℕ) × (verify_chain digests signer w ≡ ok n)

  IsSound-cache : (w : World C) (c : C) → IsSound w → IsSound (record w { cache = c })
  unfolding verify_chain
  IsSound-cache w c h = record {
    agents_one = h.agents_one;
    budgets_one = h.budgets_one;
    capped = h.capped;
    policies_one = h.policies_one;
    transactions_one = h.transactions_one;
    keys_one = h.keys_one;
    verified = h.verified;
  }

  -- The server's keys do not matter.
  pub IsSound-db : (w w' : World C) → w'.db ≡ w.db → IsSound w → IsSound w'
  IsSound-db w w' e h =
      subst (λ db. IsSound (record w' { db = db })) (sym e) (IsSound-cache w w'.cache h)

  -- The call leaves a sound state sound, whether it returns or raises.
  pub record Keeps {A : Type 0} (m : Action (World C) A) : Type 0 where
    pub apply : (w : World C) → IsSound w → IsSound (m w).1

  pub Keeps-db :
      {A : Type 0} (m : Action (World C) A) → ((w : World C) → (m w).1.db ≡ w.db) → Keeps m
  Keeps-db m e = record { apply = λ w h. IsSound-db w (m w).1 (e w) h }

  module _ {A B : Type 0} (f : A → Action (World C) B) where
    continue-IsSound :
        (out : Result A × World C)
        → IsSound out.1
        → ((a : A) → Keeps (f a))
        → IsSound (continue out.0 f out.1).1
    continue-IsSound (ok a, w) h k = (k a).apply w h
    continue-IsSound (err e, w) h k = h

    -- The rest of a call, at a state in which its first part is known to keep soundness.
    pub bind-IsSound :
        (m : Action (World C) A) (w : World C)
        → IsSound (m w).1
        → ((a : A) → Keeps (f a))
        → IsSound ((m >>= f) w).1
    bind-IsSound m w h k = continue-IsSound (m w) h k

    pub Keeps-bind : (m : Action (World C) A) → Keeps m → ((a : A) → Keeps (f a)) → Keeps (m >>= f)
    Keeps-bind m h k = record { apply = λ w s. bind-IsSound m w (h.apply w s) k }

  settle-IsSound :
      {A : Type 0} (w : World C) (out : Result A × World C)
      → IsSound w
      → IsSound out.1
      → IsSound (settle w.db out).1
  settle-IsSound w (ok a, v) h k = k
  settle-IsSound w (err e, v) h k = IsSound-db w (record v { db = w.db }) refl h

  pub Keeps-pure : {A : Type 0} (a : A) → Keeps (pure a)
  Keeps-pure a = record { apply = λ w h. h }

  pub Keeps-raise : {A : Type 0} (e : Exn) → Keeps {A = A} (raise e)
  Keeps-raise e = record { apply = λ w h. h }

  pub Keeps-gets : {A : Type 0} (f : World C → A) → Keeps (gets f)
  Keeps-gets f = record { apply = λ w h. h }

  pub Keeps-lift : {A : Type 0} (r : Result A) → Keeps (lift r)
  Keeps-lift r = record { apply = λ w h. h }

  pub Keeps-transaction : {A : Type 0} (m : Action (World C) A) → Keeps m → Keeps (transaction m)
  unfolding transaction
  Keeps-transaction m k = record { apply = λ w h. settle-IsSound w (m w) h (k.apply w h) }

  replaced-state : {A : Type 0} (e : Exn) (out : Result A × World C) → (replaced e out).1 ≡ out.1
  replaced-state e out = ground arith

  pub Keeps-on_integrity_error :
      {A : Type 0} (e : Exn) (m : Action (World C) A) → Keeps m → Keeps (on_integrity_error e m)
  Keeps-on_integrity_error e m k = record {
    apply = λ w h. rw (replaced-state e (m w)) (k.apply w h);
  }

  module _ (same_text : (t : ℕ) → digests.loaded_text t ≡ digests.aware_text t) where
    appended-IsSound :
        (event_type actor_id : String) (payload : Fields) (now : ℕ) (w : World C)
        (out : Result AuditLog × World C)
        → append digests signer event_type actor_id payload now w ≡ out
        → AppendSpec digests signer event_type actor_id payload now w out
        → IsSound w
        → IsSound out.1
    appended-IsSound event_type actor_id payload now w (err x, w') e a h = rw a.0 h
    appended-IsSound event_type actor_id payload now w (ok r, w') e a h =
        let (n, v) = h.verified in
        let v' =
          verify_chain-append digests signer event_type actor_id payload now (same_text now) w w' n
            r v e in
        rw a.state (record {
          agents_one = h.agents_one;
          budgets_one = h.budgets_one;
          capped = h.capped;
          policies_one = h.policies_one;
          transactions_one = h.transactions_one;
          keys_one = h.keys_one;
          verified = (n + 1, rw a.state at v');
        })

    pub Keeps-append :
        (event_type actor_id : String) (payload : Fields) (now : ℕ)
        → Keeps (append digests signer event_type actor_id payload now)
    Keeps-append event_type actor_id payload now = record {
      apply = λ w h.
          appended-IsSound event_type actor_id payload now w _ refl
            (append_lem digests signer event_type actor_id payload now w) h;
    }
