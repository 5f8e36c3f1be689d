-- ===== src/System/Writes.antt =====
-- Soundness under the writes to a table.
use marcel_arch.Prelude.{
  String, ◌≡◌, refl, sym, ap, ◌∙◌, Bool, List, [], ◌∷◌, ◌==◌, ◌&&◌, any, nat_eq, eq_iff, inl, inr,
  arith, All-append, Bool-cases,
}
use marcel_arch.Prelude.Keep.{AtMostOne, AtMostOne-append, replace, length-keep-replace}
use marcel_arch.Models.{Agent, Budget, Policy, HitlTransaction, is_budget_of, budgets_of}
use marcel_arch.World.{World}
use marcel_arch.Digests.{Digests}
use marcel_arch.Governor.{put_budget}
use marcel_arch.Governor.Rows.{IsCapped, AllCapped-put_budget, budgets_of_sound}
use marcel_arch.Audit.{AuditSigner, verify_chain}
use marcel_arch.Hitl.{transactions_of, put_transaction, same_transaction, add_transaction}
use marcel_arch.Hitl.Rows.{transactions_of_sound}
use marcel_arch.Tables.{same_agent, same_budget, same_policy, add_agent, add_budget, add_policy}
use marcel_arch.System.Sound.{IsSound, Keeps}

put_budget-replace :
    (new : Budget) (rows : List Budget)
    → put_budget new rows ≡ replace (is_budget_of new.agent_id new.currency) new rows
unfolding put_budget
put_budget-replace new [] = refl
put_budget-replace new (b ∷ rows) = rw (put_budget-replace new rows)

put_transaction-replace :
    (new : HitlTransaction) (rows : List HitlTransaction)
    → put_transaction new rows ≡ replace (λ t. t.id == new.id) new rows
unfolding put_transaction
put_transaction-replace new [] = refl
put_transaction-replace new (t ∷ rows) = rw (put_transaction-replace new rows)

put_budget_one :
    (agent_id currency a c : String) (b new : Budget) (rows : List Budget)
    → budgets_of agent_id currency rows ≡ b ∷ []
    → new.agent_id ≡ agent_id
    → new.currency ≡ currency
    → AtMostOne (is_budget_of a c) rows
    → AtMostOne (is_budget_of a c) (put_budget new rows)
put_budget_one agent_id currency a c b new rows found ea ec one =
    let (ba, bc) = budgets_of_sound agent_id currency b [] rows found in
    let found' : budgets_of new.agent_id new.currency rows ≡ b ∷ [] = rw (ea, ec) found in
    let alike : is_budget_of a c new ≡ is_budget_of a c b =
      ap (λ x. (x == a) && (new.currency == c)) (ea ∙ sym ba)
      ∙ ap (λ x. (b.agent_id == a) && (x == c)) (ec ∙ sym bc) in
    let same =
      length-keep-replace (is_budget_of new.agent_id new.currency) new (is_budget_of a c) b rows
        found' alike in
    rw (put_budget-replace new rows) (omega (arith, same, one))

put_transaction_one :
    (p : HitlTransaction → Bool) (id : String) (t new : HitlTransaction)
    (rows : List HitlTransaction)
    → transactions_of id rows ≡ t ∷ []
    → new.id ≡ id
    → p new ≡ p t
    → AtMostOne p rows
    → AtMostOne p (put_transaction new rows)
put_transaction_one p id t new rows found e alike one =
    let found' : transactions_of new.id rows ≡ t ∷ [] = rw e found in
    let same = length-keep-replace (λ t. t.id == new.id) new p t rows found' alike in
    rw (put_transaction-replace new rows) (omega (arith, same, one))

module _ (digests : Digests) (signer : AuditSigner) {C : Type 0} where
  abbrev Sound : World C → Type 0
  Sound w = IsSound digests signer w

  -- The row of a budget that was found, written back with its keys and within its limit.
  pub put_budget-IsSound :
      (agent_id currency : String) (b new : Budget) (w : World C)
      → budgets_of agent_id currency w.db.budgets ≡ b ∷ []
      → new.agent_id ≡ agent_id
      → new.currency ≡ currency
      → IsCapped new
      → Sound w
      → Sound (record w { db = record w.db { budgets = put_budget new w.db.budgets } })
  unfolding verify_chain
  put_budget-IsSound agent_id currency b new w found ea ec cap h = record {
    agents_one = h.agents_one;
    budgets_one = λ a c.
        put_budget_one agent_id currency a c b new w.db.budgets found ea ec (h.budgets_one a c);
    capped = AllCapped-put_budget new w.db.budgets cap h.capped;
    policies_one = h.policies_one;
    transactions_one = h.transactions_one;
    keys_one = h.keys_one;
    verified = h.verified;
  }

  -- The row of a transaction that was found, written back with its keys.
  pub put_transaction-IsSound :
      (id : String) (t new : HitlTransaction) (w : World C)
      → transactions_of id w.db.hitl_transactions ≡ t ∷ []
      → new.id ≡ t.id
      → new.idempotency_key ≡ t.idempotency_key
      → Sound w
      → Sound (record w {
        db = record w.db { hitl_transactions = put_transaction new w.db.hitl_transactions };
      })
  unfolding verify_chain
  put_transaction-IsSound id t new w found e k h =
      let rows = w.db.hitl_transactions in
      let name : new.id ≡ id = e ∙ transactions_of_sound id t [] rows found in
      record {
        agents_one = h.agents_one;
        budgets_one = h.budgets_one;
        capped = h.capped;
        policies_one = h.policies_one;
        transactions_one = λ i.
            put_transaction_one (λ s. s.id == i) id t new rows found name (ap (λ x. x == i) e)
              (h.transactions_one i);
        keys_one = λ i.
            put_transaction_one (λ s. s.idempotency_key == i) id t new rows found name
              (ap (λ x. x == i) k) (h.keys_one i);
        verified = h.verified;
      }

  pub Keeps-add_agent : (a : Agent) → Keeps digests signer {C = C} (add_agent a)
  unfolding add_agent verify_chain
  Keeps-add_agent a = record {
    apply = λ w h. elim (Bool-cases (any (same_agent a) w.db.agents)) [
      | inl clash ↦ rw clash h
      | inr free ↦ rw free (record {
        agents_one = λ i.
            AtMostOne-append (λ x. x.id == i) (same_agent a) a w.db.agents
              (λ e y f. grind (arith, eq_iff a.id i, eq_iff y.id i, eq_iff y.id a.id)) free
              (h.agents_one i);
        budgets_one = h.budgets_one;
        capped = h.capped;
        policies_one = h.policies_one;
        transactions_one = h.transactions_one;
        keys_one = h.keys_one;
        verified = h.verified;
      })
    ];
  }

  pub Keeps-add_policy : (p : Policy) → Keeps digests signer {C = C} (add_policy p)
  unfolding add_policy verify_chain
  Keeps-add_policy p = record {
    apply = λ w h. elim (Bool-cases (any (same_policy p) w.db.policies)) [
      | inl clash ↦ rw clash h
      | inr free ↦ rw free (record {
        agents_one = h.agents_one;
        budgets_one = h.budgets_one;
        capped = h.capped;
        policies_one = λ n v.
            AtMostOne-append (λ x. x.name == n && nat_eq x.version v) (same_policy p) p
              w.db.policies
              (λ e y f. grind (arith, eq_iff p.name n, eq_iff y.name n, eq_iff y.name p.name)) free
              (h.policies_one n v);
        transactions_one = h.transactions_one;
        keys_one = h.keys_one;
        verified = h.verified;
      })
    ];
  }

  pub Keeps-add_budget : (b : Budget) → IsCapped b → Keeps digests signer {C = C} (add_budget b)
  unfolding add_budget verify_chain
  Keeps-add_budget b cap = record {
    apply = λ w h. elim (Bool-cases (any (same_budget b) w.db.budgets)) [
      | inl clash ↦ rw clash h
      | inr free ↦ rw free (record {
        agents_one = h.agents_one;
        budgets_one = λ a c.
            AtMostOne-append (is_budget_of a c) (same_budget b) b w.db.budgets
              (λ e y f. grind (
                arith,
                eq_iff b.agent_id a,
                eq_iff y.agent_id a,
                eq_iff y.agent_id b.agent_id,
                eq_iff b.currency c,
                eq_iff y.currency c,
                eq_iff y.currency b.currency,
              ))
              free (h.budgets_one a c);
        capped = All-append IsCapped w.db.budgets (b ∷ []) h.capped (cap, tt);
        policies_one = h.policies_one;
        transactions_one = h.transactions_one;
        keys_one = h.keys_one;
        verified = h.verified;
      })
    ];
  }

  pub Keeps-add_transaction :
      (t : HitlTransaction) → Keeps digests signer {C = C} (add_transaction t)
  unfolding add_transaction verify_chain
  Keeps-add_transaction t = record {
    apply = λ w h. elim (Bool-cases (any (same_transaction t) w.db.hitl_transactions)) [
      | inl clash ↦ rw clash h
      | inr free ↦ rw free (record {
        agents_one = h.agents_one;
        budgets_one = h.budgets_one;
        capped = h.capped;
        policies_one = h.policies_one;
        transactions_one = λ i.
            AtMostOne-append (λ x. x.id == i) (same_transaction t) t w.db.hitl_transactions
              (λ e y f. grind (arith, eq_iff t.id i, eq_iff y.id i, eq_iff y.id t.id)) free
              (h.transactions_one i);
        keys_one = λ i.
            AtMostOne-append (λ x. x.idempotency_key == i) (same_transaction t) t
              w.db.hitl_transactions
              (λ e y f. grind (
                arith,
                eq_iff t.idempotency_key i,
                eq_iff y.idempotency_key i,
                eq_iff y.idempotency_key t.idempotency_key,
              ))
              free (h.keys_one i);
        verified = h.verified;
      })
    ];
  }
