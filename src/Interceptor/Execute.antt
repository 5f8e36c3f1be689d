-- ===== src/Interceptor/Execute.antt =====
-- `execute`: the tool runs only if it is allowed, and what has run is charged.
use marcel_arch.Prelude.{
  ℕ, ◌+◌, String, ◌≡◌, ◌≢◌, refl, sym, ap, ◌∙◌, ◌⊎◌, Option, none, some, List, [], ◌∷◌, inl, inr,
  arith,
}
use marcel_arch.Prelude.Int.{ℤ, ◌+ℤ◌, ◌≤ℤ◌}
use marcel_arch.Prelude.Result.{
  Exn, Result, ok, err, ok-injective, execution_denied, approval_rejected,
}
use marcel_arch.Prelude.Action.{bind-ok}
use marcel_arch.Value.{Fields}
use marcel_arch.Models.{AuditLog, Budget, budgets_of}
use marcel_arch.Schemas.{ExecutionIntent, PolicyDecision, Outcome, allow, deny, require_approval}
use marcel_arch.World.{World, settle, transaction}
use marcel_arch.Services.{Services}
use marcel_arch.Digests.{Digests}
use marcel_arch.Governor.{commit, reset, database_remaining}
use marcel_arch.Governor.Commit.{CommitSpec, commit_lem}
use marcel_arch.Audit.{AuditSigner, append}
use marcel_arch.Audit.Append.{AppendSpec, append_lem}
use marcel_arch.Waiting.{Frame, Round}
use marcel_arch.Interceptor.{
  ToolResult, returned, raised, join_reasons, book, commit_execution, record_execution_failure,
  evaluate_or_wait, conclude_operation, run_if_allowed, execute,
}

some_eq : {R : Type 0} {a b : R} → some a ≡ some b → a ≡ b
some_eq e = cc e

outcome-cases : (o : Outcome) → (o ≡ allow) ⊎ (o ≡ deny) ⊎ (o ≡ require_approval)
outcome-cases allow = inl refl
outcome-cases deny = inr (inl refl)
outcome-cases require_approval = inr (inr refl)

pub settle-ok :
    {C A : Type 0} (db : _) (out : Result A × World C) {a : A} {w : World C}
    → settle db out ≡ (ok a, w)
    → out ≡ (ok a, w)
settle-ok db (ok b, v) h = h
settle-ok db (err e, v) h = cc h

module _ (services : Services) (digests : Digests) (signer : AuditSigner) (frame : Frame)
    (intent : ExecutionIntent) (actor_id : String) where
  open services.redis use {State}

  -- The row with the amount added to what it has consumed, and its next version.
  abbrev pub charged_row : ℤ → Budget → Budget
  charged_row amount b = record b {
    consumed_amount = b.consumed_amount +ℤ amount;
    version = b.version + 1;
    updated_at = frame.finished;
  }

  -- An amount with a currency has been charged: the one row of the budget had room for it, and has
  -- it added to what it has consumed.
  abbrev pub IsCharged : Option ℤ → Option String → World State → World State → Type 0
  IsCharged (some amount) (some currency) v w =
      (b : Budget) × (budgets_of intent.agent_id currency v.db.budgets ≡ b ∷ [])
      × (b.consumed_amount +ℤ amount ≤ℤ b.limit_amount)
      × (budgets_of intent.agent_id currency w.db.budgets ≡ charged_row amount b ∷ [])
  IsCharged _ _ v w = Unit

  reset-rows :
      (currency : String) (amount : ℤ) (w : World State)
      → (reset services.redis intent.agent_id currency amount w).1.db ≡ w.db
  unfolding reset
  reset-rows currency amount w = ground arith

  commit-IsCharged :
      (amount : ℤ) (currency : String) (v u : World State) (b : Budget)
      → CommitSpec services.redis intent.agent_id currency amount frame.finished v (ok b, u)
      → IsCharged (some amount) (some currency) v u
  commit-IsCharged amount currency v u b h =
      (h.before, h.found, h.within, h.written ∙ ap (λ x. x ∷ []) h.row)

  book-IsCharged :
      (amount : Option ℤ) (currency : Option String) (v u : World State)
      → book services digests signer frame intent.agent_id amount currency v ≡ (ok tt, u)
      → IsCharged amount currency v u
  unfolding book
  book-IsCharged none currency v u h = tt
  book-IsCharged (some amount) none v u h = tt
  book-IsCharged (some amount) (some currency) v u h =
      let (b, x, e, e') =
        bind-ok _ (commit services.redis intent.agent_id currency amount frame.finished) v h in
      let done : CommitSpec services.redis intent.agent_id currency amount frame.finished v
          (ok b, x) =
        rw e at (commit_lem services.redis intent.agent_id currency amount frame.finished v) in
      let (b', found, within, written) = commit-IsCharged amount currency v x b done in
      let rows : u.db ≡ x.db =
        sym (ap (λ (p : Result (Unit {0}) × World State). p.1.db) e')
        ∙ reset-rows currency (database_remaining b) x in
      (b', found, within, ap (λ db. budgets_of intent.agent_id currency db.budgets) rows ∙ written)

  append-rows :
      (event_type : String) (payload : Fields) (now : ℕ) (w : World State)
      (out : Result AuditLog × World State)
      → AppendSpec digests signer event_type actor_id payload now w out
      → out.1.db.budgets ≡ w.db.budgets
  append-rows event_type payload now w (ok r, w') h = ap (λ (v : World State). v.db.budgets) h.state
  append-rows event_type payload now w (err e, w') h = ap (λ (v : World State). v.db.budgets) h.0

  moved :
      (v u w : World State) (amount : Option ℤ) (currency : Option String)
      → w.db.budgets ≡ u.db.budgets
      → IsCharged amount currency v u
      → IsCharged amount currency v w
  moved v u w none currency same h = tt
  moved v u w (some amount) none same h = tt
  moved v u w (some amount) (some currency) same (b, found, within, written) =
      (b, found, within, ap (budgets_of intent.agent_id currency) same ∙ written)

  pub commit_execution-IsCharged :
      (v w : World State)
      → commit_execution services digests signer frame intent actor_id v ≡ (ok tt, w)
      → IsCharged intent.requested_amount intent.currency v w
  unfolding commit_execution transaction
  commit_execution-IsCharged v w h =
      let (s, u, e, e') =
        bind-ok _
          (book services digests signer frame intent.agent_id intent.requested_amount
            intent.currency)
          v (settle-ok v.db _ h) in
      let (r, x, a, a') =
        bind-ok _ (append digests signer "execution_completed" actor_id _ frame.finished) u e' in
      let logged : w.db.budgets ≡ u.db.budgets =
        sym (ap (λ (p : Result (Unit {0}) × World State). p.1.db.budgets) a')
        ∙ sym (ap (λ (p : Result AuditLog × World State). p.1.db.budgets) a)
        ∙ append-rows "execution_completed" _ frame.finished u _
            (append_lem digests signer "execution_completed" actor_id _ frame.finished u) in
      moved v u w intent.requested_amount intent.currency logged
        (book-IsCharged intent.requested_amount intent.currency v u e)

  module _ {R : Type 0} (operation : World State → ToolResult R × World State) where
    -- What is true when `execute` returns the result `r`.
    pub record Ran (rounds : List (Round State)) (w w' : World State) (r : R) : Type 0 where
      pub before : World State
      pub after : World State
      pub decision : PolicyDecision
      pub decided :
          evaluate_or_wait services digests signer frame intent actor_id rounds w
          ≡ (ok (some decision), before)
      pub allowed : decision.outcome ≡ allow
      pub ran : operation before ≡ (returned r, after)
      pub charged : IsCharged intent.requested_amount intent.currency after w'

    concluded :
        (out : ToolResult R) (v w' : World State) (r : R)
        → conclude_operation services digests signer frame operation intent actor_id out v
          ≡ (ok (some r), w')
        → (out ≡ returned r)
          × (commit_execution services digests signer frame intent actor_id v ≡ (ok tt, w'))
    unfolding conclude_operation
    concluded (returned r') v w' r h =
        let (s, u, e, e') =
          bind-ok _ (commit_execution services digests signer frame intent actor_id) v h in
        (
          ap returned
              (some_eq (ok-injective (ap (λ (p : Result (Option R) × World State). p.0) e'))),
          e ∙ ap (λ x. (ok tt, x)) (ap (λ (p : Result (Option R) × World State). p.1) e'),
        )
    concluded (raised error_type error) v w' r h =
        let (s, u, e, e') =
          bind-ok _
            (record_execution_failure services digests signer frame intent actor_id error_type
              error)
            v h in
        cc e'

    run_allowed :
        (d : PolicyDecision) (u w' : World State) (r : R)
        → run_if_allowed services digests signer frame operation intent actor_id (some d) u
          ≡ (ok (some r), w')
        → (d.outcome ≡ allow)
          × (conclude_operation services digests signer frame operation intent actor_id
                (operation u).0
                (operation u).1
              ≡ (ok (some r), w'))
    unfolding run_if_allowed
    run_allowed d u w' r h = elim (outcome-cases d.outcome) [
      | inl e ↦ (e, simp e at h)
      | inr (inl e) ↦ cc (simp e at h)
      | inr (inr e) ↦ cc (simp e at h)
    ]

    decided-Ran :
        (rounds : List (Round State)) (w u w' : World State) (d : Option PolicyDecision) (r : R)
        → evaluate_or_wait services digests signer frame intent actor_id rounds w ≡ (ok d, u)
        → run_if_allowed services digests signer frame operation intent actor_id d u
          ≡ (ok (some r), w')
        → Ran rounds w w' r
    decided-Ran rounds w u w' none r e h = unfold run_if_allowed in absurd (cc h)
    decided-Ran rounds w u w' (some d) r e h =
        let (allowed, c) = run_allowed d u w' r h in
        let (q, k) = concluded (operation u).0 (operation u).1 w' r c in
        record {
          before = u;
          after = (operation u).1;
          decision = d;
          decided = e;
          allowed = allowed;
          ran = ap (λ (o : ToolResult R). (o, (operation u).1)) q;
          charged = commit_execution-IsCharged (operation u).1 w' k;
        }

    -- If `execute` returns a result, then `evaluate_or_wait` had returned allow, the tool ran in the
    -- state that this left and returned that result, and an amount with a currency was charged to its
    -- budget, which had room for it.
    pub execute-Ran :
        (rounds : List (Round State)) (w w' : World State) (r : R)
        → execute services digests signer frame operation intent actor_id rounds w
          ≡ (ok (some r), w')
        → Ran rounds w w' r
    unfolding execute
    execute-Ran rounds w w' r h =
        let (d, u, e, e') =
          bind-ok _ (evaluate_or_wait services digests signer frame intent actor_id rounds) w h in
        decided-Ran rounds w u w' d r e e'

    -- Where `evaluate_or_wait` returns a decision that is not allow, `execute` raises in the state that
    -- this left: the tool does not run.
    pub execute_blocked :
        (rounds : List (Round State)) (w u : World State) (d : PolicyDecision)
        → evaluate_or_wait services digests signer frame intent actor_id rounds w ≡ (ok (some d), u)
        → d.outcome ≢ allow
        → (e : Exn) × (execute services digests signer frame operation intent actor_id rounds w
            ≡ (err e, u))
    unfolding execute run_if_allowed
    execute_blocked rounds w u d h n = elim (outcome-cases d.outcome) [
      | inl e ↦ absurd (n e)
      | inr (inl e) ↦ (execution_denied (join_reasons d.reasons), simp (h, e) refl)
      | inr (inr e) ↦ (approval_rejected "Execution was not approved", simp (h, e) refl)
    ]
