-- ===== src/Interceptor/Admission.antt =====
-- What stands behind a decision of `evaluate_or_wait` that allows.
use marcel_arch.Prelude.{
  String, ◌≡◌, refl, ap, ◌∙◌, ◌⊎◌, some, List, inl, inr, Bool-cases, ◌==◌, subst,
}
use marcel_arch.Prelude.Result.{Result, ok}
use marcel_arch.Prelude.Action.{bind-ok}
use marcel_arch.Value.{dict, end, field}
use marcel_arch.Models.{HitlTransaction}
use marcel_arch.Schemas.{ExecutionIntent, PolicyDecision, allow, require_approval}
use marcel_arch.World.{World, transaction}
use marcel_arch.Services.{Services}
use marcel_arch.Digests.{Digests}
use marcel_arch.Engine.{evaluate}
use marcel_arch.Engine.FailClosed.{Cleared, evaluate-allow}
use marcel_arch.Audit.{AuditSigner}
use marcel_arch.Hitl.{create_or_get_hitl}
use marcel_arch.Waiting.{Frame, Round, await_rounds}
use marcel_arch.Waiting.Rounds.{HasReserved, Approved, await_rounds-Approved, ok_state}
use marcel_arch.Interceptor.{
  Evaluation, final, waits, log, route, evaluate_and_log, wait_if_asked, evaluate_or_wait,
}
use marcel_arch.Interceptor.Execute.{settle-ok}
use marcel_arch.Interceptor.Routes.{route-final, route-waits}

module _ (services : Services) (digests : Digests) (signer : AuditSigner) (frame : Frame)
    (intent : ExecutionIntent) (actor_id : String) where
  open services.redis use {State}

  -- The evaluation of the intent is in the log, and `v` is the state behind it.
  abbrev IsEvaluated : World State → PolicyDecision → World State → Type 0
  IsEvaluated w decision v =
      (u : World State) × (evaluate services intent w ≡ (ok decision, u))
      × (log services digests signer frame "execution_intent_evaluated" actor_id
            (field "intent" (dict (frame.dump_intent intent))
              (field "decision" (dict (frame.dump_decision decision)) end))
            frame.now u
          ≡ (ok tt, v))

  -- The rules and the budget allow it, and the amount is reserved, which leaves the state `w'`.
  pub record Direct (w : World State) (d : PolicyDecision) (w' : World State) : Type 0 where
    pub cleared : Cleared services intent w
    pub before : World State
    pub evaluated : IsEvaluated w d before
    pub reserved :
        HasReserved services digests signer frame intent "" actor_id intent.requested_amount
          intent.currency before w'

  -- A human was asked, has approved it in time, and the amount was reserved then, which leaves the
  -- state `w'`.
  pub record ByHuman (rounds : List (Round State)) (w : World State) (d : PolicyDecision)
      (w' : World State) : Type 0 where
    pub decision : PolicyDecision
    pub before : World State
    pub evaluated : IsEvaluated w decision before
    pub asks : decision.outcome ≡ require_approval
    pub t : HitlTransaction
    pub after : World State
    pub asked :
        create_or_get_hitl digests signer frame.new_id frame.approval_timeout_seconds
          (frame.dump_intent intent)
          intent
          decision
          frame.now
          frame.now
          before
        ≡ (ok t, after)
    pub answered : Approved services digests signer frame intent t.id actor_id rounds after d w'

  -- What `evaluate_and_log` has done, where it returns.
  evaluate_and_log-parts :
      (w u : World State) (evaluation : Evaluation)
      → evaluate_and_log services digests signer frame intent actor_id w ≡ (ok evaluation, u)
      → (decision : PolicyDecision) × (v : World State) × IsEvaluated w decision v
        × (route services digests signer frame intent decision decision.outcome v
            ≡ (ok evaluation, u))
  unfolding evaluate_and_log transaction
  evaluate_and_log-parts w u evaluation h =
      let (decision, v, e, e') = bind-ok _ (evaluate services intent) w (settle-ok w.db _ h) in
      let (done, x, l, r) =
        bind-ok _
          (log services digests signer frame "execution_intent_evaluated" actor_id
            (field "intent" (dict (frame.dump_intent intent))
              (field "decision" (dict (frame.dump_decision decision)) end))
            frame.now)
          v e' in
      (decision, x, (v, e, l), r)

  direct :
      (w v u : World State) (decision d : PolicyDecision)
      → IsEvaluated w decision v
      → route services digests signer frame intent decision decision.outcome v ≡ (ok (final d), u)
      → d.outcome ≡ allow
      → Direct w d u
  direct w v u decision d evaluated h k =
      let (same, room) =
        route-final services digests signer frame intent actor_id decision d decision.outcome v u
          refl h k in
      let first : (evaluate services intent w).0 ≡ ok d =
        ap (λ (p : Result PolicyDecision × World State). p.0) evaluated.1 ∙ ap ok same in
      record {
        cleared = evaluate-allow services intent w d first k;
        before = v;
        evaluated = subst (λ (x : PolicyDecision). IsEvaluated w x v) same evaluated;
        reserved = room;
      }

  by_human :
      (rounds : List (Round State)) (w v u w' : World State) (decision asked d : PolicyDecision)
      (id : String)
      → IsEvaluated w decision v
      → route services digests signer frame intent decision decision.outcome v
        ≡ (ok (waits asked id), u)
      → wait_if_asked services digests signer frame intent actor_id rounds (waits asked id) u
        ≡ (ok (some d), w')
      → d.outcome ≡ allow
      → ByHuman rounds w d w'
  unfolding wait_if_asked
  by_human rounds w v u w' decision asked d id evaluated h a k =
      let (asks, (t, made, ids, outcome)) =
        route-waits services digests signer frame intent actor_id decision asked id decision.outcome
          v u h in
      elim (Bool-cases (id == "")) [
        | inl e ↦ let same : asked ≡ d = cc (simp e at a) in absurd (cc (same, outcome, asks, k))
        | inr e ↦
            let answer : await_rounds services digests signer frame intent id actor_id rounds u
                ≡ (ok (some d), w') =
              simp e at a in
            record {
              decision = decision;
              before = v;
              evaluated = evaluated;
              asks = asks;
              t = t;
              after = u;
              asked = made;
              answered =
                  subst
                    (λ x. Approved services digests signer frame intent x actor_id rounds u d w')
                    ids
                    (await_rounds-Approved services digests signer frame intent id actor_id rounds u
                      w' d answer k);
            }
      ]

  evaluation-cases :
      (rounds : List (Round State)) (w u w' : World State) (evaluation : Evaluation)
      (d : PolicyDecision)
      → evaluate_and_log services digests signer frame intent actor_id w ≡ (ok evaluation, u)
      → wait_if_asked services digests signer frame intent actor_id rounds evaluation u
        ≡ (ok (some d), w')
      → d.outcome ≡ allow
      → Direct w d w' ⊎ ByHuman rounds w d w'
  evaluation-cases rounds w u w' (final e) d h a k =
      let same : e ≡ d = unfold wait_if_asked in cc a in
      let ends : u ≡ w' = unfold wait_if_asked in ok_state a in
      let (decision, v, evaluated, r) = evaluate_and_log-parts w w' (final d) (
        h
        ∙ ap (λ (x : PolicyDecision). (ok (final x), u)) same
        ∙ ap (λ (y : World State). (ok (final d), y)) ends) in
      inl (direct w v w' decision d evaluated r k)
  evaluation-cases rounds w u w' (waits asked id) d h a k =
      let (decision, v, evaluated, r) = evaluate_and_log-parts w u (waits asked id) h in
      inr (by_human rounds w v u w' decision asked d id evaluated r a k)

  -- Where `evaluate_or_wait` returns allow, one of two things stands behind it. The engine has allowed
  -- the intent, with all that this demands of the agent, the policies and the budget, the evaluation
  -- is logged, and an amount with a currency was reserved in the state behind that. Or the engine has
  -- asked for an approval and this is logged; a transaction was made, or found under the intent's key;
  -- a round before the deadline has seen it approved, and an amount with a currency was reserved then.
  -- Either way the call ends in the state that the reservation left, and in the one before it where
  -- the intent has no amount or no currency.
  pub evaluate_or_wait-allow :
      (rounds : List (Round State)) (w w' : World State) (d : PolicyDecision)
      → evaluate_or_wait services digests signer frame intent actor_id rounds w ≡ (ok (some d), w')
      → d.outcome ≡ allow
      → Direct w d w' ⊎ ByHuman rounds w d w'
  unfolding evaluate_or_wait
  evaluate_or_wait-allow rounds w w' d h k =
      let (evaluation, u, e, a) =
        bind-ok _ (evaluate_and_log services digests signer frame intent actor_id) w h in
      evaluation-cases rounds w u w' evaluation d e a k
