-- ===== src/Interceptor/Routes.antt =====
-- What the branches behind the evaluation of an intent return.
use marcel_arch.Prelude.{String, ◌≡◌, refl, sym, ap, ◌∙◌, Bool, true, false, Option, none, some}
use marcel_arch.Prelude.Int.{ℤ}
use marcel_arch.Prelude.Result.{Result, ok}
use marcel_arch.Prelude.Action.{bind-ok}
use marcel_arch.Models.{HitlTransaction}
use marcel_arch.Schemas.{ExecutionIntent, PolicyDecision, Outcome, allow, deny, require_approval}
use marcel_arch.World.{World}
use marcel_arch.Services.{Services}
use marcel_arch.Digests.{Digests}
use marcel_arch.Governor.{reserve}
use marcel_arch.Audit.{AuditSigner}
use marcel_arch.Hitl.{create_or_get_hitl}
use marcel_arch.Waiting.{Frame}
use marcel_arch.Waiting.Rounds.{HasReserved, ok_state}
use marcel_arch.Interceptor.{
  Evaluation, final, waits, not_reserved, reserved_or_not, reserve_allowed, ask_human, route,
}

result_final :
    {C : Type 0} (a d : PolicyDecision) (v u : World C)
    → ◌≡◌ {A = Result Evaluation × World C} (ok (final a), v) (ok (final d), u)
    → a ≡ d
result_final a d v u h = cc h

result_waits :
    {C : Type 0} (a d : PolicyDecision) (i j : String) (v u : World C)
    → ◌≡◌ {A = Result Evaluation × World C} (ok (waits a i), v) (ok (waits d j), u)
    → (a ≡ d) × (i ≡ j) × (v ≡ u)
result_waits a d i j v u h = (cc h, cc h, cc h)

reserved-cases :
    (decision d : PolicyDecision) (out : Bool × Option ℤ)
    → reserved_or_not decision out ≡ d
    → d.outcome ≡ allow
    → (decision ≡ d) × (left : Option ℤ) × (out ≡ (true, left))
unfolding not_reserved
reserved-cases decision d (true, left) h k = (h, left, refl)
reserved-cases decision d (false, left) h k = cc (h, k)

module _ (services : Services) (digests : Digests) (signer : AuditSigner) (frame : Frame)
    (intent : ExecutionIntent) (actor_id : String) where
  open services.redis use {State}

  abbrev pub IsHeld : Option ℤ → Option String → World State → World State → Type 0
  IsHeld = HasReserved services digests signer frame intent "" actor_id

  reserve_allowed-final :
      (decision d : PolicyDecision) (amount : Option ℤ) (currency : Option String)
      (v u : World State)
      → reserve_allowed services digests signer frame intent.agent_id decision amount currency v
        ≡ (ok (final d), u)
      → d.outcome ≡ allow
      → (decision ≡ d) × IsHeld amount currency v u
  unfolding reserve_allowed
  reserve_allowed-final decision d none currency v u h k =
      (result_final decision d v u h, sym (ok_state h))
  reserve_allowed-final decision d (some amount) none v u h k =
      (result_final decision d v u h, sym (ok_state h))
  reserve_allowed-final decision d (some amount) (some currency) v u h k =
      let (out, x, e, e') =
        bind-ok _ (reserve services.redis intent.agent_id currency amount) v h in
      let (same, left, kept) =
        reserved-cases decision d out (result_final (reserved_or_not decision out) d x u e') k in
      (
        same,
        (
          left,
          e
              ∙ ap (λ (o : Bool × Option ℤ). (ok o, x)) kept
              ∙ ap (λ (y : World State). (ok (true, left), y)) (ok_state e'),
        ),
      )

  pub route-final :
      (decision d : PolicyDecision) (o : Outcome) (v u : World State)
      → decision.outcome ≡ o
      → route services digests signer frame intent decision o v ≡ (ok (final d), u)
      → d.outcome ≡ allow
      → (decision ≡ d) × IsHeld intent.requested_amount intent.currency v u
  unfolding route ask_human
  route-final decision d deny v u e h k = cc (result_final decision d v u h, e, k)
  route-final decision d allow v u e h k =
      reserve_allowed-final decision d intent.requested_amount intent.currency v u h k
  route-final decision d require_approval v u e h k =
      let (t, x, e1, e2) =
        bind-ok _
          (create_or_get_hitl digests signer frame.new_id frame.approval_timeout_seconds
            (frame.dump_intent intent) intent decision frame.now frame.now)
          v h in
      cc e2

  reserve_allowed-no_wait :
      (decision d : PolicyDecision) (id : String) (amount : Option ℤ) (currency : Option String)
      (v u : World State)
      → reserve_allowed services digests signer frame intent.agent_id decision amount currency v
        ≡ (ok (waits d id), u)
      → ⊥
  unfolding reserve_allowed
  reserve_allowed-no_wait decision d id none currency v u h = cc h
  reserve_allowed-no_wait decision d id (some amount) none v u h = cc h
  reserve_allowed-no_wait decision d id (some amount) (some currency) v u h =
      let (out, x, e, e') =
        bind-ok _ (reserve services.redis intent.agent_id currency amount) v h in
      cc e'

  with_state :
      (t : HitlTransaction) {x u : World State}
      → x ≡ u
      → ◌≡◌ {A = Result HitlTransaction × World State} (ok t, x) (ok t, u)
  with_state t e = ap (λ (y : World State). (ok t, y)) e

  -- A human is asked for this decision in the state `v`.
  abbrev pub IsAsked : PolicyDecision → PolicyDecision → String → World State → World State → Type 0
  IsAsked decision d id v u =
      (t : HitlTransaction) × (create_or_get_hitl digests signer frame.new_id
          frame.approval_timeout_seconds (frame.dump_intent intent) intent decision frame.now
          frame.now v
        ≡ (ok t, u))
      × (id ≡ t.id)
      × (d.outcome ≡ decision.outcome)

  pub route-waits :
      (decision d : PolicyDecision) (id : String) (o : Outcome) (v u : World State)
      → route services digests signer frame intent decision o v ≡ (ok (waits d id), u)
      → (o ≡ require_approval) × IsAsked decision d id v u
  unfolding route ask_human
  route-waits decision d id deny v u h = cc h
  route-waits decision d id allow v u h =
      absurd (reserve_allowed-no_wait decision d id intent.requested_amount intent.currency v u h)
  route-waits decision d id require_approval v u h =
      let (t, x, e1, e2) =
        bind-ok _
          (create_or_get_hitl digests signer frame.new_id frame.approval_timeout_seconds
            (frame.dump_intent intent) intent decision frame.now frame.now)
          v h in
      let (same, ids, states) =
        result_waits (record decision { hitl_transaction_id = some t.id }) d t.id id x u e2 in
      (
        refl,
        (t, e1 ∙ with_state t states, sym ids, sym (ap (λ (y : PolicyDecision). y.outcome) same)),
      )
