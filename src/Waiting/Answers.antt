-- ===== src/Waiting/Answers.antt =====
-- `_await_resolution` when an approval comes before its deadline.
use marcel_arch.Prelude.{
  ℕ, ◌<◌, String, ◌≡◌, refl, Bool, true, false, Option, none, some, List, [], ◌∷◌, ◌||◌, leb, arith,
}
use marcel_arch.Prelude.Int.{ℤ}
use marcel_arch.Prelude.Result.{Result, ok, err}
use marcel_arch.Prelude.Action.{pure, continue}
use marcel_arch.Models.{pending, approved}
use marcel_arch.Schemas.{ExecutionIntent}
use marcel_arch.Services.{Services}
use marcel_arch.World.{World, settle, transaction}
use marcel_arch.Digests.{Digests}
use marcel_arch.Audit.{AuditSigner}
use marcel_arch.Governor.{reserve}
use marcel_arch.Hitl.{get_transaction_status}
use marcel_arch.Waiting.{
  Frame, Round, approval, approval_if, settle_approved, resolution_decision, decide_on,
  await_rounds,
}
use marcel_arch.Waiting.Rounds.{get_transaction_status-state, IsReserved}

not_late : (deadline clock : ℕ) → clock < deadline → leb deadline clock ≡ false
not_late deadline clock h = ground arith

or_true : (b : Bool) → (b || true) ≡ true
or_true b = ground arith

module _ (services : Services) (digests : Digests) (signer : AuditSigner) (frame : Frame)
    (intent : ExecutionIntent) (id actor_id : String) where
  open services.redis use {State}

  -- A round before the deadline sees the transaction approved and the amount of the intent can be
  -- reserved; the rounds before it saw the transaction pending and got no message.
  pub data Answered : List (Round State) → World State → Type 0 where
    at_last :
        {r : Round State} {rest : List (Round State)} {w : World State}
        → r.clock < frame.deadline
        → (get_transaction_status id (r.others w)).0 ≡ ok approved
        → IsReserved services digests signer frame intent id actor_id intent.requested_amount
            intent.currency
            (r.others w)
        → Answered (r ∷ rest) w
    still_pending :
        {r : Round State} {rest : List (Round State)} {w : World State}
        → r.clock < frame.deadline
        → (get_transaction_status id (r.others w)).0 ≡ ok pending
        → r.message ≡ false
        → Answered rest (r.others w)
        → Answered (r ∷ rest) w

  settled_true :
      (v : World State) (out : Result (Bool × Option ℤ) × World State) (left : Option ℤ)
      → out.0 ≡ ok (true, left)
      → (continue (settle v.db out).0 (λ o. pure (approval_if id o)) (settle v.db out).1).0
        ≡ ok (approval id)
  settled_true v (ok (true, l), w') left e = refl
  settled_true v (ok (false, l), w') left e = absurd (cc e)
  settled_true v (err x, w') left e = absurd (cc e)

  settle_approved-approval :
      (amount : Option ℤ) (currency : Option String) (v : World State)
      → IsReserved services digests signer frame intent id actor_id amount currency v
      → (settle_approved services digests signer frame id intent.agent_id amount currency v).0
        ≡ ok (approval id)
  unfolding settle_approved transaction
  settle_approved-approval none currency v h = refl
  settle_approved-approval (some amount) none v h = refl
  settle_approved-approval (some amount) (some currency) v h =
      settled_true v (reserve services.redis intent.agent_id currency amount v) h.0 h.1

  decide_on-approval :
      (v : World State)
      → IsReserved services digests signer frame intent id actor_id intent.requested_amount
          intent.currency v
      → (decide_on services digests signer frame intent id approved v).0 ≡ ok (some (approval id))
  unfolding decide_on resolution_decision
  decide_on-approval v h =
      simp (settle_approved-approval intent.requested_amount intent.currency v h) refl

  -- Where a round that begins before the deadline sees the transaction approved and the amount can be
  -- reserved then, and no earlier round ended the wait, `_await_resolution` returns the approval.
  pub await_rounds-Answered :
      (rounds : List (Round State)) (w : World State)
      → Answered rounds w
      → (await_rounds services digests signer frame intent id actor_id rounds w).0
        ≡ ok (some (approval id))
  unfolding await_rounds
  await_rounds-Answered [] w h = elim h [ ]
  await_rounds-Answered (r ∷ rest) w (at_last early seen reserved) =
      simp
        (
          not_late frame.deadline r.clock early,
          seen,
          or_true r.message,
          get_transaction_status-state id (r.others w),
        )
        (decide_on-approval (r.others w) reserved)
  await_rounds-Answered (r ∷ rest) w (still_pending early seen silent later) =
      simp
        (
          not_late frame.deadline r.clock early,
          seen,
          silent,
          get_transaction_status-state id (r.others w),
        )
        (await_rounds-Answered rest (r.others w) later)
