-- ===== src/Waiting/Rounds.antt =====
-- The wait for an answer: it ends, and it allows only what a human approved.
use marcel_arch.Prelude.{
  ℕ, ◌<◌, ◌⊎◌, String, ◌≡◌, refl, sym, ap, ◌∙◌, Bool, true, false, Option, none, some, List, [],
  ◌∷◌, ◌||◌, inl, inr, any, leb, Bool-cases, arith,
}
use marcel_arch.Prelude.Int.{ℤ}
use marcel_arch.Prelude.Result.{Exn, Result, ok, err, approval_timeout, Result-cases}
use marcel_arch.Prelude.Action.{pure, continue, bind-ok}
use marcel_arch.Models.{HitlStatus, pending, approved, rejected, expired, cancelled}
use marcel_arch.Schemas.{ExecutionIntent, PolicyDecision, allow}
use marcel_arch.World.{World, settle, transaction}
use marcel_arch.Services.{Services}
use marcel_arch.Digests.{Digests}
use marcel_arch.Governor.{reserve}
use marcel_arch.Audit.{AuditSigner}
use marcel_arch.Hitl.{find_transaction, get_transaction_status, expire_transaction}
use marcel_arch.Waiting.{
  Frame, Round, is_resolved, approval, approval_if, settle_approved, resolution_decision, time_out,
  decide_on, await_rounds,
}

-- A result that is an exception or a decision, and not a wait that goes on.
abbrev pub HasEnded : Result (Option PolicyDecision) → Type 0
HasEnded (ok none) = ⊥
HasEnded _ = Unit

err_ok : {A : Type 0} {e : Exn} {a : A} → err e ≡ ok a → ⊥
err_ok h = cc h

pub ok_value :
    {S A : Type 0} {a b : A} {v w : S} → ◌≡◌ {A = Result A × S} (ok a, v) (ok b, w) → a ≡ b
ok_value h = cc h

pub ok_state :
    {S A : Type 0} {a b : A} {v w : S} → ◌≡◌ {A = Result A × S} (ok a, v) (ok b, w) → v ≡ w
ok_state h = cc h

pub get_transaction_status-state :
    {C : Type 0} (id : String) (w : World C) → (get_transaction_status id w).1 ≡ w
unfolding get_transaction_status
get_transaction_status-state id w = elim (Result-cases (find_transaction id w).0) [
  | inl (none, e) ↦ unfold find_transaction in simp e refl
  | inl (some t, e) ↦ unfold find_transaction in simp e refl
  | inr (x, e) ↦ unfold find_transaction in simp e refl
]

module _ (services : Services) (digests : Digests) (signer : AuditSigner) (frame : Frame)
    (intent : ExecutionIntent) (id actor_id : String) where
  open services.redis use {State}

  time_out-err :
      (now : ℕ) (w : World State)
      → (e : Exn) × ((time_out services digests signer frame id actor_id now w).0 ≡ err e)
  unfolding time_out
  time_out-err now w =
      elim (Result-cases (expire_transaction digests signer id actor_id now now w).0) [
        | inl (r, e) ↦ (approval_timeout "HITL approval timed out", simp e refl)
        | inr (x, e) ↦ (x, simp e refl)
      ]

  time_out-no_answer :
      (now : ℕ) (w w' : World State) (d : PolicyDecision)
      → time_out services digests signer frame id actor_id now w ≡ (ok (some d), w')
      → ⊥
  time_out-no_answer now w w' d h = err_ok (
      sym (time_out-err now w).1 ∙ ap (λ (p : Result (Option PolicyDecision) × World State). p.0) h)

  decide_on-HasEnded :
      (status : HitlStatus) (w : World State)
      → HasEnded (decide_on services digests signer frame intent id status w).0
  unfolding decide_on
  decide_on-HasEnded status w =
      elim (Result-cases (resolution_decision services digests signer frame intent id status w).0) [
        | inl (d, e) ↦ simp e tt
        | inr (x, e) ↦ simp e tt
      ]

  -- If a round begins at the deadline or behind it, the wait has ended by then: `_await_resolution`
  -- has returned a decision or raised.
  pub await_rounds-HasEnded :
      (rounds : List (Round State)) (w : World State)
      → any (λ r. leb frame.deadline r.clock) rounds ≡ true
      → HasEnded (await_rounds services digests signer frame intent id actor_id rounds w).0
  unfolding await_rounds
  await_rounds-HasEnded [] w h = absurd (cc h)
  await_rounds-HasEnded (r ∷ rest) w h = elim (Bool-cases (leb frame.deadline r.clock)) [
    | inl late ↦ simp (late, (time_out-err r.now w).1) tt
    | inr early ↦ elim (Result-cases (get_transaction_status id (r.others w)).0) [
      | inr (x, e) ↦ simp (early, e) tt
      | inl (s, e) ↦ elim (Bool-cases (r.message || is_resolved s)) [
        | inl now ↦ simp (early, e, now) (decide_on-HasEnded s _)
        | inr next ↦ simp (early, e, next) (await_rounds-HasEnded rest _ (ground (arith, h, early)))
      ]
    ]
  ]

  -- The amount of the intent, if it has one with a currency, is reserved in the state `v`.
  abbrev pub IsReserved : Option ℤ → Option String → World State → Type 0
  IsReserved (some amount) (some currency) v =
      (left : Option ℤ) × ((reserve services.redis intent.agent_id currency amount v).0
        ≡ ok (true, left))
  IsReserved _ _ v = Unit

  -- The amount of the intent, if it has one with a currency, was reserved in the state `v`, and `w` is
  -- the state which that has left; without one, `w` is `v`.
  abbrev pub HasReserved : Option ℤ → Option String → World State → World State → Type 0
  HasReserved (some amount) (some currency) v w =
      (left : Option ℤ) × (reserve services.redis intent.agent_id currency amount v
        ≡ (ok (true, left), w))
  HasReserved _ _ v w = w ≡ v

  -- The state `v` is one that a round sees, before the deadline and behind what others did in it.
  abbrev pub IsSeen : List (Round State) → World State → World State → Type 0
  IsSeen [] w v = ⊥
  IsSeen (r ∷ rest) w v =
      (r.clock < frame.deadline) × ((v ≡ r.others w) ⊎ IsSeen rest (r.others w) v)

  -- What stands behind a wait that allows: a state that a round sees, in which the transaction is
  -- approved, and which the reservation is made in, the wait ending in the state that this leaves.
  pub record Approved (rounds : List (Round State)) (w : World State) (d : PolicyDecision)
      (w' : World State) : Type 0 where
    pub state : World State
    pub seen : IsSeen rounds w state
    pub status : (get_transaction_status id state).0 ≡ ok approved
    pub reserved : HasReserved intent.requested_amount intent.currency state w'
    pub decision : d ≡ approval id

  settled-allow :
      (v w : World State) (out : Result (Bool × Option ℤ) × World State) (d : PolicyDecision)
      → continue (settle v.db out).0 (λ o. pure (approval_if id o)) (settle v.db out).1 ≡ (ok d, w)
      → d.outcome ≡ allow
      → ((left : Option ℤ) × (out ≡ (ok (true, left), w))) × (d ≡ approval id)
  settled-allow v w (ok (true, left), u) d e h =
      ((left, ap (λ (x : World State). (ok (true, left), x)) (ok_state e)), sym (ok_value e))
  settled-allow v w (ok (false, left), u) d e h = cc (ok_value e, h)
  settled-allow v w (err x, u) d e h = cc e

  settle_approved-allow :
      (amount : Option ℤ) (currency : Option String) (v w : World State) (d : PolicyDecision)
      → settle_approved services digests signer frame id intent.agent_id amount currency v
        ≡ (ok d, w)
      → d.outcome ≡ allow
      → HasReserved amount currency v w × (d ≡ approval id)
  unfolding settle_approved transaction
  settle_approved-allow none currency v w d e h = (sym (ok_state e), sym (ok_value e))
  settle_approved-allow (some amount) none v w d e h = (sym (ok_state e), sym (ok_value e))
  settle_approved-allow (some amount) (some currency) v w d e h =
      settled-allow v w (reserve services.redis intent.agent_id currency amount v) d e h

  decide_on-allow :
      (status : HitlStatus) (v w : World State) (d : PolicyDecision)
      → decide_on services digests signer frame intent id status v ≡ (ok (some d), w)
      → d.outcome ≡ allow
      → (status ≡ approved)
        × HasReserved intent.requested_amount intent.currency v w
        × (d ≡ approval id)
  unfolding decide_on resolution_decision
  decide_on-allow approved v w d e h =
      let (d', x, first, last) =
        bind-ok _ (resolution_decision services digests signer frame intent id approved) v e in
      let same : d' ≡ d = cc (ok_value last) in
      let (reserved, decision) =
        settle_approved-allow intent.requested_amount intent.currency v w d
          (first
            ∙ ap (λ (y : PolicyDecision). (ok y, x)) same
            ∙ ap (λ (y : World State). (ok d, y)) (ok_state last))
          h in
      (refl, reserved, decision)
  decide_on-allow pending v w d e h = absurd (cc e)
  decide_on-allow rejected v w d e h = absurd (cc e)
  decide_on-allow expired v w d e h = absurd (cc e)
  decide_on-allow cancelled v w d e h = absurd (cc e)

  -- Where `_await_resolution` returns allow, one of its rounds began before the deadline and saw a
  -- state in which the transaction was approved; in that state an amount with a currency was
  -- reserved, and the wait ends in the state that the reservation left. Without an amount or
  -- a currency it ends in the state that was seen.
  pub await_rounds-Approved :
      (rounds : List (Round State)) (w w' : World State) (d : PolicyDecision)
      → await_rounds services digests signer frame intent id actor_id rounds w ≡ (ok (some d), w')
      → d.outcome ≡ allow
      → Approved rounds w d w'
  unfolding await_rounds
  await_rounds-Approved [] w w' d e h = absurd (cc (ok_value e))
  await_rounds-Approved (r ∷ rest) w w' d e h = elim (Bool-cases (leb frame.deadline r.clock)) [
    | inl late ↦ absurd (time_out-no_answer r.now w w' d (simp late at e))
    | inr early ↦ elim (Result-cases (get_transaction_status id (r.others w)).0) [
      | inr (x, q) ↦ absurd (cc (simp (early, q) at e))
      | inl (s, q) ↦ elim (Bool-cases (r.message || is_resolved s)) [
        | inl now ↦
            let (granted, reserved, decision) =
              decide_on-allow s (r.others w) w' d
                (simp (early, q, now, get_transaction_status-state id (r.others w)) at e) h in
            record {
              state = r.others w;
              seen = (ground arith, inl refl);
              status = q ∙ ap ok granted;
              reserved = reserved;
              decision = decision;
            }
        | inr next ↦
            let later =
              await_rounds-Approved rest (r.others w) w' d
                (simp (early, q, next, get_transaction_status-state id (r.others w)) at e) h in
            record {
              state = later.state;
              seen = (ground arith, inr later.seen);
              status = later.status;
              reserved = later.reserved;
              decision = later.decision;
            }
      ]
    ]
  ]
