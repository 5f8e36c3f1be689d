-- ===== src/Interceptor/Failures.antt =====
-- `_record_execution_failure`: what it books of a tool that has raised.
use marcel_arch.Prelude.{
  String, ◌≡◌, refl, sym, ap, ◌∙◌, ◌⊎◌, Option, none, some, [], ◌∷◌, ◌++◌, inl, inr, Bool-cases,
  one-cases,
}
use marcel_arch.Prelude.Int.{ℤ, pos, leb_ℤ}
use marcel_arch.Prelude.Result.{Exn, Result, ok, err}
use marcel_arch.Prelude.Action.{continue, pure}
use marcel_arch.Value.{Fields, str, dict, end, field}
use marcel_arch.Models.{AuditLog, budgets_of}
use marcel_arch.Schemas.{ExecutionIntent}
use marcel_arch.World.{Db, World, settle, transaction}
use marcel_arch.Services.{Services}
use marcel_arch.Digests.{Digests}
use marcel_arch.Governor.{release}
use marcel_arch.Audit.{AuditSigner, append, new_record}
use marcel_arch.Audit.Append.{AppendSpec, append_lem}
use marcel_arch.Waiting.{Frame}
use marcel_arch.Interceptor.{unreserve, record_execution_failure}

-- A call in a transaction that raises leaves the database as it was.
pub settle-err :
    {C A : Type 0} (db : Db) (out : Result A × World C) {e : Exn} {w : World C}
    → settle db out ≡ (err e, w)
    → w.db ≡ db
settle-err db (ok a, v) h = cc h
settle-err db (err x, v) h = sym (ap (λ (p : Result _ × World _). p.1.db) h)

abbrev with_row : AuditLog → Db → Db
with_row r db = record db { audit_logs = db.audit_logs ++ r ∷ [] }

module _ (services : Services) (digests : Digests) (signer : AuditSigner) (frame : Frame)
    (intent : ExecutionIntent) (actor_id : String) where
  open services.redis use {State}

  -- What the log holds of a tool that has raised.
  abbrev failure : String → String → Fields
  failure error_type error =
      field "intent" (dict (frame.dump_intent intent))
        (field "error_type" (str error_type) (field "error" (str (frame.cut error)) end))

  -- The database has one more row in the log, of this event by this actor, and no other change.
  abbrev pub IsLogged : String → Fields → World State → World State → Type 0
  IsLogged event_type payload v w =
      (r : AuditLog) × (w.db ≡ with_row r v.db)
      × (r.event_type ≡ event_type)
      × (r.actor_id ≡ actor_id)
      × (r.event_payload ≡ payload)

  -- An amount with a currency is released, and nothing without one.
  abbrev released_of : Option ℤ → Option String → World State → Result (Unit {0}) × World State
  released_of (some amount) (some currency) v =
      release services.redis intent.agent_id currency amount v
  released_of _ _ v = (ok tt, v)

  -- The release that follows a tool that has raised in the state `v`.
  abbrev pub released : World State → Result (Unit {0}) × World State
  released v = released_of intent.requested_amount intent.currency v

  unreserve-released :
      (amount : Option ℤ) (currency : Option String) (v : World State)
      → unreserve services digests signer frame intent.agent_id amount currency v
        ≡ released_of amount currency v
  unfolding unreserve
  unreserve-released none currency v = refl
  unreserve-released (some amount) none v = refl
  unreserve-released (some amount) (some currency) v = refl

  released-db :
      (amount : Option ℤ) (currency : Option String) (v : World State)
      → (released_of amount currency v).1.db ≡ v.db
  unfolding release
  released-db none currency v = refl
  released-db (some amount) none v = refl
  released-db (some amount) (some currency) v = elim (Bool-cases (leb_ℤ amount (pos 0))) [
    | inl e ↦ simp e refl
    | inr e ↦ elim (one-cases (budgets_of intent.agent_id currency v.db.budgets)) [
      | inl f ↦ simp (e, f) refl
      | inr (inl (b, f)) ↦ simp (e, f) refl
      | inr (inr (b, c, rest, f)) ↦ simp (e, f) refl
    ]
  ]

  -- The exception by which the release has raised or, behind it, the append to the log.
  abbrev pub IsUnbooked : String → String → World State → Exn → Type 0
  IsUnbooked error_type error v e =
      ((released v).0 ≡ err e)
      ⊎ (((released v).0 ≡ ok tt)
          × ((append digests signer "execution_failed" actor_id (failure error_type error)
                frame.finished (released v).1).0
              ≡ err e))

  -- The release has returned and the failure is in the log.
  abbrev pub IsBooked : String → String → World State → World State → Type 0
  IsBooked error_type error v w =
      ((released v).0 ≡ ok tt)
      × IsLogged "execution_failed" (failure error_type error) v w
      × (w.cache ≡ (released v).1.cache)

  abbrev pub FailureSpec : String → String → World State → Result (Unit {0}) × World State → Type 0
  FailureSpec error_type error v (ok done, w) = IsBooked error_type error v w
  FailureSpec error_type error v (err e, w) = (w.db ≡ v.db) × IsUnbooked error_type error v e

  module _ (error_type error : String) (v : World State) where
    logging : World State → Result AuditLog × World State
    logging u =
        append digests signer "execution_failed" actor_id (failure error_type error) frame.finished
          u

    logged :
        (u : World State) (out : Result AuditLog × World State)
        → u.db ≡ v.db
        → released v ≡ (ok tt, u)
        → logging u ≡ out
        → AppendSpec digests signer "execution_failed" actor_id
            (failure error_type error)
            frame.finished
            u
            out
        → FailureSpec error_type error v (settle v.db (continue out.0 (λ _. pure tt) out.1))
    unfolding logging new_record
    logged u (ok r, x) same from e h = (
      ap (λ (p : Result (Unit {0}) × World State). p.0) from,
      (
        r,
        ap (λ (y : World State). y.db) h.state ∙ ap (with_row r) same,
        ap (λ (a : AuditLog). a.event_type) h.row,
        ap (λ (a : AuditLog). a.actor_id) h.row,
        ap (λ (a : AuditLog). a.event_payload) h.row,
      ),
      ap (λ (y : World State). y.cache) h.state
          ∙ sym (ap (λ (p : Result (Unit {0}) × World State). p.1.cache) from),
    )
    logged u (err e, x) same from eq h = (
      refl,
      inr (
        ap (λ (p : Result (Unit {0}) × World State). p.0) from,
        ap (λ (p : Result (Unit {0}) × World State). (logging p.1).0) from
            ∙ ap (λ (p : Result AuditLog × World State). p.0) eq,
      ),
    )

    booked :
        (out : Result (Unit {0}) × World State)
        → released v ≡ out
        → out.1.db ≡ v.db
        → FailureSpec error_type error v (
            settle v.db
              (continue out.0 (λ _ u. continue (logging u).0 (λ _. pure tt) (logging u).1) out.1))
    unfolding logging
    booked (err e, u) from same =
        (refl, inl (ap (λ (p : Result (Unit {0}) × World State). p.0) from))
    booked (ok done, u) from same = logged u (logging u) same from refl (
        append_lem digests signer "execution_failed" actor_id (failure error_type error)
          frame.finished u)

    pub record_execution_failure_lem :
        FailureSpec error_type error v (
          record_execution_failure services digests signer frame intent actor_id error_type error v)
    unfolding record_execution_failure transaction logging
    record_execution_failure_lem =
        rw (unreserve-released intent.requested_amount intent.currency v)
          (booked (released v) refl (released-db intent.requested_amount intent.currency v))
