-- ===== src/Audit/Append.antt =====
-- `append`: what it writes, and that it keeps the log verifiable.
use marcel_arch.Prelude.{
  ℕ, ◌+◌, ◌≤◌, ◌<◌, String, ◌≡◌, ◌⊎◌, refl, inl, inr, true, false, Option, none, List, [], ◌∷◌,
  ◌++◌, arith, length, length-append, All, any, Bool-cases,
}
use marcel_arch.Prelude.Result.{Result, ok, err}
use marcel_arch.Value.{Fields}
use marcel_arch.Models.{AuditLog}
use marcel_arch.World.{World}
use marcel_arch.Digests.{Digests}
use marcel_arch.Audit.{
  AuditSigner, bad_length, clashes, next_sequence, hash_of, last_from, last_record, by_sequence,
  new_record, append, computed_hash, verify_chain,
}
use marcel_arch.Audit.Chain.{IsEntry, IsLinked, verify_chain_iff}
use marcel_arch.Audit.Rows.{
  In, In-by_sequence, All-by_sequence, last_from-In, UpTo, last_from-UpTo, by_sequence-append, tip,
  IsLinked-append, IsLinked-In, IsLinked-UpTo,
}

module _ (digests : Digests) (signer : AuditSigner) {C : Type 0} (event_type actor_id : String)
    (event_payload : Fields) (now : ℕ) (w : World C) where
  abbrev appended : AuditLog
  appended =
      new_record digests signer (last_record w.db.audit_logs) event_type actor_id event_payload now

  -- What is true when an entry is written.
  pub record Appended (r : AuditLog) (w' : World C) : Type 0 where
    pub event_type_fits : bad_length event_type ≡ false
    pub actor_id_fits : bad_length actor_id ≡ false
    pub row : r ≡ appended
    pub unique : any (clashes r) w.db.audit_logs ≡ false
    pub state : w' ≡ record w { db = record w.db { audit_logs = w.db.audit_logs ++ r ∷ [] } }

  abbrev pub AppendSpec : Result AuditLog × World C → Type 0
  AppendSpec (ok r, w') = Appended r w'
  AppendSpec (err e, w') =
      (w' ≡ w)
      × ((bad_length event_type ≡ true)
          ⊎ ((bad_length actor_id ≡ true) ⊎ (any (clashes appended) w.db.audit_logs ≡ true)))

  -- `append` writes one row behind the log, made from its last row, and changes nothing else; or it
  -- raises and changes nothing, because a text is empty or longer than 128 characters, or the row's
  -- number or hash is taken.
  pub append_lem : AppendSpec (append digests signer event_type actor_id event_payload now w)
  unfolding append
  append_lem = elim (Bool-cases (bad_length event_type)) [
    | inl bad ↦ simp bad (refl, inl refl)
    | inr e ↦ elim (Bool-cases (bad_length actor_id)) [
      | inl bad ↦ simp (e, bad) (refl, inr (inl refl))
      | inr f ↦ elim (Bool-cases (any (clashes appended) w.db.audit_logs)) [
        | inl taken ↦ simp (e, f, taken) (refl, inr (inr refl))
        | inr free ↦
            simp (e, f, free)
              (record {
                event_type_fits = e;
                actor_id_fits = f;
                row = refl;
                unique = free;
                state = refl;
              })
      ]
    ]
  ]

module _ (digests : Digests) (signer : AuditSigner) where
  All-below :
      (n : ℕ) (rs : List AuditLog) → All (UpTo n) rs → All (λ s. s.sequence_number < n + 1) rs
  All-below n [] h = tt
  All-below n (r ∷ rs) h = (omega (arith, h.0), All-below n rs h.1)

  reaches :
      (p : AuditLog) (rs : List AuditLog)
      → IsLinked digests signer none 1 rs
      → In p rs
      → All (UpTo p.sequence_number) rs
      → 1 + length rs ≤ p.sequence_number + 1
  reaches p [] h i k = elim i [ ]
  reaches p (r ∷ rs) h i k =
      omega (arith, IsLinked-UpTo digests signer none 1 p.sequence_number r rs h k)

  -- The last row of the table is the last of the chain.
  last_record-tip :
      (logs : List AuditLog)
      → IsLinked digests signer none 1 (by_sequence logs)
      → (next_sequence (last_record logs) ≡ 1 + length (by_sequence logs))
        × (hash_of (last_record logs) ≡ tip digests signer none (by_sequence logs))
        × All (λ s. s.sequence_number < next_sequence (last_record logs)) logs
  unfolding last_record
  last_record-tip [] h = unfold by_sequence in (refl, refl, tt)
  last_record-tip (r ∷ rest) h =
      let p = last_from r rest in
      let logs = r ∷ rest in
      let inside = In-by_sequence p logs (last_from-In r rest) in
      let bound = last_from-UpTo r rest in
      let most =
        reaches p (by_sequence logs) h inside
          (All-by_sequence (UpTo p.sequence_number) logs bound) in
      let (below, above, last) = IsLinked-In digests signer none 1 (by_sequence logs) p h inside in
      (omega arith, last (omega arith), All-below p.sequence_number logs bound)

  module _ (event_type actor_id : String) (event_payload : Fields) (now : ℕ)
      (same_text : digests.loaded_text now ≡ digests.aware_text now) where
    new_record-IsEntry :
        (previous : Option AuditLog)
        → IsEntry digests signer
            (hash_of previous)
            (next_sequence previous)
            (new_record digests signer previous event_type actor_id event_payload now)
    unfolding new_record computed_hash
    new_record-IsEntry previous = record {
      number = refl;
      link = refl;
      hashed = rw (same_text, computed_hash);
      signed = refl;
    }

    new_record-number :
        (previous : Option AuditLog)
        → (new_record digests signer previous event_type actor_id event_payload now).sequence_number
          ≡ next_sequence previous
    unfolding new_record
    new_record-number previous = refl

    appended-IsLinked :
        (logs : List AuditLog)
        → IsLinked digests signer none 1 (by_sequence logs)
        → let r =
            new_record digests signer (last_record logs) event_type actor_id event_payload now in
          IsLinked digests signer none 1 (by_sequence (logs ++ r ∷ []))
          × (length (by_sequence (logs ++ r ∷ [])) ≡ length (by_sequence logs) + 1)
    appended-IsLinked logs h =
        let r =
          new_record digests signer (last_record logs) event_type actor_id event_payload now in
        let (number, link, below) = last_record-tip logs h in
        let order = by_sequence-append r logs (rw (new_record-number (last_record logs)) below) in
        let entry = new_record-IsEntry (last_record logs) in
        rw order (
          IsLinked-append digests signer none 1 (next_sequence (last_record logs))
              (by_sequence logs) r number h (rw (← link) entry),
          length-append (by_sequence logs) (r ∷ []),
        )

    -- On a log that `verify_chain` accepts with n rows, an `append` that returns leaves a log that it
    -- accepts with n + 1, if the database gives the new row's time back with the same text.
    pub verify_chain-append :
        {C : Type 0} (w w' : World C) (n : ℕ) (r : AuditLog)
        → verify_chain digests signer w ≡ ok n
        → append digests signer event_type actor_id event_payload now w ≡ (ok r, w')
        → verify_chain digests signer w' ≡ ok (n + 1)
    verify_chain-append w w' n r v e =
        let (links, count) = (verify_chain_iff digests signer w n).0 v in
        let done : Appended digests signer event_type actor_id event_payload now w r w' =
          rw e at (append_lem digests signer event_type actor_id event_payload now w) in
        let (links', count') = appended-IsLinked w.db.audit_logs links in
        (verify_chain_iff digests signer w' (n + 1)).1
          (rw (done.state, done.row) (links', omega (arith, count, count')))
