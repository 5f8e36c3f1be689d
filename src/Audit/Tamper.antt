-- ===== src/Audit/Tamper.antt =====
-- What a verified chain says of its rows, and what it cannot say.
use marcel_arch.Prelude.{
  ℕ, ◌+◌, String, ◌≡◌, refl, ap, sym, ◌∙◌, inl, inr, Option, none, some, List, [], ◌∷◌, ◌++◌, arith,
  length, true, All,
}
use marcel_arch.Prelude.Result.{ok}
use marcel_arch.Models.{AuditLog}
use marcel_arch.World.{World}
use marcel_arch.Digests.{Digests}
use marcel_arch.Json.Read.{fields_plain}
use marcel_arch.Audit.{AuditSigner, by_sequence, computed_hash, sign, verify_chain}
use marcel_arch.Audit.Chain.{IsLinked, verify_chain_iff}
use marcel_arch.Audit.Entries.{SameEntry, row_text, row_text-SameEntry}
use marcel_arch.Audit.Rows.{In, tip}

module _ (digests : Digests) (signer : AuditSigner) where
  computed_hash-row_text :
      (r : AuditLog) → computed_hash digests signer r ≡ digests.sha256 (row_text digests r)
  unfolding computed_hash
  computed_hash-row_text r = refl

  -- Two rows with the same entry, hash and signature.
  abbrev pub SameRow : AuditLog → AuditLog → Type 0
  SameRow r s = SameEntry digests r s × (r.entry_hash ≡ s.entry_hash) × (r.signature ≡ s.signature)

  abbrev pub SameRows : List AuditLog → List AuditLog → Type 0
  SameRows [] [] = Unit
  SameRows (r ∷ rs) (s ∷ ss) = SameRow r s × SameRows rs ss
  SameRows _ _ = ⊥

  -- The digest tells the texts of these rows apart.
  abbrev pub NoCollision : List AuditLog → List AuditLog → Type 0
  NoCollision rs ss =
      (r s : AuditLog)
      → In r rs
      → In s ss
      → digests.sha256 (row_text digests r) ≡ digests.sha256 (row_text digests s)
      → row_text digests r ≡ row_text digests s

  -- No payload holds a float that is infinite or not a number, which a JSON column does not take.
  abbrev pub ArePlain : List AuditLog → Type 0
  ArePlain = All (λ r. fields_plain r.event_payload ≡ true)

  same_rows :
      (previous previous' : Option String) (n : ℕ) (rs ss : List AuditLog)
      → NoCollision rs ss
      → ArePlain rs
      → ArePlain ss
      → length rs ≡ length ss
      → IsLinked digests signer previous n rs
      → IsLinked digests signer previous' n ss
      → tip digests signer previous rs ≡ tip digests signer previous' ss
      → (previous ≡ previous') × SameRows rs ss
  same_rows previous previous' n [] [] c p q l h k e = (e, tt)
  same_rows previous previous' n [] (s ∷ ss) c p q l h k e = absurd (omega arith)
  same_rows previous previous' n (r ∷ rs) [] c p q l h k e = absurd (omega arith)
  same_rows previous previous' n (r ∷ rs) (s ∷ ss) c p q l h k e =
      let (hashes, rest) =
        same_rows (some r.entry_hash) (some s.entry_hash) (n + 1) rs ss
          (λ a b i j. c a b (inr i) (inr j)) p.1 q.1 (omega arith) h.1 k.1 e in
      let hash : r.entry_hash ≡ s.entry_hash = cc hashes in
      let digest : digests.sha256 (row_text digests r) ≡ digests.sha256 (row_text digests s) =
        sym (h.0.hashed ∙ computed_hash-row_text r)
        ∙ hash
        ∙ k.0.hashed
        ∙ computed_hash-row_text s in
      let entry = row_text-SameEntry digests r s p.0 q.0 (c r s (inl refl) (inl refl) digest) in
      (
        sym h.0.link ∙ entry.previous_hash ∙ k.0.link,
        ((entry, hash, h.0.signed ∙ ap (sign digests signer) hash ∙ sym k.0.signed), rest),
      )

  -- Two accepted logs of the same length whose last rows have the same hash hold the same entries, row
  -- by row: the event, its actor, its number, the text of its time, the hash before it, its payload
  -- but for the order of the keys, its hash and its signature. The digest has no collision among the
  -- texts of their rows, and no payload of theirs holds a float that is infinite or not a number.
  pub verify_chain-SameRows :
      {C : Type 0} (w w' : World C) (n : ℕ)
      → NoCollision (by_sequence w.db.audit_logs) (by_sequence w'.db.audit_logs)
      → ArePlain (by_sequence w.db.audit_logs)
      → ArePlain (by_sequence w'.db.audit_logs)
      → verify_chain digests signer w ≡ ok n
      → verify_chain digests signer w' ≡ ok n
      → tip digests signer none (by_sequence w.db.audit_logs)
        ≡ tip digests signer none (by_sequence w'.db.audit_logs)
      → SameRows (by_sequence w.db.audit_logs) (by_sequence w'.db.audit_logs)
  verify_chain-SameRows w w' n c p q v v' e =
      let (links, count) = (verify_chain_iff digests signer w n).0 v in
      let (links', count') = (verify_chain_iff digests signer w' n).0 v' in
      (same_rows none none 1 (by_sequence w.db.audit_logs) (by_sequence w'.db.audit_logs) c p q
        (sym count ∙ count') links links' e).1

  IsLinked-front :
      (previous : Option String) (n : ℕ) (rs ss : List AuditLog)
      → IsLinked digests signer previous n (rs ++ ss)
      → IsLinked digests signer previous n rs
  IsLinked-front previous n [] ss h = tt
  IsLinked-front previous n (r ∷ rs) ss h =
      (h.0, IsLinked-front (some r.entry_hash) (n + 1) rs ss h.1)

  -- A log from whose end rows were deleted is accepted, as the shorter log that it is.
  pub verify_chain_truncated :
      {C : Type 0} (w w' : World C) (n : ℕ) (rs ss : List AuditLog)
      → verify_chain digests signer w ≡ ok n
      → by_sequence w.db.audit_logs ≡ rs ++ ss
      → by_sequence w'.db.audit_logs ≡ rs
      → verify_chain digests signer w' ≡ ok (length rs)
  verify_chain_truncated w w' n rs ss v e e' =
      let (links, count) = (verify_chain_iff digests signer w n).0 v in
      (verify_chain_iff digests signer w' (length rs)).1
        (rw e' (IsLinked-front none 1 rs ss (rw e at links), refl))
