-- ===== src/Audit/Counts.antt =====
-- `AuditLogger.count`: each row has an id, so that it counts them all.
use marcel_arch.Prelude.{ℕ, List, [], ◌∷◌, ◌≡◌, refl, ◌∙◌, length, leb, Bool-cases, inl, inr}
use marcel_arch.Prelude.Result.{ok}
use marcel_arch.Models.{AuditLog}
use marcel_arch.World.{World}
use marcel_arch.Digests.{Digests}
use marcel_arch.Audit.{AuditSigner, insert_record, by_sequence, verify_chain}
use marcel_arch.Audit.Chain.{verify_chain_iff}

unfoldable pub count : {C : Type 0} → World C → ℕ
count w = length w.db.audit_logs

length-insert_record :
    (r : AuditLog) (rs : List AuditLog) → length (insert_record r rs) ≡ length (r ∷ rs)
unfolding insert_record
length-insert_record r [] = refl
length-insert_record r (s ∷ rest) = elim (Bool-cases (leb r.sequence_number s.sequence_number)) [
  | inl e ↦ simp e refl
  | inr e ↦ simp (e, length-insert_record r rest) refl
]

length-by_sequence : (rs : List AuditLog) → length (by_sequence rs) ≡ length rs
unfolding by_sequence
length-by_sequence [] = refl
length-by_sequence (r ∷ rs) =
    length-insert_record r (by_sequence rs) ∙ simp (length-by_sequence rs) refl

-- What a verified chain returns is the number of the rows that the log has.
pub verify_chain-count :
    (digests : Digests) (signer : AuditSigner) {C : Type 0} (w : World C) (n : ℕ)
    → verify_chain digests signer w ≡ ok n
    → n ≡ count w
unfolding count
verify_chain-count digests signer w n h =
    ((verify_chain_iff digests signer w n).0 h).1 ∙ length-by_sequence w.db.audit_logs
