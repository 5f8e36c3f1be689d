-- ===== src/Audit/Reorder.antt =====
-- A database may give the keys of a payload back in another order.
use marcel_arch.Prelude.{
  ℕ, ◌+◌, String, ◌≡◌, refl, ap, sym, ◌∙◌, inl, inr, Option, none, some, List, [], ◌∷◌, length, leb,
  Bool-cases, arith,
}
use marcel_arch.Value.{Fields}
use marcel_arch.Models.{AuditLog}
use marcel_arch.World.{World}
use marcel_arch.Digests.{Digests}
use marcel_arch.Json.{canonical_json}
use marcel_arch.Json.Canonical.{canonical_json_same}
use marcel_arch.Json.Order.{IsReordered, sort_fields-IsReordered}
use marcel_arch.Audit.{
  AuditSigner, material, insert_record, by_sequence, computed_hash, verify_from, verify_chain,
}
use marcel_arch.Audit.Entries.{sort_fields-material, sorted_material}

abbrev with_payload : AuditLog → Fields → AuditLog
with_payload r payload = record r { event_payload = payload }

-- The rows of two logs, one by one, differ at most in the order of their payloads' fields.
abbrev RowReordered : AuditLog → AuditLog → Type 0
RowReordered r s = (p : Fields) × IsReordered r.event_payload p × (with_payload r p ≡ s)

abbrev pub AreReordered : List AuditLog → List AuditLog → Type 0
AreReordered [] [] = Unit
AreReordered (r ∷ rs) (s ∷ ss) = RowReordered r s × AreReordered rs ss
AreReordered _ _ = ⊥

insert_record-AreReordered :
    (r s : AuditLog) (rs ss : List AuditLog)
    → RowReordered r s
    → AreReordered rs ss
    → AreReordered (insert_record r rs) (insert_record s ss)
unfolding insert_record
insert_record-AreReordered r s [] [] h k = (h, tt)
insert_record-AreReordered r s [] (y ∷ ss) h k = absurd k
insert_record-AreReordered r s (x ∷ rs) [] h k = absurd k
insert_record-AreReordered r s (x ∷ rs) (y ∷ ss) h k =
    let same : leb r.sequence_number x.sequence_number ≡ leb s.sequence_number y.sequence_number =
      cc (
        ap (λ (a : AuditLog). a.sequence_number) h.2,
        ap (λ (a : AuditLog). a.sequence_number) k.0.2,
      ) in
    elim (Bool-cases (leb s.sequence_number y.sequence_number)) [
      | inl e ↦ let here = same ∙ e in simp (here, e) (h, k)
      | inr e ↦
          let here = same ∙ e in simp (here, e) (k.0, insert_record-AreReordered r s rs ss h k.1)
    ]

by_sequence-AreReordered :
    (rs ss : List AuditLog) → AreReordered rs ss → AreReordered (by_sequence rs) (by_sequence ss)
unfolding by_sequence
by_sequence-AreReordered [] [] h = tt
by_sequence-AreReordered [] (s ∷ ss) h = absurd h
by_sequence-AreReordered (r ∷ rs) [] h = absurd h
by_sequence-AreReordered (r ∷ rs) (s ∷ ss) h =
    insert_record-AreReordered r s (by_sequence rs) (by_sequence ss) h.0
      (by_sequence-AreReordered rs ss h.1)

length-AreReordered : (rs ss : List AuditLog) → AreReordered rs ss → length rs ≡ length ss
length-AreReordered [] [] h = refl
length-AreReordered [] (s ∷ ss) h = absurd h
length-AreReordered (r ∷ rs) [] h = absurd h
length-AreReordered (r ∷ rs) (s ∷ ss) h = ground (arith, length-AreReordered rs ss h.1)

material-IsReordered :
    (r : AuditLog) (p : Fields) (text : String)
    → IsReordered r.event_payload p
    → canonical_json
        (material r.sequence_number r.event_type r.actor_id r.event_payload r.previous_hash text)
      ≡ canonical_json (material r.sequence_number r.event_type r.actor_id p r.previous_hash text)
material-IsReordered r p text h = canonical_json_same _ _ (
    sort_fields-material _ _ _ _ _ _
    ∙ ap (λ fs. sorted_material r.sequence_number r.event_type r.actor_id fs r.previous_hash text)
        (sort_fields-IsReordered r.event_payload p h)
    ∙ sym (sort_fields-material _ _ _ _ _ _))

module _ (digests : Digests) (signer : AuditSigner) where
  computed_hash-reordered :
      (r : AuditLog) (p : Fields)
      → IsReordered r.event_payload p
      → computed_hash digests signer r ≡ computed_hash digests signer (with_payload r p)
  unfolding computed_hash
  computed_hash-reordered r p h =
      ap digests.sha256 (material-IsReordered r p (digests.loaded_text r.created_at) h)

  verify_step-reordered :
      (previous : Option String) (n total : ℕ) (r : AuditLog) (p : Fields) (rs ss : List AuditLog)
      → computed_hash digests signer r ≡ computed_hash digests signer (with_payload r p)
      → verify_from digests signer (some r.entry_hash) (n + 1) total rs
        ≡ verify_from digests signer (some r.entry_hash) (n + 1) total ss
      → verify_from digests signer previous n total (r ∷ rs)
        ≡ verify_from digests signer previous n total (with_payload r p ∷ ss)
  unfolding verify_from
  verify_step-reordered previous n total r p rs ss h later = simp (h, later) refl

  verify_from-reordered :
      (previous : Option String) (n total : ℕ) (rs ss : List AuditLog)
      → AreReordered rs ss
      → verify_from digests signer previous n total rs
        ≡ verify_from digests signer previous n total ss
  unfolding verify_from
  verify_from-reordered previous n total [] [] h = refl
  verify_from-reordered previous n total [] (s ∷ ss) h = absurd h
  verify_from-reordered previous n total (r ∷ rs) [] h = absurd h
  verify_from-reordered previous n total (r ∷ rs) (s ∷ ss) ((p, order, same), rest) =
      verify_step-reordered previous n total r p rs ss (computed_hash-reordered r p order)
        (verify_from-reordered (some r.entry_hash) (n + 1) total rs ss rest)
      ∙ ap (λ x. verify_from digests signer previous n total (x ∷ ss)) same

  -- `verify_chain` ends in the same for two logs whose rows differ, one by one, at most in the order of
  -- the fields of their payloads, at any depth: it returns the same count, or raises the same.
  pub verify_chain-reordered :
      {C : Type 0} (w w' : World C)
      → AreReordered w.db.audit_logs w'.db.audit_logs
      → verify_chain digests signer w ≡ verify_chain digests signer w'
  unfolding verify_chain
  verify_chain-reordered w w' h =
      let sorted = by_sequence-AreReordered w.db.audit_logs w'.db.audit_logs h in
      let rs = by_sequence w.db.audit_logs in
      let ss = by_sequence w'.db.audit_logs in
      verify_from-reordered none 1 (length rs) rs ss sorted
      ∙ ap (λ total. verify_from digests signer none 1 total ss) (length-AreReordered rs ss sorted)
