-- ===== src/Audit/Tests.antt =====
-- Runs of the audit log with toy digests, and its theorems at concrete logs.
use marcel_arch.Prelude.{String, ◌≡◌, ◌↔◌, refl, ap, inl, inr, true, none, [], ◌∷◌, ◌++◌, length}
use marcel_arch.Prelude.Result.{ok, err, value_error}
use marcel_arch.Prelude.Int.{pos}
use marcel_arch.Value.{int, str, Fields, end, field}
use marcel_arch.Models.{AuditLog}
use marcel_arch.World.{World}
use marcel_arch.Digests.{is_ascii}
use marcel_arch.Json.{canonical_json}
use marcel_arch.Samples.{toy_hash, toy, signer}
use marcel_arch.Audit.{last_record, new_record, by_sequence, append, verify_chain}
use marcel_arch.Audit.Chain.{IsLinked, verify_chain_iff}
use marcel_arch.Audit.Append.{AppendSpec, append_lem, verify_chain-append}
use marcel_arch.Audit.Rows.{In, tip}
use marcel_arch.Audit.Entries.{row_text}
use marcel_arch.Json.Read.{is_plain}
use marcel_arch.Json.Order.{no_fields, exchanged}
use marcel_arch.Audit.Reorder.{AreReordered, verify_chain-reordered}
use marcel_arch.Audit.Tamper.{
  NoCollision, ArePlain, SameRows, verify_chain-SameRows, verify_chain_truncated,
}

abbrev empty : World Unit
empty = record {
  db = record { agents = []; budgets = []; policies = []; audit_logs = []; hitl_transactions = [] };
  cache = tt;
}

abbrev first : World Unit
first = (append toy signer "agent_registered" "admin" end 5 empty).1

abbrev second : World Unit
second = (append toy signer "policy_created" "admin" end 6 first).1

verifies : (verify_chain toy signer second ≡ ok 2) × (verify_chain toy signer empty ≡ ok 0)
unfolding append verify_chain canonical_json
verifies = (refl, refl)

refuses :
    (append toy signer "" "admin" end 5 empty).0
    ≡ err (value_error "event_type must be between 1 and 128 characters")
unfolding append
refuses = refl

verify_chain_iff_example : (verify_chain toy signer second ≡ ok 2) ↔ (
    IsLinked toy signer none 1 (by_sequence second.db.audit_logs)
    × (2 ≡ length (by_sequence second.db.audit_logs)))
verify_chain_iff_example = verify_chain_iff toy signer second 2

append_lem_example :
    AppendSpec toy signer "policy_created" "admin" end 6 first
      (append toy signer "policy_created" "admin" end 6 first)
append_lem_example = append_lem toy signer "policy_created" "admin" end 6 first

abbrev second_row : AuditLog
second_row = new_record toy signer (last_record first.db.audit_logs) "policy_created" "admin" end 6

first-verifies : verify_chain toy signer first ≡ ok 1
unfolding append verify_chain canonical_json
first-verifies = refl

second-append : append toy signer "policy_created" "admin" end 6 first ≡ (ok second_row, second)
unfolding append canonical_json
second-append = refl

verify_chain-append_example : verify_chain toy signer second ≡ ok 2
verify_chain-append_example =
    verify_chain-append toy signer "policy_created" "admin" end 6 refl first second 1 second_row
      first-verifies second-append

toy_hash-injective :
    (a b : String) → is_ascii a ≡ true → is_ascii b ≡ true → toy_hash a ≡ toy_hash b → a ≡ b
toy_hash-injective a b e f h = simp (e, f) at h

-- Two logs whose second rows differ in the order of the payload's keys.
abbrev payload : Fields
payload = field "risk" (int (pos 20)) (field "name" (str "cap") end)

abbrev swapped : Fields
swapped = field "name" (str "cap") (field "risk" (int (pos 20)) end)

abbrev logged : World Unit
logged = (append toy signer "policy_created" "admin" payload 6 first).1

abbrev relogged : World Unit
relogged = (append toy signer "policy_created" "admin" swapped 6 first).1

logged_text :
    row_text toy (new_record toy signer none "a" "b" payload 6)
    ≡ "{\"actor_id\":\"b\",\"created_at\":\"+00:00\",\"event_payload\":{\"name\":\"cap\",\"risk\":20},\"event_type\":\"a\",\"previous_hash\":null,\"sequence_number\":1}"
unfolding canonical_json new_record
logged_text = refl

both-verify : (verify_chain toy signer logged ≡ ok 2) × (verify_chain toy signer relogged ≡ ok 2)
unfolding append verify_chain canonical_json
both-verify = (refl, refl)

logged-is_ascii :
    (r : AuditLog) → In r (by_sequence logged.db.audit_logs) → is_ascii (row_text toy r) ≡ true
unfolding by_sequence append canonical_json
logged-is_ascii r (inl e) = ap (λ x. is_ascii (row_text toy x)) e
logged-is_ascii r (inr (inl e)) = ap (λ x. is_ascii (row_text toy x)) e
logged-is_ascii r (inr (inr e)) = elim e [ ]

relogged-is_ascii :
    (r : AuditLog) → In r (by_sequence relogged.db.audit_logs) → is_ascii (row_text toy r) ≡ true
unfolding by_sequence append canonical_json
relogged-is_ascii r (inl e) = ap (λ x. is_ascii (row_text toy x)) e
relogged-is_ascii r (inr (inl e)) = ap (λ x. is_ascii (row_text toy x)) e
relogged-is_ascii r (inr (inr e)) = elim e [ ]

logs-NoCollision :
    NoCollision toy signer (by_sequence logged.db.audit_logs) (by_sequence relogged.db.audit_logs)
logs-NoCollision r s i j h = toy_hash-injective _ _ (logged-is_ascii r i) (relogged-is_ascii s j) h

logs-ArePlain :
    ArePlain toy signer (by_sequence logged.db.audit_logs)
    × ArePlain toy signer (by_sequence relogged.db.audit_logs)
unfolding by_sequence append is_plain canonical_json
logs-ArePlain = ((refl, (refl, tt)), (refl, (refl, tt)))

logs-tip :
    tip toy signer none (by_sequence logged.db.audit_logs)
    ≡ tip toy signer none (by_sequence relogged.db.audit_logs)
unfolding by_sequence append canonical_json
logs-tip = refl

verify_chain-SameRows_example :
    SameRows toy signer (by_sequence logged.db.audit_logs) (by_sequence relogged.db.audit_logs)
verify_chain-SameRows_example =
    verify_chain-SameRows toy signer logged relogged 2 logs-NoCollision logs-ArePlain.0
      logs-ArePlain.1 both-verify.0 both-verify.1 logs-tip

logs-AreReordered : AreReordered logged.db.audit_logs relogged.db.audit_logs
unfolding append canonical_json
logs-AreReordered = (
  (end, no_fields, refl),
  ((swapped, exchanged "risk" "name" (int (pos 20)) (str "cap") end refl, refl), tt),
)

verify_chain-reordered_example : verify_chain toy signer logged ≡ verify_chain toy signer relogged
verify_chain-reordered_example = verify_chain-reordered toy signer logged relogged logs-AreReordered

split : by_sequence second.db.audit_logs ≡ by_sequence first.db.audit_logs ++ second_row ∷ []
unfolding by_sequence append canonical_json
split = refl

verify_chain_truncated_example :
    verify_chain toy signer first ≡ ok (length (by_sequence first.db.audit_logs))
verify_chain_truncated_example =
    verify_chain_truncated toy signer second first 2 (by_sequence first.db.audit_logs)
      (second_row ∷ []) verifies.0 split refl
