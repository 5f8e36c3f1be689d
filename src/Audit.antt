-- ===== src/Audit.antt =====
-- marcel/security/audit.py: `AuditSigner` and `AuditLogger`.
pub mod Chain
pub mod Rows
pub mod Append
pub mod Entries
pub mod Tamper
pub mod Counts
pub mod Reorder
mod Tests
use Prim.Native.String.{count}
use marcel_arch.Prelude.{
  ℕ, zero, suc, ◌+◌, String, Bool, true, false, Option, none, some, List, [], ◌∷◌, ◌++◌, ◌==◌, ◌&&◌,
  ◌||◌, not, any, length, ltb, leb, nat_eq, join, str_nat, if◌then◌else◌,
}
use marcel_arch.Prelude.Int.{pos}
use marcel_arch.Prelude.Result.{
  Result, ok, err, value_error, audit_integrity_error, type_error, integrity_error,
}
use marcel_arch.Prelude.Action.{Action, pure, raise_if, gets, modify, ◌>>=◌, ◌>>◌}
use marcel_arch.Value.{Value, null, int, str, dict, Fields, end, field}
use marcel_arch.Models.{AuditLog}
use marcel_arch.World.{World}
use marcel_arch.Digests.{Digests, is_ascii}
use marcel_arch.Json.{canonical_json}

pub record AuditSigner : Type 0 where
  pub key : String

-- `AuditSigner.__init__`
unfoldable pub make_signer : String → Result AuditSigner
make_signer hmac_key =
    if ltb (count hmac_key) 32
    then err (value_error "Audit HMAC key must be at least 32 characters")
    else ok (record { key = hmac_key })

-- `hmac.compare_digest` of two texts, which refuses what is not ASCII.
unfoldable pub compare_digest : String → String → Result Bool
compare_digest a b = if is_ascii a && is_ascii b then ok (a == b) else err type_error

abbrev pub hash_value : Option String → Value
hash_value none = null
hash_value (some hash) = str hash

-- The dict that is written out and hashed, with the text of the time.
unfoldable pub material : ℕ → String → String → Fields → Option String → String → Fields
material sequence event_type actor_id event_payload previous_hash created_at =
    field "sequence_number" (int (pos sequence)) (
      field "event_type" (str event_type) (
        field "actor_id" (str actor_id) (
          field "event_payload" (dict event_payload) (
            field "previous_hash" (hash_value previous_hash)
              (field "created_at" (str created_at) end)))))

unfoldable pub newer : AuditLog → AuditLog → AuditLog
newer best r = if ltb best.sequence_number r.sequence_number then r else best

-- `order_by(AuditLog.sequence_number.desc()).limit(1)`
unfoldable pub last_from : AuditLog → List AuditLog → AuditLog
last_from best [] = best
last_from best (r ∷ rs) = last_from (newer best r) rs

unfoldable pub last_record : List AuditLog → Option AuditLog
unfolding last_from newer
last_record [] = none
last_record (r ∷ rs) = some (last_from r rs)

-- `order_by(AuditLog.sequence_number.asc())`
unfoldable pub insert_record : AuditLog → List AuditLog → List AuditLog
insert_record r [] = r ∷ []
insert_record r (s ∷ rest) =
    if leb r.sequence_number s.sequence_number then r ∷ s ∷ rest else s ∷ insert_record r rest

unfoldable pub by_sequence : List AuditLog → List AuditLog
unfolding insert_record
by_sequence [] = []
by_sequence (r ∷ rs) = insert_record r (by_sequence rs)

-- The two unique columns of the table, which `flush` holds the new row to.
abbrev pub clashes : AuditLog → AuditLog → Bool
clashes new r = nat_eq r.sequence_number new.sequence_number || r.entry_hash == new.entry_hash

abbrev pub next_sequence : Option AuditLog → ℕ
next_sequence none = 1
next_sequence (some previous) = previous.sequence_number + 1

abbrev pub hash_of : Option AuditLog → Option String
hash_of none = none
hash_of (some previous) = some previous.entry_hash

-- `not text or len(text) > 128`
abbrev pub bad_length : String → Bool
bad_length text = text == "" || ltb 128 (count text)

module _ (digests : Digests) (signer : AuditSigner) where
  open digests use {sha256, hmac_sha256, aware_text, loaded_text}

  -- `AuditSigner.sign`
  abbrev pub sign : String → String
  sign payload = hmac_sha256 signer.key payload

  -- `AuditSigner.verify`
  abbrev pub verify : String → String → Result Bool
  verify payload signature = compare_digest (sign payload) signature

  -- The new row.
  unfoldable pub new_record : Option AuditLog → String → String → Fields → ℕ → AuditLog
  unfolding material
  new_record previous event_type actor_id event_payload now =
      let sequence = next_sequence previous in
      let entry_hash = sha256 (
        canonical_json (
          material sequence event_type actor_id event_payload (hash_of previous)
            (aware_text now))) in
      record {
        sequence_number = sequence;
        event_type = event_type;
        actor_id = actor_id;
        event_payload = event_payload;
        previous_hash = hash_of previous;
        entry_hash = entry_hash;
        signature = sign entry_hash;
        created_at = now;
      }

  -- `session.add(record)` and `session.flush()`
  unfoldable pub add_record : {C : Type 0} → AuditLog → Action (World C) AuditLog
  add_record r w =
      if any (clashes r) w.db.audit_logs
      then (err integrity_error, w)
      else (ok r, record w { db = record w.db { audit_logs = w.db.audit_logs ++ r ∷ [] } })

  unfoldable pub append : {C : Type 0} → String → String → Fields → ℕ → Action (World C) AuditLog
  unfolding new_record add_record last_record
  append event_type actor_id event_payload now = do
    raise_if (bad_length event_type) (value_error "event_type must be between 1 and 128 characters")
    raise_if (bad_length actor_id) (value_error "actor_id must be between 1 and 128 characters")
    previous ← gets (λ w. last_record w.db.audit_logs)
    add_record (new_record previous event_type actor_id event_payload now)

  -- `computed_hash` of a row that the database gave back.
  unfoldable pub computed_hash : AuditLog → String
  unfolding material
  computed_hash r = sha256 (
      canonical_json (
        material r.sequence_number r.event_type r.actor_id r.event_payload r.previous_hash
          (loaded_text r.created_at)))

  abbrev pub same_hash : Option String → Option String → Bool
  same_hash none none = true
  same_hash (some a) (some b) = a == b
  same_hash _ _ = false

  -- A digest test of the loop: it raises, or goes on.
  abbrev pub require : String → ℕ → Result Bool → Result ℕ → Result ℕ
  require message sequence (ok true) rest = rest
  require message sequence (ok false) rest =
      err (audit_integrity_error (join (message ∷ str_nat sequence ∷ [])))
  require message sequence (err e) rest = err e

  -- The loop of `verify_chain` from an expected hash, an expected number and a count of rows.
  unfoldable pub verify_from : Option String → ℕ → ℕ → List AuditLog → Result ℕ
  unfolding computed_hash compare_digest
  verify_from previous expected total [] = ok total
  verify_from previous expected total (r ∷ rest) =
      let later = verify_from (some r.entry_hash) (expected + 1) total rest in
      if not (nat_eq r.sequence_number expected)
      then err (
          audit_integrity_error
            (join ("Unexpected audit sequence number " ∷ str_nat r.sequence_number ∷ [])))
      else if not (same_hash r.previous_hash previous)
      then err (
          audit_integrity_error
            (join ("Broken previous hash at sequence " ∷ str_nat r.sequence_number ∷ [])))
      else require "Invalid hash at sequence " r.sequence_number
          (compare_digest (computed_hash r) r.entry_hash)
          (require "Invalid signature at sequence " r.sequence_number
            (verify r.entry_hash r.signature) later)

  unfoldable pub verify_chain : {C : Type 0} → World C → Result ℕ
  unfolding verify_from by_sequence
  verify_chain w =
      let records = by_sequence w.db.audit_logs in verify_from none 1 (length records) records
