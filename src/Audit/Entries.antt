-- ===== src/Audit/Entries.antt =====
-- What the text of a row says of the row.
use marcel_arch.Prelude.{ℕ, String, ◌≡◌, refl, ap, sym, ◌∙◌, true, Option, none, some}
use marcel_arch.Prelude.Int.{pos}
use marcel_arch.Value.{int, str, dict, Fields, end, field, get}
use marcel_arch.Json.{canonical_json, sort_fields}
use marcel_arch.Json.Read.{fields_plain}
use marcel_arch.Json.Canonical.{canonical_json-sort_fields}
use marcel_arch.Models.{AuditLog}
use marcel_arch.Digests.{Digests}
use marcel_arch.Audit.{hash_value, material}

-- The dict of a row, its keys in order, around a payload in order.
abbrev pub sorted_material : ℕ → String → String → Fields → Option String → String → Fields
sorted_material sequence event_type actor_id event_payload previous_hash created_at =
    field "actor_id" (str actor_id) (
      field "created_at" (str created_at) (
        field "event_payload" (dict event_payload) (
          field "event_type" (str event_type) (
            field "previous_hash" (hash_value previous_hash)
              (field "sequence_number" (int (pos sequence)) end)))))

material-plain :
    (sequence : ℕ) (event_type actor_id : String) (payload : Fields) (previous : Option String)
    (text : String)
    → fields_plain payload ≡ true
    → fields_plain (material sequence event_type actor_id payload previous text) ≡ true
unfolding fields_plain material
material-plain sequence event_type actor_id payload none text h = rw h refl
material-plain sequence event_type actor_id payload (some hash) text h = rw h refl

pub sort_fields-material :
    (sequence : ℕ) (event_type actor_id : String) (payload : Fields) (previous : Option String)
    (text : String)
    → sort_fields (material sequence event_type actor_id payload previous text)
      ≡ sorted_material sequence event_type actor_id (sort_fields payload) previous text
unfolding sort_fields material
sort_fields-material sequence event_type actor_id payload none text = refl
sort_fields-material sequence event_type actor_id payload (some hash) text = refl

-- Two entries that say the same: event, actor, payload but for the order of its keys, the hash before,
-- the number and the text of the time.
pub record SameEntry (digests : Digests) (r s : AuditLog) : Type 0 where
  pub event_type : r.event_type ≡ s.event_type
  pub actor_id : r.actor_id ≡ s.actor_id
  pub event_payload : sort_fields r.event_payload ≡ sort_fields s.event_payload
  pub previous_hash : r.previous_hash ≡ s.previous_hash
  pub sequence_number : r.sequence_number ≡ s.sequence_number
  pub created_at : digests.loaded_text r.created_at ≡ digests.loaded_text s.created_at

abbrev text_at : String → Fields → String
text_at key fs = elim (get key fs) [ some (str text) ↦ text | _ ↦ "" ]

abbrev number_at : String → Fields → ℕ
number_at key fs = elim (get key fs) [ some (int (pos n)) ↦ n | _ ↦ 0 ]

abbrev payload_at : String → Fields → Fields
payload_at key fs = elim (get key fs) [ some (dict payload) ↦ payload | _ ↦ end ]

abbrev hash_at : String → Fields → Option String
hash_at key fs = elim (get key fs) [ some (str hash) ↦ some hash | _ ↦ none ]

same_hash_value :
    (a b : Option String)
    → hash_at "h" (field "h" (hash_value a) end) ≡ hash_at "h" (field "h" (hash_value b) end)
    → a ≡ b
unfolding get
same_hash_value none none h = h
same_hash_value none (some b) h = h
same_hash_value (some a) none h = h
same_hash_value (some a) (some b) h = h

module _ (digests : Digests) where
  -- The text of a row that is hashed.
  abbrev pub row_text : AuditLog → String
  row_text r = canonical_json (
      material r.sequence_number r.event_type r.actor_id r.event_payload r.previous_hash
        (digests.loaded_text r.created_at))

  abbrev sorted_row : AuditLog → Fields
  sorted_row r =
      sorted_material r.sequence_number r.event_type r.actor_id (sort_fields r.event_payload)
        r.previous_hash (digests.loaded_text r.created_at)

  row_text-sorted :
      (r s : AuditLog)
      → fields_plain r.event_payload ≡ true
      → fields_plain s.event_payload ≡ true
      → row_text r ≡ row_text s
      → sorted_row r ≡ sorted_row s
  row_text-sorted r s h k e =
      sym (sort_fields-material _ _ _ _ _ _)
      ∙ (canonical_json-sort_fields _ _ (material-plain _ _ _ _ _ _ h)
            (material-plain _ _ _ _ _ _ k)).0
          e
      ∙ sort_fields-material _ _ _ _ _ _

  -- The text of a row with a plain payload says all that the row says.
  pub row_text-SameEntry :
      (r s : AuditLog)
      → fields_plain r.event_payload ≡ true
      → fields_plain s.event_payload ≡ true
      → row_text r ≡ row_text s
      → SameEntry digests r s
  unfolding get
  row_text-SameEntry r s h k e =
      let same = row_text-sorted r s h k e in
      record {
        event_type = ap (text_at "event_type") same;
        actor_id = ap (text_at "actor_id") same;
        event_payload = ap (payload_at "event_payload") same;
        previous_hash =
            same_hash_value r.previous_hash s.previous_hash (ap (hash_at "previous_hash") same);
        sequence_number = ap (number_at "sequence_number") same;
        created_at = ap (text_at "created_at") same;
      }
