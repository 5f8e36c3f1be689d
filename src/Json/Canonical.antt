-- ===== src/Json/Canonical.antt =====
-- What `canonical_json` keeps of a dict.
use marcel_arch.Prelude.{
  ◌*◌, ◌+◌, String, ◌≡◌, ◌↔◌, refl, ap, sym, ◌∙◌, Bool, true, false, ◌&&◌, arith, both, some, inl,
  inr, Bool-cases, ◌==◌, codes, eq_iff, if◌then◌else◌,
}
use mathlib.Core.Option
use marcel_arch.Value.{
  Value, null, bool, int, float, str, list, dict, Items, nil, cons, Fields, end, field, get,
}
use marcel_arch.Engine.{before}
use marcel_arch.Engine.Ids.{before_self}
use marcel_arch.Json.{
  sort_value, sort_items, sort_fields, insert_field, canonical_json, write_value,
}
use marcel_arch.Json.Read.{read_value, is_plain, items_plain, fields_plain}
use Prim.Native.String.{count}
use marcel_arch.Json.Sizes.{value_fuel-le}
use marcel_arch.Json.RoundTrip.{read_value-write_value}

and_true : (a b : Bool) → a ≡ true → b ≡ true → (a && b) ≡ true
and_true true true h k = refl
and_true true false h k = k
and_true false b h k = absurd (cc h)

plain-insert_field :
    (key : String) (v : Value) (fs : Fields)
    → is_plain v ≡ true
    → fields_plain fs ≡ true
    → fields_plain (insert_field key v fs) ≡ true
unfolding insert_field is_plain
plain-insert_field key v end h k = simp h refl
plain-insert_field key v (field j u rest) h k =
    let (plain, plains) = both (is_plain u) _ k in
    elim (Bool-cases (before (codes j) (codes key))) [
      | inl e ↦ simp e (and_true (is_plain u) _ plain (plain-insert_field key v rest h plains))
      | inr e ↦ simp (e, h, plain, plains) refl
    ]

mutual
  unfolding sort_fields is_plain

  plain-sort_value : (v : Value) → is_plain v ≡ true → is_plain (sort_value v) ≡ true
  plain-sort_value null h = h
  plain-sort_value (bool b) h = h
  plain-sort_value (int n) h = h
  plain-sort_value (float s) h = h
  plain-sort_value (str s) h = h
  plain-sort_value (list xs) h = plain-sort_items xs h
  plain-sort_value (dict fs) h = plain-sort_fields fs h

  plain-sort_items : (xs : Items) → items_plain xs ≡ true → items_plain (sort_items xs) ≡ true
  plain-sort_items nil h = h
  plain-sort_items (cons x xs) h =
      let (plain, plains) = both (is_plain x) _ h in
      and_true _ _ (plain-sort_value x plain) (plain-sort_items xs plains)

  plain-sort_fields : (fs : Fields) → fields_plain fs ≡ true → fields_plain (sort_fields fs) ≡ true
  plain-sort_fields end h = h
  plain-sort_fields (field key v rest) h =
      let (plain, plains) = both (is_plain v) _ h in
      plain-insert_field key (sort_value v) (sort_fields rest) (plain-sort_value v plain)
        (plain-sort_fields rest plains)

other_key :
    (key k j : String) → before (codes j) (codes k) ≡ true → (j == key) ≡ true → (k == key) ≡ false
other_key key k j e same = elim (Bool-cases (k == key)) [
  | inl h ↦
      let twin : k ≡ j = (eq_iff k key).0 h ∙ sym ((eq_iff j key).0 same) in
      absurd (cc (ap (λ u. before (codes j) (codes u)) twin, before_self (codes j), e))
  | inr h ↦ h
]

get-insert_field :
    (key k : String) (v : Value) (fs : Fields)
    → get key (insert_field k v fs) ≡ (if k == key then some v else get key fs)
unfolding insert_field get
get-insert_field key k v end = refl
get-insert_field key k v (field j u rest) = elim (Bool-cases (before (codes j) (codes k))) [
  | inl e ↦ elim (Bool-cases (j == key)) [
    | inl same ↦ simp (e, same, other_key key k j e same) refl
    | inr other ↦ simp (e, other) (get-insert_field key k v rest)
  ]
  | inr e ↦ simp e refl
]

get-sort_fields :
    (key : String) (fs : Fields) → get key (sort_fields fs) ≡ Option.map sort_value (get key fs)
unfolding sort_fields get
get-sort_fields key end = refl
get-sort_fields key (field k v rest) = elim (Bool-cases (k == key)) [
  | inl e ↦ simp (get-insert_field key k (sort_value v) (sort_fields rest), e) refl
  | inr e ↦
      simp (get-insert_field key k (sort_value v) (sort_fields rest), e) (get-sort_fields key rest)
]

-- The reader, with fuel from the length of the text.
unfoldable pub read_json : String → Value × String
unfolding read_value
read_json text = read_value (4 * count text + 1) text

read_back :
    (fs : Fields)
    → fields_plain fs ≡ true
    → ◌≡◌ {A = Value × String} (read_json (canonical_json fs)) (dict (sort_fields fs), "")
unfolding read_json canonical_json is_plain
read_back fs h =
    let plain = plain-sort_fields fs h in
    let whole = dict (sort_fields fs) in
    read_value-write_value whole "" (4 * count (write_value whole "") + 1) plain refl
      (omega (arith, value_fuel-le whole "" plain))

-- The text of a dict can be read back: a reader gets the dict with its keys sorted at every depth and
-- nothing behind it, and under each key that dict has the value, so sorted, which the dict has under
-- it, or none where it has none. The dict holds no float that is infinite or not a number.
pub read_json-canonical_json :
    (fs : Fields)
    → fields_plain fs ≡ true
    → ◌≡◌ {A = Value × String} (read_json (canonical_json fs)) (dict (sort_fields fs), "")
      × ((key : String) → get key (sort_fields fs) ≡ Option.map sort_value (get key fs))
read_json-canonical_json fs h = (read_back fs h, λ key. get-sort_fields key fs)

abbrev fields_of : Value × String → Fields
fields_of (dict fs, rest) = fs
fields_of _ = end

pub canonical_json_same :
    (fs gs : Fields) → sort_fields fs ≡ sort_fields gs → canonical_json fs ≡ canonical_json gs
unfolding canonical_json
canonical_json_same fs gs e = ap (λ hs. write_value (dict hs) "") e

-- Two dicts have the same text exactly when they have the same sorted form.
pub canonical_json-sort_fields :
    (fs gs : Fields)
    → fields_plain fs ≡ true
    → fields_plain gs ≡ true
    → (canonical_json fs ≡ canonical_json gs) ↔ (sort_fields fs ≡ sort_fields gs)
canonical_json-sort_fields fs gs h k = (
  λ e. ap fields_of (sym (read_back fs h) ∙ ap read_json e ∙ read_back gs k),
  canonical_json_same fs gs,
)
