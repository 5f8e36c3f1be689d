-- ===== src/Conditions/Payloads.antt =====
-- `_payload_equals` and `_payload_contains` of marcel/core/engine.py.
use text.Mathlib.Text.{find?}
use marcel_arch.Prelude.{
  String, ◌≡◌, ◌≢◌, ◌↔◌, ◌⊎◌, refl, true, false, none, some, Bool-cases, ◌==◌, is_some, inl, inr,
  sym, ap, ◌∙◌, subst,
}
use marcel_arch.Value.{
  Value, null, bool, int, float, str, list, dict, Fields, end, field, get, get_or,
}
use marcel_arch.Value.Equality.{py_eq}
use marcel_arch.Formats.{Formats}
use marcel_arch.Conditions.{all_equal, payload_equals, all_inside, payload_contains}
use marcel_arch.Conditions.Lists.{and_iff}

abbrev Each : (String → Value → Type 0) → Fields → Type 0
Each P end = Unit
Each P (field k v rest) = P k v × Each P rest

-- The payload has an equal value under the key, or none where the value is equal to `None`.
abbrev HasEqual : Fields → String → Value → Type 0
HasEqual payload k v =
    ((u : Value) × (get k payload ≡ some u) × (py_eq u v ≡ true))
    ⊎ ((get k payload ≡ none) × (py_eq null v ≡ true))

-- The value is a dict, and each of its fields has its equal in the payload.
abbrev pub AllEqual : Fields → Value → Type 0
AllEqual payload v = (fs : Fields) × (v ≡ dict fs) × Each (HasEqual payload) fs

-- The value is a dict, and the text of each of its values occurs in the text of the payload.
abbrev pub AllInside : Formats → Fields → Value → Type 0
AllInside formats payload v =
    (fs : Fields) × (v ≡ dict fs)
    × Each (λ k x. is_some (find? (formats.dumps payload) (formats.to_text x)) ≡ true) fs

dict_only :
    (P : Fields → Type 0) (v : Value)
    → ((fs : Fields) → v ≢ dict fs)
    → (false ≡ true) ↔ ((fs : Fields) × (v ≡ dict fs) × P fs)
dict_only P v other = (λ h. absurd (cc h), λ h. absurd (other h.0 h.1))

get_or-cases :
    (k : String) (fs : Fields)
    → ((u : Value) × (get k fs ≡ some u) × (get_or k null fs ≡ u))
      ⊎ ((get k fs ≡ none) × (get_or k null fs ≡ null))
unfolding get get_or
get_or-cases k end = inr (refl, refl)
get_or-cases k (field j u rest) = elim (Bool-cases (j == k)) [
  | inl e ↦ inl (u, simp e refl, simp e refl)
  | inr e ↦ simp e (get_or-cases k rest)
]

py_eq_iff :
    (payload : Fields) (k : String) (v : Value)
    → (py_eq (get_or k null payload) v ≡ true) ↔ HasEqual payload k v
py_eq_iff payload k v = elim (get_or-cases k payload) [
  | inl (u, found, same) ↦ (
    λ h. inl (u, found, ap (λ x. py_eq x v) (sym same) ∙ h),
    λ h. elim h [
      | inl (x, e, p) ↦
          let twin : u ≡ x = cc (sym found ∙ e) in ap (λ y. py_eq y v) (same ∙ twin) ∙ p
      | inr (e, p) ↦ absurd (cc (sym found ∙ e))
    ],
  )
  | inr (missing, same) ↦ (
    λ h. inr (missing, ap (λ x. py_eq x v) (sym same) ∙ h),
    λ h. elim h [
      | inl (x, e, p) ↦ absurd (cc (sym missing ∙ e))
      | inr (e, p) ↦ ap (λ y. py_eq y v) same ∙ p
    ],
  )
]

all_equal_iff : (payload fs : Fields) → (all_equal fs payload ≡ true) ↔ Each (HasEqual payload) fs
unfolding all_equal
all_equal_iff payload end = (λ h. tt, λ h. refl)
all_equal_iff payload (field k v rest) =
    and_iff (py_eq (get_or k null payload) v) (all_equal rest payload) (py_eq_iff payload k v)
      (all_equal_iff payload rest)

same_fields : {fs gs : Fields} → dict fs ≡ dict gs → gs ≡ fs
same_fields e = cc e

pub payload_equals_iff :
    (v : Value) (payload : Fields) → (payload_equals v payload ≡ true) ↔ AllEqual payload v
unfolding payload_equals
payload_equals_iff (dict fs) payload = (
  λ h. (fs, refl, (all_equal_iff payload fs).0 h),
  λ h. (all_equal_iff payload fs).1 (subst (Each (HasEqual payload)) (same_fields h.1) h.2),
)
payload_equals_iff null payload = dict_only _ null (λ xs e. cc e)
payload_equals_iff (bool b) payload = dict_only _ (bool b) (λ xs e. cc e)
payload_equals_iff (int n) payload = dict_only _ (int n) (λ xs e. cc e)
payload_equals_iff (float t) payload = dict_only _ (float t) (λ xs e. cc e)
payload_equals_iff (str t) payload = dict_only _ (str t) (λ xs e. cc e)
payload_equals_iff (list xs) payload = dict_only _ (list xs) (λ xs e. cc e)

module _ (formats : Formats) where
  abbrev Occurs : Fields → String → Value → Type 0
  Occurs payload k x = is_some (find? (formats.dumps payload) (formats.to_text x)) ≡ true

  all_inside_iff :
      (payload fs : Fields)
      → (all_inside formats fs (formats.dumps payload) ≡ true) ↔ Each (Occurs payload) fs
  unfolding all_inside
  all_inside_iff payload end = (λ h. tt, λ h. refl)
  all_inside_iff payload (field k v rest) =
      and_iff (is_some (find? (formats.dumps payload) (formats.to_text v)))
        (all_inside formats rest (formats.dumps payload)) (λ h. h, λ h. h)
        (all_inside_iff payload rest)

  pub payload_contains_iff :
      (v : Value) (payload : Fields)
      → (payload_contains formats v payload ≡ true) ↔ AllInside formats payload v
  unfolding payload_contains
  payload_contains_iff (dict fs) payload = (
    λ h. (fs, refl, (all_inside_iff payload fs).0 h),
    λ h. (all_inside_iff payload fs).1 (subst (Each (Occurs payload)) (same_fields h.1) h.2),
  )
  payload_contains_iff null payload = dict_only _ null (λ xs e. cc e)
  payload_contains_iff (bool b) payload = dict_only _ (bool b) (λ xs e. cc e)
  payload_contains_iff (int n) payload = dict_only _ (int n) (λ xs e. cc e)
  payload_contains_iff (float t) payload = dict_only _ (float t) (λ xs e. cc e)
  payload_contains_iff (str t) payload = dict_only _ (str t) (λ xs e. cc e)
  payload_contains_iff (list xs) payload = dict_only _ (list xs) (λ xs e. cc e)
