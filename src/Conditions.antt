-- ===== src/Conditions.antt =====
-- `_matches` of marcel/core/engine.py, and the tests that it calls.
pub mod Lists
pub mod Bounds
pub mod Payloads
pub mod Checks
pub mod Matches
use text.Mathlib.Text.{find?}
use marcel_arch.Prelude.{
  ℕ, String, Bool, true, false, Option, none, some, List, [], ◌∷◌, ◌==◌, ◌&&◌, ◌||◌, not, any,
  is_some, nat_eq, if◌then◌else◌,
}
use marcel_arch.Prelude.Int.{ℤ, pos, negsuc}
use marcel_arch.Prelude.Result.{Result, ok, err, governance_error, invalid_operation, ◌>>=◌}
use marcel_arch.Decimal.{Decimal, finite, infinity, nan, read_decimal, amount_lt, amount_le}
use marcel_arch.Value.{
  Value, null, int, float, str, list, dict, Items, nil, cons, Fields, end, field, get, get_or,
}
use marcel_arch.Value.Equality.{py_eq}
use marcel_arch.Models.{Agent}
use marcel_arch.Schemas.{ExecutionIntent}
use marcel_arch.Formats.{Formats}

abbrev pub allowed_keys : List String
allowed_keys =
    "actions" ∷ "agent_ids" ∷ "tenant_ids" ∷ "risk_tiers" ∷ "amount_gte" ∷ "amount_gt"
    ∷ "payload_equals" ∷ "payload_contains" ∷ []

-- `key in keys`
abbrev pub member : String → List String → Bool
member key = any (λ k. k == key)

-- `set(conditions).difference(allowed_keys)`, as a test.
unfoldable pub has_unknown_key : Fields → Bool
has_unknown_key end = false
has_unknown_key (field k v rest) = not (member k allowed_keys) || has_unknown_key rest

abbrev pub is_str : Value → Bool
is_str (str s) = true
is_str _ = false

abbrev pub all_str : Items → Bool
all_str nil = true
all_str (cons x xs) = is_str x && all_str xs

abbrev pub is_text : String → Value → Bool
is_text actual (str s) = s == actual
is_text actual _ = false

-- `actual in value`
abbrev pub contains_text : String → Items → Bool
contains_text actual nil = false
contains_text actual (cons x xs) = is_text actual x || contains_text actual xs

-- `_match_string_list`
unfoldable pub match_string_list : Value → String → Bool
match_string_list (list xs) actual = all_str xs && (contains_text actual xs || contains_text "*" xs)
match_string_list _ actual = false

-- `Decimal(str(value))`: the text of any other value is no number.
unfoldable pub decimal_of : Value → Option Decimal
decimal_of (str s) = read_decimal s
decimal_of (float repr) = read_decimal repr
decimal_of (int (pos n)) = some (finite false n (pos 0))
decimal_of (int (negsuc n)) = some (finite true (ℕ.suc n) (pos 0))
decimal_of _ = none

-- The test `decimal < 0`, which raises on NaN.
unfoldable pub check_sign : Option Decimal → Result Decimal
check_sign none = err (governance_error "Invalid numeric policy condition")
check_sign (some nan) = err invalid_operation
check_sign (some (infinity true)) =
    err (governance_error "Numeric policy condition cannot be negative")
check_sign (some (infinity false)) = ok (infinity false)
check_sign (some (finite s c e)) =
    if s && not (nat_eq c 0)
    then err (governance_error "Numeric policy condition cannot be negative")
    else ok (finite s c e)

-- `_decimal_condition`
unfoldable pub decimal_condition : Value → Result Decimal
unfolding decimal_of check_sign
decimal_condition value = check_sign (decimal_of value)

-- The loop of `_payload_equals`: a missing key has the value `None`.
unfoldable pub all_equal : Fields → Fields → Bool
unfolding get_or
all_equal end actual = true
all_equal (field k v rest) actual = py_eq (get_or k null actual) v && all_equal rest actual

unfoldable pub payload_equals : Value → Fields → Bool
unfolding all_equal
payload_equals (dict expected) actual = all_equal expected actual
payload_equals _ actual = false

-- A rule's condition on one key: passed over if the key is missing.
abbrev pub check : Option Value → (Value → Result Bool) → Result Bool → Result Bool
check none test rest = rest
check (some v) test rest = do passed ← test v; if passed then rest else ok false

abbrev pub amount_of : Option ℤ → ℤ
amount_of none = pos 0
amount_of (some amount) = amount

abbrev pub at_least : ℤ → Value → Result Bool
at_least amount v = do d ← decimal_condition v; ok (not (amount_lt amount d))

abbrev pub more_than : ℤ → Value → Result Bool
more_than amount v = do d ← decimal_condition v; ok (not (amount_le amount d))

module _ (formats : Formats) where
  open formats use {to_text, dumps}

  -- The loop of `_payload_contains`: `str(value) in serialized`.
  unfoldable pub all_inside : Fields → String → Bool
  all_inside end serialized = true
  all_inside (field k v rest) serialized =
      is_some (find? serialized (to_text v)) && all_inside rest serialized

  unfoldable pub payload_contains : Value → Fields → Bool
  unfolding all_inside
  payload_contains (dict expected) actual = all_inside expected (dumps actual)
  payload_contains _ actual = false

  unfoldable pub matches : Value → Agent → ExecutionIntent → Result Bool
  unfolding has_unknown_key get
  matches (dict conditions) agent intent =
      let amount = amount_of intent.requested_amount in
      if has_unknown_key conditions
      then ok false
      else check (get "actions" conditions) (λ v. ok (match_string_list v intent.action))
          (check (get "agent_ids" conditions) (λ v. ok (match_string_list v agent.id))
            (check (get "tenant_ids" conditions) (λ v. ok (match_string_list v agent.tenant_id))
              (check (get "risk_tiers" conditions) (λ v. ok (match_string_list v agent.risk_tier))
                (check (get "amount_gte" conditions) (at_least amount) (
                  check (get "amount_gt" conditions) (more_than amount) (
                    check (get "payload_equals" conditions)
                      (λ v. ok (payload_equals v intent.payload))
                      (check (get "payload_contains" conditions)
                        (λ v. ok (payload_contains v intent.payload)) (ok true))))))))
  matches _ agent intent = ok false
