-- ===== src/Validators.antt =====
-- The constraints and validators of marcel/schemas.py, on messages whose fields have their types. A
-- message that they refuse is answered with 422, which is one exception here. An amount is in units
-- of 10^-40.
pub mod Strip
pub mod Actions
pub mod Messages
mod Tests
use Prim.Native.Char.{code}
use Prim.Native.String
use Prim.Native.String.{count}
use marcel_arch.Prelude.{
  ℕ, ◌*◌, ◌^◌, ◌%◌, String, Bool, true, false, Option, none, some, List, [], ◌∷◌, map, ◌==◌, ◌&&◌,
  ◌||◌, not, all, any, keep, length, leb, ltb, nat_eq, codes, is_blank, is_space, if◌then◌else◌,
}
use marcel_arch.Prelude.Int.{ℤ, pos, ltb_ℤ, pos_part}
use marcel_arch.Prelude.Result.{Result, ok, err, validation_error, ◌>>=◌}
use marcel_arch.Value.{Value, Fields, end, field}
use marcel_arch.Conditions.{member}
use marcel_arch.Schemas.{
  AgentCreate, BudgetUpsert, PolicyCreate, HitlResolution, TokenRequest, ExecutionIntent,
}
use marcel_arch.Engine.{sorted_set}
use marcel_arch.Config.{between}

-- `str.strip`: the white space goes at the front, then at the back.
unfoldable pub lstrip : String → String
unfolding is_space
lstrip String.[] = String.[]
lstrip (String.◌∷◌ c s) = if is_space (code c) then lstrip s else String.◌∷◌ c s

unfoldable pub rstrip : String → String
unfolding is_blank
rstrip String.[] = String.[]
rstrip (String.◌∷◌ c s) = if is_blank (String.◌∷◌ c s) then String.[] else String.◌∷◌ c (rstrip s)

unfoldable pub strip : String → String
unfolding lstrip rstrip
strip s = rstrip (lstrip s)

-- `set(action.strip() for action in value if action.strip())`, sorted.
unfoldable pub normalized : List String → List String
unfolding strip sorted_set
normalized value = sorted_set (map strip (keep (λ action. not (strip action == "")) value))

abbrev pub too_long : String → Bool
too_long action = ltb 256 (count action)

abbrev pub check_actions : List String → Result (List String)
check_actions [] = err validation_error
check_actions (action ∷ actions) =
    if any too_long (action ∷ actions) then err validation_error else ok (action ∷ actions)

unfoldable pub validate_actions : List String → Result (List String)
unfolding normalized
validate_actions value = check_actions (normalized value)

-- `pattern=r"^[A-Za-z0-9_.:-]+$"`
abbrev pub is_id_code : ℕ → Bool
is_id_code c =
    (leb b'A' c && leb c b'Z')
    || (leb b'a' c && leb c b'z')
    || (leb b'0' c && leb c b'9')
    || nat_eq c b'_'
    || nat_eq c b'.'
    || nat_eq c b':'
    || nat_eq c b'-'

abbrev pub matches_pattern : String → Bool
matches_pattern s = all is_id_code (codes s) && leb 1 (count s)

-- `Field(min_length=low, max_length=high)`
abbrev pub sized : ℕ → ℕ → String → Bool
sized low high s = between low high (count s)

-- `Field(gt=0, max_digits=18, decimal_places=4)`: 14 digits stand before the point.
unfoldable pub money_fits : ℤ → Bool
money_fits a =
    ltb_ℤ (pos 0) a && nat_eq (pos_part a % 10 ^ 36) 0 && ltb (pos_part a) (10 ^ 14 * 10 ^ 40)

-- `str_strip_whitespace` of pydantic, and `str.upper` and `str.isalpha`, which read the tables of
-- Unicode.
pub record Characters : Type 0 where
  pub trim : String → String
  pub upper : String → String
  pub isalpha : String → Bool

-- A key that a dict has keeps its place and gets the new value.
abbrev pub put_field : String → Value → Fields → Fields
put_field k v end = field k v end
put_field k v (field j u rest) = if j == k then field j v rest else field j u (put_field k v rest)

abbrev pub put_trimmed : (String → String) → Fields → Fields → Fields
put_trimmed trim done end = done
put_trimmed trim done (field k v rest) = put_trimmed trim (put_field (trim k) v done) rest

-- A `dict[str, Any]`: its own keys are stripped, and its values stay as they are.
abbrev pub trim_keys : (String → String) → Fields → Fields
trim_keys trim fs = put_trimmed trim end fs

-- The constraint of an optional field.
abbrev pub optional : {A : Type 0} → (A → Bool) → Option A → Bool
optional fits none = true
optional fits (some a) = fits a

module _ (characters : Characters) where
  open characters use {trim, upper, isalpha}

  abbrev pub trim_optional : Option String → Option String
  trim_optional none = none
  trim_optional (some s) = some (trim s)

  unfoldable pub normalize_currency : String → Result String
  normalize_currency value =
      if isalpha (upper value) then ok (upper value) else err validation_error

  unfoldable pub normalize_optional_currency : Option String → Result (Option String)
  unfolding normalize_currency
  normalize_optional_currency none = ok none
  normalize_optional_currency (some value) = do
    currency ← normalize_currency value
    ok (some currency)

  -- The constraints of the fields, on the stripped ones.
  unfoldable pub agent_fits : AgentCreate → Bool
  agent_fits p =
      sized 3 128 (trim p.id)
      && matches_pattern (trim p.id)
      && sized 1 256 (trim p.display_name)
      && sized 1 128 (trim p.tenant_id)
      && between 1 200 (length p.allowed_actions)
      && member p.risk_tier ("low" ∷ "standard" ∷ "high" ∷ "critical" ∷ [])

  unfoldable pub validate_agent : AgentCreate → Result AgentCreate
  unfolding agent_fits validate_actions
  validate_agent p =
      if agent_fits p
      then (do
        actions ← validate_actions (map trim p.allowed_actions)
        ok (record p {
          id = trim p.id;
          display_name = trim p.display_name;
          tenant_id = trim p.tenant_id;
          allowed_actions = actions;
          metadata = trim_keys trim p.metadata;
        }))
      else err validation_error

  unfoldable pub validate_budget : BudgetUpsert → Result BudgetUpsert
  unfolding money_fits normalize_currency
  validate_budget p =
      if money_fits p.limit_amount && sized 3 3 (trim p.currency)
      then (do
        currency ← normalize_currency (trim p.currency)
        ok (record { limit_amount = p.limit_amount; currency = currency }))
      else err validation_error

  unfoldable pub intent_fits : ExecutionIntent → Bool
  unfolding money_fits
  intent_fits p =
      sized 3 128 (trim p.agent_id)
      && sized 1 256 (trim p.action)
      && optional money_fits p.requested_amount
      && optional (sized 3 3) (trim_optional p.currency)
      && sized 16 128 (trim p.idempotency_key)
      && matches_pattern (trim p.idempotency_key)
      && optional (sized 1 128) (trim_optional p.correlation_id)

  unfoldable pub validate_intent : ExecutionIntent → Result ExecutionIntent
  unfolding intent_fits normalize_optional_currency
  validate_intent p =
      if intent_fits p
      then (do
        currency ← normalize_optional_currency (trim_optional p.currency)
        ok (record p {
          agent_id = trim p.agent_id;
          action = trim p.action;
          payload = trim_keys trim p.payload;
          currency = currency;
          idempotency_key = trim p.idempotency_key;
          correlation_id = trim_optional p.correlation_id;
        }))
      else err validation_error

  -- `version` and `priority` are not negative here; the bounds refuse a negative number.
  unfoldable pub validate_policy : PolicyCreate → Result PolicyCreate
  validate_policy p =
      if sized 1 256 (trim p.name) && leb 1 p.version && between 0 1000000 p.priority
      then ok (record p { name = trim p.name; definition = trim_keys trim p.definition })
      else err validation_error

  unfoldable pub validate_resolution : HitlResolution → Result HitlResolution
  validate_resolution p =
      if member p.decision ("approved" ∷ "rejected" ∷ [])
        && optional (sized 0 4000) (trim_optional p.comment)
      then ok (record p { comment = trim_optional p.comment })
      else err validation_error

  unfoldable pub validate_token_request : TokenRequest → Result TokenRequest
  validate_token_request p =
      if sized 1 128 (trim p.subject) && between 0 20 (length p.roles)
      then ok (record { subject = trim p.subject; roles = map trim p.roles })
      else err validation_error
