-- ===== src/Conditions/Matches.antt =====
-- `_matches` against a description of each condition on its own.
use marcel_arch.Prelude.{
  String, ◌≡◌, ◌↔◌, refl, sym, ◌∙◌, ap, Bool, true, false, some, ◌||◌, not, Bool-cases, ◌==◌,
  eq_iff, eq_refl, any, [], ◌∷◌, inl, inr,
}
use marcel_arch.Prelude.Result.{Result, ok}
use marcel_arch.Decimal.{amount_lt, amount_le}
use marcel_arch.Value.{Value, dict, Fields, end, field, get}
use marcel_arch.Models.{Agent}
use marcel_arch.Schemas.{ExecutionIntent}
use marcel_arch.Formats.{Formats}
use marcel_arch.Conditions.{
  allowed_keys, member, has_unknown_key, check, match_string_list, payload_equals, payload_contains,
  matches,
}
use marcel_arch.Conditions.Lists.{IsListed, match_string_list_iff}
use marcel_arch.Conditions.Bounds.{Bound}
use marcel_arch.Conditions.Payloads.{AllEqual, AllInside, payload_equals_iff, payload_contains_iff}
use marcel_arch.Conditions.Checks.{test_iff, amount_iff, known_cases}

-- A test that each value under the key passes.
abbrev pub Holds : (Value → Type 0) → String → Fields → Type 0
Holds P key conditions = (v : Value) → get key conditions ≡ some v → P v

-- The eight keys that a condition can have.
abbrev IsKnown : String → Type 0
IsKnown key =
    any (λ k. k == key)
      ("actions" ∷ "agent_ids" ∷ "tenant_ids" ∷ "risk_tiers" ∷ "amount_gte" ∷ "amount_gt"
        ∷ "payload_equals" ∷ "payload_contains" ∷ [])
    ≡ true

module _ (formats : Formats) (agent : Agent) (intent : ExecutionIntent) where
  -- Every key is known, and each condition that stands there holds.
  pub record Satisfied (conditions : Fields) : Type 0 where
    pub known : (key : String) (v : Value) → get key conditions ≡ some v → IsKnown key
    pub actions : Holds (IsListed intent.action) "actions" conditions
    pub agent_ids : Holds (IsListed agent.id) "agent_ids" conditions
    pub tenant_ids : Holds (IsListed agent.tenant_id) "tenant_ids" conditions
    pub risk_tiers : Holds (IsListed agent.risk_tier) "risk_tiers" conditions
    pub amount_gte : Holds (Bound amount_lt intent.requested_amount) "amount_gte" conditions
    pub amount_gt : Holds (Bound amount_le intent.requested_amount) "amount_gt" conditions
    pub equal : Holds (AllEqual intent.payload) "payload_equals" conditions
    pub contained : Holds (AllInside formats intent.payload) "payload_contains" conditions

abbrev AllKnown : Fields → Type 0
AllKnown conditions =
    (key : String) (v : Value) → get key conditions ≡ some v → member key allowed_keys ≡ true

no_unknown : (a b : Bool) → (not a || b) ≡ false → (a ≡ true) × (b ≡ false)
no_unknown true b h = (refl, h)
no_unknown false b h = absurd (cc h)

all_known : (a b : Bool) → a ≡ true → b ≡ false → (not a || b) ≡ false
all_known a b h k = simp (h, k) refl

known_first :
    (k key : String) (u v : Value) (rest : Fields)
    → member k allowed_keys ≡ true
    → AllKnown rest
    → get key (field k u rest) ≡ some v
    → member key allowed_keys ≡ true
unfolding get
known_first k key u v rest here later e = elim (Bool-cases (k == key)) [
  | inl same ↦ ap (λ x. member x allowed_keys) (sym ((eq_iff k key).0 same)) ∙ here
  | inr other ↦ later key v (simp other at e)
]

known_rest :
    (k key : String) (u v : Value) (rest : Fields)
    → AllKnown (field k u rest)
    → get key rest ≡ some v
    → member key allowed_keys ≡ true
unfolding get
known_rest k key u v rest h e = elim (Bool-cases (k == key)) [
  | inl same ↦ h key u (simp same refl)
  | inr other ↦ h key v (simp other e)
]

known_iff : (conditions : Fields) → (has_unknown_key conditions ≡ false) ↔ AllKnown conditions
unfolding has_unknown_key get
known_iff end = (λ h key v e. cc e, λ h. refl)
known_iff (field k u rest) = (
  λ h key v e.
      let parts = no_unknown (member k allowed_keys) (has_unknown_key rest) h in
      known_first k key u v rest parts.0 ((known_iff rest).0 parts.1) e,
  λ h.
      all_known (member k allowed_keys) (has_unknown_key rest) (h k u (simp (eq_refl k) refl))
        ((known_iff rest).1 (λ key v e. known_rest k key u v rest h e)),
)

module _ (formats : Formats) (agent : Agent) (intent : ExecutionIntent) where
  list_iff :
      (key actual : String) (conditions : Fields) (rest : Result Bool)
      → (check (get key conditions) (λ v. ok (match_string_list v actual)) rest ≡ ok true)
        ↔ (Holds (IsListed actual) key conditions × (rest ≡ ok true))
  list_iff key actual conditions rest =
      test_iff (λ v. match_string_list v actual) (λ v. match_string_list_iff v actual)
        (get key conditions) rest

  equals_iff :
      (conditions : Fields) (rest : Result Bool)
      → (check (get "payload_equals" conditions) (λ v. ok (payload_equals v intent.payload)) rest
          ≡ ok true)
        ↔ (Holds (AllEqual intent.payload) "payload_equals" conditions × (rest ≡ ok true))
  equals_iff conditions rest =
      test_iff (λ v. payload_equals v intent.payload) (λ v. payload_equals_iff v intent.payload)
        (get "payload_equals" conditions) rest

  contains_iff :
      (conditions : Fields) (rest : Result Bool)
      → (check
            (get "payload_contains" conditions)
            (λ v. ok (payload_contains formats v intent.payload))
            rest
          ≡ ok true)
        ↔ (Holds (AllInside formats intent.payload) "payload_contains" conditions
            × (rest ≡ ok true))
  contains_iff conditions rest =
      test_iff (λ v. payload_contains formats v intent.payload)
        (λ v. payload_contains_iff formats v intent.payload) (get "payload_contains" conditions)
        rest

  -- The conditions of a rule match an intent exactly if every key of theirs is one of the eight known
  -- keys and each condition that stands among them holds on its own. A condition on the action or on
  -- the agent's id, tenant or tier is a list of texts, in which that text or `*` stands. A bound is
  -- a number or the text of one, with no minus before it unless it is zero, and the amount is not below
  -- it, or not at or below it, where no amount counts as zero. The values of `payload_equals` have each
  -- their equal in the payload under the same key, `None` for a missing one; of the values of
  -- `payload_contains` each has its text within the text of the payload.
  pub matches_iff :
      (conditions : Fields)
      → (matches formats (dict conditions) agent intent ≡ ok true)
        ↔ Satisfied formats agent intent conditions
  unfolding matches
  matches_iff conditions = (
    λ h.
        let (none_unknown, all) = (known_cases (has_unknown_key conditions) _).0 h in
        let (actions, after_actions) = (list_iff "actions" intent.action conditions _).0 all in
        let (agents, after_agents) = (list_iff "agent_ids" agent.id conditions _).0 after_actions in
        let (tenants, after_tenants) =
          (list_iff "tenant_ids" agent.tenant_id conditions _).0 after_agents in
        let (tiers, after_tiers) =
          (list_iff "risk_tiers" agent.risk_tier conditions _).0 after_tenants in
        let (least, after_least) =
          (amount_iff amount_lt intent.requested_amount (get "amount_gte" conditions) _).0
            after_tiers in
        let (more, after_more) =
          (amount_iff amount_le intent.requested_amount (get "amount_gt" conditions) _).0
            after_least in
        let (equal, after_equal) = (equals_iff conditions _).0 after_more in
        let (contained, last) = (contains_iff conditions _).0 after_equal in
        record {
          known = (known_iff conditions).0 none_unknown;
          actions = actions;
          agent_ids = agents;
          tenant_ids = tenants;
          risk_tiers = tiers;
          amount_gte = least;
          amount_gt = more;
          equal = equal;
          contained = contained;
        },
    λ s. (known_cases (has_unknown_key conditions) _).1 (
      (known_iff conditions).1 s.known,
      (list_iff "actions" intent.action conditions _).1 (
        s.actions,
        (list_iff "agent_ids" agent.id conditions _).1 (
          s.agent_ids,
          (list_iff "tenant_ids" agent.tenant_id conditions _).1 (
            s.tenant_ids,
            (list_iff "risk_tiers" agent.risk_tier conditions _).1 (
              s.risk_tiers,
              (amount_iff amount_lt intent.requested_amount (get "amount_gte" conditions) _).1 (
                s.amount_gte,
                (amount_iff amount_le intent.requested_amount (get "amount_gt" conditions) _).1 (
                  s.amount_gt,
                  (equals_iff conditions _).1
                      (s.equal, (contains_iff conditions _).1 (s.contained, refl)),
                ),
              ),
            ),
          ),
        ),
      ),
    ),
  )
