-- ===== src/Validators/Messages.antt =====
-- What the endpoints may rely on in a message that was accepted.
use Prim.Native.String.{count}
use marcel_arch.Prelude.{
  ℕ, ◌*◌, ◌^◌, ◌%◌, ◌≤◌, ◌<◌, String, ◌≡◌, refl, ap, sym, subst, ◌∙◌, Bool, true, false, Option,
  none, some, ◌&&◌, all, arith, codes, both, nat_eq, nat_eq_iff, ltb, leb, if◌then◌else◌,
}
use marcel_arch.Prelude.Int.{ℤ, pos, pos_part, ltb_ℤ, ◌≤ℤ◌}
use marcel_arch.Prelude.Result.{Result, ok, err, ok-injective, >>=-eq-ok, validation_error}
use marcel_arch.Schemas.{BudgetUpsert, ExecutionIntent}
use marcel_arch.Validators.{
  is_id_code, sized, money_fits, optional, intent_fits, Characters, normalize_currency,
  normalize_optional_currency, trim_optional, trim_keys, validate_budget, validate_intent,
  matches_pattern,
}

-- A positive amount that `Numeric(18, 4)` holds as it is.
pub record IsMoney (a : ℤ) : Type 0 where
  pub is_positive : pos 1 ≤ℤ a
  pub whole : pos_part a % 10 ^ 36 ≡ 0
  pub below : pos_part a < 10 ^ 14 * 10 ^ 40

below_of : (a b : ℕ) → ltb a b ≡ true → a < b
below_of a b h = ground arith

positive_of : (a : ℤ) → ltb_ℤ (pos 0) a ≡ true → pos 1 ≤ℤ a
positive_of a h = ground arith

money_fits-IsMoney : (a : ℤ) → money_fits a ≡ true → IsMoney a
unfolding money_fits
money_fits-IsMoney a h =
    let split = both _ (ltb (pos_part a) (10 ^ 14 * 10 ^ 40)) h in
    let front = both (ltb_ℤ (pos 0) a) (nat_eq (pos_part a % 10 ^ 36) 0) split.0 in
    record {
      is_positive = positive_of a front.0;
      whole = (nat_eq_iff (pos_part a % 10 ^ 36) 0).0 front.1;
      below = below_of (pos_part a) (10 ^ 14 * 10 ^ 40) split.1;
    }

-- What comes behind a test that was passed.
accepted :
    {A : Type 0} (b : Bool) (r : Result A) (a : A)
    → (if b then r else err validation_error) ≡ ok a
    → (b ≡ true) × (r ≡ ok a)
accepted true r a h = (refl, h)
accepted false r a h = absurd (cc h)

module _ (characters : Characters) where
  open characters use {trim, isalpha}

  normalize_currency-isalpha :
      (value currency : String)
      → normalize_currency characters value ≡ ok currency
      → isalpha currency ≡ true
  unfolding normalize_currency
  normalize_currency-isalpha value currency h =
      let passed = accepted (isalpha (characters.upper value)) _ currency h in
      ap isalpha (sym (ok-injective passed.1)) ∙ passed.0

  -- Where `validate_budget` accepts, the limit is the one that was sent, is positive and fits its
  -- column, and the currency consists of letters.
  pub validate_budget_lem :
      (p q : BudgetUpsert)
      → validate_budget characters p ≡ ok q
      → (q.limit_amount ≡ p.limit_amount) × IsMoney q.limit_amount × (isalpha q.currency ≡ true)
  unfolding validate_budget
  validate_budget_lem p q h =
      let passed = accepted (money_fits p.limit_amount && sized 3 3 (trim p.currency)) _ q h in
      let money = both (money_fits p.limit_amount) (sized 3 3 (trim p.currency)) passed.0 in
      let (currency, read, same) =
        >>=-eq-ok (λ currency. ok (record { limit_amount = p.limit_amount; currency = currency }))
          (normalize_currency characters (trim p.currency)) passed.1 in
      let shown = ok-injective same in
      let limit = ap (λ (b : BudgetUpsert). b.limit_amount) (sym shown) in
      (
        limit,
        subst IsMoney (sym limit) (money_fits-IsMoney p.limit_amount money.0),
        ap (λ (b : BudgetUpsert). isalpha b.currency) (sym shown)
            ∙ normalize_currency-isalpha (trim p.currency) currency read,
      )

  -- What holds of an intent that was accepted.
  pub record IsIntent (q : ExecutionIntent) : Type 0 where
    pub amount : (a : ℤ) → q.requested_amount ≡ some a → IsMoney a
    pub letters : (c : String) → q.currency ≡ some c → isalpha c ≡ true
    pub key : all is_id_code (codes q.idempotency_key) ≡ true
    pub least : 16 ≤ count q.idempotency_key
    pub most : count q.idempotency_key ≤ 128
    pub agent : count q.agent_id ≤ 128
    pub action : (1 ≤ count q.action) × (count q.action ≤ 256)

  optional-IsMoney :
      (o : Option ℤ) → optional money_fits o ≡ true → (a : ℤ) → o ≡ some a → IsMoney a
  optional-IsMoney none h a e = absurd (cc e)
  optional-IsMoney (some b) h a e = subst IsMoney (cc e) (money_fits-IsMoney b h)

  optional_currency-isalpha :
      (o r : Option String)
      → normalize_optional_currency characters o ≡ ok r
      → (c : String) → r ≡ some c
      → isalpha c ≡ true
  unfolding normalize_optional_currency
  optional_currency-isalpha none r h c e = absurd (cc (h, e))
  optional_currency-isalpha (some value) r h c e =
      let (currency, read, same) =
        >>=-eq-ok (λ currency. ok (some currency)) (normalize_currency characters value) h in
      subst (λ s. isalpha s ≡ true) (cc (ok-injective same, e))
        (normalize_currency-isalpha value currency read)

  sized-bounds :
      (low high : ℕ) (s : String) → sized low high s ≡ true → (low ≤ count s) × (count s ≤ high)
  sized-bounds low high s h = (ground arith, ground arith)

  -- The constraints of an intent, one by one.
  record Constraints (p : ExecutionIntent) : Type 0 where
    agent : sized 3 128 (trim p.agent_id) ≡ true
    action : sized 1 256 (trim p.action) ≡ true
    amount : optional money_fits p.requested_amount ≡ true
    key : sized 16 128 (trim p.idempotency_key) ≡ true
    shape : matches_pattern (trim p.idempotency_key) ≡ true

  intent_fits-Constraints : (p : ExecutionIntent) → intent_fits characters p ≡ true → Constraints p
  unfolding intent_fits
  intent_fits-Constraints p h =
      let before_correlation =
        (both _ (optional (sized 1 128) (trim_optional characters p.correlation_id)) h).0 in
      let to_pattern = both _ (matches_pattern (trim p.idempotency_key)) before_correlation in
      let to_key = both _ (sized 16 128 (trim p.idempotency_key)) to_pattern.0 in
      let before_currency =
        (both _ (optional (sized 3 3) (trim_optional characters p.currency)) to_key.0).0 in
      let to_amount = both _ (optional money_fits p.requested_amount) before_currency in
      let texts = both (sized 3 128 (trim p.agent_id)) (sized 1 256 (trim p.action)) to_amount.0 in
      record {
        agent = texts.0;
        action = texts.1;
        amount = to_amount.1;
        key = to_key.1;
        shape = to_pattern.1;
      }

  abbrev cleaned : ExecutionIntent → Option String → ExecutionIntent
  cleaned p currency = record p {
    agent_id = trim p.agent_id;
    action = trim p.action;
    payload = trim_keys trim p.payload;
    currency = currency;
    idempotency_key = trim p.idempotency_key;
    correlation_id = trim_optional characters p.correlation_id;
  }

  Constraints-IsIntent :
      (p : ExecutionIntent) (currency : Option String)
      → Constraints p
      → normalize_optional_currency characters (trim_optional characters p.currency) ≡ ok currency
      → IsIntent (cleaned p currency)
  Constraints-IsIntent p currency fits read =
      let key = sized-bounds 16 128 (trim p.idempotency_key) fits.key in
      record {
        amount = optional-IsMoney p.requested_amount fits.amount;
        letters = optional_currency-isalpha (trim_optional characters p.currency) currency read;
        key = (both _ (leb 1 (count (trim p.idempotency_key))) fits.shape).0;
        least = key.0;
        most = key.1;
        agent = (sized-bounds 3 128 (trim p.agent_id) fits.agent).1;
        action = sized-bounds 1 256 (trim p.action) fits.action;
      }

  -- Where `validate_intent` accepts, an amount is positive and fits its column, a currency consists of
  -- letters, the idempotency key has 16 to 128 of the characters that its pattern allows, and the
  -- agent's id and the action fit their columns.
  pub validate_intent_lem :
      (p q : ExecutionIntent) → validate_intent characters p ≡ ok q → IsIntent q
  unfolding validate_intent
  validate_intent_lem p q h =
      let passed = accepted (intent_fits characters p) _ q h in
      let (currency, read, same) =
        >>=-eq-ok (λ currency. ok (cleaned p currency))
          (normalize_optional_currency characters (trim_optional characters p.currency)) passed.1 in
      subst IsIntent (ok-injective same)
        (Constraints-IsIntent p currency (intent_fits-Constraints p passed.0) read)
