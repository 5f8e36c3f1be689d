-- ===== src/Config/Usable.antt =====
-- What the rest of the program may rely on, once the settings are validated.
use marcel_arch.Prelude.{
  ℕ, ◌≤◌, ◌<◌, String, ◌≡◌, refl, ap, sym, eq_iff, codes, ◌==◌, is_prefix-append, is_prefix-clash,
  if◌then◌else◌, ◌⊎◌, Bool, true, false, Option, none, some, ◌||◌, arith, inl, inr, starts_with,
  Bool-cases, both, both,
}
use marcel_arch.Prelude.Result.{ok, err, ok-injective, validation_error}
use marcel_arch.Schemas.{ExecutionIntent, PolicyDecision}
use marcel_arch.Audit.{make_signer}
use marcel_arch.Hitl.{new_transaction}
use marcel_arch.Config.{
  Settings, literals_fit, numbers_fit, secrets_fit, validate_database_url, validate_redis_url,
  validate_cors_origins, validate, engine_options,
}

passes :
    (b : Bool) (s r : Settings)
    → (if b then ok s else err validation_error) ≡ ok r
    → (b ≡ true) × (r ≡ s)
passes true s r h = (refl, sym (ok-injective h))
passes false s r h = absurd (cc h)

otherwise : (a b : Bool) → (a || b) ≡ true → a ≡ false → b ≡ true
otherwise a b h e = ground arith

module _ (scheme_of : String → Option String) (s : Settings) where
  -- A pool has its sizes exactly where it is not for SQLite.
  abbrev pub IsPooled : Type 0
  IsPooled =
      (((engine_options s).check_same_thread ≡ some false) × ((engine_options s).pool_size ≡ none))
      ⊎ (((engine_options s).check_same_thread ≡ none)
          × ((engine_options s).pool_size ≡ some s.database_pool_size)
          × (1 ≤ s.database_pool_size)
          × (starts_with "postgresql+asyncpg://" s.database_url ≡ true))

  pub record IsUsable : Type 0 where
    -- `AuditSigner` does not raise
    pub signs : make_signer s.audit_hmac_key ≡ ok (record { key = s.audit_hmac_key })
    -- a transaction is open for some time
    pub waits :
        (id : String) (now : ℕ) (intent : ExecutionIntent) (decision : PolicyDecision)
        → now < (new_transaction id s.approval_timeout_seconds now intent decision).expires_at
    -- a token does not expire at once
    pub lasts : 60 ≤ s.jwt_expiry_seconds
    pub pooled : IsPooled
    pub server : (scheme_of s.redis_url ≡ some "redis") ⊎ (scheme_of s.redis_url ≡ some "rediss")

  pub record Fits : Type 0 where
    pub numbers : numbers_fit s ≡ true
    pub secrets : secrets_fit s ≡ true
    pub url : validate_database_url s.database_url ≡ true
    pub redis : validate_redis_url (scheme_of s.redis_url) ≡ true

  validate-Fits : (r : Settings) → validate scheme_of s ≡ ok r → Fits × (r ≡ s)
  unfolding validate
  validate-Fits r h =
      let given = passes _ s r h in
      let redis = (both _ (validate_cors_origins s.cors_origins) given.0).0 in
      let url = both _ (validate_redis_url (scheme_of s.redis_url)) redis in
      let secrets = both _ (validate_database_url s.database_url) url.0 in
      let numbers = both _ (secrets_fit s) secrets.0 in
      (
        record {
          numbers = (both (literals_fit s) (numbers_fit s) numbers.0).1;
          secrets = numbers.1;
          url = secrets.1;
          redis = url.1;
        },
        given.1,
      )

  secrets-signs :
      secrets_fit s ≡ true → make_signer s.audit_hmac_key ≡ ok (record { key = s.audit_hmac_key })
  unfolding secrets_fit make_signer
  secrets-signs h = ground arith

  numbers-waits :
      numbers_fit s ≡ true
      → (30 ≤ s.approval_timeout_seconds) × (60 ≤ s.jwt_expiry_seconds) × (1 ≤ s.database_pool_size)
  unfolding numbers_fit
  numbers-waits h = (ground arith, ground arith, ground arith)

  new_transaction-waits :
      30 ≤ s.approval_timeout_seconds
      → (id : String) (now : ℕ) (intent : ExecutionIntent) (decision : PolicyDecision)
      → now < (new_transaction id s.approval_timeout_seconds now intent decision).expires_at
  unfolding new_transaction
  new_transaction-waits h id now intent decision = omega arith

  url-pooled : validate_database_url s.database_url ≡ true → 1 ≤ s.database_pool_size → IsPooled
  unfolding validate_database_url engine_options
  url-pooled h n = elim (Bool-cases (starts_with "sqlite+aiosqlite://" s.database_url)) [
    | inl e ↦
        simp (is_prefix-append (codes "sqlite+") (codes "aiosqlite://") (codes s.database_url) e)
          (inl (refl, refl))
    | inr e ↦
        let postgres = otherwise _ (starts_with "postgresql+asyncpg://" s.database_url) h e in
        let other =
          is_prefix-clash b'p' b's' (codes "ostgresql+asyncpg://") (codes "qlite+")
            (codes s.database_url) refl postgres in
        simp other (inr (refl, refl, n, postgres))
  ]

-- The scheme is one of the two that the validator accepts.
redis_scheme :
    (scheme : Option String)
    → validate_redis_url scheme ≡ true
    → (scheme ≡ some "redis") ⊎ (scheme ≡ some "rediss")
unfolding validate_redis_url
redis_scheme none h = ground arith
redis_scheme (some scheme) h = elim (Bool-cases ("redis" == scheme)) [
  | inl e ↦ inl (ap some (sym ((eq_iff "redis" scheme).0 e)))
  | inr e ↦ inr (ap some (sym ((eq_iff "rediss" scheme).0 (ground arith))))
]

-- Where the settings are validated, they are the ones that were given, and: the audit signer does not
-- refuse its key; a transaction of a human approval expires after it is made; a token lasts for at
-- least a minute; the database is SQLite without a pool, or PostgreSQL with a pool of at least one
-- connection; and the scheme of the Redis address is one of its two.
pub validate-IsUsable :
    (scheme_of : String → Option String) (s r : Settings)
    → validate scheme_of s ≡ ok r
    → (r ≡ s) × IsUsable scheme_of s
validate-IsUsable scheme_of s r h =
    let given = validate-Fits scheme_of s r h in
    let fits = given.0 in
    let numbers = numbers-waits scheme_of s fits.numbers in
    (
      given.1,
      record {
        signs = secrets-signs scheme_of s fits.secrets;
        waits = new_transaction-waits scheme_of s numbers.0;
        lasts = numbers.1;
        pooled = url-pooled scheme_of s fits.url numbers.2;
        server = redis_scheme (scheme_of s.redis_url) fits.redis;
      },
    )
