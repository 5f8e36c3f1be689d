-- ===== src/Config.antt =====
-- `Settings` of marcel/config.py, and the options of `create_engine_and_sessionmaker` of
-- marcel/models/database.py. A float stands for its amount in units of 10^-40.
use Prim.Native.String.{count}
pub mod Usable
pub mod Cached
mod Tests
use marcel_arch.Prelude.{
  ℕ, ◌*◌, String, Bool, true, false, Option, none, some, List, [], ◌∷◌, ◌==◌, ◌&&◌, ◌||◌, not, any,
  leb, starts_with, if◌then◌else◌,
}
use marcel_arch.Prelude.Int.{ℤ, pos, ltb_ℤ, leb_ℤ}
use marcel_arch.Prelude.Result.{Result, ok, err, validation_error}
use marcel_arch.Conditions.{member}
use marcel_arch.Governor.{units_per_one}

pub record Settings : Type 0 where
  pub environment : String
  pub app_name : String
  pub app_version : String
  pub log_level : String
  pub database_url : String
  pub database_pool_size : ℕ
  pub database_max_overflow : ℕ
  pub redis_url : String
  pub redis_socket_timeout_seconds : ℤ
  pub redis_health_check_interval_seconds : ℕ
  pub jwt_secret : String
  pub jwt_algorithm : String
  pub jwt_issuer : String
  pub jwt_audience : String
  pub jwt_expiry_seconds : ℕ
  pub audit_hmac_key : String
  pub approval_timeout_seconds : ℕ
  pub max_request_body_bytes : ℕ
  pub cors_origins : List String

-- `Field(ge=low, le=high)`
abbrev pub between : ℕ → ℕ → ℕ → Bool
between low high n = leb low n && leb n high

-- The fields that are literals.
unfoldable pub literals_fit : Settings → Bool
literals_fit s =
    member s.environment ("development" ∷ "test" ∷ "staging" ∷ "production" ∷ [])
    && member s.log_level ("DEBUG" ∷ "INFO" ∷ "WARNING" ∷ "ERROR" ∷ "CRITICAL" ∷ [])
    && member s.jwt_algorithm ("HS256" ∷ "HS384" ∷ "HS512" ∷ [])

-- The bounds of the numbers.
unfoldable pub numbers_fit : Settings → Bool
numbers_fit s =
    between 1 100 s.database_pool_size
    && between 0 100 s.database_max_overflow
    && ltb_ℤ (pos 0) s.redis_socket_timeout_seconds
    && leb_ℤ s.redis_socket_timeout_seconds (pos (30 * units_per_one))
    && between 1 300 s.redis_health_check_interval_seconds
    && between 60 86400 s.jwt_expiry_seconds
    && between 30 86400 s.approval_timeout_seconds
    && between 1024 10485760 s.max_request_body_bytes

-- The two secrets have a least length.
unfoldable pub secrets_fit : Settings → Bool
secrets_fit s = leb 32 (count s.jwt_secret) && leb 32 (count s.audit_hmac_key)

unfoldable pub validate_database_url : String → Bool
validate_database_url value =
    starts_with "sqlite+aiosqlite://" value || starts_with "postgresql+asyncpg://" value

-- `parsed.scheme not in {...}`, where `scheme` is that of pydantic's `AnyUrl`, which may raise.
unfoldable pub validate_redis_url : Option String → Bool
validate_redis_url none = false
validate_redis_url (some scheme) = member scheme ("redis" ∷ "rediss" ∷ [])

unfoldable pub validate_cors_origins : List String → Bool
validate_cors_origins [] = false
validate_cors_origins (origin ∷ origins) = true

-- The settings, if every field fits. `scheme_of` stands for `AnyUrl(value).scheme`.
unfoldable pub validate : (String → Option String) → Settings → Result Settings
unfolding literals_fit numbers_fit secrets_fit validate_database_url validate_redis_url
    validate_cors_origins
validate scheme_of s =
    if literals_fit s
      && numbers_fit s
      && secrets_fit s
      && validate_database_url s.database_url
      && validate_redis_url (scheme_of s.redis_url)
      && validate_cors_origins s.cors_origins
    then ok s
    else err validation_error

-- `get_settings`, whose cache holds one value: `built` is what `Settings()` ends in now. What it raises
-- is not kept.
unfoldable pub get_settings : Result Settings → Option Settings → Result Settings × Option Settings
get_settings built (some settings) = (ok settings, some settings)
get_settings (ok settings) none = (ok settings, some settings)
get_settings (err e) none = (err e, none)

unfoldable pub is_production : Settings → Bool
is_production s = s.environment == "production"

-- The keyword arguments of `create_async_engine`; `none` where one is left out.
pub record EngineOptions : Type 0 where
  pub echo : Bool
  pub pool_pre_ping : Bool
  pub future : Bool
  pub check_same_thread : Option Bool
  pub pool_size : Option ℕ
  pub max_overflow : Option ℕ

unfoldable pub engine_options : Settings → EngineOptions
engine_options s =
    let sqlite = starts_with "sqlite+" s.database_url in
    record {
      echo = false;
      pool_pre_ping = true;
      future = true;
      check_same_thread = if sqlite then some false else none;
      pool_size = if sqlite then none else some s.database_pool_size;
      max_overflow = if sqlite then none else some s.database_max_overflow;
    }
