-- ===== src/Samples.antt =====
-- Test data: an in-memory server, toy digests, a signer, settings and a token library.
use mathlib.Core.List.Perm
use marcel_arch.Prelude.{
  ◌*◌, String, ◌≡◌, refl, true, some, [], ◌∷◌, if◌then◌else◌, Bool-cases, inl, inr, all, leb, codes,
  ◌&&◌, arith,
}
use marcel_arch.Prelude.Int.{pos}
use marcel_arch.Value.{Fields}
use marcel_arch.Services.{Services}
use marcel_arch.Redis.Memory.{memory}
use marcel_arch.World.{World}
use marcel_arch.Digests.{Digests, is_ascii}
use marcel_arch.Governor.{units_per_one}
use marcel_arch.Audit.{AuditSigner, verify_chain}
use marcel_arch.System.Sound.{IsSound}
use marcel_arch.Config.{Settings}
use marcel_arch.Jwt.{Jwt}
use marcel_arch.Validators.{Characters, strip}

abbrev pub services : Services
services = record {
  redis = memory;
  formats = record { to_text = λ v. ""; dumps = λ v. ""; trim = λ t. t };
  order_policies = λ ps. ps;
  order_policies-perm = λ ps. Perm.refl ps;
}

-- The text, if it is ASCII.
abbrev pub toy_hash : String → String
toy_hash text = if is_ascii text then text else "?"

pub toy_hash-is_ascii : (text : String) → is_ascii (toy_hash text) ≡ true
toy_hash-is_ascii text = elim (Bool-cases (is_ascii text)) [ inl e ↦ rw e e | inr e ↦ rw e ]

abbrev pub toy : Digests
toy = record {
  sha256 = toy_hash;
  hmac_sha256 = λ key text. toy_hash text;
  aware_text = λ t. "+00:00";
  loaded_text = λ t. "+00:00";
  sha256-is_ascii = toy_hash-is_ascii;
  hmac_sha256-is_ascii = λ key text. toy_hash-is_ascii text;
}

abbrev pub signer : AuditSigner
signer = record { key = "separate-development-audit-key-at-least-32-chars" }

abbrev pub blank : World memory.State
blank = record {
  db = record { agents = []; budgets = []; policies = []; audit_logs = []; hitl_transactions = [] };
  cache = [];
}

pub blank-IsSound : IsSound toy signer blank
unfolding verify_chain
blank-IsSound = record {
  agents_one = λ id. omega arith;
  budgets_one = λ agent_id currency. omega arith;
  capped = tt;
  policies_one = λ name version. omega arith;
  transactions_one = λ id. omega arith;
  keys_one = λ key. omega arith;
  verified = (0, refl);
}

-- A token that is its claims, which no check refuses.
abbrev pub open_tokens : Jwt
open_tokens = record {
  Token = Fields;
  encode = λ claims secret algorithm. claims;
  decode = λ token secret algorithm audience issuer required now. some token;
  decode-encode = λ claims secret algorithm audience issuer required now supported long h. refl;
}

abbrev pub settings : Settings
settings = record {
  environment = "development";
  app_name = "Marcel";
  app_version = "0.1.0";
  log_level = "INFO";
  database_url = "postgresql+asyncpg://db/marcel";
  database_pool_size = 10;
  database_max_overflow = 20;
  redis_url = "redis://localhost:6379/0";
  redis_socket_timeout_seconds = pos (2 * units_per_one);
  redis_health_check_interval_seconds = 30;
  jwt_secret = "development-only-secret-at-least-32-chars";
  jwt_algorithm = "HS256";
  jwt_issuer = "marcel";
  jwt_audience = "marcel-api";
  jwt_expiry_seconds = 3600;
  audit_hmac_key = "separate-development-audit-key-at-least-32-chars";
  approval_timeout_seconds = 900;
  max_request_body_bytes = 1048576;
  cors_origins = "http://localhost:3000" ∷ [];
}

-- Characters as far as ASCII capitals go.
abbrev pub plain : Characters
plain = record {
  trim = strip;
  upper = λ s. s;
  isalpha = λ s. all (λ c. leb b'A' c && leb c b'Z') (codes s);
}
