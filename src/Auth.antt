-- ===== src/Auth.antt =====
-- marcel/security/auth.py, and `issue_token` of marcel/api/router.py.
pub mod Tokens
pub mod Guards
mod Tests
use marcel_arch.Prelude.{
  ℕ, ◌+◌, ◌/◌, String, Bool, true, false, Option, none, some, List, [], ◌∷◌, ◌==◌, ◌&&◌, any, map,
  codes, lower, same_codes, if◌then◌else◌,
}
use marcel_arch.Prelude.Int.{pos}
use marcel_arch.Prelude.Result.{Result, ok, err, http_exception, ◌>>=◌}
use marcel_arch.Prelude.Action.{Action}
use marcel_arch.Value.{Value, str, int, list, Items, nil, cons, Fields, end, field, get, get_or}
use marcel_arch.Schemas.{TokenRequest, TokenResponse}
use marcel_arch.Conditions.{member, is_str, all_str, contains_text}
use marcel_arch.Engine.{sorted_set}
use marcel_arch.Config.{Settings}
use marcel_arch.Jwt.{Jwt}

abbrev pub texts : List String → Items
texts [] = nil
texts (s ∷ ss) = cons (str s) (texts ss)

-- The payload of a token, in the second `now`.
unfoldable pub token_claims : Settings → String → List String → ℕ → Fields
unfolding sorted_set
token_claims settings subject roles now = field "sub" (str subject) (
    field "roles" (list (texts (sorted_set roles))) (
      field "iss" (str settings.jwt_issuer) (
        field "aud" (str settings.jwt_audience) (
          field "iat" (int (pos now)) (
            field "nbf" (int (pos now))
              (field "exp" (int (pos (now + settings.jwt_expiry_seconds))) end))))))

abbrev pub required_claims : List String
required_claims = "sub" ∷ "exp" ∷ "iat" ∷ "nbf" ∷ "iss" ∷ "aud" ∷ []

abbrev pub is_text_list : Value → Bool
is_text_list (list xs) = all_str xs
is_text_list _ = false

-- `isinstance(subject, str)`, where a missing claim is `None`.
abbrev pub is_text_claim : Option Value → Bool
is_text_claim (some (str s)) = true
is_text_claim _ = false

unfoldable pub check_claims : Fields → Result Fields
unfolding get get_or
check_claims payload =
    if is_text_claim (get "sub" payload) && is_text_list (get_or "roles" (list nil) payload)
    then ok payload
    else err (http_exception 401 "Malformed token claims")

-- `roles.intersection(accepted_roles)`, as a test.
abbrev pub has_role : List String → Value → Bool
has_role accepted (list xs) = any (λ role. contains_text role xs) accepted
has_role accepted _ = false

-- The dependency that `require_role` makes, on a principal.
unfoldable pub check_role : List String → Fields → Result Fields
unfolding get_or
check_role accepted principal =
    if has_role accepted (get_or "roles" (list nil) principal)
    then ok principal
    else err (http_exception 403 "Insufficient role")

-- `scheme.lower() == "bearer"`: only ASCII letters have these in lower case.
abbrev pub is_bearer : String → Bool
is_bearer scheme = same_codes (map lower (codes scheme)) (codes "bearer")

module _ (jwt : Jwt) (settings : Settings) where
  open jwt use {Token, encode, decode}

  -- What the header of a request holds: a scheme and a token.
  pub record Credentials : Type 0 where
    pub scheme : String
    pub credentials : Token

  unfoldable pub create_access_token : String → List String → ℕ → Token
  unfolding token_claims
  create_access_token subject roles now =
      encode (token_claims settings subject roles now) settings.jwt_secret settings.jwt_algorithm

  abbrev pub decoded : Option Fields → Result Fields
  decoded none = err (http_exception 401 "Invalid or expired token")
  decoded (some payload) = check_claims payload

  unfoldable pub require_principal : ℕ → Option Credentials → Result Fields
  unfolding check_claims
  require_principal now none = err (http_exception 401 "Bearer token required")
  require_principal now (some c) =
      if is_bearer c.scheme
      then decoded (
          decode c.credentials settings.jwt_secret settings.jwt_algorithm settings.jwt_audience
            settings.jwt_issuer required_claims now)
      else err (http_exception 401 "Bearer token required")

  -- `Depends(require_role(...))`
  unfoldable pub require_role : List String → ℕ → Option Credentials → Result Fields
  unfolding require_principal check_role
  require_role accepted now credentials = do
    principal ← require_principal now credentials
    check_role accepted principal

  unfoldable pub issue_token : TokenRequest → ℕ → TokenResponse Token
  unfolding create_access_token
  issue_token payload now = record {
    access_token = create_access_token payload.subject payload.roles now;
    token_type = "bearer";
    expires_in = settings.jwt_expiry_seconds;
  }

  -- The body of an endpoint runs for the principal that its dependency returns.
  unfoldable pub run_body : {S A : Type 0} → Result Fields → (Fields → Action S A) → Action S A
  run_body (ok principal) body s = body principal s
  run_body (err e) body s = (err e, s)

  unfoldable pub guarded :
      {S A : Type 0} → List String → ℕ → Option Credentials → (Fields → Action S A) → Action S A
  guarded accepted now credentials body = run_body (require_role accepted now credentials) body
