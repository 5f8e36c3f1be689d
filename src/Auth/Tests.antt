-- ===== src/Auth/Tests.antt =====
-- Tokens at concrete claims, with a library that refuses none.
use marcel_arch.Prelude.{ℕ, ◌≡◌, refl, true, none, some, [], ◌∷◌, arith}
use marcel_arch.Prelude.Result.{ok, err, http_exception}
use marcel_arch.Prelude.Action.{Action}
use marcel_arch.Value.{Fields}
use marcel_arch.Auth.{
  token_claims, Credentials, create_access_token, require_principal, require_role, issue_token,
  run_body, guarded,
}
use marcel_arch.Auth.Tokens.{require_principal-create_access_token, require_role-issue_token}
use marcel_arch.Config.{literals_fit, secrets_fit}
use marcel_arch.Samples.{open_tokens, settings}

abbrev header : Credentials open_tokens settings
header = record {
  scheme = "Bearer";
  credentials = create_access_token open_tokens settings "dana" ("reviewer" ∷ "admin" ∷ []) 1000;
}

literals : literals_fit settings ≡ true
unfolding literals_fit
literals = refl

secrets : secrets_fit settings ≡ true
unfolding secrets_fit
secrets = refl

require_principal-create_access_token_example :
    require_principal open_tokens settings 2000 (some header)
    ≡ ok (token_claims settings "dana" ("reviewer" ∷ "admin" ∷ []) 1000)
require_principal-create_access_token_example =
    require_principal-create_access_token open_tokens settings "Bearer" "dana"
      ("reviewer" ∷ "admin" ∷ []) 1000 2000 refl (omega arith) (omega arith) literals secrets

require_role-issue_token_example :
    require_role open_tokens settings ("admin" ∷ []) 2000 (
      some (record {
        scheme = "bearer";
        credentials =
            (issue_token open_tokens settings
              (record { subject = "anyone"; roles = "admin" ∷ [] })
              1000).access_token;
      }))
    ≡ ok (token_claims settings "anyone" ("admin" ∷ []) 1000)
require_role-issue_token_example =
    require_role-issue_token open_tokens settings "anyone" "admin" 1000 2000 (omega arith)
      (omega arith) literals secrets

abbrev body : Fields → Action ℕ ℕ
body principal n = (ok n, 7)

refuses :
    guarded open_tokens settings ("admin" ∷ []) 2000 none body 3
    ≡ (err (http_exception 401 "Bearer token required"), 3)
unfolding guarded run_body require_role require_principal
refuses = refl
