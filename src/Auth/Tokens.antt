-- ===== src/Auth/Tokens.antt =====
-- A token that was issued, read back, and what it opens.
use Prim.Native.String.{count}
use marcel_arch.Prelude.{
  ℕ, ◌+◌, ◌≤◌, ◌<◌, String, ◌≡◌, refl, ◌∙◌, true, some, List, [], ◌∷◌, eq_refl, both, arith, any,
  if◌then◌else◌,
}
use marcel_arch.Prelude.Result.{ok, err, http_exception}
use marcel_arch.Value.{list, Fields, get}
use marcel_arch.Conditions.{member, all_str, contains_text}
use marcel_arch.Engine.{sorted_set}
use marcel_arch.Engine.Ids.{member-sorted_set}
use marcel_arch.Config.{Settings, literals_fit, secrets_fit}
use marcel_arch.Jwt.{Jwt, IsCurrent, all_plain}
use marcel_arch.Auth.{
  texts, token_claims, required_claims, check_claims, has_role, check_role, is_bearer, Credentials,
  create_access_token, require_principal, require_role, issue_token,
}

all_str-texts : (ss : List String) → all_str (texts ss) ≡ true
all_str-texts [] = refl
all_str-texts (s ∷ ss) = all_str-texts ss

contains_text-texts : (k : String) (ss : List String) → contains_text k (texts ss) ≡ member k ss
contains_text-texts k [] = refl
contains_text-texts k (s ∷ ss) = rw (contains_text-texts k ss)

-- A role is found in the list of a token exactly if it was asked for.
has_role-texts :
    (accepted roles : List String)
    → has_role accepted (list (texts (sorted_set roles))) ≡ any (λ role. member role roles) accepted
has_role-texts [] roles = refl
has_role-texts (a ∷ accepted) roles = rw (
  contains_text-texts a (sorted_set roles),
  member-sorted_set a roles,
  has_role-texts accepted roles,
)

member_self : (k : String) → member k (k ∷ []) ≡ true
member_self k = rw (eq_refl k)

algorithm_fits :
    (s : Settings)
    → literals_fit s ≡ true
    → member s.jwt_algorithm ("HS256" ∷ "HS384" ∷ "HS512" ∷ []) ≡ true
unfolding literals_fit
algorithm_fits s h = (both _ (member s.jwt_algorithm ("HS256" ∷ "HS384" ∷ "HS512" ∷ [])) h).1

secret_fits : (s : Settings) → secrets_fit s ≡ true → 32 ≤ count s.jwt_secret
unfolding secrets_fit
secret_fits s h = ground arith

module _ (jwt : Jwt) (settings : Settings) (scheme subject : String) (roles : List String)
    (issued now : ℕ) (bearer : is_bearer scheme ≡ true) (from : issued ≤ now)
    (until : now < issued + settings.jwt_expiry_seconds) (literals : literals_fit settings ≡ true)
    (secrets : secrets_fit settings ≡ true) where
  open settings use {jwt_audience, jwt_issuer}

  abbrev header : Credentials jwt settings
  header = record {
    scheme = scheme;
    credentials = create_access_token jwt settings subject roles issued;
  }

  abbrev claims : Fields
  claims = token_claims settings subject roles issued

  claims-IsCurrent : IsCurrent jwt_audience jwt_issuer required_claims now claims
  unfolding token_claims get all_plain
  claims-IsCurrent = record {
    plain = rw (all_str-texts (sorted_set roles));
    subject = subject;
    sub = refl;
    no_jti = refl;
    complete = refl;
    aud = refl;
    iss = refl;
    iat = issued;
    nbf = issued;
    exp = issued + settings.jwt_expiry_seconds;
    has_iat = refl;
    has_nbf = refl;
    has_exp = refl;
    iat_past = from;
    nbf_past = from;
    exp_future = until;
  }

  claims_check : check_claims claims ≡ ok claims
  unfolding check_claims token_claims
  claims_check = rw (all_str-texts (sorted_set roles))

  -- Under settings whose literals and secrets fit, a token that `create_access_token` made and that is
  -- sent with the scheme bearer is accepted by `require_principal` from the second in which it was
  -- made until it expires: the call returns its claims, the subject and the roles, each once.
  pub require_principal-create_access_token :
      require_principal jwt settings now (
        some (record {
          scheme = scheme;
          credentials = create_access_token jwt settings subject roles issued;
        }))
      ≡ ok (token_claims settings subject roles issued)
  unfolding require_principal create_access_token
  require_principal-create_access_token =
      let read =
        jwt.decode-encode claims settings.jwt_secret settings.jwt_algorithm jwt_audience jwt_issuer
          required_claims now (algorithm_fits settings literals) (secret_fits settings secrets)
          claims-IsCurrent in
      simp (bearer, read) claims_check

  -- Under settings whose literals and secrets fit, `require_role` accepts a token of
  -- `create_access_token` that is sent with the scheme bearer and has not expired exactly if one of the
  -- accepted roles was asked for when it was made, and answers 403 otherwise.
  pub require_role-create_access_token :
      (accepted : List String)
      → require_role jwt settings accepted now (
          some (record {
            scheme = scheme;
            credentials = create_access_token jwt settings subject roles issued;
          }))
        ≡ (if any (λ role. member role roles) accepted
            then ok (token_claims settings subject roles issued)
            else err (http_exception 403 "Insufficient role"))
  unfolding require_role check_role token_claims
  require_role-create_access_token accepted =
      simp (require_principal-create_access_token, has_role-texts accepted roles) refl

-- Under settings whose literals and secrets fit, whoever asks `issue_token` for a role gets a token that
-- `require_role` of this role accepts until it expires: the endpoint asks for no credentials.
pub require_role-issue_token :
    (jwt : Jwt) (settings : Settings) (subject role : String) (issued now : ℕ)
    → issued ≤ now
    → now < issued + settings.jwt_expiry_seconds
    → literals_fit settings ≡ true
    → secrets_fit settings ≡ true
    → require_role jwt settings (role ∷ []) now (
        some (record {
          scheme = "bearer";
          credentials =
              (issue_token jwt settings
                (record { subject = subject; roles = role ∷ [] })
                issued).access_token;
        }))
      ≡ ok (token_claims settings subject (role ∷ []) issued)
unfolding issue_token
require_role-issue_token jwt settings subject role issued now from until literals secrets =
    require_role-create_access_token jwt settings "bearer" subject (role ∷ []) issued now refl from
      until literals secrets (role ∷ [])
    ∙ rw (eq_refl role)
