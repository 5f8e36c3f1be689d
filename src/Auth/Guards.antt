-- ===== src/Auth/Guards.antt =====
-- What an endpoint behind `require_role` has established before its body runs.
use marcel_arch.Prelude.{
  ℕ, String, ◌≡◌, refl, ◌⊎◌, true, Option, none, some, List, inl, inr, Bool-cases, Option-cases,
}
use marcel_arch.Prelude.Result.{Exn, Result, ok, err, http_exception}
use marcel_arch.Prelude.Action.{Action}
use marcel_arch.Value.{list, nil, Fields, get, get_or}
use marcel_arch.Config.{Settings}
use marcel_arch.Jwt.{Jwt}
use marcel_arch.Auth.{
  required_claims, is_text_claim, is_text_list, check_claims, has_role, check_role, is_bearer,
  Credentials, require_principal, require_role, run_body, guarded,
}

-- The exceptions of the dependency.
abbrev pub IsRefusal : Exn → Type 0
IsRefusal e =
    (e ≡ http_exception 401 "Bearer token required")
    ⊎ ((e ≡ http_exception 401 "Invalid or expired token")
        ⊎ ((e ≡ http_exception 401 "Malformed token claims")
            ⊎ (e ≡ http_exception 403 "Insufficient role")))

module _ (jwt : Jwt) (settings : Settings) (accepted : List String) (now : ℕ) where
  -- The header holds a token with a valid signature whose claims are current, name a subject and
  -- hold an accepted role.
  pub record IsAdmitted (credentials : Option (Credentials jwt settings)) (p : Fields)
      : Type 0 where
    pub header : Credentials jwt settings
    pub given : credentials ≡ some header
    pub bearer : is_bearer header.scheme ≡ true
    pub valid :
        jwt.decode header.credentials settings.jwt_secret settings.jwt_algorithm
          settings.jwt_audience settings.jwt_issuer required_claims now
        ≡ some p
    pub subject : is_text_claim (get "sub" p) ≡ true
    pub texts : is_text_list (get_or "roles" (list nil) p) ≡ true
    pub role : has_role accepted (get_or "roles" (list nil) p) ≡ true

  abbrev pub RoleSpec : Option (Credentials jwt settings) → Result Fields → Type 0
  RoleSpec credentials (ok p) = IsAdmitted credentials p
  RoleSpec credentials (err e) = IsRefusal e

  require_role_lem :
      (credentials : Option (Credentials jwt settings))
      → RoleSpec credentials (require_role jwt settings accepted now credentials)
  unfolding require_role require_principal check_claims check_role
  require_role_lem none = inl refl
  require_role_lem (some c) = elim (Bool-cases (is_bearer c.scheme)) [
    | inr other ↦ simp other (inl refl)
    | inl bearer ↦
        elim (Option-cases (
          jwt.decode c.credentials settings.jwt_secret settings.jwt_algorithm settings.jwt_audience
            settings.jwt_issuer required_claims now)) [
              | inl invalid ↦ simp (bearer, invalid) (inr (inl refl))
              | inr (p, valid) ↦ elim (Bool-cases (is_text_claim (get "sub" p))) [
                | inr bad ↦ simp (bearer, valid, bad) (inr (inr (inl refl)))
                | inl subject ↦ elim (Bool-cases (is_text_list (get_or "roles" (list nil) p))) [
                  | inr bad ↦ simp (bearer, valid, subject, bad) (inr (inr (inl refl)))
                  | inl texts ↦
                      elim (Bool-cases (has_role accepted (get_or "roles" (list nil) p))) [
                        | inr lacking ↦
                            simp (bearer, valid, subject, texts, lacking) (inr (inr (inr refl)))
                        | inl role ↦
                            simp (bearer, valid, subject, texts, role)
                              (record {
                                header = c;
                                given = refl;
                                bearer = bearer;
                                valid = valid;
                                subject = subject;
                                texts = texts;
                                role = role;
                              })
                      ]
                ]
              ]
            ]
  ]

  abbrev pub BodySpec :
      {S A : Type 0}
      → Option (Credentials jwt settings)
      → (Fields → Action S A)
      → S
      → (Result A × S)
      → Type 0
  BodySpec credentials body s done =
      ((p : Fields) × IsAdmitted credentials p × (done ≡ body p s))
      ⊎ ((e : Exn) × IsRefusal e × (done ≡ (err e, s)))

  run_body_lem :
      {S A : Type 0} (credentials : Option (Credentials jwt settings)) (body : Fields → Action S A)
      (s : S) (principal : Result Fields)
      → RoleSpec credentials principal
      → BodySpec credentials body s (run_body jwt settings principal body s)
  unfolding run_body
  run_body_lem credentials body s (ok p) admitted = inl (p, admitted, refl)
  run_body_lem credentials body s (err e) refused = inr (e, refused, refl)

  -- An endpoint behind `require_role` either runs its body with the claims of a bearer token that the
  -- library accepts, which name a subject and hold one of the accepted roles; or it raises 401 or 403
  -- in the state that it found.
  pub guarded_lem :
      {S A : Type 0} (credentials : Option (Credentials jwt settings)) (body : Fields → Action S A)
      (s : S)
      → BodySpec credentials body s (guarded jwt settings accepted now credentials body s)
  unfolding guarded
  guarded_lem credentials body s =
      run_body_lem credentials body s (require_role jwt settings accepted now credentials)
        (require_role_lem credentials)
