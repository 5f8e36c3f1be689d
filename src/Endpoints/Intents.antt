-- ===== src/Endpoints/Intents.antt =====
-- The endpoint that evaluates an intent, from its credentials and its message to its answer.
use marcel_arch.Prelude.{
  ℕ, String, ◌≡◌, ◌≢◌, ◌⊎◌, refl, sym, ap, ◌∙◌, true, Option, none, some, List, inl, inr,
  Bool-cases, Option-cases,
}
use marcel_arch.Prelude.Result.{
  Exn, Result, ok, err, approval_rejected, approval_timeout, Result-cases,
}
use marcel_arch.Prelude.Action.{Action, lift, ◌>>=◌}
use marcel_arch.Value.{list, nil, Fields, get, get_or}
use marcel_arch.Schemas.{ExecutionIntent, PolicyDecision, allow}
use marcel_arch.World.{World}
use marcel_arch.Services.{Services}
use marcel_arch.Digests.{Digests}
use marcel_arch.Audit.{AuditSigner}
use marcel_arch.Config.{Settings}
use marcel_arch.Jwt.{Jwt}
use marcel_arch.Auth.{
  required_claims, is_text_claim, is_text_list, check_claims, is_bearer, Credentials,
  require_principal, run_body,
}
use marcel_arch.Validators.{Characters, validate_intent}
use marcel_arch.Validators.Messages.{IsIntent, validate_intent_lem}
use marcel_arch.Waiting.{Frame, Round}
use marcel_arch.Interceptor.{evaluate_or_wait}
use marcel_arch.Interceptor.Admission.{Direct, ByHuman, evaluate_or_wait-allow}
use marcel_arch.Router.{http_error, evaluate_intent}
use marcel_arch.Endpoints.{subject_of}

module _ (services : Services) (digests : Digests) (signer : AuditSigner) (jwt : Jwt)
    (settings : Settings) (characters : Characters) where
  open services.redis use {State}

  unfoldable pub answer_intent :
      ExecutionIntent
      → Frame
      → List (Round State)
      → Fields
      → Action (World State) (Option PolicyDecision)
  unfolding validate_intent evaluate_intent subject_of
  answer_intent payload frame rounds principal = do
    intent ← lift (validate_intent characters payload)
    evaluate_intent services digests signer frame intent (subject_of principal) rounds

  -- The dependency of this endpoint demands a principal and no role.
  unfoldable pub serve_intent :
      ExecutionIntent
      → Option (Credentials jwt settings)
      → ℕ
      → Frame
      → List (Round State)
      → Action (World State) (Option PolicyDecision)
  unfolding require_principal run_body answer_intent
  serve_intent payload credentials seconds frame rounds =
      run_body jwt settings (require_principal jwt settings seconds credentials)
        (answer_intent payload frame rounds)

  -- The header holds a token with a valid signature whose claims are current and name a subject.
  pub record IsPrincipal (seconds : ℕ) (credentials : Option (Credentials jwt settings))
      (p : Fields) : Type 0 where
    pub header : Credentials jwt settings
    pub given : credentials ≡ some header
    pub bearer : is_bearer header.scheme ≡ true
    pub valid :
        jwt.decode header.credentials settings.jwt_secret settings.jwt_algorithm
          settings.jwt_audience settings.jwt_issuer required_claims seconds
        ≡ some p
    pub subject : is_text_claim (get "sub" p) ≡ true

  require_principal-IsPrincipal :
      (seconds : ℕ) (credentials : Option (Credentials jwt settings)) (p : Fields)
      → require_principal jwt settings seconds credentials ≡ ok p
      → IsPrincipal seconds credentials p
  unfolding require_principal check_claims
  require_principal-IsPrincipal seconds none p h = cc h
  require_principal-IsPrincipal seconds (some c) p h = elim (Bool-cases (is_bearer c.scheme)) [
    | inr other ↦ cc (simp other at h)
    | inl bearer ↦
        elim (Option-cases (
          jwt.decode c.credentials settings.jwt_secret settings.jwt_algorithm settings.jwt_audience
            settings.jwt_issuer required_claims seconds)) [
              | inl invalid ↦ cc (simp (bearer, invalid) at h)
              | inr (q, valid) ↦ elim (Bool-cases (is_text_claim (get "sub" q))) [
                | inr bad ↦ cc (simp (bearer, valid, bad) at h)
                | inl subject ↦ elim (Bool-cases (is_text_list (get_or "roles" (list nil) q))) [
                  | inr bad ↦ cc (simp (bearer, valid, subject, bad) at h)
                  | inl texts ↦
                      let same : q ≡ p = cc (simp (bearer, valid, subject, texts) at h) in
                      record {
                        header = c;
                        given = refl;
                        bearer = bearer;
                        valid = valid ∙ ap some same;
                        subject =
                            ap (λ (x : Fields). is_text_claim (get "sub" x)) (sym same) ∙ subject;
                      }
                ]
              ]
            ]
  ]

  http_error-ok :
      (out : Result (Option PolicyDecision) × World State) (d : PolicyDecision) (w : World State)
      → http_error out ≡ (ok (some d), w)
      → out ≡ (ok (some d), w)
  http_error-ok (ok a, u) d w h = h
  http_error-ok (err (approval_rejected detail), u) d w h = cc h
  http_error-ok (err (approval_timeout detail), u) d w h = cc h
  http_error-ok (err _, u) d w h = cc h

  -- What stands behind an answer that allows.
  pub record IsBehind (payload : ExecutionIntent) (credentials : Option (Credentials jwt settings))
      (seconds : ℕ) (frame : Frame) (rounds : List (Round State)) (w : World State)
      (d : PolicyDecision) (w' : World State) : Type 0 where
    pub p : Fields
    pub principal : IsPrincipal seconds credentials p
    pub intent : ExecutionIntent
    pub validated : validate_intent characters payload ≡ ok intent
    pub fits : IsIntent characters intent
    pub admitted :
        Direct services digests signer frame intent (subject_of p) w d w'
        ⊎ ByHuman services digests signer frame intent (subject_of p) rounds w d w'

  -- An exception that `evaluate_intent` does not translate is not one of the two that it names.
  abbrev IsTranslated : Exn → Type 0
  IsTranslated e =
      (detail : String) → (e ≢ approval_rejected detail) × (e ≢ approval_timeout detail)

  http_error-IsTranslated :
      (out : Result (Option PolicyDecision) × World State) (e : Exn)
      → (http_error out).0 ≡ err e
      → IsTranslated e
  http_error-IsTranslated (ok a, u) e h detail = cc h
  http_error-IsTranslated (err (approval_rejected text), u) e h detail =
      (λ k. cc (h, k), λ k. cc (h, k))
  http_error-IsTranslated (err (approval_timeout text), u) e h detail =
      (λ k. cc (h, k), λ k. cc (h, k))
  http_error-IsTranslated (err _, u) e h detail = (λ k. cc (h, k), λ k. cc (h, k))

  -- What `evaluate_intent` raises is neither a rejection nor a timeout: these are answered with a status.
  pub evaluate_intent-IsTranslated :
      (payload : ExecutionIntent) (frame : Frame) (subject : String) (rounds : List (Round State))
      (w : World State) (e : Exn)
      → (evaluate_intent services digests signer frame payload subject rounds w).0 ≡ err e
      → IsTranslated e
  unfolding evaluate_intent
  evaluate_intent-IsTranslated payload frame subject rounds w e h =
      http_error-IsTranslated
        (evaluate_or_wait services digests signer frame payload subject rounds w) e h

  answer_intent-IsBehind :
      (payload : ExecutionIntent) (credentials : Option (Credentials jwt settings)) (seconds : ℕ)
      (frame : Frame) (rounds : List (Round State)) (p : Fields) (w w' : World State)
      (d : PolicyDecision)
      → IsPrincipal seconds credentials p
      → answer_intent payload frame rounds p w ≡ (ok (some d), w')
      → d.outcome ≡ allow
      → IsBehind payload credentials seconds frame rounds w d w'
  unfolding answer_intent evaluate_intent
  answer_intent-IsBehind payload credentials seconds frame rounds p w w' d principal h k =
      elim (Result-cases (validate_intent characters payload)) [
        | inr (e, q) ↦ cc (simp q at h)
        | inl (intent, q) ↦ record {
          p = p;
          principal = principal;
          intent = intent;
          validated = q;
          fits = validate_intent_lem characters payload intent q;
          admitted =
              evaluate_or_wait-allow services digests signer frame intent (subject_of p) rounds w w'
                d (http_error-ok _ d w' (simp q at h)) k;
        }
      ]

  principal-cases :
      (payload : ExecutionIntent) (credentials : Option (Credentials jwt settings)) (seconds : ℕ)
      (frame : Frame) (rounds : List (Round State)) (w w' : World State) (d : PolicyDecision)
      (principal : Result Fields)
      → require_principal jwt settings seconds credentials ≡ principal
      → run_body jwt settings principal (answer_intent payload frame rounds) w ≡ (ok (some d), w')
      → d.outcome ≡ allow
      → IsBehind payload credentials seconds frame rounds w d w'
  unfolding run_body
  principal-cases payload credentials seconds frame rounds w w' d (ok p) q h k =
      answer_intent-IsBehind payload credentials seconds frame rounds p w w' d
        (require_principal-IsPrincipal seconds credentials p q) h k
  principal-cases payload credentials seconds frame rounds w w' d (err e) q h k = cc h

  -- Where the endpoint answers an intent with allow, its header holds a token that the library accepts,
  -- current and with a subject; its message is valid, with the bounds that this gives it; and behind
  -- the decision on the validated intent, logged for that subject, stands the engine's own
  -- decision or a human's approval, either with an amount and a currency reserved, and the state
  -- behind the answer is the one that the reservation left.
  pub serve_intent-allow :
      (payload : ExecutionIntent) (credentials : Option (Credentials jwt settings)) (seconds : ℕ)
      (frame : Frame) (rounds : List (Round State)) (w w' : World State) (d : PolicyDecision)
      → serve_intent payload credentials seconds frame rounds w ≡ (ok (some d), w')
      → d.outcome ≡ allow
      → IsBehind payload credentials seconds frame rounds w d w'
  unfolding serve_intent
  serve_intent-allow payload credentials seconds frame rounds w w' d h k =
      principal-cases payload credentials seconds frame rounds w w' d
        (require_principal jwt settings seconds credentials) refl h k
