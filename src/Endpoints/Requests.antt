-- ===== src/Endpoints/Requests.antt =====
-- What a request does to the state, whoever sends it and whatever it holds.
use marcel_arch.Prelude.{ℕ, String, ◌≡◌, ◌≢◌, refl, ap, Option, none, some, inl, inr, subst, sym}
use marcel_arch.Prelude.Result.{Result, ok, err}
use marcel_arch.Prelude.Action.{Action, lift, ◌>>=◌}
use marcel_arch.Value.{Fields}
use marcel_arch.World.{World}
use marcel_arch.Services.{Services}
use marcel_arch.Digests.{Digests}
use marcel_arch.Audit.{AuditSigner}
use marcel_arch.Config.{Settings}
use marcel_arch.Jwt.{Jwt}
use marcel_arch.Auth.{Credentials}
use marcel_arch.Auth.Guards.{IsAdmitted, guarded_lem}
use marcel_arch.Validators.{
  Characters, validate_agent, validate_budget, validate_policy, validate_resolution,
}
use marcel_arch.Validators.Messages.{validate_budget_lem}
use marcel_arch.Router.{get_hitl, found_response}
use marcel_arch.Models.{HitlTransaction}
use marcel_arch.Hitl.{find_transaction}
use marcel_arch.Tables.{hitl_response}
use marcel_arch.System.Sound.{IsSound, Keeps, Keeps-bind, Keeps-pure, Keeps-raise, Keeps-db}
use marcel_arch.System.Calls.{Keeps-register_agent, Keeps-create_policy, Keeps-upsert_budget}
use marcel_arch.System.Approvals.{Keeps-resolve_hitl}
use marcel_arch.Endpoints.{
  Request, Response, post_agent, put_limit, post_policy, read_hitl, post_resolution, accepted_roles,
  subject_of, Arrival, respond, serve,
}

module _ (services : Services) (digests : Digests) (signer : AuditSigner) (jwt : Jwt)
    (settings : Settings) (characters : Characters) where
  open services.redis use {State}

  module _ (request : Request) (credentials : Option (Credentials jwt settings)) (arrival : Arrival)
      (w : World State) where
    -- A request to an endpoint of `serve` changes the state, the server's keys included, only for a
    -- caller with a token that is current and holds a role that the endpoint accepts; then it has
    -- run its body for the subject of that token.
    pub serve-IsAdmitted :
        (serve services digests signer jwt settings characters request credentials arrival w).1 ≢ w
        → (p : Fields) × IsAdmitted jwt settings
            (accepted_roles request)
            arrival.seconds
            credentials
            p
          × (serve services digests signer jwt settings characters request credentials arrival w
              ≡ respond services digests signer jwt settings characters request arrival
                  (subject_of p)
                  w)
    unfolding serve
    serve-IsAdmitted changed =
        elim (guarded_lem jwt settings (accepted_roles request) arrival.seconds credentials
          (λ p.
            respond services digests signer jwt settings characters request arrival (subject_of p))
          w) [
            | inl (p, admitted, e) ↦ (p, admitted, e)
            | inr (x, refused, e) ↦
                absurd (changed (ap (λ (o : Result Response × World State). o.1) e))
          ]

  module _ (same_text : (t : ℕ) → digests.loaded_text t ≡ digests.aware_text t) where
    -- What comes behind a validation that the state does not matter to.
    Keeps-validated :
        {P : Type 0} (r : Result P) (f : P → Action (World State) Response)
        → ((p : P) → r ≡ ok p → Keeps digests signer (f p))
        → Keeps digests signer (lift r >>= f)
    Keeps-validated (ok p) f h = h p refl
    Keeps-validated (err e) f h = record { apply = λ w s. s }

    Keeps-found_response :
        (found : Option HitlTransaction) → Keeps digests signer {C = State} (found_response found)
    unfolding hitl_response
    Keeps-found_response none = Keeps-raise digests signer _
    Keeps-found_response (some t) = Keeps-pure digests signer _

    Keeps-get_hitl : (id : String) → Keeps digests signer {C = State} (get_hitl id)
    unfolding get_hitl
    Keeps-get_hitl id =
        Keeps-bind digests signer _ (find_transaction id)
          (Keeps-db digests signer (find_transaction id) (λ w. refl))
          (λ found. Keeps-found_response found)

    Keeps-respond :
        (request : Request) (arrival : Arrival) (subject : String)
        → Keeps digests signer
            (respond services digests signer jwt settings characters request arrival subject)
    unfolding respond
    Keeps-respond (post_agent payload) arrival subject =
        Keeps-validated (validate_agent characters payload) _ (λ agent e.
          Keeps-bind digests signer _ _
            (Keeps-register_agent services digests signer same_text agent subject arrival.now
              arrival.logged_at)
            (λ shown. Keeps-pure digests signer _))
    Keeps-respond (put_limit agent_id payload text) arrival subject =
        Keeps-validated (validate_budget characters payload) _ (λ budget e.
          Keeps-bind digests signer _ _
            (Keeps-upsert_budget services digests signer same_text arrival.new_id agent_id budget
              (validate_budget_lem characters payload budget e).1.is_positive text subject
              arrival.now arrival.logged_at)
            (λ shown. Keeps-pure digests signer _))
    Keeps-respond (post_policy payload) arrival subject =
        Keeps-validated (validate_policy characters payload) _ (λ policy e.
          Keeps-bind digests signer _ _
            (Keeps-create_policy services digests signer same_text arrival.new_id policy subject
              arrival.now arrival.logged_at)
            (λ shown. Keeps-pure digests signer _))
    Keeps-respond (read_hitl id) arrival subject =
        Keeps-bind digests signer _ _ (Keeps-get_hitl id) (λ shown. Keeps-pure digests signer _)
    Keeps-respond (post_resolution id payload) arrival subject =
        Keeps-validated (validate_resolution characters payload) _ (λ resolution e.
          Keeps-bind digests signer _ _
            (Keeps-resolve_hitl digests signer same_text id resolution.decision resolution.comment
              subject arrival.now arrival.logged_at)
            (λ shown. Keeps-pure digests signer _))

    -- If the database gives a time back with the text that it had, then every request to an
    -- endpoint of `serve`, with any credentials and any message, leaves a sound state sound: each
    -- query for one row finds at most one, no budget has consumed more than its limit, and the log
    -- verifies.
    pub serve-IsSound :
        (request : Request) (credentials : Option (Credentials jwt settings)) (arrival : Arrival)
        (w : World State)
        → IsSound digests signer w
        → IsSound digests signer
            (serve services digests signer jwt settings characters request credentials arrival w).1
    unfolding serve
    serve-IsSound request credentials arrival w h =
        elim (guarded_lem jwt settings (accepted_roles request) arrival.seconds credentials
          (λ p.
            respond services digests signer jwt settings characters request arrival (subject_of p))
          w) [
            | inl (p, admitted, e) ↦
                subst (λ (o : Result Response × World State). IsSound digests signer o.1) (sym e)
                  ((Keeps-respond request arrival (subject_of p)).apply w h)
            | inr (x, refused, e) ↦
                subst (λ (o : Result Response × World State). IsSound digests signer o.1) (sym e) h
          ]
