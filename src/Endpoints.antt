-- ===== src/Endpoints.antt =====
-- The requests that marcel/api/router.py serves: the roles that an endpoint demands, the validation of
-- its message, and its body. The evaluation of an intent, which waits between its transactions, is in
-- Intents.
pub mod Requests
pub mod Intents
mod Tests
use marcel_arch.Prelude.{ℕ, String, Option, none, some, List, [], ◌∷◌}
use marcel_arch.Prelude.Action.{Action, pure, lift, ◌>>=◌}
use marcel_arch.Value.{Value, str, Fields, get}
use marcel_arch.Schemas.{
  AgentCreate, AgentResponse, BudgetUpsert, BudgetResponse, PolicyCreate, PolicyResponse,
  HitlResolution, HitlResponse,
}
use marcel_arch.World.{World}
use marcel_arch.Services.{Services}
use marcel_arch.Digests.{Digests}
use marcel_arch.Audit.{AuditSigner}
use marcel_arch.Hitl.{resolve_hitl}
use marcel_arch.Tables.{hitl_response}
use marcel_arch.Router.{register_agent, upsert_budget, create_policy, get_hitl}
use marcel_arch.Config.{Settings}
use marcel_arch.Jwt.{Jwt}
use marcel_arch.Auth.{Credentials, guarded}
use marcel_arch.Validators.{
  Characters, validate_agent, validate_budget, validate_policy, validate_resolution,
}

pub data Request : Type 0 where
  post_agent : AgentCreate → Request
  -- the agent's id, and the text of the limit
  put_limit : String → BudgetUpsert → String → Request
  post_policy : PolicyCreate → Request
  read_hitl : String → Request
  post_resolution : String → HitlResolution → Request

pub data Response : Type 0 where
  agent_shown : AgentResponse → Response
  budget_shown : BudgetResponse → Response
  policy_shown : PolicyResponse → Response
  hitl_shown : HitlResponse → Response

-- The arguments of `require_role`.
unfoldable pub accepted_roles : Request → List String
accepted_roles (post_agent payload) = "admin" ∷ "operator" ∷ []
accepted_roles (put_limit agent_id payload text) = "admin" ∷ "finance" ∷ []
accepted_roles (post_policy payload) = "admin" ∷ "operator" ∷ []
accepted_roles (read_hitl id) = "admin" ∷ "operator" ∷ "approver" ∷ []
accepted_roles (post_resolution id payload) = "admin" ∷ "approver" ∷ []

abbrev pub text_of : Option Value → String
text_of (some (str s)) = s
text_of _ = ""

-- `str(principal["sub"])`, which is a text in the claims that `require_principal` returns.
unfoldable pub subject_of : Fields → String
unfolding get
subject_of principal = text_of (get "sub" principal)

-- What a call reads beside its message: the id of a new row, the clock in seconds for the token, and
-- in microseconds for the endpoint and for the log.
pub record Arrival : Type 0 where
  pub new_id : String
  pub seconds : ℕ
  pub now : ℕ
  pub logged_at : ℕ

module _ (services : Services) (digests : Digests) (signer : AuditSigner) (jwt : Jwt)
    (settings : Settings) (characters : Characters) where
  open services.redis use {State}

  unfoldable pub respond : Request → Arrival → String → Action (World State) Response
  unfolding validate_agent validate_budget validate_policy validate_resolution register_agent
      upsert_budget create_policy get_hitl resolve_hitl hitl_response
  respond (post_agent payload) arrival subject = do
    agent ← lift (validate_agent characters payload)
    shown ← register_agent services digests signer agent subject arrival.now arrival.logged_at
    pure (agent_shown shown)
  respond (put_limit agent_id payload text) arrival subject = do
    budget ← lift (validate_budget characters payload)
    shown ←
        upsert_budget services digests signer arrival.new_id agent_id budget text subject
          arrival.now arrival.logged_at
    pure (budget_shown shown)
  respond (post_policy payload) arrival subject = do
    policy ← lift (validate_policy characters payload)
    shown ←
        create_policy services digests signer arrival.new_id policy subject arrival.now
          arrival.logged_at
    pure (policy_shown shown)
  respond (read_hitl id) arrival subject = do shown ← get_hitl id; pure (hitl_shown shown)
  respond (post_resolution id payload) arrival subject = do
    resolution ← lift (validate_resolution characters payload)
    found ←
        resolve_hitl digests signer id resolution.decision resolution.comment subject arrival.now
          arrival.logged_at
    pure (hitl_shown (hitl_response found))

  unfoldable pub serve :
      Request → Option (Credentials jwt settings) → Arrival → Action (World State) Response
  unfolding accepted_roles subject_of respond guarded
  serve request credentials arrival =
      guarded jwt settings (accepted_roles request) arrival.seconds credentials
        (λ principal. respond request arrival (subject_of principal))
