-- ===== src/Schemas.antt =====
-- The messages of marcel/schemas.py, once validated.
use marcel_arch.Prelude.{ℕ, String, Bool, Option, List}
use marcel_arch.Prelude.Int.{ℤ}
use marcel_arch.Value.{Fields}

pub record ExecutionIntent : Type 0 where
  pub agent_id : String
  pub action : String
  pub payload : Fields
  pub requested_amount : Option ℤ
  pub currency : Option String
  pub idempotency_key : String
  pub correlation_id : Option String

pub data Outcome : Type 0 where
  allow deny require_approval : Outcome

pub record PolicyDecision : Type 0 where
  pub outcome : Outcome
  pub risk_score : ℕ
  pub reasons : List String
  pub policy_ids : List String
  pub remaining_budget : Option ℤ
  pub hitl_transaction_id : Option String

pub record AgentCreate : Type 0 where
  pub id : String
  pub display_name : String
  pub tenant_id : String
  pub allowed_actions : List String
  pub risk_tier : String
  pub metadata : Fields

pub record AgentResponse : Type 0 where
  pub id : String
  pub display_name : String
  pub tenant_id : String
  pub allowed_actions : List String
  pub risk_tier : String
  pub active : Bool
  pub metadata : Fields
  pub created_at : ℕ
  pub updated_at : ℕ

pub record BudgetUpsert : Type 0 where
  pub limit_amount : ℤ
  pub currency : String

pub record BudgetResponse : Type 0 where
  pub agent_id : String
  pub currency : String
  pub limit_amount : ℤ
  pub consumed_amount : ℤ
  pub remaining_amount : ℤ
  pub active : Bool
  pub version : ℕ
  pub updated_at : ℕ

pub record PolicyCreate : Type 0 where
  pub name : String
  pub version : ℕ
  pub enabled : Bool
  pub priority : ℕ
  pub definition : Fields

pub record PolicyResponse : Type 0 where
  pub id : String
  pub name : String
  pub version : ℕ
  pub enabled : Bool
  pub priority : ℕ
  pub definition : Fields
  pub created_at : ℕ
  pub updated_at : ℕ

pub record HitlResolution : Type 0 where
  pub decision : String
  pub comment : Option String

pub record HitlResponse : Type 0 where
  pub id : String
  pub idempotency_key : String
  pub agent_id : String
  pub action : String
  pub requested_amount : Option ℤ
  pub currency : Option String
  pub risk_score : ℕ
  pub reasons : List String
  pub status : String
  pub reviewer_id : Option String
  pub reviewer_comment : Option String
  pub expires_at : ℕ
  pub resolved_at : Option ℕ
  pub created_at : ℕ

pub record TokenRequest : Type 0 where
  pub subject : String
  pub roles : List String

pub record TokenResponse (T : Type 0) : Type 0 where
  pub access_token : T
  pub token_type : String
  pub expires_in : ℕ

pub record HealthResponse : Type 0 where
  pub status : String
  pub database : String
  pub redis : String
