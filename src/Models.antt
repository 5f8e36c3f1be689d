-- ===== src/Models.antt =====
-- The tables of marcel/models/database.py: a row is a record, a table the list of its rows, and a
-- query of the source is a search through that list. Times are counts of microseconds.
use marcel_arch.Prelude.{ℕ, String, Bool, Option, none, some, List, [], ◌∷◌, ◌&&◌, ◌==◌, keep}
use marcel_arch.Prelude.Int.{ℤ}
use marcel_arch.Prelude.Result.{Result, ok, err, multiple_results}
use marcel_arch.Value.{Value, Fields}

pub data HitlStatus : Type 0 where
  pending approved rejected expired cancelled : HitlStatus

-- `status.value`
unfoldable pub status_value : HitlStatus → String
status_value pending = "pending"
status_value approved = "approved"
status_value rejected = "rejected"
status_value expired = "expired"
status_value cancelled = "cancelled"

pub record Budget : Type 0 where
  pub id : String
  pub agent_id : String
  pub currency : String
  pub limit_amount : ℤ
  pub consumed_amount : ℤ
  pub version : ℕ
  pub active : Bool
  pub created_at : ℕ
  pub updated_at : ℕ

pub record Agent : Type 0 where
  pub id : String
  pub display_name : String
  pub tenant_id : String
  pub allowed_actions : List String
  pub risk_tier : String
  pub active : Bool
  pub metadata_json : Fields
  pub created_at : ℕ
  pub updated_at : ℕ

pub record Policy : Type 0 where
  pub id : String
  pub name : String
  pub version : ℕ
  pub enabled : Bool
  pub priority : ℕ
  pub definition : Value
  pub created_at : ℕ
  pub updated_at : ℕ

pub record AuditLog : Type 0 where
  pub sequence_number : ℕ
  pub event_type : String
  pub actor_id : String
  pub event_payload : Fields
  pub previous_hash : Option String
  pub entry_hash : String
  pub signature : String
  pub created_at : ℕ

pub record HitlTransaction : Type 0 where
  pub id : String
  pub idempotency_key : String
  pub agent_id : String
  pub action : String
  pub intent_payload : Fields
  pub requested_amount : Option ℤ
  pub currency : Option String
  pub risk_score : ℕ
  pub reasons : List String
  pub status : HitlStatus
  pub reviewer_id : Option String
  pub reviewer_comment : Option String
  pub expires_at : ℕ
  pub resolved_at : Option ℕ
  pub created_at : ℕ
  pub updated_at : ℕ

-- `result.scalar_one_or_none()`
unfoldable pub scalar_one_or_none {ℓ} : {A : Type ℓ} → List A → Result (Option A)
scalar_one_or_none [] = ok none
scalar_one_or_none (x ∷ []) = ok (some x)
scalar_one_or_none (x ∷ y ∷ rest) = err multiple_results

-- The condition of the queries for one budget.
abbrev pub is_budget_of : String → String → Budget → Bool
is_budget_of agent_id currency b = (b.agent_id == agent_id) && (b.currency == currency)

-- `select(Budget).where(Budget.agent_id == agent_id, Budget.currency == currency)`
abbrev pub budgets_of : String → String → List Budget → List Budget
budgets_of agent_id currency = keep (is_budget_of agent_id currency)
