-- ===== src/Services.antt =====
-- What the services call and do not implement, in one parameter: the Redis server, Python's text
-- formats, and the order in which the database returns the policies.
use mathlib.Core.List.{Perm}
use marcel_arch.Prelude.{List}
use marcel_arch.Models.{Policy}
use marcel_arch.Redis.{Redis}
use marcel_arch.Formats.{Formats}

pub record Services : Type 1 where
  pub redis : Redis
  pub formats : Formats
  -- `ORDER BY priority ASC, name ASC`, by the collation of the database
  pub order_policies : List Policy → List Policy
  pub order_policies-perm : (policies : List Policy) → Perm (order_policies policies) policies
