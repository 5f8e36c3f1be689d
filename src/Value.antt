-- ===== src/Value.antt =====
-- The values of JSON columns and payloads, `Any` in the source, as Python objects. A float is kept
-- as its `repr`, the shortest decimal text that reads back as the same float.
pub mod Equality
use marcel_arch.Prelude.{String, Bool, Option, none, some, ◌==◌, if◌then◌else◌}
use marcel_arch.Prelude.Int.{ℤ}

mutual
  pub data Value : Type 0 where
    null : Value
    bool : Bool → Value
    int : ℤ → Value
    float : String → Value
    str : String → Value
    list : Items → Value
    dict : Fields → Value

  pub data Items : Type 0 where
    nil : Items
    cons : Value → Items → Items

  -- A dict in insertion order. Its keys are texts, as JSON's are.
  pub data Fields : Type 0 where
    end : Fields
    field : String → Value → Fields → Fields

-- `d.get(key)`, with `none` for a missing key.
unfoldable pub get : String → Fields → Option Value
get key end = none
get key (field k v rest) = if k == key then some v else get key rest

-- `d.get(key, default)`
unfoldable pub get_or : String → Value → Fields → Value
get_or key default end = default
get_or key default (field k v rest) = if k == key then v else get_or key default rest
