-- ===== src/Formats.antt =====
-- How Python writes values as texts, a parameter of the model: `to_text` is `str`, and `dumps` is
-- `json.dumps` with sorted keys and `default=str`, as the rules of the engine call it.
-- `trim` is what pydantic does to the texts of a strict model, `str_strip_whitespace`.
use marcel_arch.Prelude.{String}
use marcel_arch.Value.{Value, Fields}

pub record Formats : Type 0 where
  pub to_text : Value → String
  pub dumps : Fields → String
  pub trim : String → String
