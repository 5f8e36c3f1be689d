-- ===== src/Digests.antt =====
-- What marcel/security/audit.py calls of Python's library, a parameter of the model: the digests of
-- hashlib and hmac as hexadecimal texts, and the text of a time by `isoformat`. `aware_text` is that of the time which a new row gets, and `loaded_text` that
-- of the same time when the database gives the row back.
use marcel_arch.Prelude.{ℕ, String, ◌≡◌, Bool, true, codes, all, ltb}

abbrev pub is_ascii : String → Bool
is_ascii s = all (λ c. ltb c 128) (codes s)

pub record Digests : Type 0 where
  pub sha256 : String → String
  pub hmac_sha256 : String → String → String
  pub aware_text : ℕ → String
  pub loaded_text : ℕ → String
  pub sha256-is_ascii : (text : String) → is_ascii (sha256 text) ≡ true
  pub hmac_sha256-is_ascii : (key text : String) → is_ascii (hmac_sha256 key text) ≡ true
