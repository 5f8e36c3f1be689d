-- ===== src/Redis.antt =====
-- The Redis server that marcel/core/engine.py calls: a parameter of the model. `get`, `set` and
-- `set_nx` are the commands GET, SET with EX and SET with EX and NX; the numbers are those of the
-- server's Lua interpreter. The values of the keys that the program uses are texts of decimals, and
-- stand here for the amounts that they write.
pub mod Memory
use marcel_arch.Prelude.{
  ℕ, ◌<◌, String, ◌≡◌, Bool, Option, some, ◌==◌, ◌&&◌, not, is_some, if◌then◌else◌,
}
use marcel_arch.Prelude.Int.{ℤ, pos, negsuc, ◌-ℤ◌, ◌≤ℤ◌, ltb_ℤ}

pub record Redis : Type 1 where
  pub State : Type 0
  pub get : State → String → Option ℤ
  pub set : State → String → ℤ → ℕ → State
  pub set_nx : State → String → ℤ → ℕ → State
  pub get-set :
      (s : State) (k j : String) (v : ℤ) (ttl : ℕ)
      → 0 < ttl
      → get (set s k v ttl) j ≡ (if k == j then some v else get s j)
  pub get-set_nx :
      (s : State) (k j : String) (v : ℤ) (ttl : ℕ)
      → 0 < ttl
      → get (set_nx s k v ttl) j ≡ (if k == j && not (is_some (get s k)) then some v else get s j)
  pub Number : Type 0
  -- an integer literal of a script
  pub literal : ℤ → Number
  pub tonumber : ℤ → Number
  pub tostring : Number → ℤ
  pub sub : Number → Number → Number
  pub lt : Number → Number → Bool
  -- a number in a script's reply becomes an integer
  pub to_reply : Number → ℤ
  pub to_reply-one : to_reply (literal (pos 1)) ≡ pos 1
  pub to_reply-minus_one : to_reply (literal (negsuc 0)) ≡ negsuc 0
  -- the amounts on which the double precision of Lua and its 14 printed digits lose nothing, such
  -- as the whole amounts of at most 14 digits
  pub IsExact : ℤ → Type 0
  pub lt-IsExact : (a b : ℤ) → IsExact a → IsExact b → lt (tonumber a) (tonumber b) ≡ ltb_ℤ a b
  pub sub-IsExact :
      (a b : ℤ)
      → IsExact a
      → IsExact b
      → b ≤ℤ a
      → (tostring (sub (tonumber a) (tonumber b)) ≡ a -ℤ b) × IsExact (a -ℤ b)
