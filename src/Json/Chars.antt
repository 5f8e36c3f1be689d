-- ===== src/Json/Chars.antt =====
-- The characters of ASCII, by their numbers.
use Prim.Native.Nat.{compare, Ordering}
use Prim.Native.Char.{Char, char, code, IsScalar}
use text.Mathlib.TextEquality.{Char-path}
use marcel_arch.Prelude.{ℕ, ◌<◌, ◌≡◌, refl, Bool, true, false, ltb, arith}

compare_below : (n : ℕ) → ltb n 128 ≡ true → compare n 55296 ≡ Ordering.lt
compare_below n h = ground arith

pub ascii-IsScalar : (n : ℕ) → ltb n 128 ≡ true → IsScalar n
ascii-IsScalar n h = rw (compare_below n h) tt

abbrev pub ascii_if : (n : ℕ) (b : Bool) → ltb n 128 ≡ b → Char
ascii_if n true h = char n (ascii-IsScalar n h)
ascii_if n false h = "?"

abbrev pub ascii : ℕ → Char
ascii n = ascii_if n (ltb n 128) refl

code-ascii_if : (n : ℕ) (b : Bool) (h : ltb n 128 ≡ b) → b ≡ true → code (ascii_if n b h) ≡ n
code-ascii_if n true h e = refl
code-ascii_if n false h e = absurd (cc e)

pub code-ascii : (n : ℕ) → n < 128 → code (ascii n) ≡ n
code-ascii n h = code-ascii_if n (ltb n 128) refl (ground arith)

pub ascii-code : (c : Char) → code c < 128 → ascii (code c) ≡ c
ascii-code c h = Char-path (ascii (code c)) c (code-ascii (code c) h)
