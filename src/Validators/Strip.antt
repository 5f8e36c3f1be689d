-- ===== src/Validators/Strip.antt =====
-- `str.strip`, applied twice.
use Prim.Native.Char.{code}
use marcel_arch.Prelude.{String, ◌≡◌, refl, ap, ◌∙◌, ◌&&◌, inl, inr, is_blank, is_space, Bool-cases}
use marcel_arch.Validators.{lstrip, rstrip, strip}

is_blank-rstrip : (s : String) → is_blank (rstrip s) ≡ is_blank s
unfolding rstrip is_blank
is_blank-rstrip String.[] = refl
is_blank-rstrip (String.◌∷◌ c s) = elim (Bool-cases (is_space (code c))) [
  | inl e ↦ elim (Bool-cases (is_blank s)) [
    | inl b ↦ simp (e, b) refl
    | inr b ↦ simp (e, b, is_blank-rstrip s) refl
  ]
  | inr e ↦ simp e refl
]

rstrip-rstrip : (s : String) → rstrip (rstrip s) ≡ rstrip s
unfolding rstrip is_blank
rstrip-rstrip String.[] = refl
rstrip-rstrip (String.◌∷◌ c s) = elim (Bool-cases (is_space (code c) && is_blank s)) [
  | inl b ↦ simp b refl
  | inr b ↦ simp (b, is_blank-rstrip s, rstrip-rstrip s) refl
]

-- What is taken off the back uncovers no white space at the front.
lstrip-rstrip : (s : String) → lstrip (rstrip (lstrip s)) ≡ rstrip (lstrip s)
unfolding lstrip rstrip is_blank
lstrip-rstrip String.[] = refl
lstrip-rstrip (String.◌∷◌ c s) = elim (Bool-cases (is_space (code c))) [
  | inl e ↦ simp e (lstrip-rstrip s)
  | inr e ↦ simp e refl
]

pub strip-strip : (s : String) → strip (strip s) ≡ strip s
unfolding strip
strip-strip s = ap rstrip (lstrip-rstrip s) ∙ rstrip-rstrip (lstrip s)
