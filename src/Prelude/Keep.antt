-- ===== src/Prelude/Keep.antt =====
-- Rows that a query keeps, when a row is added behind the table or written back into it.
use Prim.Native.Nat.{◌+◌, ◌≤◌}
use mathlib.Core.Path.{◌≡◌, refl, sym, ap, ◌∙◌}
use mathlib.Core.Logic.{inl, inr}
use mathlib.Core.Bool.{Bool, true, false}
use mathlib.Core.List.{List, [], ◌∷◌, ◌++◌}
use native.Mathlib.Omega.{arith}
use marcel_arch.Prelude.Tests.{Bool-cases, if◌then◌else◌}
use marcel_arch.Prelude.Lists.{length, any, keep}

module _ {ℓ} {A : Type ℓ} (p : A → Bool) where
  -- The query finds at most one row.
  abbrev pub AtMostOne : List A → Type 0
  AtMostOne rows = length (keep p rows) ≤ 1

  module _ (q : A → Bool) where
    keep_none :
        (rows : List A)
        → ((x : A) → p x ≡ true → q x ≡ true)
        → any q rows ≡ false
        → keep p rows ≡ []
    keep_none [] h e = refl
    keep_none (x ∷ rows) h e = elim (Bool-cases (p x)) [
      | inl here ↦ let found = h x here in ground (arith, e)
      | inr e' ↦ rw e' (keep_none rows h (ground (arith, e)))
    ]

  length-keep-append :
      (x : A) (rows : List A)
      → length (keep p (rows ++ x ∷ [])) ≡ length (keep p rows) + (if p x then 1 else 0)
  length-keep-append x [] = ground arith
  length-keep-append x (y ∷ rows) = ground (arith, length-keep-append x rows)

  -- A row that clashes with every row that the query would find beside it.
  pub AtMostOne-append :
      (q : A → Bool) (x : A) (rows : List A)
      → (p x ≡ true → (y : A) → p y ≡ true → q y ≡ true)
      → any q rows ≡ false
      → AtMostOne rows
      → AtMostOne (rows ++ x ∷ [])
  AtMostOne-append q x rows h e one = elim (Bool-cases (p x)) [
    | inl here ↦
        let none = ap length (keep_none q rows (h here) e) in
        ground (arith, length-keep-append x rows)
    | inr there ↦ ground (arith, length-keep-append x rows)
  ]

module _ {ℓ} {A : Type ℓ} (q : A → Bool) (new : A) where
  -- The rows with `new` in place of those that `q` finds.
  abbrev pub replace : List A → List A
  replace [] = []
  replace (x ∷ rows) = (if q x then new else x) ∷ replace rows

  replace_none : (rows : List A) → keep q rows ≡ [] → replace rows ≡ rows
  replace_none [] h = refl
  replace_none (x ∷ rows) h = ground (arith, replace_none rows)

  module _ (p : A → Bool) where
    -- A query that finds the new row if it finds the old one finds as many rows as before.
    pub length-keep-replace :
        (b : A) (rows : List A)
        → keep q rows ≡ b ∷ []
        → p new ≡ p b
        → length (keep p (replace rows)) ≡ length (keep p rows)
    length-keep-replace b [] h e = refl
    length-keep-replace b (x ∷ rows) h e = elim (Bool-cases (q x)) [
      | inr other ↦
          let later = length-keep-replace b rows (simp other at h) e in
          simp other (ground (arith, later))
      | inl here ↦
          let whole : x ∷ keep q rows ≡ b ∷ [] = simp here at h in
          let none : keep q rows ≡ [] = cc whole in
          let same : p new ≡ p x = e ∙ ap p (sym (cc whole)) in
          simp (here, replace_none rows none, same) (ground arith)
    ]
