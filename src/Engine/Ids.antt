-- ===== src/Engine/Ids.antt =====
-- The policy ids of a decision: `sorted(set(...))`.
use text.Mathlib.TextEquality.{Char-path}
use marcel_arch.Formats.{Formats}
use marcel_arch.Prelude.{
  ℕ, String, ◌≡◌, refl, ap, ◌∙◌, Bool, inl, inr, true, false, Option, List, [], ◌∷◌, map, ◌==◌,
  ◌||◌, eq_iff, arith, any, codes, Bool-cases,
}
use marcel_arch.Prelude.Int.{ℤ}
use marcel_arch.Models.{Agent}
use marcel_arch.Conditions.{member}
use marcel_arch.Rules.{RuleResult}
use marcel_arch.Engine.{before, insert, sorted_set, decide}

codes-injective : (s t : String) → codes s ≡ codes t → s ≡ t
codes-injective String.[] String.[] h = refl
codes-injective String.[] (String.◌∷◌ c t) h = cc h
codes-injective (String.◌∷◌ c s) String.[] h = cc h
codes-injective (String.◌∷◌ c s) (String.◌∷◌ d t) h =
    cc (Char-path c d (cc h), codes-injective s t (cc h))

before_total : (cs ds : List ℕ) → before cs ds ≡ false → before ds cs ≡ false → cs ≡ ds
unfolding before
before_total [] [] h k = refl
before_total [] (d ∷ ds) h k = cc h
before_total (c ∷ cs) [] h k = cc k
before_total (c ∷ cs) (d ∷ ds) h k = ground (arith, before_total cs ds)

-- Of two different texts one comes before the other.
pub before_of_ne :
    (s t : String)
    → (s == t) ≡ false
    → before (codes s) (codes t) ≡ false
    → before (codes t) (codes s) ≡ true
before_of_ne s t ne h = elim (Bool-cases (before (codes t) (codes s))) [
  | inl e ↦ e
  | inr e ↦ cc ((eq_iff s t).1 (codes-injective s t (before_total (codes s) (codes t) h e)), ne)
]

abbrev pub ComesBefore : String → List String → Type 0
ComesBefore s [] = Unit
ComesBefore s (t ∷ ts) = before (codes s) (codes t) ≡ true

-- Each text comes before the next one, so none stands twice.
abbrev pub IsIncreasing : List String → Type 0
IsIncreasing [] = Unit
IsIncreasing (s ∷ ss) = ComesBefore s ss × IsIncreasing ss

ComesBefore-insert :
    (t s : String) (ts : List String)
    → before (codes t) (codes s) ≡ true
    → ComesBefore t ts
    → ComesBefore t (insert s ts)
unfolding insert
ComesBefore-insert t s [] h k = h
ComesBefore-insert t s (u ∷ us) h k = ground arith

insert-IsIncreasing : (s : String) (ts : List String) → IsIncreasing ts → IsIncreasing (insert s ts)
unfolding insert
insert-IsIncreasing s [] h = (tt, tt)
insert-IsIncreasing s (t ∷ ts) h = elim (Bool-cases (s == t)) [
  | inl e ↦ rw e h
  | inr e ↦ elim (Bool-cases (before (codes s) (codes t))) [
    | inl b ↦ rw (e, b) (b, h)
    | inr b ↦
        rw (e, b)
          (ComesBefore-insert t s ts (before_of_ne s t e b) h.0, insert-IsIncreasing s ts h.1)
  ]
]

member-insert :
    (k s : String) (ts : List String) → member k (insert s ts) ≡ ((s == k) || member k ts)
unfolding insert
member-insert k s [] = refl
member-insert k s (t ∷ ts) =
    ground (arith, member-insert k s ts, eq_iff s t, eq_iff s k, eq_iff t k)

pub before_self : (cs : List ℕ) → before cs cs ≡ false
unfolding before
before_self [] = refl
before_self (c ∷ cs) = ground (arith, before_self cs)

insert-ComesBefore : (s : String) (ts : List String) → ComesBefore s ts → insert s ts ≡ s ∷ ts
unfolding insert
insert-ComesBefore s [] h = refl
insert-ComesBefore s (t ∷ ts) h = elim (Bool-cases (s == t)) [
  | inl e ↦ cc (ap (λ u. before (codes s) (codes u)) ((eq_iff s t).0 e), before_self (codes s), h)
  | inr e ↦ rw (e, h)
]

pub sorted_set-of_IsIncreasing : (ss : List String) → IsIncreasing ss → sorted_set ss ≡ ss
unfolding sorted_set
sorted_set-of_IsIncreasing [] h = refl
sorted_set-of_IsIncreasing (s ∷ ss) h =
    rw (sorted_set-of_IsIncreasing ss h.1) (insert-ComesBefore s ss h.0)

any-insert :
    (p : String → Bool) (s : String) (ts : List String) → any p (insert s ts) ≡ (p s || any p ts)
unfolding insert
any-insert p s [] = refl
any-insert p s (t ∷ ts) = elim (Bool-cases (s == t)) [
  | inl e ↦ let same = ap p ((eq_iff s t).0 e) in simp (e, same) (ground arith)
  | inr e ↦ ground (arith, any-insert p s ts)
]

pub any-sorted_set : (p : String → Bool) (ss : List String) → any p (sorted_set ss) ≡ any p ss
unfolding sorted_set
any-sorted_set p [] = refl
any-sorted_set p (s ∷ ss) = any-insert p s (sorted_set ss) ∙ rw (any-sorted_set p ss)

pub sorted_set-IsIncreasing : (ss : List String) → IsIncreasing (sorted_set ss)
unfolding sorted_set
sorted_set-IsIncreasing [] = tt
sorted_set-IsIncreasing (s ∷ ss) =
    insert-IsIncreasing s (sorted_set ss) (sorted_set-IsIncreasing ss)

pub member-sorted_set : (k : String) (ss : List String) → member k (sorted_set ss) ≡ member k ss
unfolding sorted_set
member-sorted_set k [] = refl
member-sorted_set k (s ∷ ss) = member-insert k s (sorted_set ss) ∙ rw (member-sorted_set k ss)

member-map :
    (k : String) (rs : List RuleResult)
    → member k (map (λ r. r.policy_id) rs) ≡ any (λ r. r.policy_id == k) rs
member-map k [] = refl
member-map k (r ∷ rs) = rw (member-map k rs)

-- The policy ids of a decision, before they are stripped, stand in the order of their code points, each
-- once, and they are those of the results.
pub decide-policy_ids :
    (formats : Formats) (agent : Agent) (results : List RuleResult) (left : Option ℤ)
    → (ids : List String) × ((decide formats agent results left).policy_ids ≡ map formats.trim ids)
      × IsIncreasing ids
      × ((k : String) → member k ids ≡ any (λ r. r.policy_id == k) results)
unfolding decide
decide-policy_ids formats agent results left =
    let ids = map (λ (r : RuleResult). r.policy_id) results in
    (
      sorted_set ids,
      refl,
      sorted_set-IsIncreasing ids,
      λ k. member-sorted_set k ids ∙ member-map k results,
    )
