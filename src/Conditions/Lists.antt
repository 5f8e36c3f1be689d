-- ===== src/Conditions/Lists.antt =====
-- `_match_string_list` of marcel/core/engine.py.
use marcel_arch.Prelude.{
  String, ◌≡◌, ◌≢◌, ◌↔◌, ◌⊎◌, refl, Bool, true, false, ◌&&◌, ◌||◌, Bool-cases, both, eq_iff, inl,
  inr, ap, subst,
}
use marcel_arch.Value.{Value, null, bool, int, float, str, list, dict, Items, nil, cons}
use marcel_arch.Conditions.{is_str, all_str, is_text, contains_text, match_string_list}

-- Every item is a text.
abbrev AllTexts : Items → Type 0
AllTexts nil = Unit
AllTexts (cons x xs) = ((s : String) × (x ≡ str s)) × AllTexts xs

-- The text is one of the items.
abbrev Stands : String → Items → Type 0
Stands s nil = ⊥
Stands s (cons x xs) = (x ≡ str s) ⊎ Stands s xs

-- The items are texts, and the text or `*` is one of them.
abbrev AreTextsWith : String → Items → Type 0
AreTextsWith s xs = AllTexts xs × (Stands s xs ⊎ Stands "*" xs)

-- The value is a list of texts, and the text or `*` is one of them.
abbrev pub IsListed : String → Value → Type 0
IsListed s v = (xs : Items) × (v ≡ list xs) × AreTextsWith s xs

either : (a b : Bool) → (a || b) ≡ true → (a ≡ true) ⊎ (b ≡ true)
either true b h = inl refl
either false b h = inr h

pub and_iff :
    {P Q : Type 0} (a b : Bool) → (a ≡ true) ↔ P → (b ≡ true) ↔ Q → ((a && b) ≡ true) ↔ (P × Q)
and_iff a b p q =
    (λ h. let (x, y) = both a b h in (p.0 x, q.0 y), λ h. simp (p.1 h.0, q.1 h.1) refl)

or_iff : {P Q : Type 0} (a b : Bool) → (a ≡ true) ↔ P → (b ≡ true) ↔ Q → ((a || b) ≡ true) ↔ (P ⊎ Q)
or_iff a b p q = (
  λ h. elim (either a b h) [ inl x ↦ inl (p.0 x) | inr y ↦ inr (q.0 y) ],
  λ h. elim h [
    | inl x ↦ simp (p.1 x) refl
    | inr y ↦ elim (Bool-cases a) [ inl e ↦ simp e refl | inr e ↦ simp (e, q.1 y) refl ]
  ],
)

is_str_iff : (x : Value) → (is_str x ≡ true) ↔ ((s : String) × (x ≡ str s))
is_str_iff (str s) = (λ h. (s, refl), λ h. refl)
is_str_iff null = (λ h. cc h, λ h. cc h.1)
is_str_iff (bool b) = (λ h. cc h, λ h. cc h.1)
is_str_iff (int n) = (λ h. cc h, λ h. cc h.1)
is_str_iff (float s) = (λ h. cc h, λ h. cc h.1)
is_str_iff (list xs) = (λ h. cc h, λ h. cc h.1)
is_str_iff (dict fs) = (λ h. cc h, λ h. cc h.1)

is_text_iff : (s : String) (x : Value) → (is_text s x ≡ true) ↔ (x ≡ str s)
is_text_iff s (str t) = (λ h. ap str ((eq_iff t s).0 h), λ h. (eq_iff t s).1 (cc h))
is_text_iff s null = (λ h. cc h, λ h. cc h)
is_text_iff s (bool b) = (λ h. cc h, λ h. cc h)
is_text_iff s (int n) = (λ h. cc h, λ h. cc h)
is_text_iff s (float t) = (λ h. cc h, λ h. cc h)
is_text_iff s (list xs) = (λ h. cc h, λ h. cc h)
is_text_iff s (dict fs) = (λ h. cc h, λ h. cc h)

all_str_iff : (xs : Items) → (all_str xs ≡ true) ↔ AllTexts xs
all_str_iff nil = (λ h. tt, λ h. refl)
all_str_iff (cons x xs) = and_iff (is_str x) (all_str xs) (is_str_iff x) (all_str_iff xs)

contains_text_iff : (s : String) (xs : Items) → (contains_text s xs ≡ true) ↔ Stands s xs
contains_text_iff s nil = (λ h. cc h, λ h. absurd h)
contains_text_iff s (cons x xs) =
    or_iff (is_text s x) (contains_text s xs) (is_text_iff s x) (contains_text_iff s xs)

list_only :
    (P : Items → Type 0) (v : Value)
    → ((xs : Items) → v ≢ list xs)
    → (false ≡ true) ↔ ((xs : Items) × (v ≡ list xs) × P xs)
list_only P v other = (λ h. absurd (cc h), λ h. absurd (other h.0 h.1))

same_list : {xs ys : Items} → list xs ≡ list ys → ys ≡ xs
same_list e = cc e

pub match_string_list_iff : (v : Value) (s : String) → (match_string_list v s ≡ true) ↔ IsListed s v
unfolding match_string_list
match_string_list_iff (list xs) s =
    let here = and_iff (all_str xs) (contains_text s xs || contains_text "*" xs) (all_str_iff xs) (
      or_iff (contains_text s xs) (contains_text "*" xs) (contains_text_iff s xs)
        (contains_text_iff "*" xs)) in
    (λ h. (xs, refl, here.0 h), λ h. here.1 (subst (AreTextsWith s) (same_list h.1) h.2))
match_string_list_iff null s = list_only (AreTextsWith s) null (λ xs e. cc e)
match_string_list_iff (bool b) s = list_only (AreTextsWith s) (bool b) (λ xs e. cc e)
match_string_list_iff (int n) s = list_only (AreTextsWith s) (int n) (λ xs e. cc e)
match_string_list_iff (float t) s = list_only (AreTextsWith s) (float t) (λ xs e. cc e)
match_string_list_iff (str t) s = list_only (AreTextsWith s) (str t) (λ xs e. cc e)
match_string_list_iff (dict fs) s = list_only (AreTextsWith s) (dict fs) (λ xs e. cc e)
