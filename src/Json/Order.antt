-- ===== src/Json/Order.antt =====
-- The text of a dict does not depend on the order of its fields.
use marcel_arch.Prelude.{
  ℕ, String, ◌≡◌, refl, sym, ap, ◌∙◌, Bool, true, false, List, [], ◌∷◌, ◌==◌, codes, eq_iff, inl,
  inr, Bool-cases, arith, if◌then◌else◌, ◌↔◌, subst,
}
use marcel_arch.Value.{
  Value, null, bool, int, float, str, list, dict, Items, nil, cons, Fields, end, field,
}
use marcel_arch.Engine.{before}
use marcel_arch.Engine.Ids.{before_of_ne, before_self}
use marcel_arch.Json.{insert_field, sort_value, sort_items, sort_fields, canonical_json}
use marcel_arch.Json.Read.{fields_plain}
use marcel_arch.Json.Canonical.{canonical_json-sort_fields}

before_trans : (xs ys zs : List ℕ) → before xs ys ≡ true → before ys zs ≡ true → before xs zs ≡ true
unfolding before
before_trans xs ys [] h k = k
before_trans xs [] (c ∷ zs) h k = absurd (cc h)
before_trans [] (b ∷ ys) (c ∷ zs) h k = refl
before_trans (a ∷ xs) (b ∷ ys) (c ∷ zs) h k = ground (arith, before_trans xs ys zs)

before_asym : (xs ys : List ℕ) → before xs ys ≡ true → before ys xs ≡ false
unfolding before
before_asym xs [] h = absurd (cc h)
before_asym [] (b ∷ ys) h = refl
before_asym (a ∷ xs) (b ∷ ys) h = ground (arith, before_asym xs ys)

-- Which of two keys comes first.
abbrev first : String → String → Bool
first j k = before (codes j) (codes k)

swap-end :
    (j k : String) (u v : Value) (fs : Fields)
    → (j == k) ≡ false
    → (if first k j then field k v (field j u fs) else field j u (field k v fs))
      ≡ (if first j k then field j u (field k v fs) else field k v (field j u fs))
swap-end j k u v fs ne = elim (Bool-cases (first j k)) [
  | inl e ↦ simp (e, before_asym (codes j) (codes k) e) refl
  | inr e ↦ simp (e, before_of_ne j k ne e) refl
]

-- A key that does not come behind another one is before all that does.
first-of_last : (m j k : String) → first m j ≡ false → first m k ≡ true → first j k ≡ true
first-of_last m j k h e = elim (Bool-cases (m == j)) [
  | inl same ↦ ap (λ x. first x k) (sym ((eq_iff m j).0 same)) ∙ e
  | inr ne ↦ before_trans (codes j) (codes m) (codes k) (before_of_ne m j ne h) e
]

insert_field-swap :
    (j k : String) (u v : Value) (fs : Fields)
    → (j == k) ≡ false
    → insert_field j u (insert_field k v fs) ≡ insert_field k v (insert_field j u fs)
unfolding insert_field
insert_field-swap j k u v end ne = swap-end j k u v end ne
insert_field-swap j k u v (field m x rest) ne = elim (Bool-cases (first m j)) [
  | inl mj ↦ elim (Bool-cases (first m k)) [
    | inl mk ↦ simp (mj, mk) (ap (field m x) (insert_field-swap j k u v rest ne))
    | inr mk ↦ simp (mj, mk, first-of_last m k j mk mj) refl
  ]
  | inr mj ↦ elim (Bool-cases (first m k)) [
    | inl mk ↦ simp (mj, mk, first-of_last m j k mj mk) refl
    | inr mk ↦ simp (mj, mk) (swap-end j k u v (field m x rest) ne)
  ]
]

mutual
  -- The same value but for the order of the keys in its dicts.
  pub data IsSame : Value → Value → Type 0 where
    unchanged : (v : Value) → IsSame v v
    same_list : (xs ys : Items) → AreSame xs ys → IsSame (list xs) (list ys)
    same_dict : (fs gs : Fields) → IsReordered fs gs → IsSame (dict fs) (dict gs)

  -- The same items one by one, in this sense.
  pub data AreSame : Items → Items → Type 0 where
    no_items : AreSame nil nil
    same_items :
        (x y : Value) (xs ys : Items) → IsSame x y → AreSame xs ys → AreSame (cons x xs) (cons y ys)

  -- The same fields in another order: two neighbours with different keys change places, again and
  -- again, forth and back, and the value of a key is the same in this sense.
  pub data IsReordered : Fields → Fields → Type 0 where
    no_fields : IsReordered end end
    kept :
        (k : String) (v w : Value) (fs gs : Fields)
        → IsSame v w
        → IsReordered fs gs
        → IsReordered (field k v fs) (field k w gs)
    exchanged :
        (j k : String) (u v : Value) (fs : Fields)
        → (j == k) ≡ false
        → IsReordered (field j u (field k v fs)) (field k v (field j u fs))
    then_again : (fs gs hs : Fields) → IsReordered fs gs → IsReordered gs hs → IsReordered fs hs
    turned_back : (fs gs : Fields) → IsReordered fs gs → IsReordered gs fs

mutual
  unfolding sort_fields

  sort_value-IsSame : (v w : Value) → IsSame v w → sort_value v ≡ sort_value w
  sort_value-IsSame v w (unchanged v') = refl
  sort_value-IsSame v w (same_list xs ys s) = ap list (sort_items-AreSame xs ys s)
  sort_value-IsSame v w (same_dict fs gs s) = ap dict (sort_fields-IsReordered fs gs s)

  sort_items-AreSame : (xs ys : Items) → AreSame xs ys → sort_items xs ≡ sort_items ys
  sort_items-AreSame xs ys no_items = refl
  sort_items-AreSame xs ys (same_items x y xs' ys' s t) =
      ap (λ z. cons z (sort_items xs')) (sort_value-IsSame x y s)
      ∙ ap (cons (sort_value y)) (sort_items-AreSame xs' ys' t)

  pub sort_fields-IsReordered :
      (fs gs : Fields) → IsReordered fs gs → sort_fields fs ≡ sort_fields gs
  sort_fields-IsReordered fs gs no_fields = refl
  sort_fields-IsReordered fs gs (kept k v w fs' gs' s r) =
      ap (λ x. insert_field k x (sort_fields fs')) (sort_value-IsSame v w s)
      ∙ ap (insert_field k (sort_value w)) (sort_fields-IsReordered fs' gs' r)
  sort_fields-IsReordered fs gs (exchanged j k u v rest ne) =
      insert_field-swap j k (sort_value u) (sort_value v) (sort_fields rest) ne
  sort_fields-IsReordered fs gs (then_again fs' hs gs' r r') =
      sort_fields-IsReordered fs hs r ∙ sort_fields-IsReordered hs gs r'
  sort_fields-IsReordered fs gs (turned_back gs' fs' r) = sym (sort_fields-IsReordered gs fs r)

unchanged_fields : (fs : Fields) → IsReordered fs fs
unchanged_fields end = no_fields
unchanged_fields (field k v rest) = kept k v v rest rest (unchanged v) (unchanged_fields rest)

-- A key that comes before another is another.
first-ne : (j k : String) → first j k ≡ true → (k == j) ≡ false
first-ne j k h = elim (Bool-cases (k == j)) [
  | inl same ↦ absurd (cc (before_self (codes j), ap (λ x. first j x) ((eq_iff k j).0 same), h))
  | inr ne ↦ ne
]

insert_field-IsReordered :
    (k : String) (v : Value) (fs : Fields) → IsReordered (field k v fs) (insert_field k v fs)
unfolding insert_field
insert_field-IsReordered k v end = unchanged_fields (field k v end)
insert_field-IsReordered k v (field j u rest) = elim (Bool-cases (first j k)) [
  | inl e ↦ simp e (
      then_again _ _ _ (exchanged k j v u rest (first-ne j k e))
        (kept j u u _ _ (unchanged u) (insert_field-IsReordered k v rest)))
  | inr e ↦ simp e (unchanged_fields (field k v (field j u rest)))
]

mutual
  unfolding sort_fields

  IsSame-sort_value : (v : Value) → IsSame v (sort_value v)
  IsSame-sort_value null = unchanged null
  IsSame-sort_value (bool b) = unchanged (bool b)
  IsSame-sort_value (int n) = unchanged (int n)
  IsSame-sort_value (float s) = unchanged (float s)
  IsSame-sort_value (str s) = unchanged (str s)
  IsSame-sort_value (list xs) = same_list xs (sort_items xs) (AreSame-sort_items xs)
  IsSame-sort_value (dict fs) = same_dict fs (sort_fields fs) (IsReordered-sort_fields fs)

  AreSame-sort_items : (xs : Items) → AreSame xs (sort_items xs)
  AreSame-sort_items nil = no_items
  AreSame-sort_items (cons x xs) =
      same_items x (sort_value x) xs (sort_items xs) (IsSame-sort_value x) (AreSame-sort_items xs)

  IsReordered-sort_fields : (fs : Fields) → IsReordered fs (sort_fields fs)
  IsReordered-sort_fields end = no_fields
  IsReordered-sort_fields (field k v rest) =
      then_again (field k v rest) (field k (sort_value v) (sort_fields rest))
        (insert_field k (sort_value v) (sort_fields rest))
        (kept k v (sort_value v) rest (sort_fields rest) (IsSame-sort_value v)
          (IsReordered-sort_fields rest))
        (insert_field-IsReordered k (sort_value v) (sort_fields rest))

-- Two dicts with one sorted form are reorderings of each other.
IsReordered-same : (fs gs : Fields) → sort_fields fs ≡ sort_fields gs → IsReordered fs gs
IsReordered-same fs gs e =
    then_again fs (sort_fields gs) gs
      (subst (λ hs. IsReordered fs hs) e (IsReordered-sort_fields fs))
      (turned_back gs (sort_fields gs) (IsReordered-sort_fields gs))

-- Two dicts have the same text exactly when one comes from the other by exchanging neighbouring fields
-- with different keys, in the dict or in a dict at any depth of its values. They hold no float that is
-- infinite or not a number.
pub canonical_json_iff :
    (fs gs : Fields)
    → fields_plain fs ≡ true
    → fields_plain gs ≡ true
    → (canonical_json fs ≡ canonical_json gs) ↔ IsReordered fs gs
canonical_json_iff fs gs h k = (
  λ e. IsReordered-same fs gs ((canonical_json-sort_fields fs gs h k).0 e),
  λ r. (canonical_json-sort_fields fs gs h k).1 (sort_fields-IsReordered fs gs r),
)
