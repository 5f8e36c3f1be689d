-- ===== src/Audit/Rows.antt =====
-- The rows of the log under `by_sequence` and `last_record`.
use marcel_arch.Prelude.{
  ℕ, ◌+◌, ◌≤◌, ◌<◌, String, ◌≡◌, ◌⊎◌, refl, ap, ◌∙◌, subst, inl, inr, Option, some, List, [], ◌∷◌,
  ◌++◌, arith, length, All, ltb, leb, Bool-cases,
}
use marcel_arch.Models.{AuditLog}
use marcel_arch.Digests.{Digests}
use marcel_arch.Audit.{AuditSigner, newer, last_from, insert_record, by_sequence}
use marcel_arch.Audit.Chain.{IsEntry, IsLinked}

abbrev pub In : AuditLog → List AuditLog → Type 0
In p [] = ⊥
In p (r ∷ rs) = (p ≡ r) ⊎ In p rs

In-insert_record :
    (p r : AuditLog) (rs : List AuditLog) → (p ≡ r) ⊎ In p rs → In p (insert_record r rs)
unfolding insert_record
In-insert_record p r [] h = h
In-insert_record p r (s ∷ rest) h = elim (Bool-cases (leb r.sequence_number s.sequence_number)) [
  | inl e ↦ rw e h
  | inr e ↦ rw e (elim h [
    | inl here ↦ inr (In-insert_record p r rest (inl here))
    | inr (inl next) ↦ inl next
    | inr (inr later) ↦ inr (In-insert_record p r rest (inr later))
  ])
]

pub In-by_sequence : (p : AuditLog) (rs : List AuditLog) → In p rs → In p (by_sequence rs)
unfolding by_sequence
In-by_sequence p [] h = elim h [ ]
In-by_sequence p (r ∷ rs) (inl h) = In-insert_record p r (by_sequence rs) (inl h)
In-by_sequence p (r ∷ rs) (inr h) =
    In-insert_record p r (by_sequence rs) (inr (In-by_sequence p rs h))

-- A property of every row of the table holds of every row in order.
All-insert_record :
    (P : AuditLog → Type 0) (r : AuditLog) (rs : List AuditLog)
    → P r
    → All P rs
    → All P (insert_record r rs)
unfolding insert_record
All-insert_record P r [] h k = (h, tt)
All-insert_record P r (s ∷ rest) h k = elim (Bool-cases (leb r.sequence_number s.sequence_number)) [
  | inl e ↦ rw e (h, k)
  | inr e ↦ rw e (k.0, All-insert_record P r rest h k.1)
]

pub All-by_sequence :
    (P : AuditLog → Type 0) (rs : List AuditLog) → All P rs → All P (by_sequence rs)
unfolding by_sequence
All-by_sequence P [] h = tt
All-by_sequence P (r ∷ rs) h = All-insert_record P r (by_sequence rs) h.0 (All-by_sequence P rs h.1)

newer-cases :
    (a b : AuditLog)
    → ((newer a b ≡ b) × (a.sequence_number ≤ b.sequence_number))
      ⊎ ((newer a b ≡ a) × (b.sequence_number ≤ a.sequence_number))
unfolding newer
newer-cases a b = elim (Bool-cases (ltb a.sequence_number b.sequence_number)) [
  | inl e ↦ inl (rw e, ground arith)
  | inr e ↦ inr (rw e, ground arith)
]

pub last_from-In : (best : AuditLog) (rs : List AuditLog) → In (last_from best rs) (best ∷ rs)
unfolding last_from
last_from-In best [] = inl refl
last_from-In best (r ∷ rs) = elim (last_from-In (newer best r) rs) [
  | inl h ↦ elim (newer-cases best r) [
    | inl (e, le) ↦ inr (inl (h ∙ e))
    | inr (e, le) ↦ inl (h ∙ e)
  ]
  | inr h ↦ inr (inr h)
]

newer-le :
    (a b : AuditLog)
    → (a.sequence_number ≤ (newer a b).sequence_number)
      × (b.sequence_number ≤ (newer a b).sequence_number)
unfolding newer
newer-le a b = ground arith

abbrev pub UpTo : ℕ → AuditLog → Type 0
UpTo n r = r.sequence_number ≤ n

pub last_from-UpTo :
    (best : AuditLog) (rs : List AuditLog)
    → All (UpTo (last_from best rs).sequence_number) (best ∷ rs)
unfolding last_from
last_from-UpTo best [] = (omega arith, tt)
last_from-UpTo best (r ∷ rs) =
    let rest = last_from-UpTo (newer best r) rs in
    (omega (arith, newer-le best r, rest.0), (omega (arith, newer-le best r, rest.0), rest.1))

insert_record-append :
    (x r : AuditLog) (rs : List AuditLog)
    → x.sequence_number < r.sequence_number
    → insert_record x (rs ++ r ∷ []) ≡ insert_record x rs ++ r ∷ []
unfolding insert_record
insert_record-append x r [] h = ground arith
insert_record-append x r (s ∷ rest) h = ground (arith, insert_record-append x r rest h)

-- A row with a greater number than all others comes last.
pub by_sequence-append :
    (r : AuditLog) (rs : List AuditLog)
    → All (λ s. s.sequence_number < r.sequence_number) rs
    → by_sequence (rs ++ r ∷ []) ≡ by_sequence rs ++ r ∷ []
unfolding by_sequence insert_record
by_sequence-append r [] h = refl
by_sequence-append r (x ∷ rs) h =
    rw (by_sequence-append r rs h.1) (insert_record-append x r (by_sequence rs) h.0)

module _ (digests : Digests) (signer : AuditSigner) where
  -- The hash that the next row of a chain must hold.
  abbrev pub tip : Option String → List AuditLog → Option String
  tip previous [] = previous
  tip previous (r ∷ rest) = tip (some r.entry_hash) rest

  pub IsLinked-append :
      (previous : Option String) (n m : ℕ) (rs : List AuditLog) (r : AuditLog)
      → m ≡ n + length rs
      → IsLinked digests signer previous n rs
      → IsEntry digests signer (tip previous rs) m r
      → IsLinked digests signer previous n (rs ++ r ∷ [])
  IsLinked-append previous n m [] r q h e =
      (subst (λ k. IsEntry digests signer previous k r) (omega arith) e, tt)
  IsLinked-append previous n m (s ∷ rest) r q h e =
      (h.0, IsLinked-append (some s.entry_hash) (n + 1) m rest r (omega arith) h.1 e)

  -- A row of a chain that starts at `n` has a number within it; the last number belongs to the tip.
  pub IsLinked-In :
      (previous : Option String) (n : ℕ) (rs : List AuditLog) (p : AuditLog)
      → IsLinked digests signer previous n rs
      → In p rs
      → (p.sequence_number < n + length rs)
        × (n ≤ p.sequence_number)
        × (p.sequence_number + 1 ≡ n + length rs → some p.entry_hash ≡ tip previous rs)
  IsLinked-In previous n [] p h i = elim i [ ]
  IsLinked-In previous n (r ∷ []) p h (inl e) =
      let number : p.sequence_number ≡ n =
        ap (λ (x : AuditLog). x.sequence_number) e ∙ h.0.number in
      (omega arith, omega arith, λ q. ap (λ (x : AuditLog). some x.entry_hash) e)
  IsLinked-In previous n (r ∷ s ∷ rest) p h (inl e) =
      let number : p.sequence_number ≡ n =
        ap (λ (x : AuditLog). x.sequence_number) e ∙ h.0.number in
      (omega arith, omega arith, λ q. absurd (omega arith))
  IsLinked-In previous n (r ∷ rest) p h (inr later) =
      let (below, above, last) = IsLinked-In (some r.entry_hash) (n + 1) rest p h.1 later in
      (omega arith, omega arith, λ q. last (omega arith))

  -- If all numbers of a chain are at most `m`, then so is that of its last row.
  pub IsLinked-UpTo :
      (previous : Option String) (n m : ℕ) (r : AuditLog) (rs : List AuditLog)
      → IsLinked digests signer previous n (r ∷ rs)
      → All (UpTo m) (r ∷ rs)
      → n + length rs ≤ m
  IsLinked-UpTo previous n m r [] h k = omega (arith, h.0.number, k.0)
  IsLinked-UpTo previous n m r (s ∷ rest) h k =
      omega (arith, IsLinked-UpTo (some r.entry_hash) (n + 1) m s rest h.1 k.1)
