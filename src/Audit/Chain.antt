-- ===== src/Audit/Chain.antt =====
-- `verify_chain` against an independent description of a chain.
use marcel_arch.Prelude.{
  ℕ, ◌+◌, String, ◌≡◌, ◌↔◌, refl, ap, sym, ◌∙◌, inl, inr, Bool, true, false, Option, none, some,
  List, [], ◌∷◌, eq_iff, eq_refl, arith, length, nat_eq, Bool-cases,
}
use marcel_arch.Prelude.Result.{Result, ok, err}
use marcel_arch.Models.{AuditLog}
use marcel_arch.World.{World}
use marcel_arch.Digests.{Digests, is_ascii}
use marcel_arch.Audit.{
  AuditSigner, compare_digest, same_hash, sign, verify, require, computed_hash, verify_from,
  verify_chain, by_sequence,
}

compare_digest-ok : (a b : String) → compare_digest a b ≡ ok true → a ≡ b
unfolding compare_digest
compare_digest-ok a b h = ground (arith, eq_iff a b)

compare_digest_self : (a : String) → is_ascii a ≡ true → compare_digest a a ≡ ok true
unfolding compare_digest
compare_digest_self a h = rw (h, eq_refl a)

module _ (digests : Digests) (signer : AuditSigner) where
  -- A row as it must stand behind a row with the hash `previous`, as the n-th.
  pub record IsEntry (previous : Option String) (n : ℕ) (r : AuditLog) : Type 0 where
    pub number : r.sequence_number ≡ n
    pub link : r.previous_hash ≡ previous
    pub hashed : r.entry_hash ≡ computed_hash digests signer r
    pub signed : r.signature ≡ sign digests signer r.entry_hash

  abbrev pub IsLinked : Option String → ℕ → List AuditLog → Type 0
  IsLinked previous n [] = Unit
  IsLinked previous n (r ∷ rest) = IsEntry previous n r × IsLinked (some r.entry_hash) (n + 1) rest

  same_hash-eq : (a b : Option String) → same_hash digests signer a b ≡ true → a ≡ b
  same_hash-eq none none h = refl
  same_hash-eq none (some b) h = cc h
  same_hash-eq (some a) none h = cc h
  same_hash-eq (some a) (some b) h = ap some ((eq_iff a b).0 h)

  same_hash_self : (a : Option String) → same_hash digests signer a a ≡ true
  same_hash_self none = refl
  same_hash_self (some a) = eq_refl a

  require-ok :
      (message : String) (n m : ℕ) (test : Result Bool) (rest : Result ℕ)
      → require digests signer message n test rest ≡ ok m
      → (test ≡ ok true) × (rest ≡ ok m)
  require-ok message n m (ok true) rest h = (refl, h)
  require-ok message n m (ok false) rest h = cc h
  require-ok message n m (err e) rest h = cc h

  verify_step :
      (previous : Option String) (n total m : ℕ) (r : AuditLog) (rest : List AuditLog)
      → verify_from digests signer previous n total (r ∷ rest) ≡ ok m
      → IsEntry previous n r
        × (verify_from digests signer (some r.entry_hash) (n + 1) total rest ≡ ok m)
  unfolding verify_from
  verify_step previous n total m r rest h = elim (Bool-cases (nat_eq r.sequence_number n)) [
    | inr e ↦ cc (simp e at h)
    | inl e ↦ elim (Bool-cases (same_hash digests signer r.previous_hash previous)) [
      | inr f ↦ cc (simp (e, f) at h)
      | inl f ↦
          let outer = require-ok _ _ m _ _ (simp (e, f) at h) in
          let inner = require-ok _ _ m _ _ outer.1 in
          (
            record {
              number = ground arith;
              link = same_hash-eq _ _ f;
              hashed = sym (compare_digest-ok _ _ outer.0);
              signed = sym (compare_digest-ok _ _ inner.0);
            },
            inner.1,
          )
    ]
  ]

  verify_from-IsLinked :
      (previous : Option String) (n total m : ℕ) (rs : List AuditLog)
      → verify_from digests signer previous n total rs ≡ ok m
      → IsLinked previous n rs × (m ≡ total)
  verify_from-IsLinked previous n total m [] h = unfold verify_from in (tt, cc h)
  verify_from-IsLinked previous n total m (r ∷ rest) h =
      let (entry, later) = verify_step previous n total m r rest h in
      let (links, e) = verify_from-IsLinked (some r.entry_hash) (n + 1) total m rest later in
      ((entry, links), e)

  hash_passes :
      (r : AuditLog)
      → r.entry_hash ≡ computed_hash digests signer r
      → compare_digest (computed_hash digests signer r) r.entry_hash ≡ ok true
  unfolding computed_hash
  hash_passes r h = rw h (compare_digest_self _ (digests.sha256-is_ascii _))

  signature_passes :
      (payload signature : String)
      → signature ≡ sign digests signer payload
      → verify digests signer payload signature ≡ ok true
  signature_passes payload signature h =
      rw h (compare_digest_self _ (digests.hmac_sha256-is_ascii signer.key payload))

  IsLinked-verify_from :
      (previous : Option String) (n total : ℕ) (rs : List AuditLog)
      → IsLinked previous n rs
      → verify_from digests signer previous n total rs ≡ ok total
  unfolding verify_from
  IsLinked-verify_from previous n total [] h = refl
  IsLinked-verify_from previous n total (r ∷ rest) (entry, links) =
      let later = IsLinked-verify_from (some r.entry_hash) (n + 1) total rest links in
      let number : nat_eq r.sequence_number n ≡ true = ground (arith, entry.number) in
      let link : same_hash digests signer r.previous_hash previous ≡ true =
        rw entry.link (same_hash_self previous) in
      simp (
        number,
        link,
        hash_passes r entry.hashed,
        signature_passes r.entry_hash r.signature entry.signed,
        later,
      )

  -- `verify_chain` accepts the log exactly if its rows, in the order of their numbers, are numbered
  -- from 1 with no gap, each holds the hash of the one before it (the first holds none), its own hash
  -- is that of its contents, and its signature is that of its hash; it then returns their number.
  pub verify_chain_iff :
      {C : Type 0} (w : World C) (m : ℕ)
      → (verify_chain digests signer w ≡ ok m) ↔ (
          IsLinked none 1 (by_sequence w.db.audit_logs)
          × (m ≡ length (by_sequence w.db.audit_logs)))
  unfolding verify_chain
  verify_chain_iff w m =
      let rs = by_sequence w.db.audit_logs in
      (
        λ h. verify_from-IsLinked none 1 (length rs) m rs h,
        λ (links, e). IsLinked-verify_from none 1 (length rs) rs links ∙ ap ok (sym e),
      )
