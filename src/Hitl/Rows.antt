-- ===== src/Hitl/Rows.antt =====
-- The rows of the transactions under `put_transaction`.
use marcel_arch.Prelude.{
  String, ◌≡◌, refl, ◌∙◌, List, [], ◌∷◌, ◌++◌, ◌==◌, arith, eq_iff, false, any,
}
use marcel_arch.Models.{HitlTransaction}
use marcel_arch.Hitl.{transactions_of, put_transaction, same_transaction}

-- A row that a query finds has the id that was asked for.
pub transactions_of_sound :
    (id : String) (t : HitlTransaction) (rest rows : List HitlTransaction)
    → transactions_of id rows ≡ t ∷ rest
    → t.id ≡ id
transactions_of_sound id t rest [] h = ground arith
transactions_of_sound id t rest (r ∷ rows) h =
    ground (arith, transactions_of_sound id t rest rows, eq_iff r.id id)

module _ (new : HitlTransaction) (id : String) where
  -- A transaction with another id stays as it is.
  pub transactions_of-put_transaction_ne :
      (rows : List HitlTransaction)
      → (new.id == id) ≡ false
      → transactions_of id (put_transaction new rows) ≡ transactions_of id rows
  unfolding put_transaction
  transactions_of-put_transaction_ne [] h = refl
  transactions_of-put_transaction_ne (r ∷ rows) h = ground (
    arith,
    transactions_of-put_transaction_ne rows h,
    eq_iff r.id new.id,
    eq_iff r.id id,
    eq_iff new.id id,
  )

  put_transaction_absent :
      (rows : List HitlTransaction)
      → new.id ≡ id
      → transactions_of id rows ≡ []
      → transactions_of id (put_transaction new rows) ≡ []
  unfolding put_transaction
  put_transaction_absent [] e h = refl
  put_transaction_absent (r ∷ rows) e h = ground (arith, put_transaction_absent rows e)

  -- The row that was found is the one that is written.
  pub transactions_of-put_transaction :
      (t : HitlTransaction) (rows : List HitlTransaction)
      → new.id ≡ id
      → transactions_of id rows ≡ t ∷ []
      → transactions_of id (put_transaction new rows) ≡ new ∷ []
  unfolding put_transaction
  transactions_of-put_transaction t [] e h = ground arith
  transactions_of-put_transaction t (r ∷ rows) e h = ground (
    arith,
    transactions_of-put_transaction t rows e,
    put_transaction_absent rows e,
    eq_iff new.id id,
  )

  append_ne :
      (rows : List HitlTransaction)
      → (new.id == id) ≡ false
      → transactions_of id (rows ++ new ∷ []) ≡ transactions_of id rows
  append_ne [] h = rw h
  append_ne (r ∷ rows) h = ground (arith, append_ne rows h)

  clash_free :
      (t : HitlTransaction) (rest rows : List HitlTransaction)
      → any (same_transaction new) rows ≡ false
      → transactions_of id rows ≡ t ∷ rest
      → (new.id == id) ≡ false
  clash_free t rest [] h k = ground arith
  clash_free t rest (r ∷ rows) h k =
      ground (arith, clash_free t rest rows, eq_iff r.id id, eq_iff r.id new.id, eq_iff new.id id)

  -- A row that clashes with no other leaves the transactions that were there.
  pub transactions_of-append :
      (t : HitlTransaction) (rest rows : List HitlTransaction)
      → any (same_transaction new) rows ≡ false
      → transactions_of id rows ≡ t ∷ rest
      → transactions_of id (rows ++ new ∷ []) ≡ t ∷ rest
  transactions_of-append t rest rows h k = append_ne rows (clash_free t rest rows h k) ∙ k
