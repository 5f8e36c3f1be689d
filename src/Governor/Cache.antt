-- ===== src/Governor/Cache.antt =====
-- The cached amounts: the keys, `remaining`, `release` and `reset`.
use Prim.Native.String.{count, ◌++◌}
use text.Mathlib.TextLemmas.{append_inj, append_cancel_left, append-nil, length-append}
use marcel_arch.Prelude.{
  ◌==◌, if◌then◌else◌, Bool-cases, eq_iff, String, ◌≡◌, refl, ap, subst, inl, inr, Bool, true,
  false, Option, none, some, [], ◌∷◌, sym, ◌∙◌, arith, eq_refl, eq_iff, Bool-cases, Option-cases,
  if◌then◌else◌,
}
use marcel_arch.Prelude.Int.{ℤ, pos, ◌≤ℤ◌, leb_ℤ, max_ℤ}
use marcel_arch.Prelude.Result.{Result, ok}
use marcel_arch.Models.{Budget, budgets_of}
use marcel_arch.Redis.{Redis}
use marcel_arch.World.{World}
use marcel_arch.Governor.{
  reservation_ttl_seconds, budget_key, database_remaining, of_int, reserve, remaining, release,
}
use marcel_arch.Governor.Reserve.{available, too_much, reserve_granted}

same_count :
    (s t : String) → count s ≡ count t → count (":" ++ (s ++ "")) ≡ count (":" ++ (t ++ ""))
same_count s t h = omega (
  arith,
  length-append ":" (s ++ ""),
  length-append ":" (t ++ ""),
  length-append s "",
  length-append t "",
)

-- Budgets whose currencies are equally long, as the three letters of ISO 4217 are, share a key only
-- if they have the same agent and the same currency.
pub budget_key-injective :
    (agent_id agent_id' currency currency' : String)
    → count currency ≡ count currency'
    → budget_key agent_id currency ≡ budget_key agent_id' currency'
    → (agent_id ≡ agent_id') × (currency ≡ currency')
unfolding budget_key
budget_key-injective agent_id agent_id' currency currency' h e =
    let rest = append_cancel_left "marcel:budget:" _ _ e in
    let tail = same_count currency currency' h in
    let split = append_inj {s₁ = agent_id} {s₂ = agent_id'} rest (
      omega (
        arith,
        length-append agent_id (":" ++ (currency ++ "")),
        length-append agent_id' (":" ++ (currency' ++ "")),
        tail,
        ap count rest,
      )) in
    let ends = append_cancel_left ":" _ _ split.1 in
    (split.0, sym (append-nil currency) ∙ ends ∙ append-nil currency')

module _ (redis : Redis) (agent_id currency : String) (w : World redis.State) (b : Budget)
    (found : budgets_of agent_id currency w.db.budgets ≡ b ∷ []) where
  abbrev key : String
  key = budget_key agent_id currency

  -- The keys after the first use of a budget, `SET` with `NX`.
  abbrev filled : redis.State
  filled = redis.set_nx w.cache key (max_ℤ (database_remaining b) (pos 0)) reservation_ttl_seconds

  filled_self :
      redis.get w.cache key ≡ none
      → redis.get filled key ≡ some (max_ℤ (database_remaining b) (pos 0))
  filled_self e =
      let law =
        redis.get-set_nx w.cache key key (max_ℤ (database_remaining b) (pos 0))
          reservation_ttl_seconds (omega arith) in
      law ∙ rw (eq_refl key, e)

  filled_at :
      (j : String)
      → redis.get w.cache key ≡ none
      → redis.get filled j
        ≡ (if key == j then some (max_ℤ (database_remaining b) (pos 0)) else redis.get w.cache j)
  filled_at j e =
      redis.get-set_nx w.cache key j (max_ℤ (database_remaining b) (pos 0)) reservation_ttl_seconds
        (omega arith)
      ∙ rw e (ground arith)

  cached_at :
      (j : String) (amount : ℤ)
      → redis.get w.cache key ≡ some amount
      → redis.get w.cache j ≡ (if key == j then some amount else redis.get w.cache j)
  cached_at j amount e = elim (Bool-cases (key == j)) [
    | inl same ↦ rw same (subst (λ k. redis.get w.cache k ≡ some amount) ((eq_iff key j).0 same) e)
    | inr other ↦ rw other
  ]

  -- `remaining` of an active budget returns the cached amount, or the ledger's where none is
  -- cached. After it that amount is cached, every other key is as before, and so is every row.
  pub remaining_lem :
      b.active ≡ true
      → let (r, w') = remaining redis agent_id currency w in
        let left = available redis agent_id currency b w.cache in
        (r ≡ ok (some left))
        × ((j : String)
            → redis.get w'.cache j ≡ (if key == j then some left else redis.get w.cache j))
        × (w'.db ≡ w.db)
  unfolding remaining
  remaining_lem active = elim (Option-cases (redis.get w.cache key)) [
    | inl e ↦ simp (found, active, e, filled_self e) (refl, λ j. filled_at j e, refl)
    | inr (amount, e) ↦ simp (found, active, e) (refl, λ j. cached_at j amount e, refl)
  ]

  -- `release` of any positive amount sets the cached amount back to what the ledger has left, and
  -- changes no other key and no row.
  pub release_lem :
      (amount : ℤ)
      → pos 1 ≤ℤ amount
      → let (r, w') = release redis agent_id currency amount w in
        (r ≡ ok tt)
        × ((j : String)
            → redis.get w'.cache j ≡ (
                if key == j
                then some (max_ℤ (database_remaining b) (pos 0))
                else redis.get w.cache j))
        × (w'.db ≡ w.db)
  unfolding release
  release_lem amount positive =
      let test : leb_ℤ amount (pos 0) ≡ false = ground arith in
      simp (test, found)
        (
          refl,
          λ j.
              redis.get-set w.cache key j (max_ℤ (database_remaining b) (pos 0))
                reservation_ttl_seconds (omega arith),
          refl,
        )

  -- Whatever is reserved when a positive amount is released, all that the ledger has left, if exact
  -- and positive, can be reserved after it: the other reservations are forgotten.
  pub reserve-release :
      (amount : ℤ)
      → pos 1 ≤ℤ amount
      → b.active ≡ true
      → pos 1 ≤ℤ database_remaining b
      → redis.IsExact (database_remaining b)
      → (left : Option ℤ) × ((reserve redis agent_id currency
            (database_remaining b)
            (release redis agent_id currency amount w).1).0
          ≡ ok (true, left))
  reserve-release amount positive active rest exact =
      let w' : World redis.State = (release redis agent_id currency amount w).1 in
      let freed = release_lem amount positive in
      let whole = database_remaining b in
      let found' : budgets_of agent_id currency w'.db.budgets ≡ b ∷ [] = rw freed.2 found in
      let all : available redis agent_id currency b w'.cache ≡ whole =
        rw (freed.1 key, eq_refl key) (ground arith) in
      let covered : too_much redis agent_id currency b whole w'.cache ≡ false =
        rw (all, too_much) (redis.lt-IsExact whole whole exact exact ∙ ground arith) in
      let left : Option ℤ = some (
        of_int (
          redis.to_reply (
            redis.sub (redis.tonumber (available redis agent_id currency b w'.cache))
              (redis.tonumber whole)))) in
      (
        left,
        ap (λ (r : Result (Bool × Option ℤ) × World redis.State). r.0)
            (reserve_granted redis agent_id currency whole w' b found' active (ground arith)
              (ground arith) covered),
      )
