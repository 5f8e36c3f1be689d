-- ===== src/Validators/Actions.antt =====
-- The allowed actions of an agent, as `validate_actions` leaves them.
use Prim.Native.String.{count}
use marcel_arch.Prelude.{
  ◌≤◌, String, ◌≡◌, ◌≢◌, refl, ap, sym, subst, eq_iff, ◌∙◌, ◌⊎◌, Bool, true, false, List, [], ◌∷◌,
  map, ◌==◌, ◌&&◌, ◌||◌, not, inl, inr, arith, any, keep, All, Bool-cases,
}
use marcel_arch.Prelude.Result.{Result, ok, err, ok-injective, validation_error}
use marcel_arch.Conditions.{member}
use marcel_arch.Engine.{sorted_set}
use marcel_arch.Engine.Ids.{
  IsIncreasing, sorted_set-IsIncreasing, sorted_set-of_IsIncreasing, any-sorted_set,
}
use marcel_arch.Validators.{strip, normalized, too_long, check_actions, validate_actions}
use marcel_arch.Validators.Strip.{strip-strip}

abbrev filled : String → Bool
filled action = not (strip action == "")

any-stripped :
    (p : String → Bool) (value : List String)
    → any p (map strip (keep filled value))
      ≡ any (λ action. filled action && p (strip action)) value
any-stripped p [] = refl
any-stripped p (a ∷ value) = elim (Bool-cases (filled a)) [
  | inl e ↦ simp (e, any-stripped p value) refl
  | inr e ↦ simp (e, any-stripped p value) refl
]

any-normalized :
    (p : String → Bool) (value : List String)
    → any p (normalized value) ≡ any (λ action. filled action && p (strip action)) value
unfolding normalized
any-normalized p value = any-sorted_set p (map strip (keep filled value)) ∙ any-stripped p value

-- What no member is, every member is not.
All-of_any :
    {P : String → Type 0} (p : String → Bool) (ss : List String)
    → ((s : String) → p s ≡ false → P s)
    → any p ss ≡ false
    → All P ss
All-of_any p [] h e = tt
All-of_any p (s ∷ ss) h e = (h s (ground arith), All-of_any p ss h (ground arith))

-- Stripped, not empty, and of 256 characters at most.
pub record IsAction (action : String) : Type 0 where
  pub stripped : strip action ≡ action
  pub filled : (action == "") ≡ false
  pub short : count action ≤ 256

pub record Normal (value actions : List String) : Type 0 where
  pub increasing : IsIncreasing actions
  pub each : All IsAction actions
  pub some : actions ≢ []
  pub members :
      (k : String)
      → member k actions ≡ any (λ action. not (strip action == "") && (strip action == k)) value

abbrev pub ActionsSpec : List String → Result (List String) → Type 0
ActionsSpec value (ok actions) = Normal value actions
ActionsSpec value (err e) =
    (e ≡ validation_error)
    × ((any (λ action. not (strip action == "")) value ≡ false)
        ⊎ (any (λ action. too_long (strip action)) value ≡ true))

any-cong :
    (p q : String → Bool) (ss : List String) → ((s : String) → p s ≡ q s) → any p ss ≡ any q ss
any-cong p q [] h = refl
any-cong p q (s ∷ ss) h = rw (h s, any-cong p q ss h)

any-never : (p : String → Bool) (ss : List String) → ((s : String) → p s ≡ false) → any p ss ≡ false
any-never p [] h = refl
any-never p (s ∷ ss) h = rw (h s, any-never p ss h)

any-implies :
    (p q : String → Bool) (ss : List String)
    → ((s : String) → p s ≡ true → q s ≡ true)
    → any p ss ≡ true
    → any q ss ≡ true
any-implies p q (s ∷ ss) h e = elim (Bool-cases (p s)) [
  | inl here ↦ let there = h s here in ground arith
  | inr not_here ↦ let there = any-implies p q ss h (ground arith) in ground arith
]
any-implies p q [] h e = absurd (cc e)

any-or :
    (p q : String → Bool) (ss : List String) → any (λ s. p s || q s) ss ≡ (any p ss || any q ss)
any-or p q [] = refl
any-or p q (s ∷ ss) = ground (arith, any-or p q ss)

check_actions-ok : (ss actions : List String) → check_actions ss ≡ ok actions → ss ≡ actions
check_actions-ok [] actions h = absurd (cc h)
check_actions-ok (s ∷ ss) actions h = elim (Bool-cases (any too_long (s ∷ ss))) [
  | inl e ↦ absurd (cc (rw e at h))
  | inr e ↦ ok-injective (rw e at h)
]

stripped-each : (ss : List String) → All IsAction ss → map strip (keep filled ss) ≡ ss
stripped-each [] h = refl
stripped-each (s ∷ ss) h = simp (h.0.stripped, h.0.filled, stripped-each ss h.1) refl

module _ (value : List String) where
  none_unstripped : any (λ s. not (strip s == s)) (normalized value) ≡ false
  none_unstripped =
      any-normalized (λ s. not (strip s == s)) value
      ∙ any-never (λ a. filled a && not (strip (strip a) == strip a)) value
          (λ a. ground (arith, (eq_iff (strip (strip a)) (strip a)).1 (strip-strip a)))

  none_empty : any (λ s. s == "") (normalized value) ≡ false
  none_empty =
      any-normalized (λ s. s == "") value
      ∙ any-never (λ a. filled a && (strip a == "")) value (λ a. ground arith)

  All-IsAction : any too_long (normalized value) ≡ false → All IsAction (normalized value)
  All-IsAction h =
      All-of_any (λ s. not (strip s == s) || (s == "") || too_long s) (normalized value)
        (λ s e. record {
          stripped = (eq_iff (strip s) s).0 (ground arith);
          filled = ground arith;
          short = ground arith;
        })
        (any-or (λ s. not (strip s == s) || (s == "")) too_long (normalized value)
          ∙ rw (
            any-or (λ s. not (strip s == s)) (λ s. s == "") (normalized value),
            none_unstripped,
            none_empty,
            h,
          ))

  none_filled : normalized value ≡ [] → any filled value ≡ false
  none_filled h =
      any-cong filled (λ a. filled a && true) value (λ a. ground arith)
      ∙ sym (any-normalized (λ s. true) value)
      ∙ ap (any (λ s. true)) h

  some_long : any too_long (normalized value) ≡ true → any (λ a. too_long (strip a)) value ≡ true
  some_long h =
      any-implies (λ a. filled a && too_long (strip a)) (λ a. too_long (strip a)) value
        (λ a e. ground arith) (sym (any-normalized too_long value) ∙ h)

  Normal-normalized :
      any too_long (normalized value) ≡ false
      → normalized value ≢ []
      → Normal value (normalized value)
  unfolding normalized
  Normal-normalized short some = record {
    increasing = sorted_set-IsIncreasing (map strip (keep filled value));
    each = All-IsAction short;
    some = some;
    members = λ k. any-normalized (λ s. s == k) value;
  }

  check_lem :
      (actions : List String)
      → normalized value ≡ actions
      → ActionsSpec value (check_actions actions)
  check_lem [] e = (refl, inl (none_filled e))
  check_lem (a ∷ actions) e = elim (Bool-cases (any too_long (a ∷ actions))) [
    | inl long ↦ rw long (refl, inr (some_long (ap (any too_long) e ∙ long)))
    | inr short ↦
        rw short (
          subst (Normal value) e (Normal-normalized (ap (any too_long) e ∙ short) (λ h. cc (e, h))))
  ]

  -- What `validate_actions` accepts it turns into a list that is not empty and holds exactly the
  -- stripped forms of the actions that are more than white space, each once, in the order of their
  -- code points, and of 256 characters at most. It raises only where there is no such action or
  -- where one is longer when stripped.
  pub validate_actions_lem : ActionsSpec value (validate_actions value)
  unfolding validate_actions
  validate_actions_lem = check_lem (normalized value) refl

  -- What `validate_actions` returned it accepts again, and returns it unchanged.
  pub validate_actions-idempotent :
      (actions : List String)
      → validate_actions value ≡ ok actions
      → validate_actions actions ≡ ok actions
  unfolding validate_actions normalized
  validate_actions-idempotent actions h =
      let same = check_actions-ok (normalized value) actions h in
      let normal = subst (ActionsSpec value) h (check_lem (normalized value) refl) in
      ap check_actions (
        ap sorted_set (stripped-each actions normal.each)
        ∙ sorted_set-of_IsIncreasing actions normal.increasing
        ∙ sym same)
      ∙ h
