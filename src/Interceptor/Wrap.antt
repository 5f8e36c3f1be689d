-- ===== src/Interceptor/Wrap.antt =====
-- `wrap` of marcel/core/interceptor.py. A `Frame` stands for what one call reads beside its arguments;
-- the two builders return for every argument.
use marcel_arch.Prelude.{
  String, ◌≡◌, ap, ◌∙◌, Bool, true, Option, some, List, inl, inr, Bool-cases, if◌then◌else◌,
}
use marcel_arch.Prelude.Result.{Result, ok, err, type_error, ok-injective}
use marcel_arch.Prelude.Action.{Action}
use marcel_arch.Schemas.{ExecutionIntent}
use marcel_arch.World.{World}
use marcel_arch.Services.{Services}
use marcel_arch.Digests.{Digests}
use marcel_arch.Audit.{AuditSigner}
use marcel_arch.Waiting.{Frame, Round}
use marcel_arch.Interceptor.{ToolResult, execute}
use marcel_arch.Interceptor.Execute.{Ran, execute-Ran}

-- A function that is to be wrapped, with parameters `P`, and a wrapped one, over a server with states
-- `S`.
pub record ToolFunction (S P R : Type 0) : Type 0 where
  pub is_coroutine : Bool
  pub call : P → World S → ToolResult R × World S

abbrev pub Wrapped : Type 0 → Type 0 → Type 0 → Type 0
Wrapped S P R = Frame → P → List (Round S) → Action (World S) (Option R)

module _ (services : Services) (digests : Digests) (signer : AuditSigner) {P R : Type 0} where
  open services.redis use {State}

  module _ (intent_builder : P → ExecutionIntent) (actor_id_builder : P → String) where
    unfoldable pub wrapped : ToolFunction State P R → Wrapped State P R
    unfolding execute
    wrapped function frame args rounds =
        execute services digests signer frame (function.call args) (intent_builder args)
          (actor_id_builder args) rounds

    unfoldable pub wrap : ToolFunction State P R → Result (Wrapped State P R)
    unfolding wrapped
    wrap function = if function.is_coroutine then ok (wrapped function) else err type_error

    -- A function is wrapped only if it is a coroutine function; and where a call of the wrapped function
    -- returns, the tool has run for these arguments, once, with all that `execute` demands behind it.
    pub wrap-Ran :
        (function : ToolFunction State P R) (tool : Wrapped State P R)
        → wrap function ≡ ok tool
        → (function.is_coroutine ≡ true)
          × ((frame : Frame) (args : P) (rounds : List (Round State)) (w w' : World State) (r : R)
              → tool frame args rounds w ≡ (ok (some r), w')
              → Ran services digests signer frame
                  (intent_builder args)
                  (actor_id_builder args)
                  (function.call args)
                  rounds
                  w
                  w'
                  r)
    unfolding wrap
    wrap-Ran function tool h = elim (Bool-cases function.is_coroutine) [
      | inr e ↦ absurd (cc (simp e at h))
      | inl e ↦
          let same : wrapped function ≡ tool = ok-injective (simp e at h) in
          (
            e,
            λ frame args rounds w w' r returns.
                execute-Ran services digests signer frame (intent_builder args)
                  (actor_id_builder args) (function.call args) rounds w w' r
                  (ap (λ (f : Wrapped State P R). f frame args rounds w) same ∙ returns),
          )
    ]
