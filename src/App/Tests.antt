-- ===== src/App/Tests.antt =====
-- Runs of `lifespan` and `health` with a server that answers, and with one that does not.
use marcel_arch.Prelude.{String, ◌≡◌, ◌⊎◌, refl, Option, some, [], ◌∷◌, ◌++◌}
use marcel_arch.Prelude.Result.{Result, ok, err, operation_error}
use marcel_arch.Value.{str, end, field}
use marcel_arch.Config.{validate, engine_options}
use marcel_arch.Samples.{settings}
use marcel_arch.App.{
  Call, create_engine, from_url, ping, serving, aclose, dispose, create_app,
  unhandled_exception_handler, app_state, lifespan, health,
}
use marcel_arch.App.Lifespan.{startup, Served, Aborted, lifespan_lem}

abbrev answers : Call → Result (Unit {0})
answers c = ok tt

abbrev no_answer : Call → Result (Unit {0})
no_answer ping = err (operation_error "ConnectionError" "refused")
no_answer c = ok tt

abbrev toy_scheme : String → Option String
toy_scheme url = some "redis"

fits : validate toy_scheme settings ≡ ok settings
unfolding validate
fits = refl

serves : lifespan answers settings [] ≡ (
  ok tt,
  startup settings
      ++ serving (app_state settings (record { key = settings.audit_hmac_key }))
        ∷ aclose
        ∷ dispose
        ∷ [],
)
unfolding lifespan
serves = refl

aborts : lifespan no_answer settings [] ≡ (
  err (operation_error "ConnectionError" "refused"),
  create_engine (engine_options settings) ∷ from_url settings.redis_url ∷ ping ∷ [],
)
unfolding lifespan
aborts = refl

lifespan_lem_example :
    Served no_answer settings (lifespan no_answer settings [])
    ⊎ Aborted no_answer settings (lifespan no_answer settings [])
lifespan_lem_example = lifespan_lem no_answer settings toy_scheme settings fits

healthy : (health answers []).0 ≡ ok (record { status = "ok"; database = "ok"; redis = "ok" })
unfolding health
healthy = refl

no_server : health no_answer [] ≡ (err (operation_error "ConnectionError" "refused"), ping ∷ [])
unfolding health
no_server = refl

origins : (create_app settings).allow_origins ≡ settings.cors_origins
unfolding create_app
origins = refl

hides :
    (unhandled_exception_handler "ValueError" "a secret").content
    ≡ field "detail" (str "Internal server error") end
unfolding unhandled_exception_handler
hides = refl
