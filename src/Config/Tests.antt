-- ===== src/Config/Tests.antt =====
-- The settings that the program has by default, with PostgreSQL, and an empty list of origins.
use marcel_arch.Prelude.{String, ◌≡◌, refl, Option, some, []}
use marcel_arch.Prelude.Result.{ok, err, validation_error}
use marcel_arch.Config.{validate, engine_options}
use marcel_arch.Config.Usable.{IsUsable, validate-IsUsable}
use marcel_arch.Samples.{settings}

abbrev toy_scheme : String → Option String
toy_scheme url = some "redis"

fits : validate toy_scheme settings ≡ ok settings
unfolding validate
fits = refl

no_origins : validate toy_scheme (record settings { cors_origins = [] }) ≡ err validation_error
unfolding validate
no_origins = refl

pool : (engine_options settings).pool_size ≡ some 10
unfolding engine_options
pool = refl

validate-IsUsable_example : (settings ≡ settings) × IsUsable toy_scheme settings
validate-IsUsable_example = validate-IsUsable toy_scheme settings settings fits
