-- ===== src/Config/Cached.antt =====
-- `get_settings` called again.
use marcel_arch.Prelude.{◌≡◌, Option, none, some, ap}
use marcel_arch.Prelude.Result.{Result, ok, err, ok-injective}
use marcel_arch.Config.{Settings, get_settings}

-- Once settings were returned, every later call returns the same ones, whatever the environment holds
-- by then.
pub get_settings_again :
    (built later : Result Settings) (cache : Option Settings) (s : Settings)
    → (get_settings built cache).0 ≡ ok s
    → get_settings later (get_settings built cache).1 ≡ (ok s, some s)
unfolding get_settings
get_settings_again built later (some kept) s h =
    let same : kept ≡ s = ok-injective h in ap (λ (k : Settings). (ok k, some k)) same
get_settings_again (ok made) later none s h =
    let same : made ≡ s = ok-injective h in ap (λ (k : Settings). (ok k, some k)) same
get_settings_again (err e) later none s h = absurd (cc h)
