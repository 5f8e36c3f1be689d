-- ===== src/App.antt =====
-- src/main.py, and the `health` endpoint of marcel/api/router.py: the calls that go to the server and
-- to the database's driver, in their order. `outside` says how each call ends.
pub mod Lifespan
mod Tests
use marcel_arch.Prelude.{ℕ, String, Bool, true, false, List, [], ◌∷◌, ◌++◌}
use marcel_arch.Prelude.Result.{Result, ok, err}
use marcel_arch.Prelude.Action.{Action, pure, lift, ◌>>=◌, ◌>>◌}
use marcel_arch.Value.{str, Fields, end, field}
use marcel_arch.Schemas.{HealthResponse}
use marcel_arch.Audit.{AuditSigner, make_signer}
use marcel_arch.Config.{Settings, EngineOptions, engine_options}

-- What `create_app` gives the application and its CORS middleware.
pub record AppOptions : Type 0 where
  pub title : String
  pub version : String
  pub allow_origins : List String
  pub allow_credentials : Bool
  pub allow_methods : List String
  pub allow_headers : List String

unfoldable pub create_app : Settings → AppOptions
create_app settings = record {
  title = settings.app_name;
  version = settings.app_version;
  allow_origins = settings.cors_origins;
  allow_credentials = false;
  allow_methods = "GET" ∷ "POST" ∷ "PUT" ∷ [];
  allow_headers = "Authorization" ∷ "Content-Type" ∷ [];
}

pub record JsonResponse : Type 0 where
  pub status_code : ℕ
  pub content : Fields

-- The answer to an exception, whatever its class and text.
unfoldable pub unhandled_exception_handler : String → String → JsonResponse
unhandled_exception_handler error_type error = record {
  status_code = 500;
  content = field "detail" (str "Internal server error") end;
}

-- `app.state`: the settings, the options of the engine that it and the sessions come from, the
-- server's URL, and the signer of the log. The governor, the engine of policies and the interceptor
-- are made of these.
pub record AppState : Type 0 where
  pub settings : Settings
  pub engine : EngineOptions
  pub redis_url : String
  pub signer : AuditSigner

unfoldable pub app_state : Settings → AuditSigner → AppState
unfolding engine_options
app_state settings signer = record {
  settings = settings;
  engine = engine_options settings;
  redis_url = settings.redis_url;
  signer = signer;
}

pub data Call : Type 0 where
  create_engine : EngineOptions → Call
  from_url : String → Call
  ping : Call
  create_database_schema : Call
  -- the `yield`, while which requests are served
  serving : AppState → Call
  aclose : Call
  dispose : Call
  -- `session.execute(select(1))`
  select_one : Call

module _ (outside : Call → Result (Unit {0})) where
  abbrev pub call : Call → Action (List Call) (Unit {0})
  call c calls = (outside c, calls ++ c ∷ [])

  -- `try: ... finally: ...`: what the last part raises takes the place of what the body ends in.
  abbrev pub last_raise : {A : Type 0} → Result A → Result (Unit {0}) → Result A
  last_raise r (ok done) = r
  last_raise r (err e) = err e

  abbrev pub try_finally :
      {A : Type 0} → Action (List Call) A → Action (List Call) (Unit {0}) → Action (List Call) A
  try_finally body last calls =
      let (r, between) = body calls in let (q, after) = last between in (last_raise r q, after)

  unfoldable pub close : Action (List Call) (Unit {0})
  close = call aclose >> call dispose

  unfoldable pub lifespan : Settings → Action (List Call) (Unit {0})
  unfolding close app_state engine_options make_signer
  lifespan settings = do
    call (create_engine (engine_options settings))
    call (from_url settings.redis_url)
    call ping
    call create_database_schema
    signer ← lift (make_signer settings.audit_hmac_key)
    try_finally (call (serving (app_state settings signer))) close

  unfoldable pub health : Action (List Call) HealthResponse
  health = do
    call ping
    call select_one
    pure (record { status = "ok"; database = "ok"; redis = "ok" })
