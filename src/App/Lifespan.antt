-- ===== src/App/Lifespan.antt =====
-- The order in which `lifespan` opens and closes what it holds.
use marcel_arch.Prelude.{String, ◌≡◌, ◌⊎◌, refl, ap, ◌∙◌, inl, inr, Option, List, [], ◌∷◌, ◌++◌}
use marcel_arch.Prelude.Result.{Exn, Result, ok, err, Result-cases}
use marcel_arch.Audit.{AuditSigner, make_signer}
use marcel_arch.Config.{Settings, engine_options, validate}
use marcel_arch.Config.Usable.{validate-IsUsable}
use marcel_arch.App.{
  Call, create_engine, from_url, ping, create_database_schema, serving, aclose, dispose, app_state,
  last_raise, lifespan,
}

-- The calls before the first request.
abbrev pub startup : Settings → List Call
startup s =
    create_engine (engine_options s) ∷ from_url s.redis_url ∷ ping ∷ create_database_schema ∷ []

module _ (outside : Call → Result (Unit {0})) (s : Settings) where
  -- The calls at the end, and what they end in: where the server cannot be closed, the engine is not
  -- disposed of.
  abbrev pub closing : Result (Unit {0}) → List Call
  closing (ok done) = aclose ∷ dispose ∷ []
  closing (err e) = aclose ∷ []

  abbrev pub closed : Result (Unit {0}) → Result (Unit {0})
  closed (ok done) = outside dispose
  closed (err e) = err e

  -- A run that serves requests, and ends whatever they end in.
  pub record Served (out : Result (Unit {0}) × List Call) : Type 0 where
    pub engine : outside (create_engine (engine_options s)) ≡ ok tt
    pub redis : outside (from_url s.redis_url) ≡ ok tt
    pub pinged : outside ping ≡ ok tt
    pub schema : outside create_database_schema ≡ ok tt
    pub signer : AuditSigner
    pub signs : make_signer s.audit_hmac_key ≡ ok signer
    pub calls : out.1 ≡ startup s ++ serving (app_state s signer) ∷ closing (outside aclose)
    pub ending :
        out.0
        ≡ last_raise outside (outside (serving (app_state s signer))) (closed (outside aclose))

  -- A run in which a call of the startup raises: it is the last one.
  pub record Aborted (out : Result (Unit {0}) × List Call) : Type 0 where
    pub error : Exn
    pub before : List Call
    pub last : Call
    pub rest : List Call
    pub order : startup s ≡ before ++ last ∷ rest
    pub raised : outside last ≡ err error
    pub ended : out ≡ (err error, before ++ last ∷ [])

  -- Everything is opened: the requests are served, and the server and the engine are closed.
  all_open :
      (signer : AuditSigner)
      → make_signer s.audit_hmac_key ≡ ok signer
      → outside (create_engine (engine_options s)) ≡ ok tt
      → outside (from_url s.redis_url) ≡ ok tt
      → outside ping ≡ ok tt
      → outside create_database_schema ≡ ok tt
      → Served (lifespan outside s [])
  unfolding lifespan
  all_open signer signs q1 q2 q3 q4 =
      let run = lifespan outside s [] in
      let state = app_state s signer in
      let ends : (run.1 ≡ startup s ++ serving state ∷ closing (outside aclose))
          × (run.0 ≡ last_raise outside (outside (serving state)) (closed (outside aclose))) =
        elim (Result-cases (outside aclose)) [
          | inl (u, a) ↦ simp (q1, q2, q3, q4, signs, a) (refl, refl)
          | inr (e, a) ↦ simp (q1, q2, q3, q4, signs, a) (refl, refl)
        ] in
      record {
        engine = q1;
        redis = q2;
        pinged = q3;
        schema = q4;
        signer = signer;
        signs = signs;
        calls = ends.0;
        ending = ends.1;
      }

  lifespan-cases :
      (signer : AuditSigner)
      → make_signer s.audit_hmac_key ≡ ok signer
      → Served (lifespan outside s []) ⊎ Aborted (lifespan outside s [])
  unfolding lifespan
  lifespan-cases signer signs = elim (Result-cases (outside (create_engine (engine_options s)))) [
    | inr (e, q) ↦ inr (record {
      error = e;
      before = [];
      last = create_engine (engine_options s);
      rest = from_url s.redis_url ∷ ping ∷ create_database_schema ∷ [];
      order = refl;
      raised = q;
      ended = simp q refl;
    })
    | inl (u1, q1) ↦ elim (Result-cases (outside (from_url s.redis_url))) [
      | inr (e, q) ↦ inr (record {
        error = e;
        before = create_engine (engine_options s) ∷ [];
        last = from_url s.redis_url;
        rest = ping ∷ create_database_schema ∷ [];
        order = refl;
        raised = q;
        ended = simp (q1, q) refl;
      })
      | inl (u2, q2) ↦ elim (Result-cases (outside ping)) [
        | inr (e, q) ↦ inr (record {
          error = e;
          before = create_engine (engine_options s) ∷ from_url s.redis_url ∷ [];
          last = ping;
          rest = create_database_schema ∷ [];
          order = refl;
          raised = q;
          ended = simp (q1, q2, q) refl;
        })
        | inl (u3, q3) ↦ elim (Result-cases (outside create_database_schema)) [
          | inr (e, q) ↦ inr (record {
            error = e;
            before = create_engine (engine_options s) ∷ from_url s.redis_url ∷ ping ∷ [];
            last = create_database_schema;
            rest = [];
            order = refl;
            raised = q;
            ended = simp (q1, q2, q3, q) refl;
          })
          | inl (u4, q4) ↦ inl (all_open signer signs q1 q2 q3 q4)
        ]
      ]
    ]
  ]

  -- With settings that are valid, `lifespan` ends in one of two ways. The four calls of the startup
  -- return, the requests are served, and however they end the server is closed, and behind it the
  -- engine unless that raised. Or a call of the startup raises: then that is what is raised, no request
  -- is served, no later call is made, and neither the server nor the engine is closed.
  pub lifespan_lem :
      (scheme_of : String → Option String) (given : Settings)
      → validate scheme_of given ≡ ok s
      → Served (lifespan outside s []) ⊎ Aborted (lifespan outside s [])
  lifespan_lem scheme_of given h =
      let (same, usable) = validate-IsUsable scheme_of given s h in
      lifespan-cases (record { key = given.audit_hmac_key })
        (ap (λ (t : Settings). make_signer t.audit_hmac_key) same ∙ usable.signs)
