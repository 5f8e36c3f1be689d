-- ===== src/Router/Creation.antt =====
-- `register_agent` and `create_policy`: what they write, and when they raise.
use marcel_arch.Prelude.{
  ℕ, String, ◌≡◌, refl, ap, ◌∙◌, ◌⊎◌, Bool, true, false, [], ◌∷◌, ◌++◌, inl, inr, any, Bool-cases,
}
use marcel_arch.Prelude.Int.{pos}
use marcel_arch.Prelude.Result.{Exn, Result, ok, err, http_exception}
use marcel_arch.Prelude.Action.{pure, continue}
use marcel_arch.Value.{Fields, str, int, end, field}
use marcel_arch.Models.{AuditLog}
use marcel_arch.Schemas.{AgentCreate, PolicyCreate}
use marcel_arch.World.{World, settle}
use marcel_arch.Services.{Services}
use marcel_arch.Digests.{Digests}
use marcel_arch.Audit.{AuditSigner, append}
use marcel_arch.Audit.Append.{AppendSpec, append_lem}
use marcel_arch.Tables.{
  agent_response, policy_response, new_agent, new_policy, same_agent, same_policy,
}
use marcel_arch.Router.{register_agent, create_policy}

module _ (services : Services) (digests : Digests) (signer : AuditSigner) (subject : String)
    (now logged_at : ℕ) (w : World services.redis.State) where
  open services.redis use {State}

  -- A call that adds a row leads from `w` to `added` and then logs: it returns `response` with the
  -- entry behind the log, or it has changed nothing, since the row was taken, and then the exception
  -- is `conflict`, or since the log raised.
  abbrev pub AddSpec :
      {A : Type 0}
      → (taken : Bool) (conflict : Exn) (added : World State) (event_type : String) → Fields
      → A
      → Result A × World State
      → Type 0
  AddSpec taken conflict added event_type fields response (ok a, w') =
      (a ≡ response)
      × (taken ≡ false)
      × ((entry : AuditLog) × (w' ≡ record added {
        db = record added.db { audit_logs = added.db.audit_logs ++ entry ∷ [] };
      }))
  AddSpec taken conflict added event_type fields response (err e, w') =
      (w' ≡ w)
      × (((taken ≡ true) × (e ≡ conflict))
          ⊎ ((append digests signer event_type subject fields logged_at added).0 ≡ err e))

  finish :
      {A : Type 0} (conflict : Exn) (added : World State) (event_type : String) (fields : Fields)
      (response : A) (out : Result AuditLog × World State)
      → added.cache ≡ w.cache
      → append digests signer event_type subject fields logged_at added ≡ out
      → AppendSpec digests signer event_type subject fields logged_at added out
      → AddSpec false conflict added event_type fields response
          (settle w.db (continue out.0 (λ _. pure response) out.1))
  finish conflict added event_type fields response (ok entry, w') c e h =
      (refl, refl, (entry, h.state))
  finish conflict added event_type fields response (err x, w') c e h = (
    ap (λ (v : World State). record v { db = w.db }) h.0
        ∙ ap (λ (k : State). record w { cache = k }) c,
    inr (ap (λ (o : Result AuditLog × World State). o.0) e),
  )

  module _ (payload : AgentCreate) where
    abbrev pub with_agent : World State
    with_agent = record w {
      db = record w.db { agents = w.db.agents ++ new_agent payload now ∷ [] };
    }

    abbrev agent_fields : Fields
    agent_fields = field "agent_id" (str payload.id) end

    -- Where `register_agent` returns, no agent had the id, the new one is active and stands behind
    -- the others, the log has one more row, and all else is as before. Where it raises nothing has
    -- changed: the exception is 409 if the id was taken, or the log's.
    pub register_agent_lem :
        AddSpec
          (any (same_agent (new_agent payload now)) w.db.agents)
          (http_exception 409 "Agent ID already exists")
          with_agent
          "agent_registered"
          (field "agent_id" (str payload.id) end)
          (agent_response (new_agent payload now))
          (register_agent services digests signer payload subject now logged_at w)
    unfolding register_agent
    register_agent_lem = elim (Bool-cases (any (same_agent (new_agent payload now)) w.db.agents)) [
      | inl clash ↦ simp clash (refl, inl (refl, refl))
      | inr free ↦ simp free (
          finish _ with_agent "agent_registered" agent_fields _
            (append digests signer "agent_registered" subject agent_fields logged_at with_agent)
            refl refl
            (append_lem digests signer "agent_registered" subject agent_fields logged_at
              with_agent))
    ]

  module _ (id : String) (payload : PolicyCreate) where
    abbrev pub with_policy : World State
    with_policy = record w {
      db = record w.db { policies = w.db.policies ++ new_policy id payload now ∷ [] };
    }

    abbrev pub policy_fields : Fields
    policy_fields =
        field "policy_id" (str id)
          (field "name" (str payload.name) (field "version" (int (pos payload.version)) end))

    -- Where `create_policy` returns, no policy had the name and the version, the new one stands behind
    -- the others, the log has one more row, and all else is as before. Where it raises nothing has
    -- changed: the exception is 409 if the id or the name and the version were taken, or the log's.
    pub create_policy_lem :
        AddSpec
          (any (same_policy (new_policy id payload now)) w.db.policies)
          (http_exception 409 "Policy name and version already exist")
          with_policy
          "policy_created"
          policy_fields
          (policy_response (new_policy id payload now) payload.definition)
          (create_policy services digests signer id payload subject now logged_at w)
    unfolding create_policy
    create_policy_lem =
        elim (Bool-cases (any (same_policy (new_policy id payload now)) w.db.policies)) [
          | inl clash ↦ simp clash (refl, inl (refl, refl))
          | inr free ↦ simp free (
              finish _ with_policy "policy_created" policy_fields _
                (append digests signer "policy_created" subject policy_fields logged_at with_policy)
                refl refl
                (append_lem digests signer "policy_created" subject policy_fields logged_at
                  with_policy))
        ]
