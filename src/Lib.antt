-- ===== src/Lib.antt =====
-- Marcel Arch, a governance control plane between agents and their tools: the model of its core and
-- the theorems on it.
--
-- An intent of an agent is evaluated by the policy engine (marcel/core/engine.py), which asks the
-- budget governor (same file) for what is left of the agent's budget. A reservation holds an amount
-- in Redis, a commit books it in the ledger of the database, and each event is appended to a log
-- whose rows are chained by hashes and signed (marcel/security/audit.py). The interceptor
-- (marcel/core/interceptor.py) puts these together around the run of a tool, and waits for a human
-- where the decision asks for one; the human answers through marcel/api/router.py.
--
-- The state is a `World`: the tables of the database and the keys of the Redis server. A method that
-- takes a session is an `Action`, a function from a world to a result and a world; what Python
-- raises is a value of the type `Exn`, and what was written before it stays written.
--
-- Prelude    numbers, texts, lists, results and actions that the other modules share
-- Value      JSON values, and Python's == on them (Value/Equality)
-- Decimal    decimals as texts: what Decimal(text) reads and how it compares with an amount
-- Models     the rows of marcel/models/database.py
-- Schemas    the messages of marcel/schemas.py; Validators has their constraints and validators
-- World      the state, and a session's transaction
-- Formats, Redis, Services, Digests
--            what the code calls and does not implement, as records of operations with the laws that
--            are relied on: str, json.dumps and the stripping of texts by pydantic; GET, SET and the
--            numbers of Lua; the order of the policies; SHA-256, HMAC and isoformat. Redis/Memory is a server with exact numbers, on
--            which the tests run
-- Governor   TokenBucketGovernor: remaining, reserve with its script, commit, release, reset
-- Conditions _matches and the tests of the rule conditions
-- Rules      RuleResult and _evaluate_policy
-- Engine     DeterministicPolicyEngine.evaluate; Engine/Decide is its last part and _base_risk
-- Json       canonical_json of marcel/security/audit.py with what it uses of json.dumps, and a
--            reader of its texts
-- Audit      AuditSigner, and append and verify_chain of AuditLogger
-- Hitl       the transactions that wait for a human: _create_or_get_hitl, _get_transaction_status and
--            _expire_transaction of the interceptor, resolve_hitl of the router
-- Waiting    _await_resolution and _resolution_decision. What other sessions do meanwhile is a list of
--            rounds of the loop; behind the last round that is given the call still waits
-- Interceptor
--            evaluate_or_wait, execute, wrap, _commit_execution, _record_execution_failure
-- Tables     the rows that the endpoints write and the responses that they read off them
-- Router     the endpoints of marcel/api/router.py as calls: register_agent, upsert_budget, create_policy,
--            evaluate_intent, get_hitl
-- Config     Settings of marcel/config.py with its validators, and the options of the engine of
--            marcel/models/database.py
-- Jwt        PyJWT, as a record of operations with the law that is relied on
-- Auth       create_access_token, require_principal and require_role of marcel/security/auth.py, and
--            issue_token of the router
-- Endpoints  a request, with its credentials and its message, as it passes require_role, the validation
--            and the body of its endpoint; Endpoints/Intents does so for evaluate_intent
-- System     the calls of the endpoints and of the interceptor as steps on one world
-- Ledger     the rows of the budgets as an abstract ledger, an account for each agent and currency
-- App        lifespan, create_app and the handler of exceptions of main.py, and the endpoint
--            health, as the calls that go outside in their order
-- Samples    test data: toy digests, an in-memory server, tokens that are their claims
--
-- The children of a module hold its theorems, by what they are about, and its tests. Each
-- definition has the name of the function that it models, without a leading underscore; a loop or
-- the rest of a function behind an early return is a definition of its own.
--
-- Numbers: an amount is an integer count of 10^-40, finer than the four digits of the columns and
-- than anything that Lua prints of the amounts in use; sums of amounts stay within the 28 digits of
-- Python's context, since a column has 18. A float of a policy is its repr. A time is a count of
-- microseconds, and the current time is an argument. `str_nat` and the loops of Value/Equality run
-- on fuel that the number itself gives, one unit for each round, and each round makes it smaller.
-- `write_digits` of Json runs on fuel in the same way. The reader of Json has four units of fuel
-- for each character of its text.
--
-- Of marcel/core/engine.py lines 1 to 258 are modelled and of marcel/security/audit.py lines 1 to
-- 119: behind them both files hold a pasted, broken copy of what stands before. Not modelled: the
-- messages that are published; of main.py the configuration of the logging and the session middleware;
-- the parsing of JSON and of the environment, which is the libraries'; the locks and the concurrency
-- of database sessions within a transaction, and the expiry of keys; the stripping of the texts of
-- a response, which were stripped when they came in.
pub mod Prelude
pub mod Value
pub mod Decimal
pub mod Models
pub mod Schemas
pub mod Formats
pub mod Redis
pub mod World
pub mod Services
pub mod Governor
pub mod Conditions
pub mod Rules
pub mod Engine
pub mod Json
pub mod Digests
pub mod Audit
pub mod Hitl
pub mod Waiting
pub mod Interceptor
pub mod Tables
pub mod Router
pub mod System
pub mod Config
pub mod Jwt
pub mod Auth
pub mod Validators
pub mod Ledger
pub mod Endpoints
pub mod App
pub mod Samples
