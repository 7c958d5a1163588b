-- ===== src/Lib.antt =====
-- A model of Open Agentic Threat Defense (OADTD): the policy engine with its inline tool-call
-- gateway, the HTTP handlers that put tool calls through it, the store with its audit chain, the
-- correlator, the response planner, licences, and the roles, logins and sessions that guard them.
--
-- A request goes through withAuth (internal/server/server.go) to a handler. An agent's tool call
-- reaches GateToolCall (internal/policy/gateway.go) by one of four handlers: decide, execute, the
-- HTTP proxy (server.go) and the MCP proxy (mcp.go). The engine evaluates it as an event (Evaluate
-- in engine.go) against the approved tools, the tenant's overlay (tenant.go) and the registered
-- canaries, follows taint from sources to sinks (taint.go), looks at what it remembers of the
-- session (gateway_history.go), and answers with a verdict, a score and alerts. The handler stores
-- the alerts and an action, forwards the call if it is allowed, and records an audit event; what
-- waits for approval is executed by the approval handler. The store (internal/store) keeps events,
-- alerts, response actions, audit records and assets for all tenants, drops what is older than its
-- retention window, writes a snapshot file, and links the audit records by their hashes.
--
-- Prelude         names and lemmas that all files share: tests, conditionals, lists
-- Go              what Go's library gives: strings and the printing of numbers (Strings), maps (an
--                 association list without repeated keys), the chains of fallible steps (Options,
--                 Results), the monad of handlers (Exec: a state, and an early end with a reply;
--                 Keeps and Yields are its logic of invariants), and the Platform: Unicode tables,
--                 codecs, digests, URLs and addresses, which are parameters of the model. Go/Ascii
--                 is a platform for runs on concrete input.
-- Domain          internal/domain/types.go, the records; a time is the number of nanoseconds since
--                 Go's zero time, so that 0 is IsZero
-- Policy/Text     gateway.go: gatewayTextVariants, gatewayContainsAny and the decoding of tokens;
--                 the depth of decoding is the source's own bound and not an addition of the model
-- Policy/Terms    the word lists of gateway.go, taint.go and engine.go
-- Policy/Engine   the state of the engine; Policy/Hosts, Policy/Tenants, Policy/Deception,
--                 Policy/Identity and Policy/Rules its operations (engine.go, tenant.go);
--                 Tenants/Overlays is a proof
-- Policy/Registry engine.go: AddDeceptionToken, SetDeceptionTokens and the search for a free id,
--                 whose fuel is the number of tokens; Fresh is its proof
-- Policy/Packs    threatpack.go: the built-in pack, loading and signing; Signed is a proof. Files,
--                 the environment and JSON are parameters.
-- Policy/Configuration
--                 engine.go: New and Reload; Reloads is a proof about an engine over time
-- Policy/Taint    taint.go
-- Policy/History  gateway_history.go; History/Bounds and History/Eviction are its proofs
-- Policy/Gateway  Assess is assessGatewayRequest, one function for each group of branches; Score is
--                 scoreGatewayRequest; Gate is GateToolCall. Stages, ScoreBounds, Verdicts, Alerts,
--                 Risk and Decisions are the proofs, from the branches up to the whole gateway.
-- Store           State is the Store of store.go, Operations its methods, Assets the asset map,
--                 Tenant the filters of tenant.go, AuditChain audit_chain.go, Persistence
--                 persistence.go, with JSON and the answer of os.ReadFile as arguments. Fingerprints,
--                 Approval, Grants, Isolation, AssetTenants, Retention, Chain, ChainGaps, Untouched
--                 and Others are the proofs.
-- Auth            internal/auth/auth.go: Roles are the roles, users and RequiredRoles, Authenticator
--                 the login backoff, revocation and lookup of principals, Sessions the signed
--                 cookies. Access, RoleSets, Logins and the children of Sessions are the proofs.
-- License         internal/license/license.go; Genuine and Issued are the proofs
-- Response        internal/response/planner.go: Planner is Plan, Plans its proofs
-- Correlation     internal/correlator/correlator.go: Correlator is Evaluate, Sequences its proofs
-- Server          server.go and mcp.go. State is the App with what its handlers cannot choose
--                 (World), Access is withAuth, Tenancy the tenants of a principal, Tenants the
--                 registry of tenant stores (tenants.go; Slugs and Redaction are its proofs),
--                 Actions what the handlers share, Gateway the handlers decide and execute, Upstream
--                 the validation of upstream URLs, Forward the requests that go out, Proxy and Mcp
--                 the two proxies, Approval the approval of actions and their execution, Ingest the
--                 events that come in, Planning the responses to alerts, Administration the canaries
--                 and overlays. Guard runs a handler behind withAuth. Limiter, Stable, Invariants,
--                 Gated, Denied, Blocked, Dispatched, Validated, Confined, Runs and Slots are the
--                 proofs: Runs are sequences of requests.
-- Examples        the theorems at concrete inputs
--
-- A method that takes a lock is one step of the model, and so is a request. In the engine and the
-- store the clock is an argument, read once for each time that the source reads it where the values
-- may differ; an operation that writes takes the error of writing the file, if there is one. The
-- handlers count their effects, and a World answers the nth of them: the clock, random bytes, the
-- outcome of a write, the answer of an upstream server or a connector. Any World will do, so every
-- failure is covered. Bodies arrive decoded, or as the error of decoding them; JSON, DNS, the
-- parsing of URLs, HMAC and Ed25519 are parameters. The store is the one of mode "memory" or "file",
-- and the handlers use one store for all tenants (the registry's logical mode); the stores of the
-- physical mode are in Server/Tenants. Numbers are natural: counters and scores start at 0 and only
-- grow, and 64 bits are not reached. Where Go leaves an order open (the order of a map, equal keys
-- of an unstable sort) the model takes the order of its list.
--
-- Not modelled: Postgres (internal/store/postgres.go), the agents, collectors, exporters and
-- commands, which are I/O around these parts; single sign-on (oidc.go, saml.go); the administration
-- of tenants (tenants.go); the handlers of server.go that only show records, and those of tenants,
-- policy files and demonstrations; metrics, webhooks and the writing of cookies; the concurrency
-- between two methods beyond the atomicity of each.
pub mod Prelude
pub mod Go
pub mod Domain
pub mod Policy
pub mod Store
pub mod Auth
pub mod License
pub mod Server
pub mod Response
pub mod Correlation
mod Examples
