-- ===== src/Lib.antt =====
-- Realmroot is an identity and authorization server. This library models the part of it that decides
-- who may do what: the scopes that roles, entitlements and applications give, the authorization of a
-- request in a tenant, the exchange, refresh and introspection of tokens, the identities of agents, and
-- Organizations with their members.
--
-- The parts, and how they stand on each other:
--   Prelude          lists, options, Boolean tests and scope texts that the parts share
--   Errors           server/domain/errors.ts, and computations that may throw: Result reads the store
--                    only, Exec also writes it, and keeps what was written before an error
--   Json             JSON values and the readers of claims in server/usecases/token-exchange.ts
--   Scopes           shared/scope-registry.ts, shared/organization-access.ts, shared/authz.ts
--   Directory        the rows that are read, and the finders of server/adapters/repos: a query takes
--                    the first row that its conditions select
--   Context          server/domain/authorization-context.ts
--   Membership       server/usecases/organization-membership-scopes.ts, resource-visibility.ts,
--                    system-resources.ts, and the two names of server/domain that they use
--   Entitlements     server/usecases/resource-scope-entitlements.ts, and the filter of
--                    server/adapters/repos/resource-scope-entitlement-filters.ts (Expiry)
--   Authz            server/http/middleware/authz.ts; Inventory has the lists of tenants
--   TokenExchange    server/usecases/token-exchange.ts, in its children:
--     Store            the token tables of server/adapters/repos/token-exchange.ts; Rotation has the
--                      steps that concurrent requests take on them
--     Client           server/usecases/oauth-client-authentication.ts, and what comes before a refresh
--     Grants           scopes, audiences and credentials of an application
--     Assertion        parsing and verifying a federated subject token
--     Federated, Delegated, Identity, Exchange
--                      the kinds of exchange, and `exchangeToken`, which chooses among them
--     Keys             the public keys that a federated credential may have
--     Issue, Refresh, Introspect, Audit
--                      signing, `refreshToken`, `introspectToken`, and the audit rows
--   Agents           server/usecases/agent-identities.ts and server/adapters/repos/agent-identities.ts:
--     Store            the tables and their unique indexes; Writes has the batches
--     Enroll, Intents, Manage
--                      the use cases
--     Steps, Sound     the steps that concurrent requests take on the tables, and their invariant
--     Runs             the requests, as steps
--     Lasting          what later requests do not undo
--     Replays          an enrollment that is sent twice
--   Organizations    server/usecases/authorization.ts, the part on Organizations, members and invitations:
--     Roles            the column of a member's roles, and SQLite's LIKE, by which one is looked for
--     Store            the queries and writes of server/adapters/repos/authorization.ts; Writes has
--                      those under a condition
--     Guards, Handlers the use cases, and what they read and refuse first
--     Steps, Owned     the steps that concurrent requests take, and that an owner remains
--     Runs             the requests, as steps
--     Keys, Removed, Refused
--                      what a removal takes away, and whom it refuses
--   Pagination       shared/api/pagination.ts and server/http/middleware/pagination.ts
--   Tests            a small realm on which the theorems are tried
--
-- A function has the name of its source in this library's spelling: `resolveAuthorizationContext` is
-- `resolve_authorization_context`. A function that is long in the source is split at its guards, and
-- what the source awaits in parallel is read where it is first tested, so that the errors come in the
-- source's order. Handlers take the database as a Directory and, where they write, a State: the two
-- token tables, the audit log, a count of fresh values drawn, and the time, which one request reads
-- once. A batch of statements is one step on the State.
--
-- What the code calls and does not define is a field of `Services` and so a parameter: hashing,
-- signing, verification, base64url and JSON decoding, the fetch of keys, identifiers and random bytes. A
-- service that may throw returns an option. No law is assumed of them; the theorem that a refresh
-- succeeds assumes of the identifiers that the new one is not taken.
--
-- Times are natural numbers of milliseconds, and a claim of seconds is multiplied or divided as in the
-- source; a number in a claim is a natural number, so that negative, fractional and infinite claims are
-- not modelled. Nothing needs fuel: every loop of these parts runs over a list or a text.
--
-- The components that change tables of their own, Agents and Organizations, pass a record of those tables
-- and end in a result beside it (Errors.Exec): what was written before an error stays written, but a batch
-- that fails leaves nothing. Concurrent requests are sequences of steps, a batch each (Reaches of
-- Prelude.Relations).
--
-- The use cases of agent identities that revoke access to resources take that revocation as a parameter:
-- it writes tables of its own. The user rows that foreign keys name are taken to be there. Of the triggers
-- that keep a deleted account from new rows, the one on inserted members is in Organizations.Store; the
-- deletion of accounts itself is not modelled.
--
-- The numbers of Pagination are the source's while the offset and the total are below 2 ^ 53; what is
-- stated of a caller's page assumes that.
--
-- Not modelled: sessions and bearer authentication, the keys and tokens of agents, the creation of an
-- agent by an application, external resources and access requests, connectors, webhooks, the management
-- of roles, resources, entitlements, applications and federated credentials but for the check of their
-- keys, the acceptance of an invitation, the HTTP routes, the migrations and the web client.
pub mod Prelude
pub mod Errors
pub mod Json
pub mod Scopes
pub mod Agents
pub mod Organizations
pub mod Pagination
pub mod Directory
pub mod Context
pub mod Membership
pub mod Entitlements
pub mod Authz
pub mod TokenExchange
pub mod Tests
