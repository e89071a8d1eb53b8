-- ===== src/Lib.antt =====
-- authgate is an OpenID Connect provider: it logs accounts in through an upstream provider, decides
-- which account may use which client, and issues, rotates and revokes tokens in PostgreSQL.
--
-- What models what:
--   Prelude, Strings: library names passed on, Boolean tests on the native numbers, lists, Go's
--     strings functions on bytes.
--   DomainName: internal/domainname (`Valid`); Labels describes the names that it accepts.
--   ClientAccess: internal/clientaccess/clientaccess.go (`New`, `Evaluate`, `matchesEmail`); Normalize
--     holds `normalizeDomain`, `normalizeEmail`, `EmailDomain` and `asciiLower`. Decisions, Normal,
--     Wildcards and Matching hold the theorems.
--   Client: internal/client (Model, the registry's lookups, the core resource policy) and
--     internal/adapter/mcp/policy.go (the policy around it); Resources holds the theorems. Config is the
--     checks of `LoadConfig` on the decoded clients.yaml and `Load`; Loaded holds their theorems.
--   Storage: internal/storage. Db has the tables, Rows the SQL operations on a table, Exec the
--     statements and transactions. Settings and Users hold the account reads. Refresh/Tables is
--     internal/db/storeq/refresh_tokens.sql.go; Refresh/Consume is refresh_consumption.go,
--     refresh_grace.go and refresh_redemption.go; Refresh/Issue is token_issuance.go and auth_code.go;
--     Refresh/Revoke is refresh_revocation.go.
--     Device/Tables is internal/db/storeq/device_codes.sql.go and Device the device authorization of
--     storage_oidc_device.go; Device/Once holds its theorem, over Device/Polls and Device/Resolved.
--     Lifecycle is user_lifecycle.go; Lifecycle/SignedOut holds its theorem. Cleanup is the batched
--     deletes of cleanup_runner.go over cleanup.sql.go; Cleanup/Drained holds their theorem.
--     Cleanup/Account is `DeleteUser` of cleanup_runner.go; Cleanup/Purged holds its theorem.
--     Audit is the allow-list of audit.go and `sanitize` of audit_logger.go; Audit/Sanitized and
--     Service/Rows hold the theorems.
--     AuthRequests is auth_requests.go over auth_requests.sql.go (AuthRequests/Tables); Kept and
--     Exchanged hold its theorems. Sessions is sessions.go over sessions.sql.go; LoggedOut and Valid
--     hold its theorems.
--   Storage/Exec/Keeps, Transactions and Posts are the proof rules for actions; Refresh/Entombed the
--   invariant of the tables; Refresh/Reads, Replayed, Redeem, Sound, Deletion, Ends and Reach its
--   preservation, up to sequences of calls; Refresh/Replay, Grace and CodeOnce the behaviour of single
--   operations.
--   Service: internal/service. Step is handlers with early returns over a state of the store, Store the
--     interface LoginStore with the requests and answers, Access is access.go, client_access.go and
--     audit_helper.go, Request is prompt.go and login_request.go, Login, Callback and Mcp are login.go,
--     login_callback.go and mcp_login.go, and Device with Device/Approval is device.go. Step/Rules is
--     proof rules; Approved, Signup, DeviceApproved, Refused, Prompts, Recovery, Answers and MaxAge
--     hold the theorems.
--   Cimd: internal/adapter/mcp/cimd*.go and internal/client/cimd.go. Url has what is used of net/url and
--     the canonical form, Hosts the allowlist, CacheControl the lifetimes, Metadata the validation of a
--     document and Fetcher the cache, the failure quota and `FetchClient`; Lifetimes, Allowed, Documents,
--     Sound and Again hold the theorems.
--   Signing: internal/signing. Json is `validBundleJSON` over the tokens of a document, Keys the fields
--     and the keys of bundle.go, Bundle the rest of it, and Provider is provider.go; Scan, Accepted,
--     Documents, Sound, Distinct, Parsed, Served and Integers hold the theorems.
--   Middleware: internal/middleware. TokenProfile is access_token_typ.go and Cors is cors.go, over Header
--     (http.Header); Fields, Scoped, Bound, Released and Enforced hold the
--     theorems.
--
-- How the state is modelled: an action takes a world and gives a result and a world. The state has the
-- committed tables, the tables as the open transaction sees them, the clock and the number of ids given
-- out; the world adds a list of faults, one entry for each statement to come, `true` for one that fails.
-- A transaction starts from the committed tables and ends with a rollback, which changes nothing after
-- a commit. Operations run one after the other: the family and row locks of the source serialise the
-- transactions on a family, and interleavings inside them are not modelled. The clock stands still
-- within an operation and moves between operations.
-- The services run over any store: its state is a type, and its operations are functions on it of which
-- nothing is assumed, so the theorems on a service hold for every behaviour of the database.
--
-- Parameters: the lookup hashes, the id and token generators, `uuid.Parse`, the state checker, the
-- resolution of a client, the resource policy and `timestamptz` are fields of `Settings`. The last is
-- what a column of that type keeps of a time, as PostgreSQL drops the nanoseconds: AuthRequests and
-- Sessions, whose rows are read back, apply it, and the other parts take their times as columns hold
-- them. The store, the clock and the query of a redirect (net/url) are fields of `Service`. The LRU
-- tables, the decoder and the HTTP request of the metadata documents are fields of `Fetcher`, and the
-- laws of an LRU (`IsLru`) a named hypothesis. That ids do not repeat is a named hypothesis. The
-- functions on text, JSON, PEM, RSA keys and base64 that a signing key bundle is read with are fields
-- of Signing's `Library`, and `Verify` of go-jose is a parameter; the same libraries, the signer and
-- the key source are fields of the `Library` of Middleware/TokenProfile.
--
-- Bounds: loops are structural recursion on lists. The loop of the batched deletes runs on fuel, of which
-- one more than the table has rows is enough. The check of a bundle's tokens runs on fuel, of which one
-- more than twice the number of tokens is enough for any list of tokens (Signing/Scan). The bytes of a
-- domain name are numbers; times are nanoseconds as natural numbers.
--
-- Not modelled: the SQL of sign-up and of the read by provider identity, which the services take as
-- operations of their store; the advisory lock of a cleanup, which is PostgreSQL's, the columns of the
-- audit log that anonymisation clears (addresses and user agents), and the timer of a cleanup
-- (internal/service/cleanup.go), which runs these steps in turn, each in spite of an error in another;
-- the transport of metadata documents, the rate limits, request ids and fixed headers of
-- internal/middleware, and internal/config, which are I/O and calls of libraries; informational statuses
-- and Hijack of the middleware's writers; log lines; and HTTP routing, templates, encryption, the
-- upstream provider and wiring.
pub mod Prelude
pub mod Strings
pub mod DomainName
pub mod ClientAccess
pub mod Client
pub mod Storage
pub mod Cimd
pub mod Middleware
pub mod Service
pub mod Signing
