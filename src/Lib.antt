-- ===== src/Lib.antt =====
-- tempogate is an authorization server: it signs people in through an upstream identity provider
-- and issues tokens to downstream clients. This library models the authorization endpoint, the
-- callback, the device authorization and its pages, the token and userinfo endpoints, the
-- permissions that they ask for, the admin API's integration keys, and the tables of the SQLite
-- store that they stand on.
--
-- Parts and files:
--   State/Refresh       state/sqlite/refresh.go, the refresh_tokens table
--   State/AuthCodes     state/sqlite/authcode.go, the auth_codes table
--   State/DeviceCodes   state/sqlite/device_codes.go, the device_codes table
--   State/AuthRequests    state/sqlite/authrequest.go, the auth_requests table
--   State/BrowserSessions state/sqlite/browser_sessions.go, the browser_sessions table
--   State/IntegrationKeys state/sqlite/integration_keys.go and jti_denylist.go, both their tables
--   State/Driver        what the database driver may answer to one call of a method
--   Oidc/Model          the types that the handlers and the store exchange (oidc/authcode.go,
--                       oidc/token.go, oidc/devicecode.go, oidc/authrequest.go,
--                       oidc/browsersession.go)
--   Perms               perms/perms.go, grants of roles in namespaces and their claim
--   Authz               authz/authz.go, the policy that resolves an address to a grant
--   Oidc/Client         oidc/client.go, the registry; Client/Redirects: redirect URIs,
--                       Client/Registry: ParseClientRegistry and WithSecrets
--   Oidc/Connector      oidc/connector.go, the upstream connectors
--   Oidc/Binding        oidc/upstreambinding.go, what binds a state to a browser
--   Oidc/Authorize      oidc/authorize.go and oidc/params.go, the authorization endpoint
--   Oidc/Callback       oidc/callback.go, the way back from the upstream provider
--   Oidc/Subject        oidc/authcode.go, the subject claim of a token
--   Oidc/UserCode       oidc/device_authorization.go, randomUserCode
--   Oidc/DeviceAuthorization  oidc/device_authorization.go, the start of a device sign-in
--   Oidc/Mac            oidc/mac.go, and the signed values of the session cookie and the bounce
--   Oidc/Session        oidc/session.go, the browser session of the device pages
--   Oidc/DeviceUi       oidc/device_ui.go, the device pages: UserCode, Bounce, Attempts are their
--                       parts, Pages and Decision the handlers
--   Oidc/UserInfo       oidc/userinfo.go, the userinfo endpoint
--   Ratelimit           ratelimit/ratelimit.go, the token buckets that throttle the device pages
--   Keys/Denylist       keys/denylist_cache.go; Keys/Verifier: keys/verifier.go, Verify
--   Admin               admin/keys.go, revoke; Admin/Guard: admin/guard.go, who may call it
--   Admin/Keys          admin/keys.go: get, list, delete; Admin/Keys/Create: create and mint, with
--                       Validate of admin/model.go
--   Oidc/Reply          the errors of the handlers, and their state passing
--   Oidc/Token          oidc/token.go: client authentication, PKCE, RedeemAuthorizationCode,
--                       revokeFamily; Oidc/Token/Issue: issue; Oidc/Token/BasicAuth: the header
--   Oidc/Grants         oidc/token.go and oidc/device_token.go: the three grants and dispatch
--   Common              tests, texts, rows of tables, keyed tables, and the names they share
-- The children of a file prove what their own headers say; files called Tests run the code on
-- concrete inputs.
--
-- A table is the list of its rows. A method of the store is a function from the rows to the rows
-- and its answer, with the WHERE clauses of its statements as Boolean tests on a row and each SET
-- as a function on a row; a primary key is tested where a row is inserted. SaveRefresh,
-- ConsumeRefresh and so on keep their names in snake_case. The methods of one connection run one
-- after the other, so the order of concurrent calls is a list of calls (RefreshCall, CodeCall,
-- DeviceCall). PollDeviceCode is its statements, poll_read, poll_swap and slow_down, one after
-- the other; what other calls write behind the first is a parameter of its model, and
-- State/DeviceCodes/Pace takes the statements of any number of polls in any order. A driver error
-- at each point where the code tests one is a Boolean of the Driver.
--
-- A handler of the token endpoint takes the tables of codes, refresh tokens and device codes to
-- these tables and a result: a value, an oauthError with its status, code and description,
-- errNoPermissions, or any other error. The signer, the permission resolver, the connectors, the
-- domain allowlist, the hashes and the lifetimes are fields of Server; the clock's readings, the
-- draws of random strings and the drivers of one request are fields of Request. A time is a
-- count of nanoseconds on ℕ.
--
-- The authorization endpoint and the callback take the tables of auth requests and codes in the
-- same way; a browser's way is authorize, then handle of the callback, then the grant. The
-- connector, url.Parse of net/url, the setting of query parameters, the reading of a cookie, HMAC
-- and strings.ToLower are arguments. A policy is a resolver of the token endpoint.
--
-- A handler of the device pages takes the tables, the browser sessions and the two limiters to the
-- same and an answer: a page with its status, or a redirect. A float64 of the limiter is a type
-- with operations. The order in which Go iterates the map of the denylist's cache is an argument,
-- as is what jwt.Parse accepts. What runs one after the other is a list of calls; a check whose
-- halves a revocation overtakes is written out in Keys/Denylist/Race.
--
-- The handlers of the admin API take the two tables of integration keys to the same and an
-- answer. The signer, uuid.Parse, the clock's readings and SQLite's order of texts, by which
-- ListIntegrationKeys sorts and compares ids, are arguments. The client that follows next_cursor
-- is written out in Admin/Keys/Walk; it finds a table of its own at each of its requests.
--
-- Fuel: make_room takes as many rounds as there are buckets, and each round drops one.
-- sample_code takes the number of reads of the random source, of which eight are enough when each
-- holds a usable byte; mint takes the three attempts of the source; the client of the listing
-- takes its requests, of which one more than there are rows are enough. Every other recursion is
-- on a list or a text.
--
-- Not modelled: HTTP, JSON and headers, logs, audit lines, metrics and spans, the wrapping of
-- error texts, cancellation, the texts of configuration errors, HTML. The PostgreSQL store makes
-- the same promises with other statements and is left out, and so are the reaper of expired rows,
-- the sessions and signing keys of the admin API, the retirement of signing keys, the limits per
-- endpoint, the loading of the configuration, the upstream providers' HTTP and the command line:
-- they are I/O, wiring, calls of libraries, or reads over the tables above. SHA-256 and its
-- base64url are parameters; that HMAC has no collisions is a hypothesis where a theorem needs it.
pub mod Common
pub mod Perms
pub mod Ratelimit
pub mod Keys
pub mod Admin
pub mod Authz
pub mod Oidc
pub mod State
