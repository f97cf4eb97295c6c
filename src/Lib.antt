-- ===== src/Lib.antt =====
-- mock-oidc: the Entra emulation (internal/entra), the OAuth requests it parses (internal/oauth2) and
-- grants of the built-in issuer (internal/grant).
--
-- The server emulates Microsoft Entra ID for tests. A configuration of tenants, groups, users, apps and
-- consents is normalized and validated at the start; it lives in a copy-on-write store that an admin API
-- edits; sign-ins read a snapshot of it, keep their codes in a code store and ask a consent store; the
-- token endpoint takes a code and builds the claims of the tokens. The Graph surface accepts those
-- tokens and answers from the same snapshot: users, groups, members and managers, filtered, projected
-- and in pages.
--
-- - Prelude, Text, Assoc, Sorting, Clock: shared names; Go strings as lists of code points, with
--   strconv's Itoa and Atoi in Text.Decimal; Go maps from strings; sort.Slice by a text; times and
--   durations of package time.
-- - Json: the values of internal/jsonx/jsonx.go.
-- - Oauth2: internal/oauth2/request.go, error.go, tokenrequest.go and authrequest.go. A request is its
--   decoded parameters in order: `get` is url.Values.Get (the first value), `form_param` is FormParam
--   (the last one).
-- - Entra.Types, Entra.Errors: the configuration of internal/entra/config.go, rules of rule.go.
-- - Entra.Guid: internal/entra/uuid.go and the patterns of config.go.
-- - Entra.Lookup: the look-ups of config.go and directory.go. Entra.Rule: rule.go.
-- - Entra.Graphconfig, Entra.Normalize: normalizeGraph and normalize; Entra.Wellformed says what
--   normalize is for. Entra.Store: internal/entra/store.go.
-- - Entra.Consents: internal/entra/consent.go. Entra.Handler: the state of handler.go and the code store.
-- - Entra.Authorize, Entra.Token, Entra.Appcreds, Entra.Claims: authorize.go, token.go, appcreds.go and
--   claims.go. A step takes the request, the time and the random code, and gives a response and the
--   handler's next state. Entra.Adminconsent: adminconsent.go.
-- - Entra.Keys: internal/entra/keys.go. Entra.Verify: internal/entra/verify.go.
-- - Entra.Directory: the groups and members of internal/entra/directory.go.
-- - Entra.Filter: internal/entra/filter.go, with its lexer, its comparisons (Terms) and its connectives
--   (Parser). Entra.Odata: internal/entra/odata.go. Entra.Graph: internal/entra/graph.go and userinfo.go.
-- - Entra.Admin: internal/entra/admin.go, over the running emulation `Emulator` (the Handler of
--   handler.go). Entra.Server: the dispatch of handler.go and the helpers of testapi.go; a request takes
--   the emulation to the next one.
-- - Grant: the code store, the refresh tokens and the refresh grant of internal/grant, over callbacks
--   that are a type with two operations.
--
-- Bounds and conventions. A mutex makes each operation one step, so concurrency is a list of steps.
-- Snapshots are values, so the aliasing that cloneConfig guards against is not modelled. Text is
-- compared by code points, and letter case is ASCII's. A time is a natural number of nanoseconds. Go
-- integers are unbounded here, but for the durations that the expiry of a token is computed with,
-- which wrap around (Clock), and the numbers that strconv.Atoi reads (Text.Decimal). SHA-1, UTF-8,
-- SHA-256, url.QueryUnescape and url.Parse are parameters (`Digest`, `Library`); what the proofs need
-- of SHA-1 is `IsSha1`. A JWS's encoding and signature are the parameter `Jws`; `IsSigned` is what the
-- proofs need of one token. Error messages are constructors. The parsers of rules and of filters
-- recurse on fuel, four for each token and three more, which is enough: a production takes a token
-- before it comes back to itself. A client of the Graph surface (`follow`) has as many requests as
-- there are items and one more. A nil pointer that the code would read is the response `panicked` or the
-- error `nil_dereference`. Tokens are their claims before signing.
--
-- Not modelled: the text of JSON and of error bodies, HTML templates, key generation, the HTTP glue
-- of the admin API and the MCP tools, the other grants and the callbacks of the built-in issuer
-- (internal/grant, internal/token), and the user interfaces.
mod Prelude
pub mod Text
pub mod Assoc
pub mod Clock
pub mod Oauth2
pub mod Entra
pub mod Sorting
pub mod Json
pub mod Grant
