-- ===== src/Lib.antt =====
-- A model of token-auth-proxy, a reverse proxy that authenticates requests by JWT, SAML session or
-- HTTP Basic credentials before it forwards them, and of the theorems that make its decisions
-- correct.
--
-- A request passes through internal/authn: the credentials are taken from it and verified, the
-- identity found is held against the access rules, and where label enforcement is configured a
-- verdict is made on which Prometheus labels the request is confined to, which internal/promlabel
-- applies to it. internal/config loads the file that configures all of this.
--
--   Text         Go strings as lists of bytes, and the functions of the packages strings and path
--                that the code calls. Case mapping and white space are those of ASCII.
--   Config       internal/config/auth.go: the sources of credentials. Defaults is applyDefaults, Validate the
--                checks on each source, Validate/Auth those across them; Oauth is oauth.go, Pem is ca.go
--                and saml_keys.go, Urls is parseAbsoluteHTTPURL of config.go.
--   Acl          internal/config/acl.go (Validate) and internal/authn/acl.go: principals, rules,
--                authorize. Acl/Grants and Acl/Segments state the rules without the code's loops.
--   Basic        internal/authn/basic.go: the registry, Verify and its caches. Trace has the steps of
--                concurrent requests in any order.
--   Cookies      takeCookies and TakeRefreshCookies of internal/authn/login_refresh.go.
--   Jwt          internal/authn/credentials.go and verify.go, and enforceJWT of middleware.go.
--   Keys         internal/authn/discovery.go and jwks.go: Keys is one source's resolver, Registry the
--                registry of them, with the steps of concurrent requests and reloads in Trace.
--   Login        the rest of internal/authn/login_refresh.go, and login_picker.go.
--                Callback is Start, Callback, verifyIDToken and sanitizeReturnTo of login.go,
--                Endpoints is endpoints and fetchEndpoints there, Logout is logout.go, and Redeem is
--                redeem of login_refresh.go, as steps in any order, with doRefresh in Exchange.
--   Middleware   authenticate of internal/authn/middleware.go; Routes is the handler of NewMiddleware,
--                Picker is serveLoginRoute of login_picker.go.
--   Oauth        internal/oauth: Seal is seal.go; Clients is the clients of types.go and register.go with
--                the redirect URIs of internal/config/oauth.go; Tokens is storage.go; Identity is
--                identity.go with internal/authn/oauth.go; Server is the routes of server.go and
--                serveRegister, Handoff its ServeLogin, Registry its Reconcile; Keys is keys.go.
--   PromLabel    internal/promlabel: Scope is scope.go, Silences is silences.go, Filter is filter.go;
--                Handler is rewrite of handler.go with postSilence and deleteSilence of silences.go, on
--                parsed parameters; Serve/Dispatch is ServeHTTP around them, from one request to the
--                one that is passed on, Serve/Response is ModifyResponse with the filters;
--                Resolve is internal/authn/promlabel.go with PromLabel.Values of
--                internal/config/promlabel.go, and Validate the checks of the latter.
--   Settings     internal/config/config.go: the whole configuration, applyDefaults and Validate.
--   Reload       internal/config/watcher.go: Reload is reload, Loop is NewWatcher and Start.
--   Source       internal/config/source.go: loadLayered and Resolve; Tables has the tables of fields.
--   Saml         internal/authn: Saml is saml_metadata.go, Registry is the registry of saml.go with
--                serveACSRetrying of saml_middleware.go, Audience the audience check of saml.go,
--                Session is saml_session.go.
--   Interpolate  internal/config/interpolate.go: interpolateString and resolveRef; Value is
--                interpolateValue.
--
-- A Go map is an association list, or a function in Login/Redeem and Oauth/Keys; an error is a constructor named for its message, and `none` a nil
-- error. A float64 claim is its bits, and strconv.FormatFloat a parameter; so are regular expressions
-- and the decoding and encoding of JSON. A JSON object among the claims carries no fields, since the code
-- reads none. The environment and the files of the machine are the record World. The loop of
-- interpolateString runs on fuel, one more than the text has bytes, which is enough since every round
-- takes at least one byte.
--
-- The registry of Basic credentials is state that is passed on; a time is a number of nanoseconds and is
-- given to each call. During one request the other registries (signing keys, which Keys models on their own, SAML provider, refresh at
-- the identity provider) and the libraries are the record Services, whose fields are what they answer.
-- Sealing takes its cipher, its encodings and its nonce as parameters; what theorems ask of the cipher is
-- the record Authentic of Oauth/Seal/Opened. What they ask of encoding/json is the record Faithful of
-- PromLabel/Serve/Response/Through, and of the library that merges the layers of the configuration
-- Lawful of Source/Overrides. The calls of a login route to others are the record PickerCalls. A response is a constructor of Response with the cookies that are set beside it.
--
-- Not modelled: sockets and HTTP itself, telemetry, the libraries for JWT, SAML, OIDC and PromQL,
-- log lines and the texts of error messages.
pub mod Common
pub mod Text
pub mod Config
pub mod Acl
pub mod Basic
pub mod Cookies
pub mod Jwt
pub mod Login
pub mod Middleware
pub mod Oauth
pub mod PromLabel
pub mod Settings
pub mod Keys
pub mod Reload
pub mod Source
pub mod Saml
pub mod Interpolate
