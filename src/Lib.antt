-- ===== src/Lib.antt =====
-- easy-host: a verification library for the Go service under backend-go. Users upload small sites,
-- which are served under /s/{slug}; an entry can be encrypted at rest under a passphrase.
--
-- The files and the code that they model:
--   Prelude and its children: Boolean tests, lists and byte strings (a Go string and a []byte are both
--     a list of numbers), results with the program's sentinel errors (`Error`), actions on a state that
--     may fail (`Action`), and triples about both exits of an action (`Triple`, `Keeps`).
--   Params: Params, its String and ParseParams of backend-go/internal/crypto/crypto.go.
--   Crypto: the rest of that file. `Primitives` stands for Argon2id, XChaCha20-Poly1305, HKDF and
--     base64; `IsSound` is what their documentation promises, `IsAuthentic` is ideal authenticity;
--     Crypto/Toy has concrete primitives that meet both. `Entropy` is the stream behind crypto/rand.
--   Unlock: backend-go/internal/crypto/unlock.go.
--   Model: backend-go/internal/model. World: the tables, the clock, the random bytes and the database
--     calls that fail, on which the services act.
--   Store and Store/Queries: backend-go/internal/store/store.go. The children of Store prove what each
--     method leaves alone and that the tables stay consistent.
--   Paths: the slug pattern and the text helpers of backend-go/internal/service/content.go.
--   Content and Content/Service: the ContentService of that file, a function for each method. The other
--     children of Content hold the proofs; `IsKept` of Content/Requests is the interface between what the
--     service keeps of the tables and the handlers above it; Content/Kept and Content/Apart have its
--     instances.
--   Serving: backend-go/internal/handler/serving.go, with a request's cookie, path and form fields as a
--     record; its children prove where visitors are sent, what they see without a key, which headers
--     protected pages carry, and what a cookie opens.
--   Store/Oauth: backend-go/internal/store/oauth.go. Oauth, Oauth/Registration and Oauth/Service:
--     backend-go/internal/service/mcpoauth.go; `OauthPlatform` stands for SHA-256, base64, rand.Int,
--     url.Parse and jwt, and Oauth/Toy has a concrete one. A method that returns an *OAuthError is a
--     `Grant`. The other children of Oauth prove what an exchange has checked, that codes and refresh
--     tokens are used once, which access tokens are accepted, and for whom tokens are minted.
--   Oauth/Endpoints: backend-go/internal/handler/mcpoauth.go, the HTTP side of that server.
--   Http: what handlers see of net/http and gorilla/sessions. A request holds what those libraries
--     decode of it (credentials, session values, query, form, file); an answer holds a status, headers,
--     the session that is saved, and a text, a redirect or a value for JSON or a template.
--   Auth: backend-go/internal/auth/auth.go. `Bcrypt` is a parameter; `IsFaithful` says that a hash is met
--     by its own password alone, which is ideal for texts that bcrypt cuts or repeats.
--   Middleware: backend-go/internal/middleware/middleware.go. Middleware/Limits compares the rate limiter
--     with one that keeps a bucket for every address for ever; `Buckets` stands for rate.Limiter.
--   Api, Mcp and Mcp/Calls, Web and Web/Pages, Oidc, Health: api.go, web.go, oidc.go and health.go of
--     backend-go/internal/handler, and backend-go/internal/mcp/server.go. A handler takes the user whom
--     its middleware puts into the context. Their children prove whose entries a call may touch, which
--     requests sign a user in, what a session carries from page to page, and the numbers of a dashboard.
--   Config: backend-go/internal/config/config.go, with the environment as a map.
--   Server and Server/Routes: backend-go/cmd/server/main.go, how the parts are put together and which
--     guard stands before which handler. Server/Events runs sequences of requests to all routes
--     (`Event`, `step`, `run`), and Server/Isolation and Server/Tokens say what they keep;
--     Server/Accounts follows the configured password to the handlers.
--   Examples: concrete inputs at which the theorems are applied, and tests.
--
-- How code becomes a definition: a method with a pointer receiver is a function on its state; a method
-- that returns an error is an `Action World`, which returns the state beside the value or the error;
-- what the source mutates through a pointer (the envelope of a Content, its times) is returned. A
-- database call fails where `World.fails` says so, and then does nothing; a transaction is one call.
-- Texts in SQL are compared by a collation, `Platform.collate`, so that two spellings can name one row.
--
-- Bounds and fuel: lengths and times are natural numbers; where the source writes a uint64 or compares
-- int64 seconds, the wrap-around is written out and theorems bound the value; the offset of a dashboard
-- page wraps at 2 ^ 64. `decimal_from` has one unit of fuel for each unit of the number, and a number has
-- no more digits; `trim_from` has one for each byte of the text, and each round removes a byte, as in
-- `fields_from`; Paths/Trimming and Oauth/Words are about that fuel.
--
-- Simultaneous requests are not modelled: events happen one after the other, each in one step.
--
-- Not modelled: how chi matches a path to a route, and how net/http decodes a request; the drawing of
-- templates and JSON; RequestLogger and other log messages; the connection to the database, its
-- migrations, static files and the search for directories; the metadata that NewOIDCHandler asks a
-- provider for; how a database stores and orders rows beyond the statements of the program; the semaphore
-- around key derivation, which changes when a derivation runs and not what it returns.
pub mod Prelude
pub mod Params
pub mod Crypto
pub mod Unlock
pub mod Model
pub mod World
pub mod Serving
pub mod Auth
pub mod Http
pub mod Middleware
pub mod Api
pub mod Mcp
pub mod Web
pub mod Oidc
pub mod Config
pub mod Server
pub mod Health
pub mod Store
pub mod Oauth
pub mod Paths
pub mod Content
pub mod Examples
