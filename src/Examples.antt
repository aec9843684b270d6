-- ===== src/Examples.antt =====
-- Concrete inputs: the theorems of the development applied where their hypotheses hold, and tests.
mod Crypto
mod Content
mod Serving
mod Oauth
mod Registration
mod Updates
mod Requests
mod Limits
mod Servers
mod Tokens
mod Pages
mod Browsing
mod Authorize
