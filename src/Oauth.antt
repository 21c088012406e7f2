-- ===== src/Oauth.antt =====
-- internal/oauth: the proxy's own OAuth server, which keeps its state in sealed tokens. The OIDC
-- library that calls it, the cipher and the encodings are parameters.
pub mod Seal
pub mod Clients
pub mod Tokens
pub mod Identity
pub mod Server
pub mod Handoff
pub mod Registry
pub mod Keys
mod Tests
