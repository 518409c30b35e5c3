-- ===== src/Oauth.antt =====
-- The package `oauth`: the local OAuth 2.1 authorization and resource server.
pub mod Store
pub mod MapStore
pub mod Encoding
pub mod World
pub mod Clients
pub mod AuthCode
pub mod Refresh
pub mod Pkce
pub mod Pairing
pub mod Principal
pub mod Token
pub mod Http
pub mod Server
pub mod Grant
pub mod Authorize
pub mod Register
pub mod Flow
pub mod Routes
pub mod Run
