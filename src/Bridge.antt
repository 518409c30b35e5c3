-- ===== src/Bridge.antt =====
-- The package agentmcp: a program's commands as the tools of an MCP server.
pub mod Command
pub mod Schema
pub mod Runner
pub mod Blocks
pub mod Translate
pub mod Files
pub mod Dispatch
pub mod Http
pub mod Io
pub mod Tailscale
pub mod Banner
pub mod Options
pub mod AccessLog
pub mod OauthSetup
pub mod Startup
pub mod Serving
pub mod Usage
pub mod Pair
pub mod GroupHelp
pub mod Mux
