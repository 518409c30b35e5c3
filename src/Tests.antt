-- ===== src/Tests.antt =====
-- Tests, and the theorems applied at concrete inputs.
mod Codec
mod Fixture
mod Scene
mod Tokens
mod Access
mod Keys
mod Bridge
mod Transport
mod Typed
mod Logged
mod Start
mod Flow
mod Issued
mod Runs
mod Serving
mod Replays
mod Widgets
