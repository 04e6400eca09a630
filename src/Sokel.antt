-- ===== src/Sokel.antt =====
-- The package `sokel`: the runtime of a plugin.
pub mod Errors
pub mod OpIds
pub mod Frames
pub mod Board
pub mod Triggers
pub mod Webhook
pub mod Plugin
pub mod Dispatch
pub mod Access
pub mod Watchdog
pub mod Sources
pub mod Files
pub mod Identity
pub mod AuthFlows
pub mod Registration
pub mod Workers
pub mod Declared
