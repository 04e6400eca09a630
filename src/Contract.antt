-- ===== src/Contract.antt =====
-- The package `contract`: what a plugin declares about its operations and events.
pub mod Field
pub mod Tags
pub mod GoTypes
pub mod Derive
pub mod Vars
pub mod Defaults
pub mod Schema
pub mod Events
