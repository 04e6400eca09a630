-- ===== src/Gen.antt =====
-- internal/gen: the declaration of a plugin that sokel-gen reads from a manifest.
pub mod Patterns
pub mod Strings
pub mod Names
pub mod Field
pub mod Declaration
pub mod Problem
pub mod Report
pub mod Icons
pub mod Normalize
pub mod Check
pub mod Fresh
pub mod Transports
pub mod Operations
pub mod EventDecls
pub mod Direct
pub mod Translations
pub mod Validate
pub mod References
