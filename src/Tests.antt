-- ===== src/Tests.antt =====
-- Runs of the models at fixed inputs, and the theorems at concrete inputs.
mod SourceTests
mod CallTests
mod AccessTests
mod ContractTests
mod ManifestTests
mod ReferenceTests
mod DeriveTests
mod DefaultTests
pub mod RuntimeTests
pub mod RegistrationTests
pub mod AuthTests
