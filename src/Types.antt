-- ===== src/Types.antt =====
-- types/*.go: the records that the stores hold, their status bits, and the errors by name.
pub mod Status
pub mod Errors
pub mod Records
pub use Errors.*
pub use Records.*
