-- ===== src/Oracle.antt =====
-- services/gateway/internal/validator/validator.go
pub mod Types
pub mod Book
pub mod Scenario
pub mod Validate
pub mod Identity
pub mod Refines
pub mod Order
pub mod WellFormed
pub mod Invariant
pub mod Fills
mod Tests
