-- ===== src/Conformance.antt =====
-- examples/sample-engine-go/main.go against services/gateway/internal/validator/validator.go: the
-- sample engine and the reference book, which were written apart, fill alike.
pub mod Views
pub mod Trades
pub mod Submits
mod Tests
