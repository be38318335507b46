-- ===== src/Engine.antt =====
-- examples/sample-engine-go/main.go
pub mod Types
pub mod Book
pub mod Match
pub mod Submit
pub mod Levels
pub mod Takes
pub mod Refines
pub mod Order
pub mod Shrinks
pub mod Invariant
pub mod Uncrossed
pub mod Rests
pub mod Fok
pub mod Server
pub mod Serial
mod Tests
