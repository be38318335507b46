-- ===== src/Telemetry.antt =====
-- services/telemetry/cmd/main.go
pub mod Rows
pub mod Flusher
pub mod Batches
pub mod Intake
pub mod Live
pub mod Scores
pub mod Finals
mod Tests
