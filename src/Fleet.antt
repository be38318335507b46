-- ===== src/Fleet.antt =====
-- services/botfleet
pub mod Rng
pub mod Bot
pub mod Schedule
pub mod Latency
pub mod Replay
pub mod Control
pub mod Steps
pub mod Supervisors
pub mod Launches
mod Tests
