-- ===== src/Sandbox.antt =====
-- services/gateway/internal/sandbox
pub mod Paths
pub mod Inside
pub mod Extract
pub mod Limits
pub mod Archives
pub mod Save
pub mod Saves
pub mod Run
pub mod Waits
mod Tests
