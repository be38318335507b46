-- ===== src/Gateway.antt =====
-- services/gateway/internal: the store's tables and the handlers that change them.
pub mod Store
pub mod Submissions
pub mod Deploys
pub mod Runs
pub mod Baselines
pub mod Results
pub mod Regressions
pub mod Promotions
pub mod ReleaseGate
pub mod Leaderboards
pub mod Streams
pub mod Summaries
pub mod Middleware
pub mod Answered
pub mod Reuploads
pub mod Queries
pub mod Rankings
pub mod Judge
pub mod Routes
pub mod Dispatch
pub mod Cache
pub mod Bests
pub mod Champions
pub mod Connects
pub mod Dials
mod Tests
mod ServerTests
mod JudgeTests
