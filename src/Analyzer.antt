-- ===== src/Analyzer.antt =====
-- services/ai-analyzer
pub mod Llm
pub mod Retries
pub mod Agents
pub mod Risk
pub mod Providers
pub mod Handlers
pub mod Breakdown
pub mod Requests
mod Tests
