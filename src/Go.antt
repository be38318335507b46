-- ===== src/Go.antt =====
-- The functions of Go's standard library whose algorithm the modelled code depends on.
pub mod Search
pub mod Sort
pub mod Channel
