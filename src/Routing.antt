-- ===== src/Routing.antt =====
-- The routing engine: backend/app/routing/.
pub mod Tests
pub mod Models
pub mod Scorer
pub mod Stats
pub mod Metadata
pub mod Candidates
pub mod Router
