-- ===== src/Ranking.antt =====
-- services/api/app/ranking.py: the tiers, the ratings and the personal ranking.
pub mod Tier
mod Tests
mod HandlerTests
pub mod Rating
pub mod Table
pub mod Place
pub mod Normalize
pub mod Compare
pub mod Snapshot
pub mod Projections
pub mod Handlers
