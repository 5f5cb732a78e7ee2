-- ===== src/Domain.antt =====
-- services/api/app/domain.py: the lookups that the handlers share.
pub mod Course
pub mod Courses
pub mod Audience
pub mod User
pub mod People
mod Tests
