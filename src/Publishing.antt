-- ===== src/Publishing.antt =====
-- Publishing a review to GitHub: services/github_publish.py.
pub mod Threads
pub mod Jobs
pub mod Stale
pub mod Choice
pub mod Surface
pub mod Flush
pub mod Run
pub mod Single
pub mod Flight
pub mod Inline
mod Witnesses
