-- ===== src/PullRequests/Numbers.antt =====
-- The tables of pull requests and their revisions: no two rows with one key, one pull request for each
-- that GitHub reports, and the revisions of a pull request numbered 1, 2, … up to its count, each
-- number once. The writes of a pull request and a revision keep this.
pub mod Rows
mod Inserts
pub mod Kept
