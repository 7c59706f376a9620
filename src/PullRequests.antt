-- ===== src/PullRequests.antt =====
-- Pull requests as GitHub reports them: services/github_pull_requests.py.
pub mod Payload
pub mod Store
pub mod Numbers
pub mod Webhooks
pub mod Deliveries
pub mod Alone
pub mod Redelivery
pub mod Race
mod Witnesses
