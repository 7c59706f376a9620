-- ===== src/Tenancy.antt =====
-- Workspaces, their members, invitations, plans and audit log.
pub mod Rows
pub mod Memberships
pub mod Account
pub mod Invitations
pub mod Admins
pub mod Samples
mod Witnesses
pub mod Billing
