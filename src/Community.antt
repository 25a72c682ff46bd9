-- ===== src/Community.antt =====
-- apps/community: the self-hosted room server.
pub mod Usage
pub mod Providers
pub mod MailAuth
pub mod Push
pub mod Sidebar
pub mod Mailbox
