-- ===== src/Mail.antt =====
-- shared/policy/outbound-email.ts: the domains that a mail goes to.
pub mod Domain
pub mod Mailboxes
pub mod Raw
pub mod Tests
