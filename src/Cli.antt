-- ===== src/Cli.antt =====
-- servers/governed-cli: which command lines the gateway runs for a user.
pub mod Pack
pub mod Reader
pub mod Operations
pub mod PackFile
pub mod Kubectl
pub mod Jobs
pub mod Request
pub mod Tests
