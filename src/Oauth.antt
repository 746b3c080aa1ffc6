-- ===== src/Oauth.antt =====
-- shared/oauth: the lifecycle of a user's connection to a provider.
pub mod Types
pub mod Guard
pub mod States
pub mod Store
pub mod Scopes
pub mod Status
pub mod Retry
pub mod Lifecycle
pub mod Tests
