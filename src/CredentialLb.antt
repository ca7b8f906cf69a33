-- ===== src/CredentialLb.antt =====
-- pkg/credentiallb: weighted, sticky choice of a credential for each conversation, with cooldowns.
pub mod Selector
pub mod State
pub mod Cooldown
pub mod Select
pub mod Exclude
pub mod Engine
pub mod Examples
