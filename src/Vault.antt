-- ===== src/Vault.antt =====
-- pkg/vault.
pub mod Keys
pub mod Client
pub mod World
pub mod Contract
pub mod Distinct
pub mod Unseal
pub mod Auth
pub mod Policy
pub mod Connection
