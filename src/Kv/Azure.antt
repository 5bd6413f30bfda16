-- ===== src/Kv/Azure.antt =====
-- pkg/kv/azure: Azure Key Vault as a key store.
pub mod Options
pub mod Oauth
pub mod ConfigFile
pub mod Base
pub mod Credentials
pub mod Versions
pub mod Defs
pub use Defs.{KeyVaultClient, KeyVaultSdk, AzureStore}
unfoldable pub use Defs.{new_kv_service, service}
pub mod Latest
pub mod Outage
pub mod Reads
pub mod Vault
pub mod Contract
