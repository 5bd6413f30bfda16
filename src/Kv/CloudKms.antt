-- ===== src/Kv/CloudKms.antt =====
-- pkg/kv/cloudkms: encryption by Google Cloud KMS over another key store.
pub mod Options
pub mod Defs
pub mod Contract
pub use Defs.{CloudKmsClient, GoogleKms}
unfoldable pub use Defs.{new, service}
