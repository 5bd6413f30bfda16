-- ===== src/Kv/Gcs.antt =====
-- pkg/kv/gcs: Google Cloud Storage as a key store.
pub mod Defs
pub mod Contract
pub mod Access
pub use Defs.{GcsClient, GcsStorage}
unfoldable pub use Defs.{new, service}
