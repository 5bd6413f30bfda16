-- ===== src/Kv.antt =====
-- pkg/kv/storage.go: the interface of a key store, and what its clients rely on.
pub mod Defs
pub mod Contract
pub mod Aws
pub mod Encrypted
pub mod AwsSsm
pub mod AwsKms
pub mod Gcs
pub mod CloudKms
pub mod Kubernetes
pub mod Azure
pub use Defs.{Service, is_not_found, dummy_key, dummy_value}
